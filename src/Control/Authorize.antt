-- ===== src/Control/Authorize.antt =====
-- packages/control-plane/src/index.ts: `authorize`. The validators that are compiled from the
-- contracts, the search for secrets and the file system are arguments, as `Surroundings`.
use autopw.Prelude.{
  String, Bool, true, false, not, Option, none, some, List, [], ◌∷◌, str_eq, str_eq_iff, truthy?,
  any, Dict, lookup, All, Result, ok, err, ◌>>=◌, ◌>>◌, throw_if, >>=-eq-ok, >>-eq-ok, ◌≡◌, subst,
  arith,
}
use autopw.Json.{Json}
use autopw.Security.{
  HostContextLike, SecurityError, Platform, TrustResolution, SafetyRequest, authorize_request,
  is_other_scope, or_else, invalid_trust_mode, untrusted_head_config, untrusted_auth_scope,
  auth_scope_not_approved, production_mutation_denied, untrusted_manage_denied,
  unsafe_path_parameter, invalid_origin, workspace_escape,
}
use autopw.Security.Trust.{IsRestrained, authorize_request-grant}

pub record ToolContract : Type 0 where
  pub name : String
  pub creates_operation : Bool

pub record ToolRequest : Type 0 where
  pub workspace_id : String
  pub safety : SafetyRequest
  pub project_subpath : Option String
  -- `matrix.auth_scope_ids` where it is a list, and otherwise empty.
  pub matrix_scopes : List String
  pub body : Json

pub record Surroundings : Type 0 where
  pub tools : Dict ToolContract
  pub host_contexts : Dict HostContextLike
  pub is_valid : String → Json → Bool
  pub has_secret : Json → Bool
  pub platform : Platform
  pub path_exists : String → Bool
  pub is_directory : String → Bool

-- The `code` of a security error.
abbrev pub code_of : SecurityError → String
code_of invalid_trust_mode = "INVALID_TRUST_MODE"
code_of untrusted_head_config = "UNTRUSTED_HEAD_CONFIG"
code_of untrusted_auth_scope = "UNTRUSTED_AUTH_SCOPE"
code_of auth_scope_not_approved = "AUTH_SCOPE_NOT_APPROVED"
code_of production_mutation_denied = "PRODUCTION_MUTATION_DENIED"
code_of untrusted_manage_denied = "UNTRUSTED_MANAGE_DENIED"
code_of unsafe_path_parameter = "UNSAFE_PATH_PARAMETER"
code_of invalid_origin = "INVALID_ORIGIN"
code_of workspace_escape = "WORKSPACE_ESCAPE"

-- The code with which a call is refused; the messages are left out.
abbrev pub coded : {A : Type 0} → Result SecurityError A → Result String A
coded (ok a) = ok a
coded (err e) = err (code_of e)

abbrev pub found : {A : Type 0} → Option A → String → Result String A
found none code = err code
found (some a) code = ok a

pub record Authorization : Type 0 where
  pub host_context : HostContextLike
  pub tool : ToolContract
  pub resolution : TrustResolution

-- `authorize`
unfoldable pub authorize : Surroundings → String → ToolRequest → Result String Authorization
authorize s tool_name q = do
  tool ← found (lookup tool_name s.tools) "TOOL_NOT_FOUND"
  throw_if (not (s.is_valid tool_name q.body)) "INVALID_INPUT"
  throw_if (s.has_secret q.body) "SECRET_IN_INPUT"
  host ← found (lookup q.workspace_id s.host_contexts) "UNAUTHORIZED_WORKSPACE"
  resolution ← coded (authorize_request s.platform host q.safety)
  project_path ←
      coded
        (s.platform.resolve_path host.workspace_realpath (or_else (truthy? q.project_subpath) "."))
  throw_if (not (s.path_exists project_path)) "PROJECT_SUBPATH_NOT_FOUND"
  throw_if (not (s.is_directory project_path)) "PROJECT_SUBPATH_NOT_DIRECTORY"
  throw_if (is_other_scope q.safety.auth_scope_id host.auth_scope.auth_scope_id)
      "AUTH_SCOPE_NOT_APPROVED"
  throw_if (any (λ scope. not (str_eq scope host.auth_scope.auth_scope_id)) q.matrix_scopes)
      "AUTH_SCOPE_NOT_APPROVED"
  ok (record { host_context = host; tool = tool; resolution = resolution })

-- What holds of a call that is let through.
pub record IsAuthorized (s : Surroundings) (tool_name : String) (q : ToolRequest)
    (g : Authorization) : Type 0 where
  pub known_tool : lookup tool_name s.tools ≡ some g.tool
  pub valid : s.is_valid tool_name q.body ≡ true
  pub no_secret : s.has_secret q.body ≡ false
  pub own_host : lookup q.workspace_id s.host_contexts ≡ some g.host_context
  pub restrained : IsRestrained s.platform g.host_context g.resolution.policy
  pub own_scopes : All (λ scope. scope ≡ g.host_context.auth_scope.auth_scope_id) q.matrix_scopes

no_other :
    (id : String) (scopes : List String)
    → any (λ scope. not (str_eq scope id)) scopes ≡ false
    → All (λ scope. scope ≡ id) scopes
no_other id [] h = tt
no_other id (x ∷ xs) h = (ground (arith, h, str_eq_iff x id), no_other id xs (ground (arith, h)))

found-eq-ok : {A : Type 0} (o : Option A) (code : String) (a : A) → found o code ≡ ok a → o ≡ some a
found-eq-ok none code a h = ground (arith, h)
found-eq-ok (some b) code a h = ground (arith, h)

coded-eq-ok : {A : Type 0} (r : Result SecurityError A) (a : A) → coded r ≡ ok a → r ≡ ok a
coded-eq-ok (ok b) a h = ground (arith, h)
coded-eq-ok (err e) a h = ground (arith, h)

-- A call is let through only to a known tool, with valid input that holds no secret, for a workspace
-- that the host has registered, under a restrained policy, and with no scope but the host's in its
-- matrix.
pub authorize-IsAuthorized :
    (s : Surroundings) (tool_name : String) (q : ToolRequest) (g : Authorization)
    → authorize s tool_name q ≡ ok g
    → IsAuthorized s tool_name q g
unfolding authorize
authorize-IsAuthorized s tool_name q g h =
    let (tool, e1, h1) = >>=-eq-ok (found (lookup tool_name s.tools) _) _ h in
    let (e2, h2) = >>-eq-ok (throw_if (not (s.is_valid tool_name q.body)) _) _ h1 in
    let (e3, h3) = >>-eq-ok (throw_if (s.has_secret q.body) _) _ h2 in
    let (host, e4, h4) = >>=-eq-ok (found (lookup q.workspace_id s.host_contexts) _) _ h3 in
    let (t, e5, h5) = >>=-eq-ok (coded (authorize_request s.platform host q.safety)) _ h4 in
    let (p, e6, h6) = >>=-eq-ok (coded (s.platform.resolve_path host.workspace_realpath _)) _ h5 in
    let (e7, h7) = >>-eq-ok (throw_if (not (s.path_exists p)) _) _ h6 in
    let (e8, h8) = >>-eq-ok (throw_if (not (s.is_directory p)) _) _ h7 in
    let (e9, h9) =
      >>-eq-ok (throw_if (is_other_scope q.safety.auth_scope_id host.auth_scope.auth_scope_id) _) _
        h8 in
    let (e10, made) = >>-eq-ok (throw_if (any _ q.matrix_scopes) _) _ h9 in
    let given : Authorization = record { host_context = host; tool = tool; resolution = t } in
    let same : given ≡ g = ground (arith, made) in
    subst (IsAuthorized s tool_name q) same (record {
      known_tool = found-eq-ok (lookup tool_name s.tools) _ tool e1;
      valid = ground (arith, e2);
      no_secret = ground (arith, e3);
      own_host = found-eq-ok (lookup q.workspace_id s.host_contexts) _ host e4;
      restrained =
          (authorize_request-grant s.platform host q.safety t
            (coded-eq-ok (authorize_request s.platform host q.safety) t e5)).1;
      own_scopes = no_other host.auth_scope.auth_scope_id q.matrix_scopes (ground (arith, e10));
    })
