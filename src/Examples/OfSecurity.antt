-- ===== src/Examples/OfSecurity.antt =====
-- A host that does not trust its pull requests, and what it grants to them.
use autopw.Prelude.{
  distinct_from, lookup, String, true, false, none, some, List, [], ◌∷◌, str_eq, truthy?, All, ok,
  err, ◌≡◌, ◌≢◌, refl,
}
use autopw.Json.{obj, done}
use autopw.Control.Authorize.{
  Surroundings, ToolRequest, Authorization, authorize, IsAuthorized, authorize-IsAuthorized,
}
use autopw.Security.{
  TrustMode, LifecycleMode, DestructivePolicy, ConfigSourceKind, AuthMode, HostContextLike,
  ProfileSafetyInput, Platform, TrustResolution, SafetyRequest, check_request, policy_of, resolve,
  resolution_of, authorize_request, profile_of, map_result, untrusted_source, or_else,
  untrusted_manage_denied, production_mutation_denied,
}
use autopw.Security.Trust.{
  IsRestrained, IsAllowed, resolve-IsRestrained, resolve-IsAllowed, authorize_request-grant,
}

-- Origins are normalised already, and paths stay below the workspace.
abbrev pub platform : Platform
platform = record {
  normalize = λ origin. ok origin;
  origin_within = λ origin host_origin. str_eq origin host_origin;
  resolve_path = λ workspace path. ok workspace;
}

abbrev pub host : HostContextLike
host = record {
  trust_mode = TrustMode.untrusted_pr;
  workspace_id = "ws";
  workspace_realpath = "/srv/ws";
  auth_scope = record { auth_scope_id = "scope"; mode = AuthMode.no_auth; one_shot = none };
  config_source = none;
  policy_version = some "1";
  production = some true;
  destructive_actions = none;
  allowed_origins = some ("http://a" ∷ "http://b" ∷ []);
}

abbrev profile : ProfileSafetyInput
profile = record {
  lifecycle = some LifecycleMode.manage;
  production = some false;
  destructive_actions = some DestructivePolicy.read_only;
  config_source = some ConfigSourceKind.fixed;
  auth_scope_id = some "scope";
  allowed_origins = some ("http://b" ∷ "http://c" ∷ "http://b" ∷ []);
  allowed_file_roots = none;
}

abbrev granted : TrustResolution
granted = resolution_of host (record {
  trust_mode = TrustMode.untrusted_pr;
  lifecycle = LifecycleMode.connect;
  production = true;
  destructive_actions = DestructivePolicy.deny;
  auth_scope_id = "scope";
  config_source = ConfigSourceKind.base;
  allowed_origins = "http://b" ∷ [];
  allowed_file_roots = "/srv/ws" ∷ [];
})

is_granted : resolve platform host profile ≡ ok granted
unfolding resolve check_request policy_of map_result distinct_from untrusted_source
is_granted = refl

mutation_is_denied :
    resolve platform host (record profile { destructive_actions = some DestructivePolicy.allow })
    ≡ err production_mutation_denied
unfolding resolve check_request
mutation_is_denied = refl

resolve-IsRestrained_example : IsRestrained platform host granted.policy
resolve-IsRestrained_example = resolve-IsRestrained platform host profile granted is_granted

resolve-IsAllowed_example :
    (hosts : List String) × (map_result platform.normalize (or_else host.allowed_origins [])
      ≡ ok hosts)
    × All (IsAllowed platform hosts) granted.policy.allowed_origins
resolve-IsAllowed_example = resolve-IsAllowed platform host profile granted is_granted

abbrev request : SafetyRequest
request = record {
  lifecycle = some LifecycleMode.connect;
  auth_scope_id = some "scope";
  names_directory = false;
}

abbrev authorised : TrustResolution
authorised =
    resolution_of host
      (policy_of host (profile_of request) ("http://a" ∷ "http://b" ∷ []) ("/srv/ws" ∷ []))

is_authorised : authorize_request platform host request ≡ ok authorised
unfolding authorize_request resolve check_request policy_of map_result distinct_from
is_authorised = refl

manage_is_denied :
    authorize_request platform host (record request { lifecycle = some LifecycleMode.manage })
    ≡ err untrusted_manage_denied
unfolding authorize_request resolve check_request policy_of map_result distinct_from
manage_is_denied = refl

authorize_request-grant_example :
    (resolve platform host (profile_of request) ≡ ok authorised)
    × IsRestrained platform host authorised.policy
    × (request.names_directory ≡ false)
    × ((s : String) → truthy? request.auth_scope_id ≡ some s → s ≡ "scope")
    × (host.trust_mode ≡ TrustMode.untrusted_pr → request.lifecycle ≢ some LifecycleMode.manage)
authorize_request-grant_example =
    authorize_request-grant platform host request authorised is_authorised

abbrev pub surroundings : Surroundings
surroundings = record {
  tools = ("run_audit", record { name = "run_audit"; creates_operation = true }) ∷ [];
  host_contexts = ("ws", host) ∷ [];
  is_valid = λ tool body. true;
  has_secret = λ body. false;
  platform = platform;
  path_exists = λ path. true;
  is_directory = λ path. true;
}

abbrev pub call : ToolRequest
call = record {
  workspace_id = "ws";
  safety = request;
  project_subpath = none;
  matrix_scopes = "scope" ∷ [];
  body = obj done;
}

abbrev authorization : Authorization
authorization = record {
  host_context = host;
  tool = record { name = "run_audit"; creates_operation = true };
  resolution = authorised;
}

call_is_authorized : authorize surroundings "run_audit" call ≡ ok authorization
unfolding authorize authorize_request resolve check_request policy_of map_result distinct_from
    lookup
call_is_authorized = refl

other_scope_is_refused :
    authorize surroundings "run_audit" (record call { matrix_scopes = "scope" ∷ "root" ∷ [] })
    ≡ err "AUTH_SCOPE_NOT_APPROVED"
unfolding authorize authorize_request resolve check_request policy_of map_result distinct_from
    lookup
other_scope_is_refused = refl

authorize-IsAuthorized_example : IsAuthorized surroundings "run_audit" call authorization
authorize-IsAuthorized_example =
    authorize-IsAuthorized surroundings "run_audit" call authorization call_is_authorized
