-- ===== src/Security.antt =====
-- packages/security/src/index.ts: what a host allows to a request. Normalising and comparing origins
-- rests on the URL library and resolving paths on the file system: they are arguments, as `Platform`.
pub mod Trust
pub mod Network
use autopw.Prelude.{
  distinct_from, String, Bool, true, false, not, ◌&&◌, ◌||◌, Option, none, some, List, [], ◌∷◌,
  str_eq, truthy, truthy?, is_some, if◌then◌else◌, any, keep, includes, Result, ok, err, ◌>>=◌,
  ◌>>◌, throw_if, map,
}

-- A text that is neither of the two is `other_trust`.
pub data TrustMode : Type 0 where
  trusted untrusted_pr other_trust : TrustMode

pub data LifecycleMode : Type 0 where
  connect manage : LifecycleMode

pub data DestructivePolicy : Type 0 where
  deny read_only allow : DestructivePolicy

pub data ConfigSourceKind : Type 0 where
  base fixed head approved_overlay : ConfigSourceKind

pub data AuthMode : Type 0 where
  no_auth credentials storage_state : AuthMode

pub record AuthScope : Type 0 where
  pub auth_scope_id : String
  pub mode : AuthMode
  pub one_shot : Option Bool

pub record ConfigSource : Type 0 where
  pub fixed_path : Option String
  pub approved_overlay : Option String
  pub pr_head_allowed : Option Bool

pub record HostContextLike : Type 0 where
  pub trust_mode : TrustMode
  pub workspace_id : String
  pub workspace_realpath : String
  pub auth_scope : AuthScope
  pub config_source : Option ConfigSource
  pub policy_version : Option String
  pub production : Option Bool
  pub destructive_actions : Option DestructivePolicy
  pub allowed_origins : Option (List String)

pub record ProfileSafetyInput : Type 0 where
  pub lifecycle : Option LifecycleMode
  pub production : Option Bool
  pub destructive_actions : Option DestructivePolicy
  pub config_source : Option ConfigSourceKind
  pub auth_scope_id : Option String
  pub allowed_origins : Option (List String)
  pub allowed_file_roots : Option (List String)

pub record EffectiveSecurityPolicy : Type 0 where
  pub trust_mode : TrustMode
  pub lifecycle : LifecycleMode
  pub production : Bool
  pub destructive_actions : DestructivePolicy
  pub auth_scope_id : String
  pub config_source : ConfigSourceKind
  pub allowed_origins : List String
  pub allowed_file_roots : List String

-- The codes of `securityError`.
pub data SecurityError : Type 0 where
  invalid_trust_mode untrusted_head_config untrusted_auth_scope auth_scope_not_approved
        production_mutation_denied untrusted_manage_denied unsafe_path_parameter :
      SecurityError
  invalid_origin workspace_escape : SecurityError

-- `normalizeAllowedOrigin`, `originWithin` and `resolveAuthorizedPath`.
pub record Platform : Type 0 where
  pub normalize : String → Result SecurityError String
  pub origin_within : String → String → Bool
  pub resolve_path : String → String → Result SecurityError String

abbrev pub is_untrusted : TrustMode → Bool
is_untrusted untrusted_pr = true
is_untrusted _ = false

abbrev pub is_supported : TrustMode → Bool
is_supported other_trust = false
is_supported _ = true

abbrev pub is_true : Option Bool → Bool
is_true (some true) = true
is_true _ = false

abbrev pub pr_head_is_allowed : Option ConfigSource → Bool
pr_head_is_allowed (some c) = is_true c.pr_head_allowed
pr_head_is_allowed none = false

-- The modes of authentication that an untrusted request may not use.
abbrev pub is_unsafe_scope : AuthScope → Bool
is_unsafe_scope s = go s.mode
  where
    go : AuthMode → Bool
    go storage_state = true
    go credentials = not (is_true s.one_shot)
    go no_auth = false

-- `profile.auth_scope_id && profile.auth_scope_id !== id`
abbrev pub is_other_scope : Option String → String → Bool
is_other_scope asked id = elim (truthy? asked) [ none ↦ false | some s ↦ not (str_eq s id) ]

abbrev pub or_else {ℓ} : {A : Type ℓ} → Option A → A → A
or_else none d = d
or_else (some a) d = a

abbrev pub is_allow : DestructivePolicy → Bool
is_allow allow = true
is_allow _ = false

abbrev pub is_head : Option ConfigSourceKind → Bool
is_head (some head) = true
is_head _ = false

abbrev pub requested_destructive : HostContextLike → ProfileSafetyInput → DestructivePolicy
requested_destructive host profile = elim profile.destructive_actions [
  | some d ↦ d
  | none ↦ or_else host.destructive_actions deny
]

-- Whether the host names an overlay, or a fixed path, that is not empty.
abbrev pub has_overlay : Option ConfigSource → Bool
has_overlay none = false
has_overlay (some c) = is_some (truthy? c.approved_overlay)

abbrev pub has_fixed_path : Option ConfigSource → Bool
has_fixed_path none = false
has_fixed_path (some c) = is_some (truthy? c.fixed_path)

-- `source` of an untrusted request, and of a trusted one.
unfoldable pub untrusted_source : Option ConfigSource → Option ConfigSourceKind → ConfigSourceKind
untrusted_source host (some head) = base
untrusted_source host (some approved_overlay) = if has_overlay host then approved_overlay else base
untrusted_source host (some fixed) = if has_fixed_path host then fixed else base
untrusted_source host (some base) = base
untrusted_source host none = base

unfoldable pub trusted_source : Option ConfigSourceKind → ConfigSourceKind
trusted_source (some head) = base
trusted_source (some k) = k
trusted_source none = fixed

-- `map` with a function that may throw.
unfoldable pub map_result : {E A B : Type 0} → (A → Result E B) → List A → Result E (List B)
map_result f [] = ok []
map_result f (x ∷ xs) = do y ← f x; ys ← map_result f xs; ok (y ∷ ys)

-- The allowed origins of a policy: those of the profile that lie within one of the host's.
abbrev pub origins_within : Platform → List String → List String → List String
origins_within p [] profile = []
origins_within p (h ∷ hs) profile = keep (λ origin. any (p.origin_within origin) (h ∷ hs)) profile

pub record TrustResolution : Type 0 where
  pub policy : EffectiveSecurityPolicy
  -- What the operation keeps: the policy with its roots masked, and the host's policy version.
  pub snapshot : EffectiveSecurityPolicy
  pub policy_version : String

-- The checks of `resolve` before it looks at origins and paths.
unfoldable pub check_request :
    HostContextLike → ProfileSafetyInput → Result SecurityError (Unit {0})
check_request host profile = do
  throw_if (not (is_supported host.trust_mode)) invalid_trust_mode
  throw_if (is_untrusted host.trust_mode && pr_head_is_allowed host.config_source)
      untrusted_head_config
  throw_if (is_untrusted host.trust_mode && is_unsafe_scope host.auth_scope) untrusted_auth_scope
  throw_if (is_other_scope profile.auth_scope_id host.auth_scope.auth_scope_id)
      auth_scope_not_approved
  throw_if
      ((is_true host.production || is_true profile.production)
        && is_allow (requested_destructive host profile))
      production_mutation_denied
  throw_if (is_untrusted host.trust_mode && is_head profile.config_source) untrusted_head_config

-- The policy that passes the checks, for the origins and roots that were resolved.
unfoldable pub policy_of :
    HostContextLike → ProfileSafetyInput → List String → List String → EffectiveSecurityPolicy
unfolding distinct_from untrusted_source trusted_source
policy_of host profile origins roots =
    let production = is_true host.production || is_true profile.production in
    record {
      trust_mode = host.trust_mode;
      lifecycle =
          if is_untrusted host.trust_mode then connect else or_else profile.lifecycle connect;
      production = production;
      destructive_actions = if production then deny else requested_destructive host profile;
      auth_scope_id = host.auth_scope.auth_scope_id;
      config_source =
          if is_untrusted host.trust_mode
          then untrusted_source host.config_source profile.config_source
          else trusted_source profile.config_source;
      allowed_origins = distinct_from [] origins;
      allowed_file_roots = roots;
    }

abbrev pub resolution_of : HostContextLike → EffectiveSecurityPolicy → TrustResolution
resolution_of host policy = record {
  policy = policy;
  snapshot = record policy {
    allowed_file_roots = map (λ r. "<authorized>") policy.allowed_file_roots;
  };
  policy_version = or_else (truthy? host.policy_version) "unknown";
}

-- `TrustResolver.resolve`
unfoldable pub resolve :
    Platform → HostContextLike → ProfileSafetyInput → Result SecurityError TrustResolution
unfolding check_request map_result policy_of
resolve p host profile = do
  check_request host profile
  host_origins ← map_result p.normalize (or_else host.allowed_origins [])
  profile_origins ← map_result p.normalize (or_else profile.allowed_origins host_origins)
  roots ←
      map_result (p.resolve_path host.workspace_realpath)
        (or_else profile.allowed_file_roots ("." ∷ []))
  ok (
      resolution_of host
        (policy_of host profile (origins_within p host_origins profile_origins) roots))

-- The members of a request that the policy looks at. The last tells whether `project_root` or
-- `run_directory` is a text.
pub record SafetyRequest : Type 0 where
  pub lifecycle : Option LifecycleMode
  pub auth_scope_id : Option String
  pub names_directory : Bool

abbrev pub profile_of : SafetyRequest → ProfileSafetyInput
profile_of q = record {
  lifecycle = q.lifecycle;
  production = none;
  destructive_actions = none;
  config_source = none;
  auth_scope_id = q.auth_scope_id;
  allowed_origins = none;
  allowed_file_roots = none;
}

abbrev pub asks_to_manage : Option LifecycleMode → Bool
asks_to_manage (some manage) = true
asks_to_manage _ = false

-- `SecurityPolicyEngine.authorizeRequest`
unfoldable pub authorize_request :
    Platform → HostContextLike → SafetyRequest → Result SecurityError TrustResolution
unfolding resolve
authorize_request p host q = do
  resolution ← resolve p host (profile_of q)
  throw_if (is_untrusted resolution.policy.trust_mode && asks_to_manage q.lifecycle)
      untrusted_manage_denied
  throw_if q.names_directory unsafe_path_parameter
  ok resolution
