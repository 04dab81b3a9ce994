-- ===== src/Security/Trust.antt =====
-- packages/security/src/index.ts: what a policy grants at most.
use autopw.Prelude.{
  distinct_from, String, true, false, ◌&&◌, Option, none, some, List, [], ◌∷◌, truthy?, str_eq_iff,
  any, includes, All, ok, >>=-eq-ok, >>-eq-ok, Bool-cases, inl, inr, ◌≡◌, ◌≢◌, arith, refl, ap,
  subst, sym, ◌∙◌, throw_if,
}
use autopw.Security.{
  TrustMode, LifecycleMode, DestructivePolicy, ConfigSourceKind, ConfigSource, HostContextLike,
  ProfileSafetyInput, EffectiveSecurityPolicy, Platform, TrustResolution, SafetyRequest,
  check_request, policy_of, resolve, authorize_request, is_untrusted, is_true, is_unsafe_scope,
  origins_within, map_result, or_else, profile_of, asks_to_manage, untrusted_source, trusted_source,
}

-- A policy grants no more than its host does.
pub record IsRestrained (p : Platform) (host : HostContextLike) (policy : EffectiveSecurityPolicy)
    : Type 0 where
  -- An untrusted request connects to what runs and brings no configuration of its own head.
  pub connects : host.trust_mode ≡ TrustMode.untrusted_pr → policy.lifecycle ≡ LifecycleMode.connect
  pub safe_scope :
      host.trust_mode ≡ TrustMode.untrusted_pr → is_unsafe_scope host.auth_scope ≡ false
  pub no_head : policy.config_source ≢ ConfigSourceKind.head
  -- Production is never mutated, and what the host calls production stays so.
  pub production_kept : is_true host.production ≡ true → policy.production ≡ true
  pub immutable : policy.production ≡ true → policy.destructive_actions ≡ DestructivePolicy.deny
  pub scope_kept : policy.auth_scope_id ≡ host.auth_scope.auth_scope_id

-- The policy of a resolution, from the lists that were resolved.
resolve-parts :
    (p : Platform) (host : HostContextLike) (profile : ProfileSafetyInput) (t : TrustResolution)
    → resolve p host profile ≡ ok t
    → (check_request host profile ≡ ok tt)
      × (hosts origins roots : List String) × (map_result p.normalize
            (or_else host.allowed_origins [])
          ≡ ok hosts)
      × (policy_of host profile (origins_within p hosts origins) roots ≡ t.policy)
unfolding resolve
resolve-parts p host profile t h =
    let (checked, more) = >>-eq-ok (check_request host profile) _ h in
    let (hosts, e1, more1) =
      >>=-eq-ok (map_result p.normalize (or_else host.allowed_origins [])) _ more in
    let (origins, e2, more2) =
      >>=-eq-ok (map_result p.normalize (or_else profile.allowed_origins hosts)) _ more1 in
    let (roots, e3, made) =
      >>=-eq-ok
        (map_result (p.resolve_path host.workspace_realpath)
          (or_else profile.allowed_file_roots ("." ∷ [])))
        _ more2 in
    (checked, hosts, origins, roots, e1, ground (arith, made))

untrusted_source-ne-head :
    (c : Option ConfigSource) (k : Option ConfigSourceKind)
    → untrusted_source c k ≢ ConfigSourceKind.head
unfolding untrusted_source
untrusted_source-ne-head c none h = ground arith
untrusted_source-ne-head c (some ConfigSourceKind.head) h = ground arith
untrusted_source-ne-head c (some ConfigSourceKind.base) h = ground arith
untrusted_source-ne-head c (some ConfigSourceKind.fixed) h = ground (arith, h)
untrusted_source-ne-head c (some ConfigSourceKind.approved_overlay) h = ground (arith, h)

trusted_source-ne-head : (k : Option ConfigSourceKind) → trusted_source k ≢ ConfigSourceKind.head
unfolding trusted_source
trusted_source-ne-head none h = ground arith
trusted_source-ne-head (some ConfigSourceKind.head) h = ground arith
trusted_source-ne-head (some ConfigSourceKind.base) h = ground arith
trusted_source-ne-head (some ConfigSourceKind.fixed) h = ground arith
trusted_source-ne-head (some ConfigSourceKind.approved_overlay) h = ground arith

check_request-safe_scope :
    (host : HostContextLike) (profile : ProfileSafetyInput)
    → check_request host profile ≡ ok tt
    → is_untrusted host.trust_mode ≡ true
    → is_unsafe_scope host.auth_scope ≡ false
unfolding check_request
check_request-safe_scope host profile h u = ground (arith, h, u)

check_request-scope :
    (host : HostContextLike) (profile : ProfileSafetyInput) (s : String)
    → check_request host profile ≡ ok tt
    → truthy? profile.auth_scope_id ≡ some s
    → s ≡ host.auth_scope.auth_scope_id
unfolding check_request
check_request-scope host profile s h asked =
    ground (arith, h, asked, str_eq_iff s host.auth_scope.auth_scope_id)

policy_of-IsRestrained :
    (p : Platform) (host : HostContextLike) (profile : ProfileSafetyInput)
    (origins roots : List String)
    → check_request host profile ≡ ok tt
    → IsRestrained p host (policy_of host profile origins roots)
unfolding policy_of
policy_of-IsRestrained p host profile origins roots h = record {
  connects = λ u. rw u refl;
  safe_scope = λ u. check_request-safe_scope host profile h (ap is_untrusted u);
  no_head = ground (
    arith,
    untrusted_source-ne-head host.config_source profile.config_source,
    trusted_source-ne-head profile.config_source,
  );
  production_kept = λ k. ground (arith, k);
  immutable = λ k. ground (arith, k);
  scope_kept = refl;
}

-- Whatever a profile asks for, a policy that is granted is restrained: an untrusted request only
-- connects, with a safe scope; configuration never comes from the head; production is never mutated
-- and cannot be turned off; and the scope is the host's.
pub resolve-IsRestrained :
    (p : Platform) (host : HostContextLike) (profile : ProfileSafetyInput) (t : TrustResolution)
    → resolve p host profile ≡ ok t
    → IsRestrained p host t.policy
resolve-IsRestrained p host profile t h =
    let (checked, hosts, origins, roots, named, made) = resolve-parts p host profile t h in
    subst (IsRestrained p host) made
      (policy_of-IsRestrained p host profile (origins_within p hosts origins) roots checked)

-- The host's origins allow this one.
abbrev pub IsAllowed : Platform → List String → String → Type 0
IsAllowed p hosts origin = any (p.origin_within origin) hosts ≡ true

origins_within-IsAllowed :
    (p : Platform) (hosts origins : List String)
    → All (IsAllowed p hosts) (origins_within p hosts origins)
origins_within-IsAllowed p [] origins = tt
origins_within-IsAllowed p (h ∷ hs) [] = tt
origins_within-IsAllowed p (h ∷ hs) (o ∷ os) =
    let rest = origins_within-IsAllowed p (h ∷ hs) os in
    elim (Bool-cases (any (p.origin_within o) (h ∷ hs))) [
      | inl granted ↦ rw granted (granted, rest)
      | inr refused ↦ rw refused rest
    ]

distinct_from-All :
    (P : String → Type 0) (seen xs : List String) → All P xs → All P (distinct_from seen xs)
unfolding distinct_from
distinct_from-All P seen [] h = tt
distinct_from-All P seen (x ∷ xs) h = elim (Bool-cases (includes seen x)) [
  | inl known ↦ rw known (distinct_from-All P seen xs h.1)
  | inr new ↦ rw new (h.0, distinct_from-All P (x ∷ seen) xs h.1)
]

-- Whatever origins a profile asks for, each origin of a policy that is granted lies within one of
-- the host's own, normalised; a host without origins grants none.
pub resolve-IsAllowed :
    (p : Platform) (host : HostContextLike) (profile : ProfileSafetyInput) (t : TrustResolution)
    → resolve p host profile ≡ ok t
    → (hosts : List String) × (map_result p.normalize (or_else host.allowed_origins []) ≡ ok hosts)
      × All (IsAllowed p hosts) t.policy.allowed_origins
unfolding policy_of
resolve-IsAllowed p host profile t h =
    let (checked, hosts, origins, roots, named, made) = resolve-parts p host profile t h in
    (
      hosts,
      named,
      subst (λ policy. All (IsAllowed p hosts) policy.allowed_origins) made
          (distinct_from-All (IsAllowed p hosts) [] _ (origins_within-IsAllowed p hosts origins)),
    )

-- A request is authorised only under the policy that its own lifecycle and scope resolve to, with
-- nothing else asked for, which is restrained; without a directory of its own, under no other scope
-- than the host's, and, if it is untrusted, not to manage the target.
pub authorize_request-grant :
    (p : Platform) (host : HostContextLike) (q : SafetyRequest) (t : TrustResolution)
    → authorize_request p host q ≡ ok t
    → (resolve p host (record {
      lifecycle = q.lifecycle;
      production = none;
      destructive_actions = none;
      config_source = none;
      auth_scope_id = q.auth_scope_id;
      allowed_origins = none;
      allowed_file_roots = none;
    })
        ≡ ok t)
      × IsRestrained p host t.policy
      × (q.names_directory ≡ false)
      × ((s : String) → truthy? q.auth_scope_id ≡ some s → s ≡ host.auth_scope.auth_scope_id)
      × (host.trust_mode ≡ TrustMode.untrusted_pr → q.lifecycle ≢ some LifecycleMode.manage)
unfolding authorize_request policy_of
authorize_request-grant p host q t h =
    let (r, resolved, more) = >>=-eq-ok (resolve p host (profile_of q)) _ h in
    let (may, more1) =
      >>-eq-ok (throw_if (is_untrusted r.policy.trust_mode && asks_to_manage q.lifecycle) _) _
        more in
    let (no_directory, same) = >>-eq-ok (throw_if q.names_directory _) _ more1 in
    let (checked, hosts, origins, roots, named, made) =
      resolve-parts p host (profile_of q) r resolved in
    let same_resolution : r ≡ t = ground (arith, same) in
    let mode : host.trust_mode ≡ r.policy.trust_mode = ap (λ x. x.trust_mode) made in
    (
      subst (λ (x : TrustResolution). resolve p host (profile_of q) ≡ ok x) same_resolution
          resolved,
      subst (λ (x : TrustResolution). IsRestrained p host x.policy) same_resolution
          (resolve-IsRestrained p host (profile_of q) r resolved),
      ground (arith, no_directory),
      λ s asked. check_request-scope host (profile_of q) s checked asked,
      λ u m. ground (arith, may, ap is_untrusted (sym mode ∙ u), ap asks_to_manage m),
    )
