-- ===== src/Lease/Takeover.antt =====
-- packages/worker/src/lease.ts: when a lease may change hands, and what a valid policy means to its
-- holder.
use autopw.Prelude.{
  ℕ, ◌+◌, ◌*◌, ◌≤◌, String, Bool, true, ◌&&◌, not, some, leb, or_zero, if◌then◌else◌, Result, ok,
  List, [], ◌∷◌, ◌≡◌, ◌≢◌, refl, ◌>>=◌, length, ◌↔◌, arith,
}
use autopw.Lease.{
  PolicyError, LeasePolicy, RunLease, LeaseLivenessProbe, alive, dead, unknown, is_alive,
  validate_lease_policy, new_lease, stale_after, observed, observe_lease, is_lease_stale,
  takeover_lease,
}

-- The four conditions of a usable policy, as inequalities.
pub record IsSound (p : LeasePolicy) : Type 0 where
  pub factor : 4 ≤ p.lease_safety_factor
  pub ttl : p.heartbeat_interval_ms * p.lease_safety_factor ≤ p.lease_ttl_ms
  pub grace : p.heartbeat_interval_ms * 2 ≤ p.takeover_grace_ms
  pub confirmations : 2 ≤ p.takeover_confirmation_count

-- A policy passes the check exactly when the four inequalities hold.
pub validate_lease_policy_iff : (p : LeasePolicy) → (validate_lease_policy p ≡ ok tt) ↔ IsSound p
unfolding validate_lease_policy
validate_lease_policy_iff p =
    (λ h. ground arith, λ h. ground (arith, h.factor, h.ttl, h.grace, h.confirmations))

-- A worker that beats every `heartbeat_interval_ms` keeps its lease: under a policy that passes the
-- check, a lease is not stale until at least six intervals have gone by since the last heartbeat,
-- whatever the probe says and however many confirmations are recorded.
pub is_lease_stale_needs_silence :
    (l : RunLease) (timestamp : ℕ) (probe : LeaseLivenessProbe)
    → validate_lease_policy l.policy ≡ ok tt
    → is_lease_stale l timestamp probe ≡ true
    → or_zero l.heartbeat_at + l.policy.heartbeat_interval_ms * 6 ≤ timestamp
unfolding is_lease_stale
is_lease_stale_needs_silence l timestamp probe v h =
    let s = (validate_lease_policy_iff l.policy).0 v in
    omega (
      arith,
      lower l.policy.heartbeat_interval_ms l.policy.lease_safety_factor s.factor,
      s.ttl,
      s.grace,
      late,
    )
  where
    lower : (i f : ℕ) → 4 ≤ f → i * 4 ≤ i * f
    lower i f q = grind arith

    late : stale_after l ≤ timestamp
    late = ground arith

-- A takeover succeeds exactly when the probe does not see the holder alive, the term, the grace and
-- the skew tolerance have all gone by since the last heartbeat, enough observations have confirmed
-- that, and the policy is valid, since the new lease is built under it. The new lease then belongs
-- to the new owner and process for a whole term from now, keeps the policy, starts without
-- confirmations and carries the version after the old one's.
pub takeover_lease_iff :
    (l : RunLease) (owner : String) (pid timestamp : ℕ) (probe : LeaseLivenessProbe) (n : RunLease)
    → (takeover_lease l owner pid timestamp probe ≡ ok (some n)) ↔ (
        (probe ≢ alive)
        × (or_zero l.heartbeat_at
              + l.policy.lease_ttl_ms
              + l.policy.takeover_grace_ms
              + l.policy.clock_skew_tolerance_ms
            ≤ timestamp)
        × (l.policy.takeover_confirmation_count ≤ l.stale_confirmations)
        × IsSound l.policy
        × (n ≡ record {
          owner = some owner;
          owner_pid = some pid;
          acquired_at = some timestamp;
          heartbeat_at = some timestamp;
          expires_at = some (timestamp + l.policy.lease_ttl_ms);
          state_version = l.state_version + 1;
          stale_confirmations = 0;
          policy = l.policy;
        }))
unfolding takeover_lease is_lease_stale new_lease validate_lease_policy
takeover_lease_iff l owner pid timestamp alive n = (λ h. ground arith, λ h. absurd (h.0 refl))
takeover_lease_iff l owner pid timestamp dead n = (λ h. ground arith, λ h. ground arith)
takeover_lease_iff l owner pid timestamp unknown n = (λ h. ground arith, λ h. ground arith)

-- What was seen of a lease: when, and what the probe said.
abbrev pub Observation : Type 0
Observation = ℕ × LeaseLivenessProbe

-- An observation that speaks against the holder.
abbrev pub is_missing : RunLease → Observation → Bool
is_missing l (timestamp, probe) = leb (stale_after l) timestamp && not (is_alive probe)

-- The observations in order, oldest first.
unfoldable pub observe_all : RunLease → List Observation → Result PolicyError RunLease
observe_all l [] = ok l
observe_all l ((timestamp, probe) ∷ os) = do
  next ← observe_lease l timestamp probe
  observe_all next os

-- How many observations at the end of the list speak against the holder, counting on from `n`.
abbrev pub missing_streak : RunLease → ℕ → List Observation → ℕ
missing_streak l n [] = n
missing_streak l n (o ∷ os) = missing_streak l (if is_missing l o then n + 1 else 0) os

-- Under a valid policy every series of observations goes through. It leaves holder, heartbeat,
-- expiry and policy alone, raises the version by one for each observation, and counts exactly the
-- unbroken run of bad ones at the end: a single sighting resets the count.
pub observe_all_lem :
    (l : RunLease) (os : List Observation)
    → IsSound l.policy
    → observe_all l os
      ≡ ok (record l {
        stale_confirmations = missing_streak l l.stale_confirmations os;
        state_version = l.state_version + length os;
      })
unfolding observe_all observe_lease
observe_all_lem l [] s = ground arith
observe_all_lem l ((timestamp, probe) ∷ os) s = ground (
  arith,
  (validate_lease_policy_iff l.policy).1 s,
  observe_all_lem (observed l timestamp probe) os s,
)
