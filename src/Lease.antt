-- ===== src/Lease.antt =====
-- packages/worker/src/lease.ts: the lease that a worker holds on a run, and when another worker may
-- take it over. Times are milliseconds and `null` is `none`.
pub mod Takeover
use autopw.Prelude.{
  ℕ, ◌+◌, ◌*◌, String, Bool, true, false, ◌&&◌, not, Option, none, some, ltb, leb, or_zero,
  if◌then◌else◌, Result, ok, err, ◌>>=◌, ◌>>◌, throw_if,
}

pub record LeasePolicy : Type 0 where
  pub heartbeat_interval_ms : ℕ
  pub lease_ttl_ms : ℕ
  pub lease_safety_factor : ℕ
  pub takeover_grace_ms : ℕ
  pub clock_skew_tolerance_ms : ℕ
  pub takeover_confirmation_count : ℕ

pub record RunLease : Type 0 where
  pub owner : Option String
  pub owner_pid : Option ℕ
  pub acquired_at : Option ℕ
  pub heartbeat_at : Option ℕ
  pub expires_at : Option ℕ
  pub state_version : ℕ
  pub stale_confirmations : ℕ
  pub policy : LeasePolicy

-- `alive: boolean | "unknown"` of a probe.
pub data LeaseLivenessProbe : Type 0 where
  alive dead unknown : LeaseLivenessProbe

abbrev pub is_alive : LeaseLivenessProbe → Bool
is_alive alive = true
is_alive _ = false

abbrev pub default_lease_policy : LeasePolicy
default_lease_policy = record {
  heartbeat_interval_ms = 5000;
  lease_ttl_ms = 30000;
  lease_safety_factor = 6;
  takeover_grace_ms = 10000;
  clock_skew_tolerance_ms = 5000;
  takeover_confirmation_count = 2;
}

pub data PolicyError : Type 0 where
  lease_safety_factor_too_low lease_ttl_too_short : PolicyError
  takeover_grace_too_short takeover_confirmations_too_low : PolicyError

unfoldable pub validate_lease_policy : LeasePolicy → Result PolicyError (Unit {0})
validate_lease_policy p = do
  throw_if (ltb p.lease_safety_factor 4) lease_safety_factor_too_low
  throw_if (ltb p.lease_ttl_ms (p.heartbeat_interval_ms * p.lease_safety_factor))
      lease_ttl_too_short
  throw_if (ltb p.takeover_grace_ms (p.heartbeat_interval_ms * 2)) takeover_grace_too_short
  throw_if (ltb p.takeover_confirmation_count 2) takeover_confirmations_too_low

-- The lease that `newLease` builds once the policy has passed.
abbrev pub fresh_lease : String → ℕ → LeasePolicy → ℕ → RunLease
fresh_lease owner pid policy timestamp = record {
  owner = some owner;
  owner_pid = some pid;
  acquired_at = some timestamp;
  heartbeat_at = some timestamp;
  expires_at = some (timestamp + policy.lease_ttl_ms);
  state_version = 1;
  stale_confirmations = 0;
  policy = policy;
}

unfoldable pub new_lease : String → ℕ → LeasePolicy → ℕ → Result PolicyError RunLease
new_lease owner pid policy timestamp = do
  validate_lease_policy policy
  ok (fresh_lease owner pid policy timestamp)

-- The first moment at which the holder counts as gone.
abbrev pub stale_after : RunLease → ℕ
stale_after l =
    or_zero l.heartbeat_at
    + l.policy.lease_ttl_ms
    + l.policy.takeover_grace_ms
    + l.policy.clock_skew_tolerance_ms

-- The lease after an observation, once the policy has passed.
abbrev pub observed : RunLease → ℕ → LeaseLivenessProbe → RunLease
observed l timestamp probe = record l {
  stale_confirmations =
      if leb (stale_after l) timestamp && not (is_alive probe)
      then l.stale_confirmations + 1
      else 0;
  state_version = l.state_version + 1;
}

unfoldable pub observe_lease : RunLease → ℕ → LeaseLivenessProbe → Result PolicyError RunLease
observe_lease l timestamp probe = do validate_lease_policy l.policy; ok (observed l timestamp probe)

unfoldable pub is_lease_stale : RunLease → ℕ → LeaseLivenessProbe → Bool
is_lease_stale l timestamp probe =
    not (is_alive probe)
    && leb (stale_after l) timestamp
    && leb l.policy.takeover_confirmation_count l.stale_confirmations

unfoldable pub release_lease : RunLease → RunLease
release_lease l = record l {
  owner = none;
  owner_pid = none;
  expires_at = none;
  state_version = l.state_version + 1;
  stale_confirmations = 0;
}

-- `undefined` is `none`.
unfoldable pub takeover_lease :
    RunLease → String → ℕ → ℕ → LeaseLivenessProbe → Result PolicyError (Option RunLease)
takeover_lease l owner pid timestamp probe =
    if is_lease_stale l timestamp probe
    then (do
      next ← new_lease owner pid l.policy timestamp
      ok (some (record next { state_version = l.state_version + 1 })))
    else ok none
