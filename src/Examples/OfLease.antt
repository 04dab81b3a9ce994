-- ===== src/Examples/OfLease.antt =====
-- A lease that worker `a` took at time 0 under the default policy, and worker `b` after it.
use autopw.Prelude.{◌+◌, ◌*◌, ◌≤◌, none, some, List, [], ◌∷◌, ok, ◌≡◌, ◌≢◌, ◌↔◌, refl, arith}
use autopw.Lease.{
  RunLease, alive, dead, unknown, default_lease_policy, fresh_lease, validate_lease_policy,
  is_lease_stale, takeover_lease, new_lease,
}
use autopw.Lease.Takeover.{
  IsSound, validate_lease_policy_iff, is_lease_stale_needs_silence, takeover_lease_iff, Observation,
  observe_all, observe_all_lem,
}

abbrev held : RunLease
held = fresh_lease "a" 7 default_lease_policy 0

-- Two observations have found the holder gone.
abbrev confirmed : RunLease
confirmed = record held { stale_confirmations = 2; state_version = 3 }

abbrev taken : RunLease
taken = record (fresh_lease "b" 8 default_lease_policy 50000) { state_version = 4 }

default_policy-IsSound : IsSound default_lease_policy
default_policy-IsSound = omega arith

taken_over : takeover_lease confirmed "b" 8 50000 unknown ≡ ok (some taken)
unfolding takeover_lease is_lease_stale new_lease validate_lease_policy
taken_over = refl

too_early : takeover_lease confirmed "b" 8 44999 unknown ≡ ok none
unfolding takeover_lease is_lease_stale
too_early = refl

abbrev sightings : List Observation
sightings = (46000, unknown) ∷ (47000, alive) ∷ (48000, dead) ∷ (49000, unknown) ∷ []

validate_lease_policy_iff_example :
    (validate_lease_policy default_lease_policy ≡ ok tt) ↔ IsSound default_lease_policy
validate_lease_policy_iff_example = validate_lease_policy_iff default_lease_policy

is_lease_stale_needs_silence_example : 0 + 5000 * 6 ≤ 50000
unfolding is_lease_stale validate_lease_policy
is_lease_stale_needs_silence_example =
    is_lease_stale_needs_silence confirmed 50000 unknown refl refl

takeover_lease_iff_example : (takeover_lease confirmed "b" 8 50000 unknown ≡ ok (some taken)) ↔ (
    (unknown ≢ alive)
    × (0 + 30000 + 10000 + 5000 ≤ 50000)
    × (2 ≤ confirmed.stale_confirmations)
    × IsSound default_lease_policy
    × (taken ≡ taken))
takeover_lease_iff_example = takeover_lease_iff confirmed "b" 8 50000 unknown taken

observe_all_lem_example :
    observe_all held sightings ≡ ok (record held { stale_confirmations = 2; state_version = 5 })
observe_all_lem_example = observe_all_lem held sightings default_policy-IsSound
