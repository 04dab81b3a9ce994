-- ===== src/Worker/Takeovers.antt =====
-- packages/worker/src/index.ts: when a run changes hands.
use autopw.Prelude.{
  ℕ, ◌+◌, ◌≤◌, ◌<◌, or_zero, String, Bool, true, none, some, lookup, lookup-insert, str_eq_iff,
  subst, Result-cases, ok, ◌≡◌, ◌≢◌, arith, Option-cases, Bool-cases, inl, inr,
}
use autopw.Lease.{
  RunLease, LeaseLivenessProbe, alive, observed, observe_lease, is_lease_stale, takeover_lease,
  validate_lease_policy,
}
use autopw.Lease.Takeover.{takeover_lease_iff, IsSound}
use autopw.Worker.State.{RunState, Worker}
use autopw.Worker.Runs.{finalize_resume_exhausted}
use autopw.Worker.Lifecycle.{probe_of}
use autopw.Worker.Leases.{
  swap_lease, commit_lease, try_takeover, attempt_takeover, resume_observed, prepare_resume,
}

-- Once a worker with a runtime has committed a lease of another version, no worker that sees the
-- same file can commit one against the version that both had read, whatever lease it proposes and
-- whether or not it gets the lock: of two rivals at most one wins.
pub commit_lease-exclusive :
    (w v rival : Worker) (lock_free lock_free' : Bool) (run next : RunState) (l l' : RunLease)
    (version : ℕ)
    → w.has_runtime ≡ true
    → commit_lease lock_free run l version w ≡ (v, some next)
    → l.state_version ≢ version
    → rival.stored ≡ v.stored
    → swap_lease lock_free' rival run.run_id version l' ≡ none
unfolding commit_lease swap_lease
commit_lease-exclusive w v rival lock_free lock_free' run next l l' version runtime won newer same =
    elim (Option-cases (swap_lease lock_free w run.run_id version l)) [
      | inl e ↦ absurd (ground (arith, runtime, won, e))
      | inr (committed, e) ↦ ground (
        arith,
        runtime,
        won,
        newer,
        same,
        lookup-insert run.run_id run.run_id committed w.stored,
        str_eq_iff run.run_id run.run_id,
      )
    ]

-- The grounds on which a holder may be replaced, when so many observations have found it gone.
pub record IsForfeit (l : RunLease) (now : ℕ) (probe : LeaseLivenessProbe) (sightings : ℕ)
    : Type 0 where
  pub unseen : probe ≢ alive
  pub run_out :
      or_zero l.heartbeat_at
        + l.policy.lease_ttl_ms
        + l.policy.takeover_grace_ms
        + l.policy.clock_skew_tolerance_ms
      ≤ now
  pub confirmed : l.policy.takeover_confirmation_count ≤ sightings
  pub sound_policy : IsSound l.policy

try_takeover-IsForfeit :
    (w v : Worker) (lock_free : Bool) (now : ℕ) (probe : LeaseLivenessProbe) (attempt : ℕ)
    (run : RunState)
    → try_takeover lock_free now probe attempt run w ≡ (v, ok true)
    → IsForfeit run.lease now probe run.lease.stale_confirmations
unfolding try_takeover
try_takeover-IsForfeit w v lock_free now probe attempt run h =
    elim (Result-cases (takeover_lease run.lease w.worker_id w.pid now probe)) [
      | inr (x, f) ↦ absurd (ground (arith, h, f))
      | inl (none, f) ↦ absurd (ground (arith, h, f))
      | inl (some next, f) ↦
          (let (unseen, run_out, confirmed, sound, _) =
              (takeover_lease_iff run.lease w.worker_id w.pid now probe next).0 f in
            record {
              unseen = unseen;
              run_out = run_out;
              confirmed = confirmed;
              sound_policy = sound;
            })
    ]

-- `attemptTakeover` takes a run over on these grounds only.
attempt_takeover-IsForfeit :
    (w v : Worker) (lock_free : Bool) (now : ℕ) (run_id : String)
    → attempt_takeover lock_free now run_id w ≡ (v, ok true)
    → (run : RunState) × (lookup run_id w.runs ≡ some run)
      × IsForfeit run.lease now (probe_of w run.lease) run.lease.stale_confirmations
unfolding attempt_takeover
attempt_takeover-IsForfeit w v lock_free now run_id h = elim (Option-cases (lookup run_id w.runs)) [
  | inl e ↦ absurd (ground (arith, h, e))
  | inr (run, e) ↦ (
    run,
    e,
    try_takeover-IsForfeit w v lock_free now (probe_of w run.lease) 0 run (ground (arith, h, e)),
  )
]

-- A lease that was committed is the run's.
commit_lease-lease :
    (w v : Worker) (lock_free : Bool) (run held : RunState) (l : RunLease) (version : ℕ)
    → commit_lease lock_free run l version w ≡ (v, some held)
    → held.lease ≡ l
unfolding commit_lease swap_lease
commit_lease-lease w v lock_free run held l version h =
    elim (Option-cases (lookup run.run_id w.stored)) [
      | inl e ↦ ground (arith, h, e)
      | inr (current, e) ↦ ground (arith, h, e)
    ]

-- The lease that an observation leaves is forfeit only if the observed one was, this sighting
-- counted.
observed-IsForfeit :
    (l : RunLease) (now : ℕ) (probe : LeaseLivenessProbe)
    → (let seen = observed l now probe in IsForfeit seen now probe seen.stale_confirmations)
    → IsForfeit l now probe (l.stale_confirmations + 1)
observed-IsForfeit l now probe f = record {
  unseen = f.unseen;
  run_out = f.run_out;
  confirmed = ground (arith, f.confirmed);
  sound_policy = f.sound_policy;
}

resume_observed-IsForfeit :
    (w v : Worker) (lock_free : Bool) (now : ℕ) (probe : LeaseLivenessProbe) (run : RunState)
    → resume_observed lock_free now probe run w ≡ (v, ok true)
    → IsForfeit run.lease now probe run.lease.stale_confirmations
unfolding resume_observed
resume_observed-IsForfeit w v lock_free now probe run h =
    elim (Bool-cases (is_lease_stale run.lease now probe)) [
      | inl stale ↦ try_takeover-IsForfeit w v lock_free now probe 1 run (ground (arith, h, stale))
      | inr fresh ↦ absurd (ground (arith, h, fresh))
    ]

few_attempts :
    (w v : Worker) (lock_free still_free : Bool) (now : ℕ) (run : RunState)
    → prepare_resume lock_free still_free now run w ≡ (v, ok true)
    → run.resume_attempts < 3
unfolding prepare_resume
few_attempts w v lock_free still_free now run h =
    elim (Result-cases (finalize_resume_exhausted now run w).1) [
      | inl (r, e) ↦ ground (arith, h, e)
      | inr (x, e) ↦ ground (arith, h, e)
    ]

-- A worker that takes up a run again, `_prepareResume`, gets it only if the run was resumed fewer
-- than three times before, its holder is not seen alive among the workers of the process, the term,
-- the grace and the skew tolerance of the lease have all gone by since the last heartbeat, and enough
-- observations have confirmed that, the one made now included.
pub prepare_resume-IsForfeit :
    (w v : Worker) (lock_free still_free : Bool) (now : ℕ) (run : RunState)
    → prepare_resume lock_free still_free now run w ≡ (v, ok true)
    → (run.resume_attempts < 3)
      × IsForfeit run.lease now (probe_of w run.lease) (run.lease.stale_confirmations + 1)
unfolding prepare_resume observe_lease
prepare_resume-IsForfeit w v lock_free still_free now run h =
    let seen = observed run.lease now (probe_of w run.lease) in
    let swapped = commit_lease lock_free run seen run.lease.state_version w in
    let few = few_attempts w v lock_free still_free now run h in
    elim (Result-cases (validate_lease_policy run.lease.policy)) [
      | inr (x, bad) ↦ absurd (ground (arith, h, few, bad))
      | inl (u, valid) ↦ elim (Option-cases swapped.1) [
        | inl lost ↦ absurd (ground (arith, h, few, valid, lost))
        | inr (held, won) ↦
            (let kept =
                commit_lease-lease w swapped.0 lock_free run held seen run.lease.state_version
                  (ground (arith, won)) in
              (
                few,
                observed-IsForfeit run.lease now (probe_of w run.lease) (
                    subst (λ l. IsForfeit l now (probe_of w run.lease) l.stale_confirmations) kept
                      (resume_observed-IsForfeit swapped.0 v still_free now (probe_of w run.lease)
                        held (ground (arith, h, few, valid, won)))),
              ))
      ]
    ]
