-- ===== src/Worker/Leases.antt =====
-- packages/worker/src/index.ts: how a worker observes, takes over and resumes a run whose holder is
-- gone. With a runtime the lease changes only through the compare-and-swap of
-- packages/run-storage/src/index.ts; whether its lock is free is an argument.
use Prim.Native.String.{◌++◌}
use autopw.Prelude.{
  ℕ, ◌+◌, String, Bool, true, false, not, ◌&&◌, Option, none, some, ◌==◌, leb, if◌then◌else◌,
  lookup, insert, keep, str_eq, ok, err,
}
use autopw.Domain.{RunStatus, OperationStatus}
use autopw.Lease.{RunLease, LeaseLivenessProbe, observe_lease, takeover_lease, is_lease_stale}
use autopw.Worker.State.{
  RunState, Worker, M, policy_fault, pure, ◌>>=◌, put_run, write_run_state, persist_run,
}
use autopw.Worker.Runs.{finalize_resume_exhausted}
use autopw.Worker.Lifecycle.{probe_of}

-- `compareAndSwapJson` on `run_state.json`, for a mutator that sets the lease.
unfoldable pub swap_lease : Bool → Worker → String → ℕ → RunLease → Option RunState
swap_lease lock_free w run_id expected_version l = elim (lookup run_id w.stored) [
  | none ↦ none
  | some current ↦
      if lock_free && current.lease.state_version == expected_version
      then some (record current { lease = l })
      else none
]

abbrev or_else {ℓ} : {A : Type ℓ} → Option A → Option A → Option A
or_else (some a) d = some a
or_else none d = d

-- `Object.assign(run, committed)`: a member that the file does not hold stays.
abbrev pub assign_run : RunState → RunState → RunState
assign_run run committed = record committed {
  snapshot = record (committed.snapshot) {
    results_ref = or_else committed.results_ref run.results_ref;
    report_ref = or_else committed.report_ref run.report_ref;
    gate_summary = or_else committed.gate_summary run.gate_summary;
    evidence_refs = or_else committed.evidence_refs run.evidence_refs;
    cases = or_else committed.cases run.cases;
    audit_summary = or_else committed.audit_summary run.audit_summary;
  };
}

-- `_commitLeaseObservation` and `_commitTakeover`, which read the same: the run after the swap.
unfoldable pub commit_lease : Bool → RunState → RunLease → ℕ → Worker → Worker × Option RunState
commit_lease lock_free run l expected_version w =
    if w.has_runtime
    then (elim (swap_lease lock_free w run.run_id expected_version l) [
      | none ↦ (w, none)
      | some committed ↦
          (let next = assign_run run committed in
            (put_run (record w { stored = insert run.run_id committed w.stored }) next, some next))
    ])
    else (let next : RunState = record run { lease = l } in (put_run w next, some next))

-- The run as a successful takeover leaves it before it is persisted; `attempt` is 1 where the
-- takeover counts as an attempt to resume, and 0 otherwise.
abbrev pub resumed : Worker → ℕ → RunState → RunState
resumed w attempt run = record run {
  snapshot = record (run.snapshot) {
    run_status = RunStatus.active;
    next_action = "resumed by " ++ w.worker_id;
  };
  leased_by = w.pid;
  lease_owner = w.worker_id;
  resume_attempts = run.resume_attempts + attempt;
}

abbrev pub forget_crash : Worker → String → Worker
forget_crash w run_id = record w {
  crashed_runs = keep (λ id. not (str_eq id run_id)) w.crashed_runs;
}

-- The end of a takeover: commit the new lease, and make the run active again.
unfoldable pub take_run : Bool → ℕ → ℕ → RunLease → RunState → M Bool
take_run lock_free now attempt next run w =
    let (v, committed) = commit_lease lock_free run next run.lease.state_version w in
    elim committed [
      | none ↦ (v, ok false)
      | some held ↦
          (persist_run now (resumed w attempt held) OperationStatus.running >>= λ _. pure true)
            (forget_crash v run.run_id)
    ]

-- The takeover that both `attemptTakeover` and `_prepareResume` try.
unfoldable pub try_takeover : Bool → ℕ → LeaseLivenessProbe → ℕ → RunState → M Bool
try_takeover lock_free now probe attempt run w =
    elim (takeover_lease run.lease w.worker_id w.pid now probe) [
      | err e ↦ (w, err (policy_fault e))
      | ok none ↦ (w, ok false)
      | ok (some next) ↦ take_run lock_free now attempt next run w
    ]

unfoldable pub attempt_takeover : Bool → ℕ → String → M Bool
attempt_takeover lock_free now run_id w = elim (lookup run_id w.runs) [
  | none ↦ (w, ok false)
  | some run ↦ try_takeover lock_free now (probe_of w run.lease) 0 run w
]

-- `observeRunLease`
unfoldable pub observe_run_lease : ℕ → LeaseLivenessProbe → String → M (Option RunLease)
observe_run_lease now probe run_id w = elim (lookup run_id w.runs) [
  | none ↦ (w, ok none)
  | some run ↦ elim (observe_lease run.lease now probe) [
    | err e ↦ (w, err (policy_fault e))
    | ok l ↦
        (let next : RunState = record run { lease = l } in
          (write_run_state (put_run w next) next, ok (some l)))
  ]
]

-- The part of `_prepareResume` behind the observation that was committed to `run`.
unfoldable pub resume_observed : Bool → ℕ → LeaseLivenessProbe → RunState → M Bool
resume_observed lock_free now probe run w =
    if is_lease_stale run.lease now probe
    then try_takeover lock_free now probe 1 run w
    else (w, ok false)

-- `_prepareResume`. Its two swaps ask for the lock one after the other: `lock_free` is for that of the
-- observation, and `still_free` for that of the takeover.
unfoldable pub prepare_resume : Bool → Bool → ℕ → RunState → M Bool
prepare_resume lock_free still_free now run w =
    if leb 3 run.resume_attempts
    then (finalize_resume_exhausted now run >>= λ _. pure false) w
    else (elim (observe_lease run.lease now (probe_of w run.lease)) [
      | err e ↦ (w, err (policy_fault e))
      | ok seen ↦
          (let (v, committed) = commit_lease lock_free run seen run.lease.state_version w in
            elim committed [
              | none ↦ (v, ok false)
              | some held ↦ resume_observed still_free now (probe_of w run.lease) held v
            ])
    ])
