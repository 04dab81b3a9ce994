-- ===== src/Worker/Lifecycle.antt =====
-- packages/worker/src/index.ts: creation, progress, cancellation and crash of a run. The
-- worker reads the run from its map at the start of each method.
use autopw.Prelude.{
  ℕ, ◌+◌, ◌-◌, ◌*◌, ◌/◌, String, Bool, true, false, not, ◌&&◌, ◌||◌, none, some, List, [], ◌∷◌,
  str_eq, includes, if◌then◌else◌, lookup, keep, truthy, Result, ok, err,
}
use autopw.Domain.{RunPhase, RunStatus, AuditStatus, Gate, OperationStatus}
use autopw.Lease.{PolicyError, RunLease, LeaseLivenessProbe, alive, dead, new_lease}
use autopw.Registry.{update_run}
use autopw.Worker.State.{
  RunState, Worker, M, registry_fault, pure, ◌>>=◌, ◌>>◌, put_run, write_run_state, persist_run,
}
use autopw.Worker.Runs.{finalize_cancelled}

-- The run of `createFixtureRun` under the lease `l`.
abbrev pub created_run : Worker → String → String → String → RunLease → RunState
created_run w run_id workspace_id operation_id l = record {
  snapshot = record {
    run_id = run_id;
    operation_id = operation_id;
    workspace_id = workspace_id;
    phase = RunPhase.created;
    run_status = RunStatus.active;
    audit_status = none;
    gate = none;
    fatal_class = none;
    progress_pct = 0;
    next_action = "poll get_run_status";
    cancel_requested = false;
    results_ref = none;
    report_ref = none;
    gate_summary = none;
    evidence_refs = none;
    cases = none;
    audit_summary = none;
  };
  state_version = 1;
  leased_by = w.pid;
  lease_owner = w.worker_id;
  lease = l;
  resume_attempts = 0;
}

-- `createFixtureRun`; `run_id` is the id that is drawn. It throws where the lease policy is invalid.
unfoldable pub create_fixture_run :
    Worker → ℕ → String → String → String → Result PolicyError (Worker × RunState)
create_fixture_run w now run_id workspace_id operation_id =
    elim (new_lease w.worker_id w.pid w.lease_policy now) [
      | err e ↦ err e
      | ok l ↦
          (let run = created_run w run_id workspace_id operation_id l in
            ok (write_run_state (put_run w run) run, run))
    ]

-- `Math.round(((index + 1) / (PHASE_PATH.length + 1)) * 100)`, whose argument is never halfway.
abbrev pub progress_of : ℕ → ℕ
progress_of index = ((index + 1) * 200 + 15) / 30

-- How a round of the loop of `_run` ends: it goes on, or it has ended the run.
pub data Round : Type 0 where
  goes_on ends : RunState → Round

-- One round of the loop of `_run`, for the phase with this index.
unfoldable pub advance : ℕ → ℕ → RunPhase → RunState → M Round
advance now index phase run =
    if run.cancel_requested then (do next ← finalize_cancelled now run; pure (ends next)) else (do
      next ←
          persist_run now
            (record run {
              snapshot = record (run.snapshot) {
                phase = phase;
                progress_pct = progress_of index;
                next_action = "poll get_run_status";
              };
            })
            OperationStatus.running
      pure (goes_on next))

-- What `_run` does behind its loop.
unfoldable pub complete_run : ℕ → RunState → M RunState
complete_run now run =
    if run.cancel_requested
    then finalize_cancelled now run
    else persist_run now
        (record run {
          snapshot = record (run.snapshot) {
            phase = RunPhase.gated;
            run_status = RunStatus.completed;
            audit_status = some AuditStatus.complete;
            gate = some Gate.pass;
            progress_pct = 100;
            next_action = "get_run_result";
          };
        })
        OperationStatus.completed

abbrev pub after_round : (RunState → M RunState) → Round → M RunState
after_round k (ends next) = pure next
after_round k (goes_on next) = k next

-- The loop of `_run` and what stands behind it, where nothing happens between two rounds.
unfoldable pub drive : ℕ → ℕ → List RunPhase → RunState → M RunState
drive now index [] run = complete_run now run
drive now index (phase ∷ rest) run =
    advance now index phase run >>= after_round (drive now (index + 1) rest)

-- `run.phase === "GATED"`
abbrev pub is_gated : RunPhase → Bool
is_gated RunPhase.gated = true
is_gated _ = false

abbrev pub is_closed : RunStatus → Bool
is_closed RunStatus.failed = true
is_closed RunStatus.completed = true
is_closed _ = false

-- The run as `requestCancel` marks it.
abbrev pub cancelling : RunState → RunState
cancelling run = record run {
  snapshot = record (run.snapshot) {
    cancel_requested = true;
    phase = RunPhase.terminalizing;
    next_action = "finalize cancellation";
  };
}

-- `requestCancel`. `is_running` tells whether the task of the run's operation is running.
unfoldable pub request_cancel : ℕ → Bool → String → M Bool
request_cancel now is_running run_id w = elim (lookup run_id w.runs) [
  | none ↦ (w, ok false)
  | some run ↦
      if is_gated run.phase || is_closed run.run_status
      then (w, ok false)
      else ((do
        next ← persist_run now (cancelling run) OperationStatus.running
        if not is_running || w.has_runtime then finalize_cancelled now next else pure next
        pure true)
          w)
]

-- `alive` of a takeover: whether the holder is among the live workers.
abbrev pub probe_of : Worker → RunLease → LeaseLivenessProbe
probe_of w l = elim l.owner [
  | none ↦ dead
  | some owner ↦ if truthy owner && includes w.active_workers owner then alive else dead
]

-- `simulateWorkerCrash`, in which the registry may throw after the run was written.
unfoldable pub simulate_worker_crash : ℕ → String → M (Unit {0})
simulate_worker_crash now run_id w = elim (lookup run_id w.runs) [
  | none ↦ (w, ok tt)
  | some run ↦
      (let p = run.lease.policy in
        let late = p.lease_ttl_ms + p.takeover_grace_ms + p.clock_skew_tolerance_ms + 1 in
        let next : RunState = record run {
          snapshot = record (run.snapshot) {
            run_status = RunStatus.interrupted;
            next_action = "worker crash recovery required";
          };
          lease = record (run.lease) {
            heartbeat_at = some (now - late);
            expires_at = some (now - 1);
            stale_confirmations = 0;
          };
        } in
        let crashed : Worker =
          write_run_state (put_run (record w { crashed_runs = run_id ∷ w.crashed_runs }) next)
            next in
        elim (update_run w.registry now next.snapshot (some OperationStatus.running)) [
          | err e ↦ (crashed, err (registry_fault e))
          | ok (registry, o) ↦ (
            record crashed {
              registry = registry;
              active_workers = keep (λ id. not (str_eq id w.worker_id)) w.active_workers;
            },
            ok tt,
          )
        ])
]
