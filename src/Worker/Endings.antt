-- ===== src/Worker/Endings.antt =====
-- packages/worker/src/index.ts: how a run ends, by cancellation or by force.
use autopw.Prelude.{
  ℕ, String, Bool, true, false, not, ◌||◌, Option, none, some, List, [], ◌∷◌, lookup, ok, ◌≡◌, refl,
  arith, Bool-cases, inl, inr,
}
use autopw.Domain.{RunPhase, RunStatus, AuditStatus, Gate, OperationStatus}
use autopw.Worker.State.{RunState, Worker, M, persisted}
use autopw.Worker.Runs.{
  Ending, finalize, finalize_cancelled, terminal_path, cancelled_ending, enter_terminal,
  finalize_infrastructure_failure, finalize_plan_defect, finalize_resume_exhausted, is_phase,
  reason,
}
use autopw.Worker.Lifecycle.{request_cancel, cancelling, is_gated, is_closed}
use autopw.Worker.Persisting.{IsKnown, IsPersisted, persist_run-IsPersisted}
use autopw.Worker.Terminal.{told, finalize-lem}

-- The run is over with this gate and an incomplete audit, nobody holds its lease, and memory, file
-- and registry agree on that.
pub record IsEnded (v : Worker) (run : RunState) (gate : Gate) : Type 0 where
  pub persisted_run : IsPersisted v run OperationStatus.completed
  pub gated : run.phase ≡ RunPhase.gated
  pub closed : run.run_status ≡ RunStatus.completed
  pub incomplete : run.audit_status ≡ some AuditStatus.incomplete
  pub decided : run.gate ≡ some gate
  pub free : run.lease.owner ≡ none

-- The method returns the run, which is over with this gate.
abbrev pub Ends : Worker → M RunState → RunState → Gate → Type 0
Ends w m run gate =
    (v : Worker) × (next : RunState) × (m w ≡ (v, ok next))
    × IsEnded v next gate
    × (next.run_id ≡ run.run_id)

-- The phases that every forced ending notifies, newest first.
abbrev pub ending_told : List RunPhase → List RunPhase
ending_told older =
    RunPhase.gated ∷ RunPhase.reported ∷ RunPhase.audited ∷ RunPhase.runtime_finalized ∷ older

ending-IsEnded :
    (w : Worker) (now : ℕ) (e : Ending) (run : RunState)
    → IsKnown w run
    → (v : Worker) × (next : RunState) × (finalize now e terminal_path run w ≡ (v, ok next))
      × IsEnded v next e.gate
      × (next.run_id ≡ run.run_id)
      × (told v ≡ ending_told (told w))
ending-IsEnded w now e run k =
    let (v, next, runs, kept, snap, version, heard) =
      finalize-lem w now e RunPhase.runtime_finalized
        (RunPhase.audited ∷ RunPhase.reported ∷ RunPhase.gated ∷ []) run k in
    (
      v,
      next,
      runs,
      record {
        persisted_run = kept;
        gated = ground (arith, snap);
        closed = ground (arith, snap);
        incomplete = ground (arith, snap);
        decided = ground (arith, snap);
        free = kept.released refl;
      },
      ground (arith, snap),
      heard,
    )

-- Cancelling a run that has not crashed, whose operation the registry knows and that is neither
-- gated nor closed, where its task is not running or the worker has a runtime, is acknowledged and
-- ends the run at once: incomplete, its lease released, and by way of the frozen terminal phases,
-- without jumping from terminalizing to gated.
pub request_cancel-IsEnded :
    (w : Worker) (now : ℕ) (is_running : Bool) (run : RunState)
    → lookup run.run_id w.runs ≡ some run
    → IsKnown w run
    → is_gated run.phase ≡ false
    → is_closed run.run_status ≡ false
    → (not is_running || w.has_runtime) ≡ true
    → (v : Worker) × (next : RunState) × (request_cancel now is_running run.run_id w ≡ (v, ok true))
      × IsEnded v next Gate.incomplete
      × (next.run_id ≡ run.run_id)
      × (told v ≡ ending_told (RunPhase.terminalizing ∷ told w))
unfolding request_cancel finalize_cancelled
request_cancel-IsEnded w now is_running run at k open_phase open_status at_once =
    let (u, run_ok, kept, notices, _) =
      persist_run-IsPersisted w now (cancelling run) OperationStatus.running
        (record { sound = k.sound; operation = k.operation; listed = k.listed }) in
    let mid = persisted w.worker_id now OperationStatus.running (cancelling run) in
    let (v, next, rest_ok, ended, named, heard) =
      ending-IsEnded u now cancelled_ending mid kept.known in
    (
      v,
      next,
      ground (arith, at, open_phase, open_status, at_once, run_ok, rest_ok),
      ended,
      named,
      ground (arith, notices, heard),
    )

-- A run that is gated or closed, or that the worker does not know, is not cancelled, and nothing
-- changes.
pub request_cancel_refused :
    (w : Worker) (now : ℕ) (is_running : Bool) (run_id : String)
    → ((run : RunState)
        → lookup run_id w.runs ≡ some run
        → (is_gated run.phase || is_closed run.run_status) ≡ true)
    → request_cancel now is_running run_id w ≡ (w, ok false)
unfolding request_cancel
request_cancel_refused w now is_running run_id over = go (lookup run_id w.runs) refl
  where
    go :
        (found : Option RunState)
        → lookup run_id w.runs ≡ found
        → request_cancel now is_running run_id w ≡ (w, ok false)
    go none e = ground (arith, e)
    go (some run) e = ground (arith, e, over run e)

-- What entering the terminal phases leaves: a known run of the same name, gated only if it was.
enter_terminal-IsKnown :
    (w : Worker) (now : ℕ) (why : String) (run : RunState)
    → IsKnown w run
    → (v : Worker) × (next : RunState) × (enter_terminal now why run w ≡ (v, ok next))
      × IsKnown v next
      × (next.run_id ≡ run.run_id)
      × (is_phase RunPhase.gated next.phase ≡ is_phase RunPhase.gated run.phase)
unfolding enter_terminal
enter_terminal-IsKnown w now why run k =
    elim (Bool-cases
      (is_phase RunPhase.terminalizing run.phase || is_phase RunPhase.gated run.phase)) [
        | inl e ↦ (w, run, rw e refl, k, refl, refl)
        | inr e ↦
            (let moved : RunState = record run {
              snapshot = record (run.snapshot) {
                phase = RunPhase.terminalizing;
                next_action = why;
              };
            } in
              let (v, run_ok, kept, _, _) =
                persist_run-IsPersisted w now moved OperationStatus.running
                  (record { sound = k.sound; operation = k.operation; listed = k.listed }) in
              (
                v,
                persisted w.worker_id now OperationStatus.running moved,
                ground (arith, e, run_ok),
                kept.known,
                refl,
                ground (arith, e),
              ))
      ]

-- Entering the terminal phases and then ending the run.
entered-IsEnded :
    (w : Worker) (now : ℕ) (why : String) (e : Ending) (run : RunState)
    → IsKnown w run
    → is_phase RunPhase.gated run.phase ≡ false
    → (u v : Worker) × (mid next : RunState) × (enter_terminal now why run w ≡ (u, ok mid))
      × (is_phase RunPhase.gated mid.phase ≡ false)
      × (finalize now e terminal_path mid u ≡ (v, ok next))
      × IsEnded v next e.gate
      × (next.run_id ≡ run.run_id)
entered-IsEnded w now why e run k open_phase =
    let (u, mid, first, known, same, still) = enter_terminal-IsKnown w now why run k in
    let (v, next, second, ended, named, _) = ending-IsEnded u now e mid known in
    (u, v, mid, next, first, ground (arith, still), second, ended, ground (arith, named, same))

-- A forced ending of a run that has not crashed, whose operation the registry knows and that is not
-- gated, ends it: an infrastructure failure with the gate `infra`, a planner defect and exhausted
-- attempts to resume with the gate `incomplete`.
pub forced-IsEnded :
    (w : Worker) (now : ℕ) (message : String) (run : RunState)
    → IsKnown w run
    → is_phase RunPhase.gated run.phase ≡ false
    → Ends w (finalize_infrastructure_failure now message run) run Gate.infra
      × Ends w (finalize_plan_defect now message run) run Gate.incomplete
      × Ends w (finalize_resume_exhausted now run) run Gate.incomplete
unfolding finalize_infrastructure_failure finalize_plan_defect finalize_resume_exhausted
forced-IsEnded w now message run k open_phase = (infra, plan, resume)
  where
    infra : Ends w (finalize_infrastructure_failure now message run) run Gate.infra
    infra =
        let (u, v, mid, next, first, still, second, ended, named) =
          entered-IsEnded w now "inspect infrastructure failure"
            (record {
              gate = Gate.infra;
              summary = some (reason "infrastructure failure" "message" message);
            })
            run k open_phase in
        (v, next, ground (arith, first, still, second), ended, named)

    plan : Ends w (finalize_plan_defect now message run) run Gate.incomplete
    plan =
        let (u, v, mid, next, first, _, second, ended, named) =
          entered-IsEnded w now "inspect planner defect"
            (record {
              gate = Gate.incomplete;
              summary = some (reason "planner defect" "message" message);
            })
            run k open_phase in
        (v, next, ground (arith, first, second), ended, named)

    resume : Ends w (finalize_resume_exhausted now run) run Gate.incomplete
    resume =
        let (u, v, mid, next, first, _, second, ended, named) =
          entered-IsEnded w now "resume attempts exhausted"
            (record {
              gate = Gate.incomplete;
              summary = some (reason "resume attempts exhausted" "code" "MAX_RESUME_ATTEMPTS");
            })
            run k open_phase in
        (v, next, ground (arith, first, second), ended, named)
