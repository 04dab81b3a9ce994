-- ===== src/Worker/Driven.antt =====
-- packages/worker/src/index.ts: the undisturbed drive of a run through its phases.
use autopw.Prelude.{ℕ, ◌+◌, false, none, some, List, [], ◌∷◌, ok, ◌≡◌, refl, arith}
use autopw.Domain.{RunPhase, RunStatus, AuditStatus, Gate, OperationStatus}
use autopw.Worker.State.{RunState, Worker, persisted}
use autopw.Worker.Lifecycle.{advance, complete_run, drive, progress_of}
use autopw.Worker.Persisting.{IsKnown, IsPersisted, persist_run-IsPersisted}
use autopw.Worker.Terminal.{told, newest_first}

-- What the drive has made of the run.
pub record IsPassed (v : Worker) (run : RunState) : Type 0 where
  pub persisted_run : IsPersisted v run OperationStatus.completed
  pub gated : run.phase ≡ RunPhase.gated
  pub closed : run.run_status ≡ RunStatus.completed
  pub complete : run.audit_status ≡ some AuditStatus.complete
  pub passes : run.gate ≡ some Gate.pass
  pub all_done : run.progress_pct ≡ 100
  pub free : run.lease.owner ≡ none

-- A known run that nobody cancels is driven through all the phases that it is given, each is
-- notified once and in order, and it ends gated and passed, with its lease released and the
-- operation completed.
pub drive-IsPassed :
    (w : Worker) (now index : ℕ) (phases : List RunPhase) (run : RunState)
    → IsKnown w run
    → run.cancel_requested ≡ false
    → (v : Worker) × (next : RunState) × (drive now index phases run w ≡ (v, ok next))
      × IsPassed v next
      × (next.run_id ≡ run.run_id)
      × (told v ≡ RunPhase.gated ∷ newest_first phases (told w))
unfolding drive advance complete_run
drive-IsPassed w now index [] run k open_run =
    let last : RunState = record run {
      snapshot = record (run.snapshot) {
        phase = RunPhase.gated;
        run_status = RunStatus.completed;
        audit_status = some AuditStatus.complete;
        gate = some Gate.pass;
        progress_pct = 100;
        next_action = "get_run_result";
      };
    } in
    let (v, run_ok, kept, notices, _) =
      persist_run-IsPersisted w now last OperationStatus.completed
        (record { sound = k.sound; operation = k.operation; listed = k.listed }) in
    (
      v,
      persisted w.worker_id now OperationStatus.completed last,
      ground (arith, open_run, run_ok),
      record {
        persisted_run = kept;
        gated = refl;
        closed = refl;
        complete = refl;
        passes = refl;
        all_done = refl;
        free = kept.released refl;
      },
      refl,
      ground (arith, notices),
    )
drive-IsPassed w now index (p ∷ ps) run k open_run =
    let moved : RunState = record run {
      snapshot = record (run.snapshot) {
        phase = p;
        progress_pct = progress_of index;
        next_action = "poll get_run_status";
      };
    } in
    let (u, run_ok, kept, notices, _) =
      persist_run-IsPersisted w now moved OperationStatus.running
        (record { sound = k.sound; operation = k.operation; listed = k.listed }) in
    let mid = persisted w.worker_id now OperationStatus.running moved in
    let (v, next, rest_ok, passed, named, heard) =
      drive-IsPassed u now (index + 1) ps mid kept.known open_run in
    (
      v,
      next,
      ground (arith, open_run, run_ok, rest_ok),
      passed,
      named,
      ground (arith, notices, heard),
    )
