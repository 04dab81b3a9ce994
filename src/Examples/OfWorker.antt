-- ===== src/Examples/OfWorker.antt =====
-- A worker with one run, whose operation the registry holds.
use autopw.Prelude.{
  ◌+◌, ◌<◌, ◌||◌, String, true, Option, none, some, [], ◌∷◌, lookup, insert, ok, ◌≡◌, refl, arith,
}
use autopw.Json.{obj, done}
use autopw.Domain.{RunPhase, RunStatus, Gate, OperationStatus}
use autopw.Lease.{
  RunLease, default_lease_policy, fresh_lease, observe_lease, takeover_lease, is_lease_stale,
  new_lease, validate_lease_policy,
}
use autopw.Registry.Records.{OperationKind, OperationRecord, default_retention}
use autopw.Registry.{
  Registry, CreateInput, new_record, store_new, update_run, update, current_record, next_version,
}
use autopw.Worker.Scheduler.{QueueItem, Scheduler, default_budgets, enqueue, tick}
use autopw.Worker.Budgets.{IsBudgeted}
use autopw.Worker.Schedules.{idle, enqueues, ticks, here, next, Reach-IsBudgeted}
use autopw.Worker.State.{
  RunState, Worker, persist_run, persisted, persisted_lease, notice_of, publish,
}
use autopw.Worker.Runs.{
  phase_path, finalize_infrastructure_failure, finalize_plan_defect, finalize_resume_exhausted,
}
use autopw.Worker.Lifecycle.{drive, created_run, request_cancel, is_gated, is_closed, probe_of}
use autopw.Worker.Leases.{
  swap_lease, commit_lease, try_takeover, take_run, prepare_resume, resume_observed,
}
use autopw.Worker.Persisting.{IsKnown, IsPersisted, IsSettled, persist_run_lem}
use autopw.Worker.Terminal.{told, newest_first}
use autopw.Worker.Endings.{IsEnded, Ends, ending_told, request_cancel-IsEnded, forced-IsEnded}
use autopw.Worker.Driven.{IsPassed, drive-IsPassed}
use autopw.Worker.Takeovers.{IsForfeit, commit_lease-exclusive, prepare_resume-IsForfeit}

abbrev request : CreateInput
request = record {
  tool = "run_audit";
  client_request_id = "c1";
  workspace_id = "ws";
  kind = OperationKind.run;
  params = obj done;
}

abbrev pub audit : OperationRecord
audit = new_record default_retention request 100 "op_1"

unfoldable pub registry : Registry
registry =
    store_new
      (record {
        by_id = [];
        index = [];
        files = [];
        tombstones = [];
        index_file = [];
        retention = default_retention;
      })
      audit "ws|run_audit|c1"

-- The lease of worker `a` from time 0, found stale twice.
abbrev stale_lease : RunLease
stale_lease = record (fresh_lease "a" 7 default_lease_policy 0) { stale_confirmations = 2 }

abbrev pub bare : Worker
bare = record {
  registry = registry;
  runs = [];
  worker_id = "b";
  pid = 8;
  lease_policy = default_lease_policy;
  active_workers = "b" ∷ [];
  crashed_runs = [];
  has_runtime = true;
  stored = [];
  seeds = [];
  notices = [];
}

abbrev pub run : RunState
run = created_run bare "run_1" "ws" "op_1" stale_lease

abbrev ended : RunState
ended = record run {
  snapshot = record (run.snapshot) { phase = RunPhase.gated; run_status = RunStatus.completed };
}

unfoldable pub worker : Worker
worker = record bare { runs = insert "run_1" run []; stored = insert "run_1" run [] }

over : Worker
over = record bare { runs = insert "run_1" ended [] }

pub worker-IsKnown : IsKnown worker run
unfolding worker registry lookup insert
worker-IsKnown = record { sound = refl; operation = audit; listed = refl }

persist_run_lem_example :
    let after = persisted "b" 200 OperationStatus.running run in
    (v : Worker) × (persist_run 200 run OperationStatus.running worker ≡ (v, ok after))
    × IsPersisted v after OperationStatus.running
    × (v.notices ≡ notice_of after 200 ∷ worker.notices)
    × (v.worker_id ≡ "b")
    × (after ≡ record run { lease = after.lease; state_version = run.state_version + 1 })
    × IsSettled "b" 200 OperationStatus.running run.lease after.lease
unfolding worker
persist_run_lem_example = persist_run_lem worker 200 run OperationStatus.running worker-IsKnown

request_cancel-IsEnded_example :
    (v : Worker) × (after : RunState) × (request_cancel 200 true "run_1" worker ≡ (v, ok true))
    × IsEnded v after Gate.incomplete
    × (after.run_id ≡ "run_1")
    × (told v ≡ ending_told (RunPhase.terminalizing ∷ []))
unfolding worker lookup insert
request_cancel-IsEnded_example =
    request_cancel-IsEnded worker 200 true run refl worker-IsKnown refl refl refl

over_is_closed :
    (r : RunState)
    → lookup "run_1" over.runs ≡ some r
    → (is_gated r.phase || is_closed r.run_status) ≡ true
unfolding over lookup insert
over_is_closed r h = ground (arith, h)

forced-IsEnded_example :
    Ends worker (finalize_infrastructure_failure 200 "ECONNREFUSED" run) run Gate.infra
    × Ends worker (finalize_plan_defect 200 "ECONNREFUSED" run) run Gate.incomplete
    × Ends worker (finalize_resume_exhausted 200 run) run Gate.incomplete
forced-IsEnded_example = forced-IsEnded worker 200 "ECONNREFUSED" run worker-IsKnown refl

drive-IsPassed_example :
    (v : Worker) × (after : RunState) × (drive 200 0 phase_path run worker ≡ (v, ok after))
    × IsPassed v after
    × (after.run_id ≡ "run_1")
    × (told v ≡ RunPhase.gated ∷ newest_first phase_path [])
unfolding worker
drive-IsPassed_example = drive-IsPassed worker 200 0 phase_path run worker-IsKnown refl

abbrev new_lease_of_b : RunLease
new_lease_of_b = record (fresh_lease "b" 8 default_lease_policy 50000) { state_version = 2 }

abbrev committed : RunState
committed = record run { lease = new_lease_of_b }

after_commit : Worker
after_commit = record worker {
  runs = insert "run_1" committed worker.runs;
  stored = insert "run_1" committed worker.stored;
}

commits : commit_lease true run new_lease_of_b 1 worker ≡ (after_commit, some committed)
unfolding commit_lease swap_lease worker after_commit lookup insert
commits = refl

-- Worker `c` has read the same version and comes second.
rival : Worker
rival = record after_commit { worker_id = "c"; pid = 9 }

commit_lease-exclusive_example : swap_lease true rival "run_1" 1 stale_lease ≡ none
unfolding worker rival
commit_lease-exclusive_example =
    commit_lease-exclusive worker after_commit rival true true run committed new_lease_of_b
      stale_lease 1 refl commits (omega arith) refl

resume_end : Worker
unfolding prepare_resume resume_observed observe_lease try_takeover take_run commit_lease swap_lease
    persist_run publish update_run update
resume_end = (prepare_resume true true 50000 run worker).0

resumes : prepare_resume true true 50000 run worker ≡ (resume_end, ok true)
unfolding resume_end prepare_resume resume_observed observe_lease try_takeover take_run commit_lease
    swap_lease persist_run publish update_run update current_record next_version takeover_lease
    is_lease_stale new_lease validate_lease_policy persisted_lease worker registry lookup insert
resumes = refl

prepare_resume-IsForfeit_example :
    (run.resume_attempts < 3)
    × IsForfeit run.lease 50000 (probe_of worker run.lease) (run.lease.stale_confirmations + 1)
prepare_resume-IsForfeit_example =
    prepare_resume-IsForfeit worker resume_end true true 50000 run resumes

abbrev item : QueueItem
item = record {
  operation_id = "op_1";
  kind = OperationKind.run;
  workspace_id = "ws";
  request_run = none;
  request = obj done;
  tool_name = "run_audit";
}

abbrev no_run : String → Option String
no_run id = none

abbrev started : Scheduler
started = (tick (enqueue (idle default_budgets) item) no_run).0

Reach-IsBudgeted_example : IsBudgeted started
Reach-IsBudgeted_example = Reach-IsBudgeted default_budgets (
    next (next here (enqueues (idle default_budgets) item))
      (ticks (enqueue (idle default_budgets) item) no_run))
