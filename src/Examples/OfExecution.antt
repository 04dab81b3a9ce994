-- ===== src/Examples/OfExecution.antt =====
-- The run of OfWorker, executed by a runtime, cancelled on the way, and taken up by a restart.
use autopw.Prelude.{
  true, false, Option, none, some, [], ◌∷◌, ◌++◌, lookup, insert, Result, ok, err, ◌≡◌, refl,
}
use autopw.Json.{obj, done}
use autopw.Domain.{RunPhase, RunStatus, AuditStatus, Gate}
use autopw.Lease.{PolicyError}
use autopw.Registry.{update_run, update, current_record, next_version}
use autopw.Worker.Scheduler.{Scheduler, default_budgets}
use autopw.Worker.State.{RunState, Worker, put_run, persist_run, persisted_lease, publish}
use autopw.Worker.Runs.{finalize_cancelled, finalize}
use autopw.Worker.Lifecycle.{request_cancel, cancelling}
use autopw.Worker.Executing.{
  VerticalResult, meanwhile, Errors, execute_audit, try_audit, play, fail_audit,
}
use autopw.Worker.Late.{Report, reported, IsDeaf, execute_audit-ignored}
use autopw.Worker.Executed.{IsLive, IsAudited, execute_audit-IsAudited}
use autopw.Worker.Resync.{Site, start}
use autopw.Examples.OfWorker.{audit, bare, run, worker, registry, worker-IsKnown}

abbrev errors : Errors
errors = record {
  thrown_of = λ fault. record { code = none; message = "" };
  is_infrastructure = λ message. false;
}

abbrev result : VerticalResult
result = record {
  gate = Gate.fail;
  audit_status = AuditStatus.complete;
  results_ref = record { handle = "art_1"; kind = "results"; size_bytes = none };
  report_ref = record { handle = "art_2"; kind = "report"; size_bytes = none };
  gate_summary = obj done;
  cases = [];
  evidence_refs = [];
}

abbrev ready : Report
ready = (RunPhase.target_ready, 10, "poll get_run_status")

live : IsLive worker run
unfolding worker lookup insert
live = record { known = worker-IsKnown; in_memory = refl; heard = refl }

execute_audit-IsAudited_example :
    (v : Worker) × (next : RunState) × (execute_audit errors 200 "run_1"
        (record { events = reported (ready ∷ []); outcome = ok result })
        worker
      ≡ (v, ok tt))
    × IsAudited v next result
    × (next.run_id ≡ "run_1")
execute_audit-IsAudited_example =
    execute_audit-IsAudited errors 200 worker run (ready ∷ []) result live

abbrev mark_cancelled : Worker → Worker
mark_cancelled w = put_run w (cancelling run)

is_marked : IsDeaf (mark_cancelled worker) "run_1"
unfolding worker lookup insert
is_marked = record { run = cancelling run; in_memory = refl; deaf = refl }

execute_audit-ignored_example :
    execute_audit errors 200 "run_1"
      (record {
        events = [] ++ (meanwhile mark_cancelled ∷ reported (ready ∷ []));
        outcome = ok result;
      })
      worker
    ≡ (mark_cancelled worker, ok tt)
unfolding play
execute_audit-ignored_example =
    execute_audit-ignored errors 200 "run_1" worker worker [] mark_cancelled (ready ∷ []) result
      refl is_marked

abbrev status_of_run : Option RunState → Option RunStatus
status_of_run none = none
status_of_run (some r) = some r.run_status

abbrev cancelled : Worker
cancelled = (request_cancel 200 true "run_1" worker).0

-- A cancelled run is over; if the execution throws afterwards, it becomes a failed one.
cancelled_then_failed :
    (status_of_run (lookup "run_1" cancelled.runs) ≡ some RunStatus.completed)
    × (status_of_run (
          lookup "run_1"
            (execute_audit errors 300 "run_1"
              (record {
                events = meanwhile (λ w. (request_cancel 200 true "run_1" w).0) ∷ [];
                outcome = err (record { code = none; message = "aborted" });
              })
              worker).0.runs)
        ≡ some RunStatus.failed)
unfolding execute_audit try_audit play fail_audit request_cancel finalize_cancelled finalize
    persist_run persisted_lease publish update_run update current_record next_version worker
    registry lookup insert
cancelled_then_failed = (refl, refl)

abbrev pub queue : Scheduler
queue = record {
  queue = [];
  budgets = default_budgets;
  running = [];
  running_by_workspace = [];
  running_by_run = [];
  in_flight = [];
  stopped = true;
}

abbrev restarting : Worker
restarting = record bare {
  registry = record (bare.registry) {
    by_id = ("op_1", record audit { run_id = some "run_1" }) ∷ [];
  };
}

abbrev site_of : Result PolicyError Site → Site
site_of (ok site) = site
site_of (err e) = (restarting, queue)

abbrev started : Site
started = site_of (start 200 (restarting, queue))
