-- ===== src/Worker/Executing.antt =====
-- packages/worker/src/index.ts: the part of `_run` that carries out an audit with the runtime. What
-- the runtime reports and returns is an argument, with what other methods do in between.
use autopw.Prelude.{
  ℕ, String, Bool, ◌||◌, Option, none, some, List, [], ◌∷◌, opt_str_eq, includes, if◌then◌else◌,
  lookup, Result, ok, err,
}
use autopw.Json.{Json, obj, field, done, str}
use autopw.Domain.{RunPhase, RunStatus, AuditStatus, OperationStatus, Gate, FatalFailureClass}
use autopw.Registry.Records.{ArtifactSnapshot}
use autopw.Worker.State.{RunState, Worker, Fault, M, pure, ◌>>◌, persist_run}
use autopw.Worker.Runs.{finalize_plan_defect, finalize_infrastructure_failure}
use autopw.Worker.Lifecycle.{is_gated}

pub record VerticalResult : Type 0 where
  pub gate : Gate
  pub audit_status : AuditStatus
  pub results_ref : ArtifactSnapshot
  pub report_ref : ArtifactSnapshot
  pub gate_summary : Json
  pub cases : List Json
  pub evidence_refs : List ArtifactSnapshot

-- An error: its code, if it has one, and its message.
pub record Thrown : Type 0 where
  pub code : Option String
  pub message : String

-- While the runtime executes, it reports a phase, or some other method changes the worker.
pub data Event : Type 0 where
  reports : RunPhase → ℕ → String → Event
  meanwhile : (Worker → Worker) → Event

pub record Execution : Type 0 where
  pub events : List Event
  pub outcome : Result Thrown VerticalResult

-- The errors of the worker's own methods as they are caught, and the test of
-- `_isInfrastructureError` on a message.
pub record Errors : Type 0 where
  pub thrown_of : Fault → Thrown
  pub is_infrastructure : String → Bool

-- A method whose errors are caught as those of the runtime are.
abbrev pub Attempt : Type 0
Attempt = Worker → Worker × Result Thrown (Unit {0})

abbrev pub caught_as :
    {A : Type 0} → Errors → Worker × Result Fault A → Worker × Result Thrown (Unit {0})
caught_as x (w, ok a) = (w, ok tt)
caught_as x (w, err e) = (w, err (x.thrown_of e))

abbrev pub status_of_phase : RunPhase → OperationStatus
status_of_phase phase =
    if is_gated phase then OperationStatus.completed else OperationStatus.running

-- A report is dropped for a run that is cancelled or that has crashed.
abbrev pub is_deaf : Worker → RunState → Bool
is_deaf w run = run.cancel_requested || includes w.crashed_runs run.run_id

-- `onPhase`; the run is the object in the worker's map.
unfoldable pub on_phase : Errors → ℕ → String → RunPhase → ℕ → String → Attempt
on_phase x now run_id phase progress next_action w = elim (lookup run_id w.runs) [
  | none ↦ (w, ok tt)
  | some run ↦
      if is_deaf w run
      then (w, ok tt)
      else caught_as x (
          persist_run now
            (record run {
              snapshot = record (run.snapshot) {
                phase = phase;
                progress_pct = progress;
                next_action = next_action;
              };
            })
            (status_of_phase phase) w)
]

abbrev pub go_on : Attempt → Worker × Result Thrown (Unit {0}) → Worker × Result Thrown (Unit {0})
go_on next (w, ok _) = next w
go_on next (w, err e) = (w, err e)

-- The events of an execution; an error of `onPhase` ends it.
unfoldable pub play : Errors → ℕ → String → List Event → Attempt
unfolding on_phase
play x now run_id [] w = (w, ok tt)
play x now run_id (reports phase progress next_action ∷ events) w =
    go_on (play x now run_id events) (on_phase x now run_id phase progress next_action w)
play x now run_id (meanwhile act ∷ events) w = play x now run_id events (act w)

-- The run with the result of its execution.
abbrev pub audited_run : VerticalResult → RunState → RunState
audited_run r run = record run {
  snapshot = record (run.snapshot) {
    run_status = RunStatus.completed;
    phase = RunPhase.gated;
    audit_status = some r.audit_status;
    gate = some r.gate;
    progress_pct = 100;
    next_action = "get_run_result";
    results_ref = some r.results_ref;
    report_ref = some r.report_ref;
    gate_summary = some r.gate_summary;
    cases = some r.cases;
    evidence_refs = some r.evidence_refs;
    audit_summary = some (obj (field "audit_status" (str (name_of r.audit_status)) done));
  };
}
  where
    name_of : AuditStatus → String
    name_of AuditStatus.complete = "COMPLETE"
    name_of _ = "INCOMPLETE"

-- What follows an execution that returned.
unfoldable pub keep_result : Errors → ℕ → String → VerticalResult → Attempt
keep_result x now run_id r w = elim (lookup run_id w.runs) [
  | none ↦ (w, ok tt)
  | some run ↦
      if is_deaf w run
      then (w, ok tt)
      else caught_as x (persist_run now (audited_run r run) OperationStatus.completed w)
]

-- The `try` of an audit.
unfoldable pub try_audit : Errors → ℕ → String → Execution → Attempt
unfolding play keep_result
try_audit x now run_id e w =
    go_on
      (λ played. elim e.outcome [
        | err thrown ↦ (played, err thrown)
        | ok result ↦ keep_result x now run_id result played
      ])
      (play x now run_id e.events w)

abbrev pub failed_run : RunState → RunState
failed_run run = record run {
  snapshot = record (run.snapshot) {
    run_status = RunStatus.failed;
    fatal_class = some FatalFailureClass.state_corrupted;
    next_action = "inspect failure artifact";
  };
}

-- The `catch` of an audit.
unfoldable pub fail_audit : Errors → ℕ → Thrown → RunState → M RunState
fail_audit x now e run =
    if opt_str_eq e.code (some "PLAN_DEFECT")
    then finalize_plan_defect now e.message run
    else (if x.is_infrastructure e.message
        then finalize_infrastructure_failure now e.message run
        else persist_run now (failed_run run) OperationStatus.failed)

abbrev pub recover_audit :
    Errors → ℕ → String → Worker × Result Thrown (Unit {0}) → Worker × Result Fault (Unit {0})
recover_audit x now run_id (w, ok _) = (w, ok tt)
recover_audit x now run_id (w, err e) = elim (lookup run_id w.runs) [
  | none ↦ (w, ok tt)
  | some run ↦ (fail_audit x now e run >> pure tt) w
]

-- The audit of a run that this worker holds.
unfoldable pub execute_audit : Errors → ℕ → String → Execution → M (Unit {0})
unfolding try_audit fail_audit
execute_audit x now run_id e w = recover_audit x now run_id (try_audit x now run_id e w)
