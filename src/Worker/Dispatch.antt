-- ===== src/Worker/Dispatch.antt =====
-- packages/worker/src/index.ts: `_run`, which carries out one operation, and `cleanup`.
use Prim.Native.String.{◌++◌}
use autopw.Prelude.{
  ℕ, String, Bool, true, false, not, ◌&&◌, ◌||◌, Option, none, some, List, [], ◌∷◌, drop, str_eq,
  opt_str_eq, keep, if◌then◌else◌, lookup, Result, ok, err,
}
use autopw.Json.{Json, Items, Fields}
use autopw.Domain.{RunStatus, OperationStatus}
use autopw.Registry.Records.{OperationRecord, OperationKind}
use autopw.Registry.{get, update}
use autopw.Worker.State.{RunState, Worker, Fault, registry_fault, M, pure, ◌>>=◌, ◌>>◌}
use autopw.Worker.Runs.{phase_path, start_index}
use autopw.Worker.Lifecycle.{request_cancel, drive}
use autopw.Worker.Leases.{prepare_resume}
use autopw.Worker.Executing.{Errors, Execution, execute_audit}

abbrev pub text_field : String → String → Fields → Fields
text_field name value rest = Fields.field name (Json.str value) rest

abbrev pub flag_field : String → Bool → Fields → Fields
flag_field name value rest = Fields.field name (Json.bool value) rest

pub record CoveragePreview : Type 0 where
  pub result_ref : Option Json
  pub summary : Json

-- What an operation meets outside of the worker: the lock of a run's state, the tasks that run, what
-- the runtime does, and what other methods do while it previews.
pub record Surroundings : Type 0 where
  pub errors : Errors
  pub lock_free : Bool
  pub still_free : Bool
  pub is_running : String → Bool
  pub execution : Execution
  pub preview : Result Fault CoveragePreview
  pub during_preview : Worker → Worker

pub record CleanupResult : Type 0 where
  pub is_ok : Bool
  pub cleaned : List String

-- `cleanup`: the seed file is removed, and named as cleaned whether or not it was there.
unfoldable pub cleanup : Worker → String → Worker × CleanupResult
cleanup w run_id = elim (lookup run_id w.runs) [
  | none ↦ (w, record { is_ok = false; cleaned = [] })
  | some run ↦ (
    if w.has_runtime then record w { seeds = keep (λ s. not (str_eq s run_id)) w.seeds } else w,
    record { is_ok = true; cleaned = "seed_data" ∷ "temp_browser" ∷ [] },
  )
]

abbrev pub cleanup_json : String → CleanupResult → Json
cleanup_json run_id c =
    if c.is_ok
    then Json.obj (
        flag_field "ok" true (
          Fields.field "cleaned"
            (Json.arr
              (Items.cons (Json.str "seed_data") (Items.cons (Json.str "temp_browser") Items.nil)))
            (flag_field "idempotent" true (text_field "run_id" run_id Fields.done))))
    else Json.obj (flag_field "ok" false (text_field "code" "RUN_NOT_FOUND" Fields.done))

-- `this.registry.update` with a mutator that returns the record.
unfoldable pub update_operation : ℕ → String → (OperationRecord → OperationRecord) → M (Unit {0})
update_operation now id change w = elim (update w.registry now id (λ o. some (change o))) [
  | err e ↦ (w, err (registry_fault e))
  | ok (next, o) ↦ (record w { registry = next }, ok tt)
]

abbrev pub failing : OperationRecord → OperationRecord
failing o = record o { status = OperationStatus.failed }

abbrev pub completing : Json → OperationRecord → OperationRecord
completing summary o = record o {
  status = OperationStatus.completed;
  result_summary = some summary;
}

abbrev pub not_resumed : String → Json
not_resumed reason = Json.obj (flag_field "resumed" false (text_field "reason" reason Fields.done))

abbrev pub is_own_lease : Worker → RunState → Bool
is_own_lease w run = opt_str_eq run.lease.owner (some w.worker_id)

-- `operation.run_id || ""`, looked up.
abbrev pub run_of_operation : Worker → OperationRecord → Option RunState
run_of_operation w o = elim o.run_id [ none ↦ lookup "" w.runs | some id ↦ lookup id w.runs ]

-- What goes on only if the method before it returned true.
abbrev pub if_true : M Bool → M (Unit {0}) → M (Unit {0}) → M (Unit {0})
if_true m on_true on_false = m >>= λ b. if b then on_true else on_false

-- The first branch: an audit with the runtime.
unfoldable pub run_audit : Surroundings → ℕ → OperationRecord → M (Unit {0})
unfolding execute_audit update_operation
run_audit x now o w = elim (run_of_operation w o) [
  | none ↦ update_operation now o.operation_id failing w
  | some run ↦
      if is_own_lease w run
      then execute_audit x.errors now run.run_id x.execution w
      else if_true (prepare_resume x.lock_free x.still_free now run)
          (execute_audit x.errors now run.run_id x.execution) (pure tt) w
]

abbrev pub default_ref : String → Json
default_ref operation_id =
    Json.obj
      (text_field "handle" ("art_cdd_" ++ operation_id) (text_field "kind" "cdd.json" Fields.done))

abbrev pub default_summary : Json
default_summary = Json.obj (
    Fields.field "skeleton_count" (Json.num 0)
      (Fields.field "blockers" (Json.num 0) (text_field "draft" "CDD Draft" Fields.done)))

abbrev pub previewed : String → Option CoveragePreview → OperationRecord → OperationRecord
previewed operation_id none o = record o {
  status = OperationStatus.completed;
  result_ref = some (default_ref operation_id);
  result_summary = some default_summary;
}
previewed operation_id (some p) o = record o {
  status = OperationStatus.completed;
  result_ref = elim p.result_ref [ none ↦ some (default_ref operation_id) | some r ↦ some r ];
  result_summary = some p.summary;
}

-- The record may be gone when the preview is there.
abbrev pub keep_preview : ℕ → String → Option CoveragePreview → M (Unit {0})
keep_preview now id p w = elim (get w.registry id) [
  | none ↦ (w, ok tt)
  | some o ↦ update_operation now id (previewed id p) w
]

-- The branch of a preview.
unfoldable pub run_preview : Surroundings → ℕ → String → M (Unit {0})
unfolding update_operation
run_preview x now id w =
    let later = x.during_preview w in
    if w.has_runtime
    then (elim x.preview [ err e ↦ (later, err e) | ok p ↦ keep_preview now id (some p) later ])
    else keep_preview now id none later

-- The branch of a cancellation.
unfoldable pub run_cancel : Surroundings → ℕ → String → String → M (Unit {0})
unfolding update_operation
run_cancel x now id run_id = request_cancel now (x.is_running run_id) run_id >>= λ cancelled.
    update_operation now id (
      completing
        (Json.obj (flag_field "cancelled" cancelled (text_field "run_id" run_id Fields.done))))

-- The branch of a cleanup.
unfoldable pub run_cleanup : ℕ → String → String → M (Unit {0})
unfolding update_operation cleanup
run_cleanup now id run_id w =
    let (cleaned, c) = cleanup w run_id in
    update_operation now id
      (λ o. record o {
        status = if c.is_ok then OperationStatus.completed else OperationStatus.failed;
        result_summary = some (cleanup_json run_id c);
      })
      cleaned

-- The loop over the phases behind the current one.
abbrev pub run_phases : ℕ → RunState → M (Unit {0})
run_phases now run =
    drive now (start_index run.phase) (drop (start_index run.phase) phase_path) run >> pure tt

-- The phases of the run as it is after a takeover.
abbrev pub resumed_phases : ℕ → String → M (Unit {0})
resumed_phases now run_id w = elim (lookup run_id w.runs) [
  | none ↦ (w, ok tt)
  | some run ↦ run_phases now run w
]

abbrev pub is_completed : RunStatus → Bool
is_completed RunStatus.completed = true
is_completed _ = false

abbrev pub is_active : RunStatus → Bool
is_active RunStatus.active = true
is_active _ = false

abbrev pub is_interrupted : RunStatus → Bool
is_interrupted RunStatus.interrupted = true
is_interrupted _ = false

-- `resume_run`, for a run that is active or interrupted.
unfoldable pub run_resume : Surroundings → ℕ → String → RunState → M (Unit {0})
unfolding update_operation
run_resume x now id run w =
    if is_active run.run_status && is_own_lease w run
    then update_operation now id (completing (not_resumed "run already active")) w
    else if_true (prepare_resume x.lock_free x.still_free now run) (resumed_phases now run.run_id)
        (update_operation now id (completing (not_resumed "lease not stale or takeover lost"))) w

-- The rest of `_run`.
unfoldable pub run_fixture : Surroundings → ℕ → String → OperationRecord → M (Unit {0})
unfolding update_operation run_resume
run_fixture x now tool_name o w = elim (run_of_operation w o) [
  | none ↦ update_operation now o.operation_id failing w
  | some run ↦
      if is_completed run.run_status && str_eq tool_name "resume_run"
      then update_operation now o.operation_id (completing (not_resumed "run already terminal")) w
      else (if not (is_active run.run_status || is_interrupted run.run_status)
          then update_operation now o.operation_id failing w
          else (if str_eq tool_name "resume_run"
              then run_resume x now o.operation_id run w
              else run_phases now run w))
]

abbrev pub is_preview : OperationKind → Bool
is_preview OperationKind.preview = true
is_preview _ = false

-- `_run`, for the kind, the tool and the `run_id` of the queued request.
unfoldable pub run_operation :
    Surroundings → ℕ → String → OperationKind → String → String → M (Unit {0})
unfolding run_audit run_preview run_cancel run_cleanup run_fixture
run_operation x now id kind tool_name run_id w = elim (get w.registry id) [
  | none ↦ (w, ok tt)
  | some o ↦
      if w.has_runtime && str_eq tool_name "run_audit"
      then run_audit x now o w
      else (if str_eq tool_name "derive_coverage" || is_preview kind
          then run_preview x now id w
          else (if str_eq tool_name "cancel_run"
              then run_cancel x now id run_id w
              else (if str_eq tool_name "cleanup_run"
                  then run_cleanup now id run_id w
                  else run_fixture x now tool_name o w)))
]
