-- ===== src/Worker/Runs.antt =====
-- packages/worker/src/index.ts: the phases of a run, and the paths by which it ends.
use autopw.Prelude.{
  ℕ, String, Bool, true, false, ◌||◌, Option, none, some, List, [], ◌∷◌, if◌then◌else◌,
}
use autopw.Json.{Json, obj, field, done, str}
use autopw.Domain.{RunPhase, RunStatus, AuditStatus, Gate, OperationStatus}
use autopw.Registry.Records.{RunSnapshot}
use autopw.Worker.State.{RunState, M, pure, ◌>>=◌, persist_run}

-- `PHASE_PATH`
abbrev pub phase_path : List RunPhase
phase_path =
    RunPhase.created ∷ RunPhase.target_ready ∷ RunPhase.seed_resolved ∷ RunPhase.discovered
    ∷ RunPhase.coverage_derived ∷ RunPhase.plan_filled ∷ RunPhase.plan_frozen
    ∷ RunPhase.suite_generated ∷ RunPhase.suite_frozen ∷ RunPhase.running
    ∷ RunPhase.execution_finished ∷ RunPhase.runtime_finalized ∷ RunPhase.audited
    ∷ RunPhase.reported ∷ []

-- `PHASE_PATH.indexOf(phase) + 1`, which is 0 for a phase that is not on the path.
abbrev pub start_index : RunPhase → ℕ
start_index RunPhase.created = 1
start_index RunPhase.target_ready = 2
start_index RunPhase.seed_resolved = 3
start_index RunPhase.discovered = 4
start_index RunPhase.coverage_derived = 5
start_index RunPhase.plan_filled = 6
start_index RunPhase.plan_frozen = 7
start_index RunPhase.suite_generated = 8
start_index RunPhase.suite_frozen = 9
start_index RunPhase.running = 10
start_index RunPhase.execution_finished = 11
start_index RunPhase.runtime_finalized = 12
start_index RunPhase.audited = 13
start_index RunPhase.reported = 14
start_index _ = 0

-- The phases that `_finalizeCancelled` and its siblings go through.
abbrev pub terminal_path : List RunPhase
terminal_path =
    RunPhase.runtime_finalized ∷ RunPhase.audited ∷ RunPhase.reported ∷ RunPhase.gated ∷ []

-- The gate and the summary that end a run; a cancellation leaves the summary as it is.
pub record Ending : Type 0 where
  pub gate : Gate
  pub summary : Option Json

-- What one round of the loop over `terminal_path` writes before it persists.
abbrev pub end_in : Ending → RunPhase → RunSnapshot → RunSnapshot
end_in e RunPhase.audited s = record s {
  phase = RunPhase.audited;
  audit_status = some AuditStatus.incomplete;
}
end_in e RunPhase.gated s = record s {
  phase = RunPhase.gated;
  run_status = RunStatus.completed;
  gate = some e.gate;
  gate_summary = elim e.summary [ some j ↦ some j | none ↦ s.gate_summary ];
  next_action = "get_run_result";
}
end_in e phase s = record s { phase = phase }

abbrev pub status_in : RunPhase → OperationStatus
status_in RunPhase.gated = OperationStatus.completed
status_in _ = OperationStatus.running

-- The loop that ends a run.
unfoldable pub finalize : ℕ → Ending → List RunPhase → RunState → M RunState
finalize now e [] run = pure run
finalize now e (phase ∷ rest) run = do
  next ← persist_run now (record run { snapshot = end_in e phase run.snapshot }) (status_in phase)
  finalize now e rest next

abbrev pub cancelled_ending : Ending
cancelled_ending = record { gate = Gate.incomplete; summary = none }

unfoldable pub finalize_cancelled : ℕ → RunState → M RunState
unfolding finalize
finalize_cancelled now run = finalize now cancelled_ending terminal_path run

abbrev pub is_phase : RunPhase → RunPhase → Bool
is_phase RunPhase.gated RunPhase.gated = true
is_phase RunPhase.terminalizing RunPhase.terminalizing = true
is_phase _ _ = false

-- `if (run.phase !== "TERMINALIZING" && run.phase !== "GATED")`
unfoldable pub enter_terminal : ℕ → String → RunState → M RunState
enter_terminal now next_action run =
    if is_phase RunPhase.terminalizing run.phase || is_phase RunPhase.gated run.phase
    then pure run
    else persist_run now
        (record run {
          snapshot = record (run.snapshot) {
            phase = RunPhase.terminalizing;
            next_action = next_action;
          };
        })
        OperationStatus.running

abbrev pub reason : String → String → String → Json
reason why key message = obj (field "reason" (str why) (field key (str message) done))

unfoldable pub finalize_infrastructure_failure : ℕ → String → RunState → M RunState
unfolding finalize enter_terminal
finalize_infrastructure_failure now message run = do
  next ← enter_terminal now "inspect infrastructure failure" run
  if is_phase RunPhase.gated next.phase
      then pure next
      else finalize now
          (record {
            gate = Gate.infra;
            summary = some (reason "infrastructure failure" "message" message);
          })
          terminal_path next

unfoldable pub finalize_plan_defect : ℕ → String → RunState → M RunState
unfolding finalize enter_terminal
finalize_plan_defect now message run = do
  next ← enter_terminal now "inspect planner defect" run
  finalize now
      (record {
        gate = Gate.incomplete;
        summary = some (reason "planner defect" "message" message);
      })
      terminal_path next

unfoldable pub finalize_resume_exhausted : ℕ → RunState → M RunState
unfolding finalize enter_terminal
finalize_resume_exhausted now run = do
  next ← enter_terminal now "resume attempts exhausted" run
  finalize now
      (record {
        gate = Gate.incomplete;
        summary = some (reason "resume attempts exhausted" "code" "MAX_RESUME_ATTEMPTS");
      })
      terminal_path next
