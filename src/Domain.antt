-- ===== src/Domain.antt =====
-- packages/mcp-contracts/src/types/enums.ts: the enumerations of the frozen contracts that the
-- components share. Their constructors are written behind their type.
use autopw.Prelude.{List, [], ◌∷◌}

pub data RunPhase : Type 0 where
  created target_ready seed_resolved discovered coverage_derived plan_filled plan_frozen : RunPhase
  suite_generated suite_frozen running execution_finished runtime_finalized : RunPhase
  terminalizing audited reported gated : RunPhase

pub data RunStatus : Type 0 where
  active interrupted failed completed : RunStatus

pub data AuditStatus : Type 0 where
  complete incomplete : AuditStatus

pub data OperationStatus : Type 0 where
  accepted running completed failed cancelled : OperationStatus

pub data Gate : Type 0 where
  incomplete infra fail unstable pass : Gate

pub data ExecutionStatus : Type 0 where
  not_run running passed failed flaky interrupted blocked_resume infra_blocked : ExecutionStatus

pub data FatalFailureClass : Type 0 where
  storage_integrity schema_bundle_invalid trust_boundary_broken : FatalFailureClass
  directory_anchor_lost state_corrupted : FatalFailureClass

-- The phases in the order of the contract; `terminalizing` stands between `runtime_finalized` and
-- `audited`.
abbrev pub run_phase : List RunPhase
run_phase =
    RunPhase.created ∷ RunPhase.target_ready ∷ RunPhase.seed_resolved ∷ RunPhase.discovered
    ∷ RunPhase.coverage_derived ∷ RunPhase.plan_filled ∷ RunPhase.plan_frozen
    ∷ RunPhase.suite_generated ∷ RunPhase.suite_frozen ∷ RunPhase.running
    ∷ RunPhase.execution_finished ∷ RunPhase.runtime_finalized ∷ RunPhase.terminalizing
    ∷ RunPhase.audited ∷ RunPhase.reported ∷ RunPhase.gated ∷ []

pub RunPhase-discrete : Discrete RunPhase
RunPhase-discrete = hlevel

pub RunStatus-discrete : Discrete RunStatus
RunStatus-discrete = hlevel
