-- ===== src/Audit/Records.antt =====
-- packages/audit/src/index.ts: the records that the audit reads and raises.
use autopw.Prelude.{ℕ, String, Bool, Option, List, Dict}
use autopw.Triage.{TriageClassification, TriageSignal, TriageDecision, Strength}

pub data CaseStatus : Type 0 where
  passed failed blocked_resume infra_blocked : CaseStatus

pub data CleanupStatus : Type 0 where
  cleaned not_cleaned skipped : CleanupStatus

pub record EvidenceRef : Type 0 where
  pub handle : String
  pub kind : String

-- The members of an execution result that the audit reads.
pub record CaseResult : Type 0 where
  pub execution_id : String
  pub case_id : String
  pub status : CaseStatus
  pub is_flaky : Bool
  pub evidence_refs : List EvidenceRef
  pub cleanup_status : Option CleanupStatus
  pub error : Option String
  pub classification : Option TriageClassification
  pub failure_signal : Option TriageSignal

pub data CaseKind : Type 0 where
  ui api hybrid : CaseKind

pub data Risk : Type 0 where
  read_only mutating destructive : Risk

pub record AuditCaseLike : Type 0 where
  pub case_id : String
  pub kind : Option CaseKind
  pub risk : Option Risk
  pub confidence : Option ℕ
  pub origin_type : Option String
  pub requirement_refs : List String

pub data RequirementStatus : Type 0 where
  tier_skipped not_applicable other_status : RequirementStatus

-- The member `oracle`: absent, `null`, or an oracle with its kind.
pub data OracleMember : Type 0 where
  no_oracle null_oracle : OracleMember
  an_oracle : Option String → OracleMember

pub record AuditRequirementLike : Type 0 where
  pub requirement_id : String
  pub status : RequirementStatus
  pub evidence_refs : Option (List String)
  pub oracle : OracleMember
  -- `oracle_specification?.kind` and `oracle_specification?.proven`
  pub specified_kind : Option String
  pub specified_proven : Option Bool

-- A map that is not given is empty.
pub record AuditOptions : Type 0 where
  pub requirements : List AuditRequirementLike
  pub requirement_case_map : Dict (List String)
  pub requirement_oracle_map : Dict (List String)
  pub cases : List AuditCaseLike

pub record AuditIssue : Type 0 where
  pub id : String
  pub classification : TriageClassification
  pub confidence : Strength
  pub execution_id : String
  pub evidence_refs : List String
  pub message : String
  pub triage : TriageDecision
  pub failure_signal : Option TriageSignal

-- An issue of class `UNSTABLE` with confidence `HIGH` and a fixed message.
pub record FlakyIssue : Type 0 where
  pub id : String
  pub execution_id : String
  pub evidence_refs : List String
