-- ===== src/Gate.antt =====
-- packages/gate/src/index.ts: the verdict on a run. The source divides in floating point to compare
-- the coverage of P0 requirements with its threshold; that comparison is an argument.
pub mod Verdict
use autopw.Prelude.{
  ℕ, zero, suc, ◌+◌, String, Bool, true, false, not, ◌&&◌, ◌||◌, Option, none, some, List, [], ◌∷◌,
  ltb, leb, ◌==◌, any, keep, includes, length, str_eq, or_zero, if◌then◌else◌,
}
use autopw.Domain.{AuditStatus, Gate}

pub data Reconciliation : Type 0 where
  complete mismatch : Reconciliation

pub record GateAudit : Type 0 where
  pub audit_status : AuditStatus
  pub evidence_complete : Option Bool
  pub cleanup_complete : Option Bool
  pub requirement_reconciliation : Option Reconciliation
  pub oracle_reconciliation : Option Reconciliation

pub record GateCoverage : Type 0 where
  pub p0_required : Option ℕ
  pub p0_planned : Option ℕ
  pub p0_executable : Option ℕ
  pub p0_executed : Option ℕ
  pub p0_passed : Option ℕ

pub record GatePolicy : Type 0 where
  pub min_p0_coverage_pct : Option ℕ
  pub max_flaky_cases : Option ℕ

-- The classifications that the gate tells apart.
pub data Classification : Type 0 where
  product_defect plan_defect test_defect infra_defect unstable other : Classification

-- An issue; `execution_id` is `none` where it is no text.
pub record Issue : Type 0 where
  pub classification : Classification
  pub execution_id : Option String

-- A result; a missing `execution_id` reads as the empty text.
pub record ExecutionResult : Type 0 where
  pub is_flaky : Bool
  pub execution_id : String

pub record GateInput : Type 0 where
  pub audit : Option GateAudit
  pub audit_status : Option AuditStatus
  pub coverage : GateCoverage
  pub policy : GatePolicy
  pub issues : List Issue
  pub execution_results : List ExecutionResult

pub record GateOutcome : Type 0 where
  pub gate : Gate
  pub exit_code : ℕ
  pub reason : String

abbrev is_incomplete : AuditStatus → Bool
is_incomplete AuditStatus.complete = false
is_incomplete AuditStatus.incomplete = true

abbrev is_mismatch : Option Reconciliation → Bool
is_mismatch (some mismatch) = true
is_mismatch _ = false

abbrev is_false : Option Bool → Bool
is_false (some false) = true
is_false _ = false

-- The first condition of `evaluateGate`.
unfoldable pub is_unreconciled : Option GateAudit → Option AuditStatus → Bool
is_unreconciled (some a) status =
    is_incomplete a.audit_status
    || is_mismatch a.requirement_reconciliation
    || is_mismatch a.oracle_reconciliation
    || is_false a.evidence_complete
    || is_false a.cleanup_complete
is_unreconciled none (some status) = is_incomplete status
is_unreconciled none none = true

-- The second condition: some P0 requirement is not planned or not executable.
unfoldable pub is_unplanned : GateCoverage → Bool
is_unplanned c =
    ltb 0 (or_zero c.p0_required)
    && (ltb (or_zero c.p0_executable) (or_zero c.p0_required)
        || ltb (or_zero c.p0_planned) (or_zero c.p0_required))

abbrev pub is_generation_defect : Classification → Bool
is_generation_defect plan_defect = true
is_generation_defect test_defect = true
is_generation_defect _ = false

abbrev pub is_infra_defect : Classification → Bool
is_infra_defect infra_defect = true
is_infra_defect _ = false

abbrev pub is_product_defect : Classification → Bool
is_product_defect product_defect = true
is_product_defect _ = false

abbrev pub is_unstable : Classification → Bool
is_unstable unstable = true
is_unstable _ = false

abbrev pub has_issue : (Classification → Bool) → List Issue → Bool
has_issue p = any (λ (i : Issue). p i.classification)

-- The ids of the unstable issues, each once.
unfoldable pub flaky_issue_ids : List Issue → List String
flaky_issue_ids [] = []
flaky_issue_ids (i ∷ is) =
    let rest = flaky_issue_ids is in
    if is_unstable i.classification
    then (elim i.execution_id [
      | none ↦ rest
      | some id ↦ if includes rest id then rest else id ∷ rest
    ])
    else rest

abbrev is_none : Option String → Bool
is_none none = true
is_none (some s) = false

-- How many flaky cases there are: unstable issues without an id, distinct ids of unstable issues,
-- and flaky results that no such id names.
unfoldable pub flaky_count : List Issue → List ExecutionResult → ℕ
unfolding flaky_issue_ids
flaky_count issues results =
    length (keep (λ (i : Issue). is_unstable i.classification && is_none i.execution_id) issues)
    + length (flaky_issue_ids issues)
    + length (
        keep
          (λ (r : ExecutionResult).
            r.is_flaky && not (includes (flaky_issue_ids issues) r.execution_id))
          results)

-- `a ?? d`
abbrev pub or_default : Option ℕ → ℕ → ℕ
or_default none d = d
or_default (some n) d = n

abbrev pub p0_covered : GateCoverage → ℕ
p0_covered c = or_default c.p0_passed (or_default c.p0_executed (or_zero c.p0_executable))

-- `((covered / required) * 100) < minimum`, or `100 < minimum` where nothing is required. The first
-- argument is the floating-point comparison.
unfoldable pub is_uncovered : (ℕ → ℕ → ℕ → Bool) → GateCoverage → GatePolicy → Bool
is_uncovered pct_below c p =
    let minimum = or_default p.min_p0_coverage_pct 100 in
    if or_zero c.p0_required == 0
    then ltb 100 minimum
    else pct_below (p0_covered c) (or_zero c.p0_required) minimum

abbrev pub outcome : Gate → ℕ → String → GateOutcome
outcome gate exit_code reason = record { gate = gate; exit_code = exit_code; reason = reason }

-- `evaluateGate`. The second argument prints the reason of the last refusal from the same numbers.
unfoldable pub evaluate_gate : (ℕ → ℕ → ℕ → Bool) → (ℕ → ℕ → ℕ → String) → GateInput → GateOutcome
evaluate_gate pct_below below_reason i =
    if is_unreconciled i.audit i.audit_status
    then outcome Gate.incomplete 2 "structural audit or coverage reconciliation incomplete"
    else if is_unplanned i.coverage
    then outcome Gate.incomplete 2 "P0 requirement is not planned and executable"
    else if has_issue is_generation_defect i.issues
    then outcome Gate.incomplete 2 "test generation or plan execution is not trustworthy"
    else if has_issue is_infra_defect i.issues
    then outcome Gate.infra 2 "infrastructure defect"
    else if has_issue is_product_defect i.issues
    then outcome Gate.fail 1 "product defect"
    else if ltb (or_default i.policy.max_flaky_cases 0) (flaky_count i.issues i.execution_results)
    then outcome Gate.unstable 1 "flaky case threshold exceeded"
    else if is_uncovered pct_below i.coverage i.policy
    then outcome Gate.incomplete 2 (
        below_reason (p0_covered i.coverage) (or_zero i.coverage.p0_required)
          (or_default i.policy.min_p0_coverage_pct 100))
    else outcome Gate.pass 0 "all required cases passed with complete evidence and cleanup"
