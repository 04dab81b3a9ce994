-- ===== src/Audit/Outcome.antt =====
-- packages/audit/src/index.ts: `auditExecution`, put together.
use autopw.Prelude.{
  ℕ, String, Bool, true, false, not, ◌&&◌, Option, some, List, [], all, keep, length,
}
use autopw.Domain.{AuditStatus}
use autopw.Gate.{Reconciliation, GateAudit}
use autopw.Audit.{
  passed, failed, blocked_resume, infra_blocked, CaseResult, AuditOptions, AuditIssue, FlakyIssue,
  case_reconciliation, instance_reconciliation, evidence_complete, cleanup_complete,
  requirement_reconciliation, oracle_reconciliation, index_cases, was_blocked, needs_cleanup,
}
use autopw.Audit.Issues.{issues_of, flaky_issues}
use autopw.Audit.Metrics.{CoverageMetrics, coverage_metrics, has_passed}

pub record AuditSummary : Type 0 where
  pub total_cases : ℕ
  pub total_instances : ℕ
  pub passed : ℕ
  pub failed : ℕ
  pub blocked : ℕ
  pub flaky : ℕ

-- What the audit finds. In the source the summary repeats the reconciliations and the metrics, and
-- the outcome passes on the `coverage` that it was given.
pub record AuditOutcome : Type 0 where
  pub audit_status : AuditStatus
  pub requirements_reconciled : Reconciliation
  pub oracles_reconciled : Reconciliation
  pub cases_reconciled : Reconciliation
  pub instances_reconciled : Reconciliation
  pub has_evidence : Bool
  pub has_cleanup : Bool
  pub metrics : CoverageMetrics
  pub issues : List AuditIssue
  pub flaky : List FlakyIssue
  pub summary : AuditSummary

abbrev pub reconciliation_of : Bool → Reconciliation
reconciliation_of true = Reconciliation.complete
reconciliation_of false = Reconciliation.mismatch

abbrev pub audit_status_of : Bool → AuditStatus
audit_status_of true = AuditStatus.complete
audit_status_of false = AuditStatus.incomplete

abbrev pub is_only_failed : CaseResult → Bool
is_only_failed r = elim r.status [
  | passed ↦ false
  | failed ↦ true
  | blocked_resume ↦ false
  | infra_blocked ↦ false
]

-- `complete`
unfoldable pub is_complete :
    List String → List CaseResult → Option (List String) → AuditOptions → Bool
is_complete case_ids results manifest o =
    case_reconciliation case_ids results
    && requirement_reconciliation o case_ids
    && oracle_reconciliation o
    && instance_reconciliation manifest results
    && evidence_complete (index_cases [] o.cases) results
    && cleanup_complete o.cases results
    && all (λ r. not (was_blocked r)) results

-- `manifest` lists the execution ids of the instances.
unfoldable pub audit_execution :
    (ℕ → ℕ → ℕ) → List String → List CaseResult → Option (List String) → AuditOptions → AuditOutcome
unfolding is_complete
audit_execution rounded case_ids results manifest o =
    let cases = index_cases [] o.cases in
    let found = issues_of o.requirements cases results in
    record {
      audit_status = audit_status_of (is_complete case_ids results manifest o);
      requirements_reconciled = reconciliation_of (requirement_reconciliation o case_ids);
      oracles_reconciled = reconciliation_of (oracle_reconciliation o);
      cases_reconciled = reconciliation_of (case_reconciliation case_ids results);
      instances_reconciled = reconciliation_of (instance_reconciliation manifest results);
      has_evidence = evidence_complete cases results;
      has_cleanup = cleanup_complete o.cases results;
      metrics = coverage_metrics rounded o results cases found (keep needs_cleanup o.cases);
      issues = found;
      flaky = flaky_issues results;
      summary = record {
        total_cases = length case_ids;
        total_instances = length results;
        passed = length (keep has_passed results);
        failed = length (keep is_only_failed results);
        blocked = length (keep was_blocked results);
        flaky = length (flaky_issues results);
      };
    }

-- What the gate reads of an outcome.
abbrev pub gate_audit : AuditOutcome → GateAudit
gate_audit a = record {
  audit_status = a.audit_status;
  evidence_complete = some a.has_evidence;
  cleanup_complete = some a.has_cleanup;
  requirement_reconciliation = some a.requirements_reconciled;
  oracle_reconciliation = some a.oracles_reconciled;
}
