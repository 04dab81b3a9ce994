-- ===== src/Examples/OfAudit.antt =====
-- Two planned cases of which one failed.
use autopw.Prelude.{◌+◌, true, false, not, none, some, [], ◌∷◌, distinct_from, ◌≡◌, refl}
use autopw.Gate.{is_unreconciled}
use autopw.Audit.{
  CaseResult, CaseStatus, AuditOptions, CleanupStatus, CaseKind, Risk, case_reconciliation,
  cleanup_complete,
}
use autopw.Audit.Issues.{triage_oracle}
use autopw.Audit.Outcome.{audit_execution, gate_audit, is_complete}
use autopw.Audit.Reconciled.{
  IsAccounted, case_reconciliation-IsAccounted, is_unreconciled-audit_execution,
}

abbrev good : CaseResult
good = record {
  execution_id = "EXE-1";
  case_id = "login";
  status = CaseStatus.passed;
  is_flaky = false;
  evidence_refs = record { handle = "art_1"; kind = "api-response" } ∷ [];
  cleanup_status = some CleanupStatus.cleaned;
  error = none;
  classification = none;
  failure_signal = none;
}

abbrev bad : CaseResult
bad = record good { execution_id = "EXE-2"; case_id = "logout"; status = CaseStatus.failed }

abbrev options : AuditOptions
options = record {
  requirements = [];
  requirement_case_map = [];
  requirement_oracle_map = [];
  cases =
      record {
        case_id = "login";
        kind = some CaseKind.api;
        risk = some Risk.mutating;
        confidence = none;
        origin_type = some "generated";
        requirement_refs = [];
      }
      ∷ [];
}

-- A case planned twice is not accounted for.
repeated_case : case_reconciliation ("login" ∷ "login" ∷ []) (good ∷ []) ≡ false
unfolding case_reconciliation distinct_from
repeated_case = refl

cleaned_up : cleanup_complete options.cases (good ∷ bad ∷ []) ≡ true
unfolding cleanup_complete
cleaned_up = refl

-- A failed case of no known requirement has an oracle that counts as proven.
proven_by_default : triage_oracle none ≡ record { kind = none; proven = some true }
unfolding triage_oracle
proven_by_default = refl

case_reconciliation-IsAccounted_example : IsAccounted ("login" ∷ "logout" ∷ []) (bad ∷ good ∷ [])
unfolding case_reconciliation distinct_from
case_reconciliation-IsAccounted_example =
    case_reconciliation-IsAccounted ("login" ∷ "logout" ∷ []) (bad ∷ good ∷ []) refl

is_unreconciled-audit_execution_example :
    is_unreconciled
      (some
        (gate_audit (audit_execution (λ a b. a + b) ("login" ∷ []) (good ∷ bad ∷ []) none options)))
      none
    ≡ not (is_complete ("login" ∷ []) (good ∷ bad ∷ []) none options)
is_unreconciled-audit_execution_example =
    is_unreconciled-audit_execution (λ a b. a + b) ("login" ∷ []) (good ∷ bad ∷ []) none options
