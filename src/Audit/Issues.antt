-- ===== src/Audit/Issues.antt =====
-- packages/audit/src/index.ts: the issues that an audit raises, with their triage.
use Prim.Native.String.{◌++◌}
use autopw.Prelude.{
  ℕ, String, Bool, true, false, Option, none, some, List, [], ◌∷◌, truthy?, if◌then◌else◌, Dict,
  lookup,
}
use autopw.Triage.{TriageInput, Oracle, triage_failure}
use autopw.Audit.{
  passed, failed, blocked_resume, infra_blocked, CaseResult, AuditCaseLike, AuditRequirementLike,
  OracleMember, AuditIssue, FlakyIssue, handles_of, requirement_of,
}

-- `requirement_refs.map(...).find(Boolean)`: the first requirement that is known.
abbrev pub first_requirement : List AuditRequirementLike → List String → Option AuditRequirementLike
first_requirement rs [] = none
first_requirement rs (id ∷ ids) = elim (requirement_of rs id) [
  | none ↦ first_requirement rs ids
  | some r ↦ some r
]

abbrev pub refs_of_case : Option AuditCaseLike → List String
refs_of_case none = []
refs_of_case (some c) = c.requirement_refs

abbrev pub origin_of_case : Option AuditCaseLike → String
origin_of_case none = "unknown"
origin_of_case (some c) = elim (truthy? c.origin_type) [ none ↦ "unknown" | some o ↦ o ]

abbrev pub confidence_of_case : Option AuditCaseLike → Option ℕ
confidence_of_case none = none
confidence_of_case (some c) = c.confidence

abbrev pub kind_of_oracle : OracleMember → Option String
kind_of_oracle (OracleMember.an_oracle kind) = kind
kind_of_oracle _ = none

-- `requirement?.oracle !== null`, which holds of an absent oracle and of an absent requirement.
abbrev pub is_not_null : OracleMember → Bool
is_not_null OracleMember.null_oracle = false
is_not_null _ = true

-- The oracle that the triage is told of.
unfoldable pub triage_oracle : Option AuditRequirementLike → Oracle
triage_oracle none = record { kind = none; proven = some true }
triage_oracle (some r) = record {
  kind = elim (truthy? r.specified_kind) [ none ↦ kind_of_oracle r.oracle | some k ↦ some k ];
  proven = elim r.specified_proven [ none ↦ some (is_not_null r.oracle) | some p ↦ some p ];
}

abbrev pub evidence_of_requirement : Option AuditRequirementLike → Option (List String)
evidence_of_requirement none = none
evidence_of_requirement (some r) = r.evidence_refs

unfoldable pub triage_input :
    List AuditRequirementLike → Dict AuditCaseLike → CaseResult → TriageInput
unfolding triage_oracle
triage_input rs cases r =
    let test_case = lookup r.case_id cases in
    let requirement = first_requirement rs (refs_of_case test_case) in
    record {
      proposed_classification = r.classification;
      signal = r.failure_signal;
      plan_origin = some (origin_of_case test_case);
      case_confidence = confidence_of_case test_case;
      evidence_refs = some (handles_of r.evidence_refs);
      requirement_evidence_refs = evidence_of_requirement requirement;
      oracle = some (triage_oracle requirement);
    }

abbrev pub message_of : Option String → String
message_of e = elim (truthy? e) [ none ↦ "execution failed" | some m ↦ m ]

unfoldable pub issue_of : List AuditRequirementLike → Dict AuditCaseLike → CaseResult → AuditIssue
unfolding triage_input
issue_of rs cases r =
    let decision = triage_failure (triage_input rs cases r) in
    record {
      id = "issue_" ++ r.execution_id;
      classification = decision.classification;
      confidence = decision.confidence;
      execution_id = r.execution_id;
      evidence_refs = handles_of r.evidence_refs;
      message = message_of r.error;
      triage = decision;
      failure_signal = r.failure_signal;
    }

abbrev pub has_failed : CaseResult → Bool
has_failed r = elim r.status [
  | passed ↦ false
  | failed ↦ true
  | blocked_resume ↦ false
  | infra_blocked ↦ true
]

unfoldable pub issues_of :
    List AuditRequirementLike → Dict AuditCaseLike → List CaseResult → List AuditIssue
unfolding issue_of
issues_of rs cases [] = []
issues_of rs cases (r ∷ results) =
    let rest = issues_of rs cases results in
    if has_failed r then issue_of rs cases r ∷ rest else rest

unfoldable pub flaky_issues : List CaseResult → List FlakyIssue
flaky_issues [] = []
flaky_issues (r ∷ results) =
    let rest = flaky_issues results in
    if r.is_flaky
    then record {
      id = "issue_flaky_" ++ r.execution_id;
      execution_id = r.execution_id;
      evidence_refs = handles_of r.evidence_refs;
    }
      ∷ rest
    else rest
