-- ===== src/Audit.antt =====
-- packages/audit/src/index.ts: whether a run's results account for its plan. The rounded percentage
-- of two counts is computed in floating point; it is an argument.
mod Records
pub use Records.*
pub mod Issues
pub mod Metrics
pub mod Outcome
pub mod Reconciled
use Prim.Native.String.{◌++◌}
use autopw.Prelude.{
  ℕ, String, Bool, true, false, not, ◌&&◌, ◌||◌, Option, none, some, List, [], ◌∷◌, ltb, ◌==◌,
  str_eq, truthy, truthy?, is_some, if◌then◌else◌, any, all, keep, find?, length, includes, map,
  distinct, distinct_from, Dict, lookup, insert,
}
use autopw.Domain.{AuditStatus}
use autopw.Gate.{Reconciliation}
use autopw.Triage.{
  TriageClassification, TriageSignal, TriageInput, TriageDecision, Oracle, triage_failure, Strength,
}

abbrev pub or_list {ℓ} : {A : Type ℓ} → Option (List A) → List A
or_list none = []
or_list (some xs) = xs

abbrev pub mapped : Dict (List String) → String → List String
mapped m id = or_list (lookup id m)

abbrev pub case_ids_of : List CaseResult → List String
case_ids_of [] = []
case_ids_of (r ∷ rs) = r.case_id ∷ case_ids_of rs

abbrev pub execution_ids_of : List CaseResult → List String
execution_ids_of [] = []
execution_ids_of (r ∷ rs) = r.execution_id ∷ execution_ids_of rs

-- `new Map(cases.map((item) => [item.case_id, item]))`
unfoldable pub index_cases : Dict AuditCaseLike → List AuditCaseLike → Dict AuditCaseLike
index_cases m [] = m
index_cases m (c ∷ cs) = index_cases (insert c.case_id c m) cs

unfoldable pub case_reconciliation : List String → List CaseResult → Bool
case_reconciliation case_ids results =
    let expected = distinct case_ids in
    let actual = distinct (case_ids_of results) in
    length case_ids == length expected
    && length expected == length actual
    && all (includes actual) case_ids

-- Whether the executions are those of the manifest, where one is given.
abbrev pub matches_manifest : Option (List String) → List String → Bool
matches_manifest none ids = true
matches_manifest (some expected) ids = length expected == length ids && all (includes ids) expected

unfoldable pub instance_reconciliation : Option (List String) → List CaseResult → Bool
instance_reconciliation manifest results =
    let ids = execution_ids_of results in
    length ids == length (distinct ids)
    && all (λ r. truthy r.execution_id && truthy r.case_id) results
    && matches_manifest manifest ids

abbrev pub kinds_of : List EvidenceRef → List String
kinds_of [] = []
kinds_of (e ∷ es) = e.kind ∷ kinds_of es

abbrev pub handles_of : List EvidenceRef → List String
handles_of [] = []
handles_of (e ∷ es) = e.handle ∷ handles_of es

abbrev pub has_ui_evidence : List String → Bool
has_ui_evidence kinds =
    includes kinds "screenshot"
    && includes kinds "console.json"
    && includes kinds "playwright-trace"

abbrev pub has_kind_evidence : Option CaseKind → List String → Bool
has_kind_evidence none kinds = true
has_kind_evidence (some api) kinds = includes kinds "api-response"
has_kind_evidence (some ui) kinds = has_ui_evidence kinds
has_kind_evidence (some hybrid) kinds = has_ui_evidence kinds && includes kinds "api-response"

abbrev pub kind_of_case : Option AuditCaseLike → Option CaseKind
kind_of_case none = none
kind_of_case (some c) = c.kind

unfoldable pub evidence_for_case : CaseResult → Option AuditCaseLike → Bool
evidence_for_case r c =
    not (length r.evidence_refs == 0)
    && has_kind_evidence (kind_of_case c) (kinds_of r.evidence_refs)

abbrev pub was_blocked : CaseResult → Bool
was_blocked r = elim r.status [
  | passed ↦ false
  | failed ↦ false
  | blocked_resume ↦ true
  | infra_blocked ↦ true
]

unfoldable pub evidence_complete : Dict AuditCaseLike → List CaseResult → Bool
unfolding evidence_for_case
evidence_complete cases results =
    all (λ r. evidence_for_case r (lookup r.case_id cases))
      (keep (λ r. not (was_blocked r)) results)

abbrev pub needs_cleanup : AuditCaseLike → Bool
needs_cleanup c = elim c.risk [
  | none ↦ false
  | some r ↦ elim r [ read_only ↦ false | mutating ↦ true | destructive ↦ true ]
]

abbrev pub was_cleaned : Option CaseResult → Bool
was_cleaned none = false
was_cleaned (some r) = elim r.cleanup_status [
  | none ↦ false
  | some s ↦ elim s [ cleaned ↦ true | not_cleaned ↦ false | skipped ↦ false ]
]

-- The first result of a case.
abbrev pub result_of : List CaseResult → String → Option CaseResult
result_of results id = find? (λ r. str_eq r.case_id id) results

unfoldable pub cleanup_complete : List AuditCaseLike → List CaseResult → Bool
cleanup_complete cases results =
    all (λ c. was_cleaned (result_of results c.case_id)) (keep needs_cleanup cases)

abbrev pub is_required : AuditRequirementLike → Bool
is_required r = elim r.status [
  | tier_skipped ↦ false
  | not_applicable ↦ false
  | other_status ↦ true
]

abbrev pub ids_of : List AuditRequirementLike → List String
ids_of [] = []
ids_of (r ∷ rs) = r.requirement_id ∷ ids_of rs

unfoldable pub requirement_ids : List AuditRequirementLike → List String
requirement_ids rs = ids_of (keep is_required rs)

unfoldable pub requirement_reconciliation : AuditOptions → List String → Bool
unfolding requirement_ids
requirement_reconciliation o case_ids =
    all
      (λ id.
        ltb 0 (length (mapped o.requirement_case_map id))
        && all (includes case_ids) (mapped o.requirement_case_map id))
      (requirement_ids o.requirements)

abbrev pub requirement_of : List AuditRequirementLike → String → Option AuditRequirementLike
requirement_of rs id = find? (λ r. str_eq r.requirement_id id) rs

abbrev pub is_bound : OracleMember → List String → Bool
is_bound no_oracle steps = true
is_bound null_oracle steps = false
is_bound (an_oracle kind) steps = ltb 0 (length steps)

abbrev pub is_bound_requirement : Option AuditRequirementLike → List String → Bool
is_bound_requirement none steps = true
is_bound_requirement (some r) steps = is_bound r.oracle steps

unfoldable pub oracle_reconciliation : AuditOptions → Bool
unfolding requirement_ids
oracle_reconciliation o =
    all
      (λ id.
        is_bound_requirement (requirement_of o.requirements id)
          (mapped o.requirement_oracle_map id))
      (requirement_ids o.requirements)
