-- ===== src/Audit/Metrics.antt =====
-- packages/audit/src/index.ts: `buildCoverageMetrics`. `percent` of two counts is an argument for a
-- denominator that is not 0.
use autopw.Prelude.{
  ℕ, String, Bool, true, false, not, ◌&&◌, none, some, List, [], ◌∷◌, ltb, ◌==◌, str_eq,
  if◌then◌else◌, any, all, keep, length, includes, Dict, lookup,
}
use autopw.Triage.{Strength, product_defect, plan_defect, test_defect, infra_defect}
use autopw.Audit.{
  passed, failed, blocked_resume, infra_blocked, tier_skipped, not_applicable, other_status,
  CaseResult, AuditCaseLike, AuditRequirementLike, AuditOptions, AuditIssue, mapped, was_cleaned,
  result_of,
}

pub record CoverageMetrics : Type 0 where
  pub tier_coverage_pct : ℕ
  pub discovered_scope_coverage_pct : ℕ
  pub generated_case_precision_pct : ℕ
  pub false_product_defect_rate_pct : ℕ
  pub semantic_oracle_coverage_pct : ℕ
  pub cleanup_integrity_pct : ℕ

-- `percent` in hundredths of a percent.
abbrev pub percent : (ℕ → ℕ → ℕ) → ℕ → ℕ → ℕ
percent rounded numerator denominator =
    if denominator == 0 then 10000 else rounded numerator denominator

abbrev pub is_discovered : AuditRequirementLike → Bool
is_discovered r = elim r.status [
  | tier_skipped ↦ true
  | not_applicable ↦ false
  | other_status ↦ true
]

abbrev pub is_in_tier : AuditRequirementLike → Bool
is_in_tier r = elim r.status [ tier_skipped ↦ false | not_applicable ↦ true | other_status ↦ true ]

abbrev pub has_passed : CaseResult → Bool
has_passed r = elim r.status [
  | passed ↦ true
  | failed ↦ false
  | blocked_resume ↦ false
  | infra_blocked ↦ false
]

unfoldable pub passed_requirement : AuditOptions → List CaseResult → AuditRequirementLike → Bool
passed_requirement o results r =
    let cases = mapped o.requirement_case_map r.requirement_id in
    ltb 0 (length cases)
    && all (λ id. any (λ result. str_eq result.case_id id && has_passed result) results) cases

abbrev pub is_generated : Dict AuditCaseLike → CaseResult → Bool
is_generated cases r = elim (lookup r.case_id cases) [
  | none ↦ false
  | some c ↦ elim c.origin_type [ none ↦ false | some o ↦ str_eq o "generated" ]
]

abbrev pub is_generator_issue : AuditIssue → Bool
is_generator_issue i = elim i.classification [
  | product_defect ↦ false
  | plan_defect ↦ true
  | test_defect ↦ true
  | infra_defect ↦ false
]

abbrev pub is_product_issue : AuditIssue → Bool
is_product_issue i = elim i.classification [
  | product_defect ↦ true
  | plan_defect ↦ false
  | test_defect ↦ false
  | infra_defect ↦ false
]

abbrev pub is_sure : Strength → Bool
is_sure Strength.high = true
is_sure _ = false

abbrev pub semantic_kinds : List String
semantic_kinds =
    "relation" ∷ "collection" ∷ "persistence" ∷ "deletion" ∷ "semantic" ∷ "ui_relation" ∷ []

abbrev pub is_semantic : AuditRequirementLike → Bool
is_semantic r = elim r.specified_kind [ none ↦ false | some k ↦ includes semantic_kinds k ]

unfoldable pub coverage_metrics :
    (ℕ → ℕ → ℕ)
    → AuditOptions
    → List CaseResult
    → Dict AuditCaseLike
    → List AuditIssue
    → List AuditCaseLike
    → CoverageMetrics
unfolding passed_requirement
coverage_metrics rounded o results cases issues cleanup_required =
    let discovered = keep is_discovered o.requirements in
    let in_tier = keep is_in_tier discovered in
    let has_passed_all = passed_requirement o results in
    let generated = keep (is_generated cases) results in
    let generator_issues = keep is_generator_issue issues in
    let product_issues = keep is_product_issue issues in
    let semantic = keep is_semantic in_tier in
    let semantic_bound =
      keep (λ r. ltb 0 (length (mapped o.requirement_oracle_map r.requirement_id))) semantic in
    let cleanup_passed = keep (λ c. was_cleaned (result_of results c.case_id)) cleanup_required in
    record {
      tier_coverage_pct = percent rounded (length (keep has_passed_all in_tier)) (length in_tier);
      discovered_scope_coverage_pct =
          percent rounded (length (keep has_passed_all discovered)) (length discovered);
      generated_case_precision_pct =
          percent rounded
            (length (
              keep (λ r. not (any (λ i. str_eq i.execution_id r.execution_id) generator_issues))
                generated))
            (length generated);
      false_product_defect_rate_pct =
          if length product_issues == 0
          then 0
          else percent rounded (length (keep (λ i. not (is_sure i.confidence)) product_issues))
              (length product_issues);
      semantic_oracle_coverage_pct = percent rounded (length semantic_bound) (length semantic);
      cleanup_integrity_pct = percent rounded (length cleanup_passed) (length cleanup_required);
    }
