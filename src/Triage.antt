-- ===== src/Triage.antt =====
-- packages/triage/src/index.ts: whose fault a failed case is. A confidence counts millionths; one that
-- is not a finite number is `none`.
use autopw.Prelude.{
  ℕ, String, Bool, true, false, not, ◌&&◌, ◌||◌, Option, none, some, List, [], ◌∷◌, ◌++◌, ltb, leb,
  length, includes, str_eq, truthy?, if◌then◌else◌, str_eq_iff, ◌≡◌, arith, refl,
}
use autopw.Json.{Json}

pub data TriageClassification : Type 0 where
  product_defect plan_defect test_defect infra_defect : TriageClassification

pub data SignalKind : Type 0 where
  assertion contract network timeout policy unknown_kind : SignalKind

pub data Phase : Type 0 where
  setup test cleanup unknown_phase : Phase

pub data Strength : Type 0 where
  high medium low : Strength

pub data OracleStrength : Type 0 where
  strong basic unproven : OracleStrength

pub record TriageSignal : Type 0 where
  pub kind : Option SignalKind
  pub phase : Option Phase
  pub expected : Option Json
  pub actual : Option Json

pub record Oracle : Type 0 where
  pub kind : Option String
  pub proven : Option Bool

pub record TriageInput : Type 0 where
  pub proposed_classification : Option TriageClassification
  pub signal : Option TriageSignal
  pub plan_origin : Option String
  pub case_confidence : Option ℕ
  pub evidence_refs : Option (List String)
  pub requirement_evidence_refs : Option (List String)
  pub oracle : Option Oracle

pub record TriageDecision : Type 0 where
  pub classification : TriageClassification
  pub confidence : Strength
  pub plan_origin : String
  pub evidence_strength : Strength
  pub oracle_strength : OracleStrength
  pub phase : Phase
  pub reason : String
  pub expected : Option Json
  pub actual : Option Json

abbrev pub or_empty : Option (List String) → List String
or_empty none = []
or_empty (some xs) = xs

abbrev pub or_half : Option ℕ → ℕ
or_half none = 500000
or_half (some n) = n

unfoldable pub strength : Option ℕ → List String → Strength
strength confidence refs =
    let value = or_half confidence in
    let has_refs = ltb 0 (length refs) in
    if leb 850000 value && has_refs
    then high
    else if leb 600000 value || has_refs
    then medium
    else low

abbrev pub strong_kinds : List String
strong_kinds =
    "relation" ∷ "collection" ∷ "persistence" ∷ "deletion" ∷ "validation" ∷ "semantic"
    ∷ "ui_relation" ∷ []

abbrev pub is_true : Option Bool → Bool
is_true (some true) = true
is_true _ = false

abbrev pub kind_in : Option String → Bool
kind_in none = false
kind_in (some k) = includes strong_kinds k

unfoldable pub oracle_strength_of : Option Oracle → OracleStrength
oracle_strength_of none = unproven
oracle_strength_of (some o) =
    if is_true o.proven then (if kind_in o.kind then strong else basic) else unproven

abbrev pub phase_of : Option TriageSignal → Phase
phase_of none = unknown_phase
phase_of (some s) = elim s.phase [ none ↦ unknown_phase | some p ↦ p ]

abbrev pub kind_of : Option TriageSignal → SignalKind
kind_of none = unknown_kind
kind_of (some s) = elim s.kind [ none ↦ unknown_kind | some k ↦ k ]

abbrev pub expected_of : Option TriageSignal → Option Json
expected_of none = none
expected_of (some s) = s.expected

abbrev pub actual_of : Option TriageSignal → Option Json
actual_of none = none
actual_of (some s) = s.actual

abbrev pub is_network : SignalKind → Bool
is_network network = true
is_network _ = false

abbrev pub is_plan_kind : SignalKind → Bool
is_plan_kind contract = true
is_plan_kind policy = true
is_plan_kind timeout = true
is_plan_kind _ = false

abbrev pub is_assertion : SignalKind → Bool
is_assertion assertion = true
is_assertion _ = false

abbrev pub is_lifecycle : Phase → Bool
is_lifecycle setup = true
is_lifecycle cleanup = true
is_lifecycle _ = false

abbrev pub is_test : Phase → Bool
is_test test = true
is_test _ = false

abbrev pub is_high : Strength → Bool
is_high high = true
is_high _ = false

abbrev pub is_low : Strength → Bool
is_low low = true
is_low _ = false

abbrev pub is_unproven : OracleStrength → Bool
is_unproven unproven = true
is_unproven _ = false

abbrev pub is_strong : OracleStrength → Bool
is_strong strong = true
is_strong _ = false

abbrev pub proposes_infra : Option TriageClassification → Bool
proposes_infra (some infra_defect) = true
proposes_infra _ = false

abbrev pub proposes_product : Option TriageClassification → Bool
proposes_product (some product_defect) = true
proposes_product _ = false

abbrev pub origin_of : Option String → String
origin_of o = elim (truthy? o) [ none ↦ "unknown" | some s ↦ s ]

abbrev pub evidence_of : TriageInput → Strength
evidence_of i =
    strength i.case_confidence (or_empty i.evidence_refs ++ or_empty i.requirement_evidence_refs)

-- The decision with the members that every branch shares.
abbrev pub decide : TriageInput → TriageClassification → Strength → String → TriageDecision
decide i classification confidence reason = record {
  classification = classification;
  confidence = confidence;
  plan_origin = origin_of i.plan_origin;
  evidence_strength = evidence_of i;
  oracle_strength = oracle_strength_of i.oracle;
  phase = phase_of i.signal;
  reason = reason;
  expected = expected_of i.signal;
  actual = actual_of i.signal;
}

-- Who is blamed where nothing points at the product.
abbrev pub fallback : TriageInput → TriageClassification
fallback i = if str_eq (origin_of i.plan_origin) "generated" then plan_defect else test_defect

abbrev pub at_most_medium : TriageInput → Strength
at_most_medium i = if is_low (evidence_of i) then low else medium

unfoldable pub triage_failure : TriageInput → TriageDecision
triage_failure i =
    if is_network (kind_of i.signal) || proposes_infra i.proposed_classification
    then decide i infra_defect medium "LOW_LEVEL_INFRASTRUCTURE_SIGNAL"
    else if is_lifecycle (phase_of i.signal)
    then decide i (fallback i) (at_most_medium i) "FIXTURE_OR_LIFECYCLE_PHASE_FAILURE"
    else if is_plan_kind (kind_of i.signal)
    then decide i (fallback i) (at_most_medium i) "PLAN_CONTRACT_OR_POLICY_FAILURE"
    else if is_assertion (kind_of i.signal)
        && is_test (phase_of i.signal)
        && is_high (evidence_of i)
        && not (is_unproven (oracle_strength_of i.oracle))
    then decide i product_defect (if is_strong (oracle_strength_of i.oracle) then high else medium)
        "EVIDENCE_BACKED_TEST_ORACLE_MISMATCH"
    else if not (str_eq (origin_of i.plan_origin) "generated")
        && proposes_product i.proposed_classification
        && not (is_low (evidence_of i))
    then decide i product_defect medium "TRUSTED_MANUAL_ORACLE_MISMATCH"
    else decide i (fallback i) (at_most_medium i) "INSUFFICIENT_PROVENANCE_FOR_PRODUCT_DEFECT"

is_low-not-high : (s : Strength) → is_high s ≡ true → is_low s ≡ false
is_low-not-high high h = refl
is_low-not-high medium h = ground (arith, h)
is_low-not-high low h = ground (arith, h)

-- The product is blamed only with evidence that is not low, for a failure outside setup and cleanup
-- that shows no infrastructure trouble; a generated plan blames it only with high evidence, by an
-- assertion whose oracle is proven.
pub triage_failure-product_defect :
    (i : TriageInput)
    → (triage_failure i).classification ≡ product_defect
    → (is_low (evidence_of i) ≡ false)
      × (is_lifecycle (phase_of i.signal) ≡ false)
      × (is_network (kind_of i.signal) ≡ false)
      × (proposes_infra i.proposed_classification ≡ false)
      × (origin_of i.plan_origin ≡ "generated"
          → (is_high (evidence_of i) ≡ true)
            × (is_assertion (kind_of i.signal) ≡ true)
            × (is_unproven (oracle_strength_of i.oracle) ≡ false))
unfolding triage_failure
triage_failure-product_defect i h = (
  ground (arith, h, is_low-not-high (evidence_of i)),
  ground (arith, h),
  ground (arith, h),
  ground (arith, h),
  λ e. ground (arith, h, str_eq_iff (origin_of i.plan_origin) "generated", e),
)
