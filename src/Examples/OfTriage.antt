-- ===== src/Examples/OfTriage.antt =====
-- A generated plan whose assertion failed, with evidence and a proven oracle, and without.
use autopw.Prelude.{true, false, none, some, [], ◌∷◌, ◌≡◌, refl}
use autopw.Triage.{
  TriageInput, TriageClassification, SignalKind, Phase, triage_failure, strength,
  oracle_strength_of, evidence_of, is_low, is_high, is_lifecycle, is_network, is_assertion,
  is_unproven, proposes_infra, phase_of, kind_of, origin_of, triage_failure-product_defect,
}

abbrev backed : TriageInput
backed = record {
  proposed_classification = none;
  signal = some (record {
    kind = some SignalKind.assertion;
    phase = some Phase.test;
    expected = none;
    actual = none;
  });
  plan_origin = some "generated";
  case_confidence = some 900000;
  evidence_refs = some ("shot" ∷ []);
  requirement_evidence_refs = none;
  oracle = some (record { kind = some "relation"; proven = some true });
}

blames_product : (triage_failure backed).classification ≡ TriageClassification.product_defect
unfolding triage_failure strength oracle_strength_of
blames_product = refl

unproven_blames_plan :
    (triage_failure (record backed { oracle = none })).classification
    ≡ TriageClassification.plan_defect
unfolding triage_failure strength oracle_strength_of
unproven_blames_plan = refl

triage_failure-product_defect_example :
    (is_low (evidence_of backed) ≡ false)
    × (is_lifecycle (phase_of backed.signal) ≡ false)
    × (is_network (kind_of backed.signal) ≡ false)
    × (proposes_infra backed.proposed_classification ≡ false)
    × (origin_of backed.plan_origin ≡ "generated"
        → (is_high (evidence_of backed) ≡ true)
          × (is_assertion (kind_of backed.signal) ≡ true)
          × (is_unproven (oracle_strength_of backed.oracle) ≡ false))
triage_failure-product_defect_example = triage_failure-product_defect backed blames_product
