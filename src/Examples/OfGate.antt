-- ===== src/Examples/OfGate.antt =====
-- Verdicts on a small run.
use autopw.Prelude.{
  String, ℕ, ◌*◌, ◌≤◌, ◌<◌, Bool, true, none, some, [], ◌∷◌, ltb, ◌≡◌, ◌↔◌, refl, arith, All,
}
use autopw.Domain.{AuditStatus, Gate}
use autopw.Gate.{
  GateAudit, GateInput, unstable, product_defect, infra_defect, Reconciliation, evaluate_gate,
  flaky_count, p0_covered, is_unreconciled, is_unplanned, is_uncovered,
}
use autopw.Gate.Verdict.{IsHarmless, IsReconciled, evaluate_gate-pass_iff}

-- The exact comparison stands for the floating-point one.
abbrev too_low : ℕ → ℕ → ℕ → String
too_low covered required minimum = "too low"

abbrev exact_below : ℕ → ℕ → ℕ → Bool
exact_below covered required minimum = ltb (covered * 100) (minimum * required)

exact_at_100 :
    (covered required : ℕ) → 0 < required → exact_below covered required 100 ≡ ltb covered required
exact_at_100 covered required h = ground arith

abbrev clean_audit : GateAudit
clean_audit = record {
  audit_status = AuditStatus.complete;
  evidence_complete = some true;
  cleanup_complete = some true;
  requirement_reconciliation = some Reconciliation.complete;
  oracle_reconciliation = none;
}

abbrev clean : GateInput
clean = record {
  audit = some clean_audit;
  audit_status = none;
  coverage = record {
    p0_required = some 3;
    p0_planned = some 3;
    p0_executable = some 4;
    p0_executed = some 3;
    p0_passed = some 3;
  };
  policy = record { min_p0_coverage_pct = none; max_flaky_cases = some 1 };
  issues = record { classification = unstable; execution_id = some "EXE-1" } ∷ [];
  execution_results = record { is_flaky = true; execution_id = "EXE-1" } ∷ [];
}

-- The flaky result and its issue count once.
clean_passes : (evaluate_gate exact_below too_low clean).gate ≡ Gate.pass
unfolding evaluate_gate is_unreconciled is_unplanned flaky_count is_uncovered
clean_passes = refl

abbrev broken : GateInput
broken = record clean {
  issues =
      record { classification = product_defect; execution_id = none }
      ∷ record { classification = infra_defect; execution_id = none }
      ∷ [];
}

broken_is_infra : (evaluate_gate exact_below too_low broken).gate ≡ Gate.infra
unfolding evaluate_gate is_unreconciled is_unplanned flaky_count is_uncovered
broken_is_infra = refl

evaluate_gate-pass_iff_example : ((evaluate_gate exact_below too_low clean).gate ≡ Gate.pass) ↔ (
    IsReconciled (some clean_audit) none
    × (3 ≤ 3)
    × (3 ≤ 4)
    × (3 ≤ p0_covered clean.coverage)
    × All IsHarmless clean.issues
    × (flaky_count clean.issues clean.execution_results ≤ 1))
evaluate_gate-pass_iff_example = evaluate_gate-pass_iff exact_below too_low clean exact_at_100 refl
