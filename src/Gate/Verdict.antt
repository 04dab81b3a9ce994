-- ===== src/Gate/Verdict.antt =====
-- packages/gate/src/index.ts: what each verdict of the gate means.
use autopw.Prelude.{
  String, ℕ, ◌≤◌, ◌<◌, Bool, true, false, Option, none, some, List, [], ◌∷◌, ltb, All, or_zero, ◌≡◌,
  ◌≢◌, ◌↔◌, refl, arith, inl, inr, ◌⊎◌,
}
use autopw.Domain.{AuditStatus, Gate}
use autopw.Gate.{
  Reconciliation, GateAudit, Classification, Issue, GateInput, is_unreconciled, is_unplanned,
  is_generation_defect, is_infra_defect, is_product_defect, has_issue, flaky_count, or_default,
  p0_covered, is_uncovered, evaluate_gate, unstable, other,
}

-- The classification of an issue that the gate lets pass if the flaky threshold allows it.
abbrev pub IsHarmless : Issue → Type 0
IsHarmless i = (i.classification ≡ unstable) ⊎ (i.classification ≡ other)

-- The audit is complete and nothing that it reconciles differs or is missing; without an audit the
-- separately given status decides.
abbrev pub IsReconciled : Option GateAudit → Option AuditStatus → Type 0
IsReconciled (some a) status =
    (a.audit_status ≡ AuditStatus.complete)
    × (a.requirement_reconciliation ≢ some Reconciliation.mismatch)
    × (a.oracle_reconciliation ≢ some Reconciliation.mismatch)
    × (a.evidence_complete ≢ some false)
    × (a.cleanup_complete ≢ some false)
IsReconciled none status = status ≡ some AuditStatus.complete

is_unreconciled_iff :
    (a : Option GateAudit) (s : Option AuditStatus)
    → (is_unreconciled a s ≡ false) ↔ IsReconciled a s
unfolding is_unreconciled
is_unreconciled_iff (some a) s = (λ h. ground arith, λ h. ground (arith, h))
is_unreconciled_iff none none = (λ h. ground arith, λ h. ground arith)
is_unreconciled_iff none (some s) = (λ h. ground arith, λ h. ground arith)

-- No issue is a defect.
abbrev NoDefect : List Issue → Type 0
NoDefect issues =
    (has_issue is_generation_defect issues ≡ false)
    × (has_issue is_infra_defect issues ≡ false)
    × (has_issue is_product_defect issues ≡ false)

harmless_kind :
    (c : Classification)
    → is_generation_defect c ≡ false
    → is_infra_defect c ≡ false
    → is_product_defect c ≡ false
    → (c ≡ unstable) ⊎ (c ≡ other)
harmless_kind unstable g f p = inl refl
harmless_kind other g f p = inr refl
harmless_kind _ g f p = ground arith

IsHarmless-iff : (issues : List Issue) → NoDefect issues ↔ All IsHarmless issues
IsHarmless-iff [] = (λ h. tt, λ h. (refl, refl, refl))
IsHarmless-iff (i ∷ is) = (
  λ h. (
    harmless_kind i.classification (ground arith) (ground arith) (ground arith),
    (IsHarmless-iff is).0 (ground arith),
  ),
  λ h. ground (arith, h, (IsHarmless-iff is).1 h.1),
)

-- Under the default coverage threshold the gate passes exactly when the audit is reconciled, every
-- required P0 case is planned and executable and is covered, no issue is a defect and the flaky
-- cases stay within the policy. Of the floating-point comparison with 100 per cent this needs that
-- it is exact.
pub evaluate_gate-pass_iff :
    (pct_below : ℕ → ℕ → ℕ → Bool) (below_reason : ℕ → ℕ → ℕ → String) (i : GateInput)
    → ((covered required : ℕ)
        → 0 < required
        → pct_below covered required 100 ≡ ltb covered required)
    → i.policy.min_p0_coverage_pct ≡ none
    → ((evaluate_gate pct_below below_reason i).gate ≡ Gate.pass) ↔ (
        IsReconciled i.audit i.audit_status
        × (or_zero i.coverage.p0_required ≤ or_zero i.coverage.p0_planned)
        × (or_zero i.coverage.p0_required ≤ or_zero i.coverage.p0_executable)
        × (or_zero i.coverage.p0_required ≤ p0_covered i.coverage)
        × All IsHarmless i.issues
        × (flaky_count i.issues i.execution_results ≤ or_default i.policy.max_flaky_cases 0))
unfolding evaluate_gate is_unplanned is_uncovered
evaluate_gate-pass_iff pct_below below_reason i exact usual = (
  λ h.
      let clean : (is_unreconciled i.audit i.audit_status ≡ false) × NoDefect i.issues =
        ground (arith, h) in
      (
        (is_unreconciled_iff i.audit i.audit_status).0 clean.0,
        ground (arith, h),
        ground (arith, h),
        ground (arith, h, usual, exact (p0_covered i.coverage) (or_zero i.coverage.p0_required)),
        (IsHarmless-iff i.issues).0 clean.1,
        ground (arith, h),
      ),
  λ h. ground (
    arith,
    (is_unreconciled_iff i.audit i.audit_status).1 h.0,
    (IsHarmless-iff i.issues).1 h.4,
    h.1,
    h.2,
    h.3,
    h.5,
    usual,
    exact (p0_covered i.coverage) (or_zero i.coverage.p0_required),
  ),
)

-- The exit code of the verdict: 0 for a pass, 1 for a failed or unstable product, 2 where the run
-- itself cannot be trusted.
abbrev pub code_of : Gate → ℕ
code_of Gate.pass = 0
code_of Gate.fail = 1
code_of Gate.unstable = 1
code_of Gate.incomplete = 2
code_of Gate.infra = 2

-- The rank of a verdict in `gatePriority`.
abbrev pub rank : Gate → ℕ
rank Gate.incomplete = 0
rank Gate.infra = 1
rank Gate.fail = 2
rank Gate.unstable = 3
rank Gate.pass = 4

-- The exit code depends on the verdict alone, and no verdict hides a worse one: with an infrastructure
-- defect it ranks at least with `infra`, with a product defect with `fail`, and with too many flaky
-- cases with `unstable`, whatever else is the case.
pub evaluate_gate_severity :
    (pct_below : ℕ → ℕ → ℕ → Bool) (below_reason : ℕ → ℕ → ℕ → String) (i : GateInput)
    → let g = evaluate_gate pct_below below_reason i in
      (g.exit_code ≡ code_of g.gate)
      × (has_issue is_infra_defect i.issues ≡ true → rank g.gate ≤ 1)
      × (has_issue is_product_defect i.issues ≡ true → rank g.gate ≤ 2)
      × (or_default i.policy.max_flaky_cases 0 < flaky_count i.issues i.execution_results
          → rank g.gate ≤ 3)
unfolding evaluate_gate
evaluate_gate_severity pct_below below_reason i =
    (ground arith, λ h. ground arith, λ h. ground arith, λ h. ground arith)
