-- ===== src/Audit/Reconciled.antt =====
-- packages/audit/src/index.ts with packages/gate/src/index.ts: what a complete audit means.
use autopw.Prelude.{
  ◌≤◌, subst, sym, ℕ, String, Bool, true, not, Option, none, some, List, [], ◌∷◌, str_eq,
  str_eq_iff, all, length, includes, distinct, distinct_from, distinct_from-Distinct,
  includes-distinct_from, IsWithin, no_room, All, Bool-cases, inl, inr, ◌≡◌, arith,
}
use autopw.Gate.{is_unreconciled}
use autopw.Audit.{CaseResult, AuditOptions, case_ids_of, case_reconciliation}
use autopw.Audit.Outcome.{audit_execution, gate_audit, is_complete}

all-All : (p : String → Bool) (xs : List String) → all p xs ≡ true → All (λ x. p x ≡ true) xs
all-All p [] h = tt
all-All p (x ∷ xs) h = (ground (arith, h), all-All p xs (ground (arith, h)))

at_All :
    (p : String → Bool) (xs : List String)
    → All (λ x. p x ≡ true) xs
    → (x : String) → includes xs x ≡ true
    → p x ≡ true
at_All p [] h x i = ground (arith, i)
at_All p (y ∷ ys) h x i = elim (Bool-cases (str_eq x y)) [
  | inl same ↦ subst (λ z. p z ≡ true) (sym ((str_eq_iff x y).0 same)) h.0
  | inr other ↦ at_All p ys h.1 x (ground (arith, i, other))
]

-- What holds of the elements of a list holds of the set of them.
distinct_from-IsWithin :
    (seen xs ys : List String) → IsWithin xs ys → IsWithin (distinct_from seen xs) ys
unfolding distinct_from
distinct_from-IsWithin seen [] ys h = tt
distinct_from-IsWithin seen (x ∷ xs) ys h = elim (Bool-cases (includes seen x)) [
  | inl known ↦ rw known (distinct_from-IsWithin seen xs ys h.1)
  | inr new ↦ rw new (h.0, distinct_from-IsWithin (x ∷ seen) xs ys h.1)
]

-- The planned cases and the cases with results are the same set.
pub record IsAccounted (case_ids : List String) (results : List CaseResult) : Type 0 where
  pub no_repeat : length case_ids ≡ length (distinct case_ids)
  pub executed :
      (id : String) → includes case_ids id ≡ true → includes (case_ids_of results) id ≡ true
  pub planned :
      (id : String) → includes (case_ids_of results) id ≡ true → includes case_ids id ≡ true

includes-distinct : (xs : List String) (x : String) → includes (distinct xs) x ≡ includes xs x
includes-distinct xs x = ground (arith, includes-distinct_from [] xs x)

-- If the case reconciliation succeeds, every planned case has a result and every result belongs to
-- a planned case, although the source compares only sizes and one inclusion.
pub case_reconciliation-IsAccounted :
    (case_ids : List String) (results : List CaseResult)
    → case_reconciliation case_ids results ≡ true
    → IsAccounted case_ids results
unfolding case_reconciliation
case_reconciliation-IsAccounted case_ids results h =
    let actual = distinct (case_ids_of results) in
    let covered = all-All (includes actual) case_ids (ground (arith, h)) in
    let within : IsWithin (distinct case_ids) actual =
      distinct_from-IsWithin [] case_ids actual covered in
    let no_larger : length actual ≤ length (distinct case_ids) = ground (arith, h) in
    record {
      no_repeat = ground (arith, h);
      executed = λ id i. ground (
        arith,
        i,
        at_All (includes actual) case_ids covered id,
        includes-distinct (case_ids_of results) id,
      );
      planned = λ id i. ground (
        arith,
        i,
        includes-distinct (case_ids_of results) id,
        includes-distinct case_ids id,
        no_room (distinct case_ids) actual id (distinct_from-Distinct [] case_ids) within no_larger,
      );
    }

-- The gate's structural check adds nothing to the audit's own status: an audit passes it exactly if
-- it is complete.
pub is_unreconciled-audit_execution :
    (rounded : ℕ → ℕ → ℕ) (case_ids : List String) (results : List CaseResult)
    (manifest : Option (List String)) (o : AuditOptions)
    → is_unreconciled (some (gate_audit (audit_execution rounded case_ids results manifest o))) none
      ≡ not (is_complete case_ids results manifest o)
unfolding is_unreconciled audit_execution is_complete
is_unreconciled-audit_execution rounded case_ids results manifest o = ground arith
