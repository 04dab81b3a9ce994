-- ===== src/Registry/Expiry.antt =====
-- packages/operation-registry/src/index.ts: what a sweep leaves undone.
use mathlib.Core.List.{Memᴰ}
use autopw.Prelude.{
  ℕ, ◌+◌, ◌<◌, String, Bool, true, false, ◌||◌, some, List, [], ◌∷◌, ltb, str_eq_iff, lookup,
  remove, values, lookup-remove, All, All-values, lookup-Mem, ◌≡◌, ◌≢◌, arith, Bool-cases, ◌⊎◌, inl,
  inr,
}
use autopw.Registry.Records.{OperationRecord}
use autopw.Registry.Invariant.{IsConsistent}
use autopw.Registry.{Registry, reclaim, sweep_from, sweep, at_low_watermark}

-- The records of `s` that have expired are among `os`, and each is stored under its own id.
record IsPending (now : ℕ) (os : List OperationRecord) (s : Registry) : Type 0 where
  named : (id : String) (p : OperationRecord) → lookup id s.by_id ≡ some p → p.operation_id ≡ id
  waits :
      (id : String) (p : OperationRecord)
      → lookup id s.by_id ≡ some p
      → (now < p.expires_at) ⊎ Memᴰ p os

skip-IsPending :
    (now : ℕ) (o : OperationRecord) (os : List OperationRecord) (s : Registry)
    → now < o.expires_at
    → IsPending now (o ∷ os) s
    → IsPending now os s
skip-IsPending now o os s late w = record {
  named = w.named;
  waits = λ id p h. rest p (w.waits id p h);
}
  where
    rest :
        (p : OperationRecord)
        → (now < p.expires_at) ⊎ Memᴰ p (o ∷ os)
        → (now < p.expires_at) ⊎ Memᴰ p os
    rest p (inl e) = inl e
    rest p (inr (Memᴰ.head e)) = inl (ground arith)
    rest p (inr (Memᴰ.tail m)) = inr m

reclaim-IsPending :
    (now : ℕ) (force : Bool) (undeletable : String → Bool) (o : OperationRecord)
    (os : List OperationRecord) (s : Registry)
    → IsPending now (o ∷ os) s
    → IsPending now os (reclaim s now force undeletable o)
unfolding reclaim
reclaim-IsPending now force undeletable o os s w = record {
  named = λ id p h. w.named id p (old id p h).0;
  waits = λ id p h. rest id p (old id p h) (w.waits id p (old id p h).0);
}
  where
    old :
        (id : String) (p : OperationRecord)
        → lookup id (remove o.operation_id s.by_id) ≡ some p
        → (lookup id s.by_id ≡ some p) × (o.operation_id ≢ id)
    old id p h = (
      ground (arith, lookup-remove o.operation_id id s.by_id),
      λ e. ground (arith, e, lookup-remove o.operation_id id s.by_id, str_eq_iff o.operation_id id),
    )

    rest :
        (id : String) (p : OperationRecord)
        → (lookup id s.by_id ≡ some p) × (o.operation_id ≢ id)
        → (now < p.expires_at) ⊎ Memᴰ p (o ∷ os)
        → (now < p.expires_at) ⊎ Memᴰ p os
    rest id p at (inl e) = inl e
    rest id p at (inr (Memᴰ.head e)) = absurd (at.1 (ground (arith, e, w.named id p at.0)))
    rest id p at (inr (Memᴰ.tail m)) = inr m

-- Nothing that has expired is left.
abbrev pub IsSwept : ℕ → Registry → Type 0
IsSwept now s =
    (id : String) (p : OperationRecord) → lookup id s.by_id ≡ some p → now < p.expires_at

nothing_left :
    (now : ℕ) (p : OperationRecord) → (now < p.expires_at) ⊎ Memᴰ p [] → now < p.expires_at
nothing_left now p (inl e) = e
nothing_left now p (inr m) = elim m [ ]

sweep_from-thorough :
    (r : Registry) (now : ℕ) (force : Bool) (undeletable : String → Bool) (n : ℕ)
    (os : List OperationRecord)
    → All (λ o. o.tombstoned ≡ false) os
    → IsPending now os r
    → let s = (sweep_from r now force undeletable n os).0 in
      (at_low_watermark s ≡ true) ⊎ IsSwept now s
unfolding sweep_from
sweep_from-thorough r now force undeletable n [] live w =
    inr (λ id p h. nothing_left now p (w.waits id p h))
sweep_from-thorough r now force undeletable n (o ∷ os) live w =
    elim (Bool-cases (o.tombstoned || ltb now o.expires_at)) [
      | inl e ↦ rw e (
          sweep_from-thorough r now force undeletable n os live.1
            (skip-IsPending now o os r (ground (arith, e, live.0)) w))
      | inr e ↦
          (let swept = reclaim r now force undeletable o in
            elim (Bool-cases (at_low_watermark swept)) [
              | inl f ↦ rw (e, f) (inl f)
              | inr f ↦
                  rw (e, f)
                    (sweep_from-thorough swept now force undeletable (n + 1) os live.1
                      (reclaim-IsPending now force undeletable o os r w))
            ])
    ]

-- A sweep stops only when the low watermark is reached or nothing that has expired is left.
pub sweep-thorough :
    (r : Registry) (now : ℕ) (force : Bool) (undeletable : String → Bool)
    → IsConsistent r
    → let s = (sweep r now force undeletable).0 in (at_low_watermark s ≡ true) ⊎ IsSwept now s
unfolding sweep
sweep-thorough r now force undeletable c =
    sweep_from-thorough r now force undeletable 0 (values r.by_id)
      (All-values (λ o. o.tombstoned ≡ false) r.by_id c.unique_by_id
        (λ k o h. (c.stored k o h).live))
      (record {
        named = λ id p h. (c.stored id p h).named;
        waits = λ id p h. inr (lookup-Mem id p r.by_id h);
      })
