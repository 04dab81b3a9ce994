-- ===== src/Registry/Sweep.antt =====
-- packages/operation-registry/src/index.ts: `sweep`, its effect on each record and on the
-- registry's well-formedness.
use autopw.Prelude.{
  ℕ, ◌+◌, ◌≤◌, String, Bool, true, false, ◌||◌, none, some, List, [], ◌∷◌, ltb, str_eq, str_eq_iff,
  is_some, lookup, values, lookup-insert, lookup-remove, remove-UniqueKeys, All, All-values, err,
  ◌≡◌, refl, arith, Bool-cases, ◌⊎◌, inl, inr,
}
use autopw.Registry.Records.{OperationRecord}
use autopw.Registry.Index.{lookup-drop_entries, drop_entries-UniqueKeys}
use autopw.Registry.Invariant.{key_of, IsConsistent}
use autopw.Registry.{
  Registry, get, buried, reclaim, sweep_from, sweep, at_low_watermark, query_after_tombstone,
  result_expired,
}

-- The registry with its index written.
abbrev settle : Registry → Registry
settle r = record r { index_file = r.index }

-- Every file that the sweep touches is deleted.
abbrev deletes_all : String → Bool
deletes_all id = false

module _ (r : Registry) (now : ℕ) (force : Bool) (o : OperationRecord) where
  reclaim-IsConsistent :
      IsConsistent (settle r) → IsConsistent (settle (reclaim r now force deletes_all o))
  unfolding reclaim
  reclaim-IsConsistent c = record {
    stored = λ j p h. ground (
      arith,
      lookup-remove o.operation_id j r.by_id,
      str_eq_iff o.operation_id j,
      c.stored j p,
      lookup-drop_entries o.operation_id (key_of p) r.index r.index c.unique_index,
      str_eq_iff j o.operation_id,
    );
    indexed = λ k j h.
        let kept : (lookup k r.index ≡ some j) × (str_eq j o.operation_id ≡ false) =
          ground (arith, lookup-drop_entries o.operation_id k r.index r.index c.unique_index) in
        let (p, at, keyed) = c.indexed k j kept.0 in
        (
          p,
          ground (
            arith,
            kept,
            lookup-remove o.operation_id j r.by_id,
            str_eq_iff o.operation_id j,
            str_eq_iff j o.operation_id,
          ),
          keyed,
        );
    filed = λ j. ground (
      arith,
      lookup-remove o.operation_id j r.by_id,
      lookup-remove o.operation_id j r.files,
      c.filed j,
    );
    written = refl;
    unique_by_id = remove-UniqueKeys o.operation_id r.by_id c.unique_by_id;
    unique_index = drop_entries-UniqueKeys o.operation_id r.index r.index c.unique_index;
    unique_files = remove-UniqueKeys o.operation_id r.files c.unique_files;
  }

-- One rule for the loop: what the reclaim of each expired record preserves, the whole loop does.
sweep_from_inv {ℓ κ} :
    (P : Registry → Type ℓ) (Q : OperationRecord → Type κ) (r : Registry) (now : ℕ) (force : Bool)
    (undeletable : String → Bool) (n : ℕ) (os : List OperationRecord)
    → ((s : Registry) (o : OperationRecord)
        → Q o
        → o.expires_at ≤ now
        → P s
        → P (reclaim s now force undeletable o))
    → All Q os
    → P r
    → P (sweep_from r now force undeletable n os).0
unfolding sweep_from
sweep_from_inv P Q r now force undeletable n [] keeps q h = h
sweep_from_inv P Q r now force undeletable n (o ∷ os) keeps q h =
    elim (Bool-cases (o.tombstoned || ltb now o.expires_at)) [
      | inl e ↦ rw e (sweep_from_inv P Q r now force undeletable n os keeps q.1 h)
      | inr e ↦
          (let swept = reclaim r now force undeletable o in
            let after = keeps r o q.0 (ground (arith, e)) h in
            elim (Bool-cases (at_low_watermark swept)) [
              | inl f ↦ rw (e, f) after
              | inr f ↦
                  rw (e, f)
                    (sweep_from_inv P Q swept now force undeletable (n + 1) os keeps q.1 after)
            ])
    ]

-- What holds of each record of the snapshot that a sweep of `r` walks over.
record IsSnapshot (r : Registry) (o : OperationRecord) : Type 0 where
  found : lookup o.operation_id r.by_id ≡ some o
  live : o.tombstoned ≡ false

snapshot : (r : Registry) → IsConsistent r → All (IsSnapshot r) (values r.by_id)
snapshot r c =
    All-values (IsSnapshot r) r.by_id c.unique_by_id (λ k o h. ground (arith, h, c.stored k o h))

settle-IsConsistent : (r : Registry) → IsConsistent r → IsConsistent (settle r)
settle-IsConsistent r c = record {
  stored = λ id o h. ground (arith, c.stored id o h);
  indexed = c.indexed;
  filed = c.filed;
  written = refl;
  unique_by_id = c.unique_by_id;
  unique_index = c.unique_index;
  unique_files = c.unique_files;
}

-- A sweep whose deletions succeed keeps the registry consistent.
pub sweep-IsConsistent :
    (r : Registry) (now : ℕ) (force : Bool)
    → IsConsistent r
    → IsConsistent (sweep r now force deletes_all).0
unfolding sweep
sweep-IsConsistent r now force c =
    sweep_from_inv (λ s. IsConsistent (settle s)) (IsSnapshot r) r now force deletes_all 0
      (values r.by_id) (λ s o _ h k. reclaim-IsConsistent s now force o k) (snapshot r c)
      (settle-IsConsistent r c)

-- A record is where it was, or it has expired, is gone and left a tombstone.
abbrev KeptOrBuried : ℕ → String → OperationRecord → Registry → Type 0
KeptOrBuried now id p s =
    (lookup id s.by_id ≡ some p)
    ⊎ ((p.expires_at ≤ now)
        × (lookup id s.by_id ≡ none)
        × (is_some (lookup id s.tombstones) ≡ true))

reclaim-KeptOrBuried :
    (r : Registry) (now : ℕ) (undeletable : String → Bool) (id : String) (p : OperationRecord)
    → lookup id r.by_id ≡ some p
    → (s : Registry) (o : OperationRecord) → IsSnapshot r o
    → o.expires_at ≤ now
    → KeptOrBuried now id p s
    → KeptOrBuried now id p (reclaim s now true undeletable o)
unfolding reclaim
reclaim-KeptOrBuried r now undeletable id p h s o q late k = ground (
  arith,
  q,
  k,
  lookup-remove o.operation_id id s.by_id,
  lookup-insert o.operation_id id (buried o now) s.tombstones,
  str_eq_iff o.operation_id id,
)

-- After a sweep with tombstones each record is as it was, or it has expired, is gone and answers
-- `RESULT_EXPIRED`; this also holds where files could not be deleted.
pub sweep_outcome :
    (r : Registry) (now : ℕ) (undeletable : String → Bool) (id : String) (p : OperationRecord)
    → IsConsistent r
    → lookup id r.by_id ≡ some p
    → let s = (sweep r now true undeletable).0 in
      (get s id ≡ some p)
      ⊎ ((p.expires_at ≤ now)
          × (get s id ≡ none)
          × (query_after_tombstone s id ≡ err result_expired))
unfolding sweep get query_after_tombstone
sweep_outcome r now undeletable id p c h =
    let outcome =
      sweep_from_inv (KeptOrBuried now id p) (IsSnapshot r) r now true undeletable 0
        (values r.by_id) (reclaim-KeptOrBuried r now undeletable id p h) (snapshot r c) (inl h) in
    ground (arith, c.stored id p h, outcome)
