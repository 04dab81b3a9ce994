-- ===== src/Registry/Invariant.antt =====
-- packages/operation-registry/src/index.ts: the registry's well-formedness, between its two maps,
-- the files and the written index, and creation. Updates and sweeps have files of their own.
use mathlib.Core.Option
use autopw.Prelude.{
  ℕ, String, true, false, none, some, str_eq, str_eq_iff, truthy, truthy?, lookup, insert,
  lookup-insert, UniqueKeys, insert-UniqueKeys, ok, err, ◌≡◌, refl, sym, subst, ◌≢◌, arith,
  Option-cases, Bool-cases, ◌⊎◌, inl, inr,
}
use autopw.Registry.Records.{OperationRecord, idempotency_key}
use autopw.Registry.{
  Registry, index_drift, CreateInput, Created, create, create_again, create_new, new_record,
  store_new,
}

abbrev pub key_of : OperationRecord → String
key_of o = idempotency_key o.workspace_id o.tool o.client_request_id

-- What holds of a record stored under `id`.
pub record IsStored (r : Registry) (id : String) (o : OperationRecord) : Type 0 where
  pub named : o.operation_id ≡ id
  pub live : o.tombstoned ≡ false
  pub id_truthy : truthy id ≡ true
  pub request_truthy : truthy o.client_request_id ≡ true
  pub covered : lookup (key_of o) r.index ≡ some id

pub record IsConsistent (r : Registry) : Type 0 where
  pub stored : (id : String) (o : OperationRecord) → lookup id r.by_id ≡ some o → IsStored r id o
  pub indexed :
      (k id : String)
      → lookup k r.index ≡ some id
      → (o : OperationRecord) × (lookup id r.by_id ≡ some o) × (key_of o ≡ k)
  pub filed : (id : String) → lookup id r.files ≡ Option.map some (lookup id r.by_id)
  pub written : r.index_file ≡ r.index
  pub unique_by_id : UniqueKeys r.by_id
  pub unique_index : UniqueKeys r.index
  pub unique_files : UniqueKeys r.files

-- The identity of a record, which no update changes.
pub record KeepsIdentity (o p : OperationRecord) : Type 0 where
  pub same_id : p.operation_id ≡ o.operation_id
  pub same_tool : p.tool ≡ o.tool
  pub same_request : p.client_request_id ≡ o.client_request_id
  pub same_workspace : p.workspace_id ≡ o.workspace_id
  pub same_life : p.tombstoned ≡ o.tombstoned

module _ (r : Registry) (c : IsConsistent r) where
  -- A key whose entry is falsy has no entry at all.
  no_entry : (k : String) → truthy? (lookup k r.index) ≡ none → lookup k r.index ≡ none
  no_entry k h = elim (Option-cases (lookup k r.index)) [
    | inl e ↦ e
    | inr (id, e) ↦
        (let (o, at, _) = c.indexed k id e in ground (arith, e, (c.stored id o at).id_truthy))
  ]

  module _ (now : ℕ) (id key : String) (input : CreateInput) where
    abbrev fresh_record : OperationRecord
    fresh_record = new_record r.retention input now id

    -- A new record under a new id and a new key.
    pub store_new-IsConsistent :
        lookup id r.by_id ≡ none
        → truthy id ≡ true
        → truthy input.client_request_id ≡ true
        → idempotency_key input.workspace_id input.tool input.client_request_id ≡ key
        → lookup key r.index ≡ none
        → IsConsistent (store_new r fresh_record key)
    store_new-IsConsistent fresh named asked is_key free = record {
      stored = λ j o h. ground (
        arith,
        lookup-insert id j fresh_record r.by_id,
        str_eq_iff id j,
        lookup-insert key (key_of o) id r.index,
        str_eq_iff key (key_of o),
        c.stored j o,
      );
      indexed = λ k j h. entry fresh is_key k j h (Bool-cases (str_eq key k));
      filed = λ j. ground (
        arith,
        lookup-insert id j fresh_record r.by_id,
        lookup-insert id j (some fresh_record) r.files,
        c.filed j,
      );
      written = refl;
      unique_by_id = insert-UniqueKeys _ _ _ c.unique_by_id;
      unique_index = insert-UniqueKeys _ _ _ c.unique_index;
      unique_files = insert-UniqueKeys _ _ _ c.unique_files;
    }
      where
        entry :
            lookup id r.by_id ≡ none
            → idempotency_key input.workspace_id input.tool input.client_request_id ≡ key
            → (k j : String) → lookup k (insert key id r.index) ≡ some j
            → (str_eq key k ≡ true) ⊎ (str_eq key k ≡ false)
            → (o : OperationRecord) × (lookup j (insert id fresh_record r.by_id) ≡ some o)
              × (key_of o ≡ k)
        entry fresh is_key k j h (inl e) = (
          fresh_record,
          ground (
            arith,
            lookup-insert key k id r.index,
            lookup-insert id j fresh_record r.by_id,
            str_eq_iff id j,
          ),
          ground (arith, str_eq_iff key k),
        )
        entry fresh is_key k j h (inr e) =
            let old : lookup k r.index ≡ some j = ground (arith, lookup-insert key k id r.index) in
            let (o, at, keyed) = c.indexed k j old in
            (o, ground (arith, lookup-insert id j fresh_record r.by_id, str_eq_iff id j), keyed)

-- A creation that succeeds either changes nothing or stores a new record under a free key.
create-cases :
    (r : Registry) (now : ℕ) (id : String) (input : CreateInput) (next : Registry) (made : Created)
    → create r now id input ≡ ok (next, made)
    → let key = idempotency_key input.workspace_id input.tool input.client_request_id in
      (next ≡ r)
      ⊎ ((next ≡ store_new r (new_record r.retention input now id) key)
          × (truthy input.client_request_id ≡ true)
          × (truthy? (lookup key r.index) ≡ none))
unfolding create create_again create_new
create-cases r now id input next made h = ground arith

-- Creation under a new id keeps the registry consistent, whichever of its branches is taken.
pub create-IsConsistent :
    (r : Registry) (now : ℕ) (id : String) (input : CreateInput) (next : Registry) (made : Created)
    → IsConsistent r
    → lookup id r.by_id ≡ none
    → truthy id ≡ true
    → create r now id input ≡ ok (next, made)
    → IsConsistent next
create-IsConsistent r now id input next made c fresh named h =
    elim (create-cases r now id input next made h) [
      | inl e ↦ subst IsConsistent (sym e) c
      | inr (e, asked, free) ↦
          subst IsConsistent (sym e)
            (store_new-IsConsistent r c now id _ input fresh named asked refl (no_entry r c _ free))
    ]

-- In a consistent registry the index never points to a missing record.
pub create-ne-index_drift :
    (r : Registry) (now : ℕ) (id : String) (input : CreateInput)
    → IsConsistent r
    → create r now id input ≢ err index_drift
unfolding create create_again create_new
create-ne-index_drift r now id input c h =
    let key = idempotency_key input.workspace_id input.tool input.client_request_id in
    elim (Option-cases (lookup key r.index)) [
      | inl e ↦ ground (arith, e)
      | inr (j, e) ↦ (let (o, at, _) = c.indexed key j e in ground (arith, e, at))
    ]
