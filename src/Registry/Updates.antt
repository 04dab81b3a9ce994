-- ===== src/Registry/Updates.antt =====
-- packages/operation-registry/src/index.ts: updates and the registry's well-formedness.
use autopw.Prelude.{
  ℕ, String, Option, none, some, str_eq, str_eq_iff, lookup, insert, lookup-insert,
  insert-UniqueKeys, ok, ◌≡◌, sym, subst, arith, Option-cases, Result-cases, >>=-eq-ok, Bool-cases,
  ◌⊎◌, inl, inr,
}
use autopw.Registry.Records.{OperationRecord, RunSnapshot}
use autopw.Domain.{OperationStatus}
use autopw.Registry.{Registry, current_record, next_version, update, update_run, with_run}
use autopw.Registry.Invariant.{IsConsistent, KeepsIdentity}

-- An update replaces the record in memory and in its file by the one that the mutator made, with a
-- new time and version.
pub update-cases :
    (r : Registry) (now : ℕ) (id : String) (m : OperationRecord → Option OperationRecord)
    (next : Registry) (o : OperationRecord)
    → update r now id m ≡ ok (next, o)
    → (old : OperationRecord) × (current_record r id ≡ ok old)
      × (((m old ≡ none) × (next ≡ r) × (o ≡ old))
          ⊎ ((new : OperationRecord) × (version : ℕ) × (m old ≡ some new)
              × (next_version old new ≡ ok version)
              × (o ≡ record new { updated_at = now; state_version = some version })
              × (next
                  ≡ record r { files = insert id (some o) r.files; by_id = insert id o r.by_id })))
unfolding update
update-cases r now id m next o h =
    let (old, at, rest) = >>=-eq-ok (current_record r id) _ h in
    elim (Option-cases (m old)) [
      | inl e ↦ (old, at, inl (e, ground (arith, rest, e), ground (arith, rest, e)))
      | inr (new, e) ↦ elim (Result-cases (next_version old new)) [
        | inl (version, v) ↦ (
          old,
          at,
          inr (new, version, e, v, ground (arith, rest, e, v), ground (arith, rest, e, v)),
        )
        | inr (x, v) ↦ absurd (ground (arith, rest, e, v))
      ]
    ]

module _ (r : Registry) (c : IsConsistent r) (id : String) where
  -- In a consistent registry an update starts from the record in memory.
  pub current_record-memory :
      (old : OperationRecord) → current_record r id ≡ ok old → lookup id r.by_id ≡ some old
  unfolding current_record
  current_record-memory old h = ground (arith, c.filed id)

  -- Storing another record of the same identity under the same id.
  restore-IsConsistent :
      (old o : OperationRecord)
      → lookup id r.by_id ≡ some old
      → KeepsIdentity old o
      → IsConsistent (record r { files = insert id (some o) r.files; by_id = insert id o r.by_id })
  restore-IsConsistent old o at same = record {
    stored = λ j p h.
        ground
          (arith, lookup-insert id j o r.by_id, str_eq_iff id j, c.stored j p, c.stored id old at);
    indexed = λ k j h.
        let (p, found, keyed) = c.indexed k j h in
        elim (Bool-cases (str_eq id j)) [
          | inl e ↦
              (o, ground (arith, lookup-insert id j o r.by_id), ground (arith, str_eq_iff id j))
          | inr e ↦ (p, ground (arith, lookup-insert id j o r.by_id), keyed)
        ];
    filed = λ j.
        ground
          (arith, lookup-insert id j o r.by_id, lookup-insert id j (some o) r.files, c.filed j);
    written = c.written;
    unique_by_id = insert-UniqueKeys _ _ _ c.unique_by_id;
    unique_index = c.unique_index;
    unique_files = insert-UniqueKeys _ _ _ c.unique_files;
  }

-- An update whose mutator keeps the identity of the record keeps the registry consistent.
pub update-IsConsistent :
    (r : Registry) (now : ℕ) (id : String) (m : OperationRecord → Option OperationRecord)
    (next : Registry) (o : OperationRecord)
    → IsConsistent r
    → ((p q : OperationRecord) → m p ≡ some q → KeepsIdentity p q)
    → update r now id m ≡ ok (next, o)
    → IsConsistent next
update-IsConsistent r now id m next o c keeps h =
    let (old, at, outcome) = update-cases r now id m next o h in
    let found = current_record-memory r c id old at in
    elim outcome [
      | inl (_, e, _) ↦ subst IsConsistent (sym e) c
      | inr (new, version, e, _, is_new, is_next) ↦ subst IsConsistent (sym is_next) (
          restore-IsConsistent r c id old o found
            (renewed old new version (keeps old new e) is_new))
    ]
  where
    renewed :
        (old new : OperationRecord) (version : ℕ)
        → KeepsIdentity old new
        → o ≡ record new { updated_at = now; state_version = some version }
        → KeepsIdentity old o
    renewed old new version k e = ground arith

-- So recording the progress of a run keeps the registry consistent.
pub update_run-IsConsistent :
    (r : Registry) (now : ℕ) (run : RunSnapshot) (status : Option OperationStatus) (next : Registry)
    (o : OperationRecord)
    → IsConsistent r
    → update_run r now run status ≡ ok (next, o)
    → IsConsistent next
unfolding update_run
update_run-IsConsistent r now run status next o c h =
    update-IsConsistent r now run.operation_id (λ p. some (with_run run status p)) next o c
      (λ p q e. ground arith) h
