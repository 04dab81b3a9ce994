-- ===== src/Registry/Versions.antt =====
-- packages/operation-registry/src/index.ts: `updateRun`, call after call.
use autopw.Prelude.{
  ℕ, ◌+◌, String, Option, some, List, [], ◌∷◌, str_eq, str_eq_iff, Bool-cases, Result-cases, inl,
  inr, or_zero, lookup, insert, lookup-insert, All, length, Result, ok, ◌>>=◌, ◌≡◌, refl, ◌≢◌,
  arith,
}
use autopw.Domain.{OperationStatus}
use autopw.Registry.Records.{OperationRecord, RunSnapshot}
use autopw.Registry.Invariant.{KeepsIdentity}
use autopw.Registry.{
  Registry, RegistryError, current_record, next_version, update, update_run, with_run,
}

-- One call of `updateRun`: when, what and the new status.
pub record RunUpdate : Type 0 where
  pub at : ℕ
  pub run : RunSnapshot
  pub status : Option OperationStatus

-- The calls in order.
unfoldable pub update_runs : Registry → List RunUpdate → Result RegistryError Registry
update_runs r [] = ok r
update_runs r (u ∷ us) = do (next, o) ← update_run r u.at u.run u.status; update_runs next us

-- The record that one call leaves.
abbrev recorded : RunUpdate → OperationRecord → OperationRecord
recorded u o = record (with_run u.run u.status o) {
  updated_at = u.at;
  state_version = some (or_zero o.state_version + 1);
}

update_run-recorded :
    (r : Registry) (u : RunUpdate) (o : OperationRecord)
    → lookup u.run.operation_id r.by_id ≡ some o
    → update_run r u.at u.run u.status
      ≡ ok (
        record r {
          files = insert u.run.operation_id (some (recorded u o)) r.files;
          by_id = insert u.run.operation_id (recorded u o) r.by_id;
        },
        recorded u o,
      )
unfolding update_run update current_record next_version
update_run-recorded r u o h = ground arith

-- What one call that succeeds does to the map of operations.
update_run-inserts :
    (r next : Registry) (made : OperationRecord) (u : RunUpdate)
    → update_run r u.at u.run u.status ≡ ok (next, made)
    → (c : OperationRecord) × (current_record r u.run.operation_id ≡ ok c)
      × (next.index ≡ r.index)
      × (next.by_id ≡ insert u.run.operation_id made r.by_id)
      × (made.params ≡ c.params)
unfolding update_run update next_version
update_run-inserts r next made u k = elim (Result-cases (current_record r u.run.operation_id)) [
  | inl (c, e) ↦ (c, e, ground (arith, k, e), ground (arith, k, e), ground (arith, k, e))
  | inr (x, e) ↦ absurd (ground (arith, k, e))
]

-- What one call that succeeds keeps of any operation, and of the index.
pub update_run-kept :
    (r next : Registry) (made : OperationRecord) (id : String) (o : OperationRecord) (u : RunUpdate)
    → lookup id r.by_id ≡ some o
    → update_run r u.at u.run u.status ≡ ok (next, made)
    → (next.index ≡ r.index)
      × (now : OperationRecord) × (lookup id next.by_id ≡ some now)
      × (now.params ≡ o.params)
unfolding current_record
update_run-kept r next made id o u h k =
    let (c, current, index, by_id, same) = update_run-inserts r next made u k in
    let at = lookup-insert u.run.operation_id id made r.by_id in
    elim (Bool-cases (str_eq u.run.operation_id id)) [
      | inl own ↦
          (let e = (str_eq_iff u.run.operation_id id).0 own in
            (index, made, ground (arith, by_id, at, own), ground (arith, same, current, e, h)))
      | inr other ↦ (index, o, ground (arith, by_id, at, other, h), refl)
    ]

-- What a series of updates of the operation `id` leaves of it.
pub record IsRecorded (r next : Registry) (id : String) (o : OperationRecord) (n : ℕ) : Type 0 where
  pub current : OperationRecord
  pub found : lookup id next.by_id ≡ some current
  pub on_disk : lookup id next.files ≡ some (some current)
  pub same : KeepsIdentity o current
  pub version : or_zero current.state_version ≡ or_zero o.state_version + n
  pub others : (j : String) → id ≢ j → lookup j next.by_id ≡ lookup j r.by_id

-- Recording the progress of an operation never fails. After any number of calls for the operation
-- `id` its version has grown by exactly their number, its identity is the same, memory and file
-- agree on it, and no other operation has changed.
pub update_runs-IsRecorded :
    (r : Registry) (id : String) (o : OperationRecord) (us : List RunUpdate)
    → lookup id r.by_id ≡ some o
    → lookup id r.files ≡ some (some o)
    → All (λ u. u.run.operation_id ≡ id) us
    → (next : Registry) × (update_runs r us ≡ ok next) × IsRecorded r next id o (length us)
unfolding update_runs
update_runs-IsRecorded r id o [] h f us = (
  r,
  refl,
  record {
    current = o;
    found = h;
    on_disk = f;
    same = ground arith;
    version = omega arith;
    others = λ j ne. refl;
  },
)
update_runs-IsRecorded r id o (u ∷ us) h f named =
    let o' = recorded u o in
    let id' = u.run.operation_id in
    let r' : Registry = record r {
      files = insert id' (some o') r.files;
      by_id = insert id' o' r.by_id;
    } in
    let one = update_run-recorded r u o (ground (arith, h, named.0)) in
    let at' : lookup id r'.by_id ≡ some o' =
      ground (arith, named.0, lookup-insert id' id o' r.by_id, str_eq_iff id' id) in
    let disk' : lookup id r'.files ≡ some (some o') =
      ground (arith, named.0, lookup-insert id' id (some o') r.files, str_eq_iff id' id) in
    let (next, run, k) = update_runs-IsRecorded r' id o' us at' disk' named.1 in
    (
      next,
      ground (arith, one, run),
      record {
        current = k.current;
        found = k.found;
        on_disk = k.on_disk;
        same = ground (arith, k.same);
        version = omega (arith, k.version);
        others = λ j ne.
            ground
              (arith, k.others j ne, named.0, lookup-insert id' j o' r.by_id, str_eq_iff id' j);
      },
    )
