-- ===== src/Registry/Durable.antt =====
-- packages/operation-registry/src/index.ts: what `reload` reads from the files, compared with what
-- the memory held.
use autopw.Prelude.{
  String, true, Option, none, some, [], ◌∷◌, str_eq, str_eq_iff, truthy, Dict, lookup, insert,
  lookup-insert, UniqueKeys, ◌≡◌, refl, arith, Option-cases, Bool-cases, inl, inr,
}
use autopw.Registry.Records.{OperationRecord}
use autopw.Registry.Invariant.{key_of, IsConsistent}
use autopw.Registry.{Registry, reindex_from, reload}

-- The file parses and holds the record of its name, and the index `base` has its key.
record IsFiled (base : Dict String) (k : String) (e : Option OperationRecord) (o : OperationRecord)
    : Type 0 where
  parses : e ≡ some o
  named : o.operation_id ≡ k
  id_truthy : truthy k ≡ true
  request_truthy : truthy o.client_request_id ≡ true
  covered : lookup (key_of o) base ≡ some k

abbrev Readable : Dict String → Dict (Option OperationRecord) → Type 0
Readable base fs =
    (k : String) (e : Option OperationRecord)
    → lookup k fs ≡ some e
    → (o : OperationRecord) × IsFiled base k e o

-- The record of a readable file, or else the one that was there before.
abbrev from_file : Option (Option OperationRecord) → Option OperationRecord → Option OperationRecord
from_file (some (some o)) old = some o
from_file _ old = old

-- The map after reading the file of `o`.
abbrev keep_file : Registry → OperationRecord → Registry
keep_file r o = record r {
  by_id = insert o.operation_id o r.by_id;
  index = insert (key_of o) o.operation_id r.index;
}

module _ (base : Dict String) where
  Readable-tail :
      (k : String) (e : Option OperationRecord) (fs : Dict (Option OperationRecord))
      → UniqueKeys ((k, e) ∷ fs)
      → Readable base ((k, e) ∷ fs)
      → Readable base fs
  unfolding lookup
  Readable-tail k e fs u h j f found = h j f (ground (arith, str_eq_iff k j))

  Readable-head :
      (k : String) (e : Option OperationRecord) (fs : Dict (Option OperationRecord))
      → Readable base ((k, e) ∷ fs)
      → (o : OperationRecord) × IsFiled base k e o
  unfolding lookup
  Readable-head k e fs h = h k e (ground (arith, str_eq_iff k k))

  reindex_from-readable :
      (r : Registry) (k : String) (e : Option OperationRecord) (fs : Dict (Option OperationRecord))
      (o : OperationRecord)
      → IsFiled base k e o
      → reindex_from r ((k, e) ∷ fs) ≡ reindex_from (keep_file r o) fs
  unfolding reindex_from
  reindex_from-readable r k none fs o f = ground (arith, f)
  reindex_from-readable r k (some p) fs o f = ground (arith, f)

  lookup-reindex_from :
      (j : String) (r : Registry) (fs : Dict (Option OperationRecord))
      → UniqueKeys fs
      → Readable base fs
      → lookup j (reindex_from r fs).by_id ≡ from_file (lookup j fs) (lookup j r.by_id)
  unfolding lookup
  lookup-reindex_from j r [] u h = unfold reindex_from in refl
  lookup-reindex_from j r ((k, e) ∷ fs) u h =
      let (o, f) = Readable-head k e fs h in
      rw (reindex_from-readable r k e fs o f) (
        ground (
          arith,
          f,
          str_eq_iff k j,
          lookup-insert o.operation_id j o r.by_id,
          str_eq_iff o.operation_id j,
          lookup-reindex_from j (keep_file r o) fs u.1 (Readable-tail k e fs u h),
        ))

  -- Every entry of the index is one of `base`.
  abbrev Within : Dict String → Type 0
  Within m = (k v : String) → lookup k m ≡ some v → lookup k base ≡ some v

  keep_file-Within :
      (r : Registry) (k : String) (e : Option OperationRecord) (o : OperationRecord)
      → IsFiled base k e o
      → Within r.index
      → Within (keep_file r o).index
  keep_file-Within r k e o f w j v h =
      ground (
        arith,
        f,
        lookup-insert (key_of o) j o.operation_id r.index,
        str_eq_iff (key_of o) j,
        w j v,
      )

  reindex_from-Within :
      (r : Registry) (fs : Dict (Option OperationRecord))
      → UniqueKeys fs
      → Readable base fs
      → Within r.index
      → Within (reindex_from r fs).index
  reindex_from-Within r [] u h w = unfold reindex_from in w
  reindex_from-Within r ((k, e) ∷ fs) u h w =
      let (o, f) = Readable-head k e fs h in
      rw (reindex_from-readable r k e fs o f) (
        reindex_from-Within (keep_file r o) fs u.1 (Readable-tail k e fs u h)
          (keep_file-Within r k e o f w))

  -- An entry that is there stays.
  reindex_from-keeps :
      (r : Registry) (fs : Dict (Option OperationRecord)) (j v : String)
      → UniqueKeys fs
      → Readable base fs
      → Within r.index
      → lookup j r.index ≡ some v
      → lookup j (reindex_from r fs).index ≡ some v
  reindex_from-keeps r [] j v u h w at = unfold reindex_from in at
  reindex_from-keeps r ((k, e) ∷ fs) j v u h w at =
      let (o, f) = Readable-head k e fs h in
      rw (reindex_from-readable r k e fs o f) (
        reindex_from-keeps (keep_file r o) fs j v u.1 (Readable-tail k e fs u h)
          (keep_file-Within r k e o f w)
          (ground (
            arith,
            f,
            lookup-insert (key_of o) j o.operation_id r.index,
            str_eq_iff (key_of o) j,
            w j v at,
          )))

  -- Each file's key is entered.
  reindex_from-enters :
      (r : Registry) (fs : Dict (Option OperationRecord)) (j : String) (p : OperationRecord)
      → UniqueKeys fs
      → Readable base fs
      → Within r.index
      → lookup j fs ≡ some (some p)
      → lookup (key_of p) (reindex_from r fs).index ≡ some j
  unfolding lookup
  reindex_from-enters r [] j p u h w at = absurd (ground (arith, at))
  reindex_from-enters r ((k, e) ∷ fs) j p u h w at =
      let (o, f) = Readable-head k e fs h in
      let w' = keep_file-Within r k e o f w in
      let h' = Readable-tail k e fs u h in
      rw (reindex_from-readable r k e fs o f) (elim (Bool-cases (str_eq k j)) [
        | inl hit ↦ reindex_from-keeps (keep_file r o) fs (key_of p) j u.1 h' w' (
            ground (
              arith,
              f,
              at,
              hit,
              str_eq_iff k j,
              lookup-insert (key_of o) (key_of p) o.operation_id r.index,
              str_eq_iff (key_of o) (key_of p),
            ))
        | inr miss ↦ reindex_from-enters (keep_file r o) fs j p u.1 h' w' (ground (arith, at, miss))
      ])

module _ (r : Registry) (c : IsConsistent r) where
  consistent-Readable : Readable r.index r.files
  consistent-Readable k e h = elim (Option-cases (lookup k r.by_id)) [
    | inl n ↦ absurd (ground (arith, h, n, c.filed k))
    | inr (o, at) ↦ (
      o,
      record {
        parses = ground (arith, h, at, c.filed k);
        named = (c.stored k o at).named;
        id_truthy = (c.stored k o at).id_truthy;
        request_truthy = (c.stored k o at).request_truthy;
        covered = (c.stored k o at).covered;
      },
    )
  ]

  abbrev emptied : Registry
  emptied = record r { by_id = []; index = [] }

  emptied-Within : Within r.index emptied.index
  unfolding lookup
  emptied-Within j v h = absurd (ground (arith, h))

  -- Reading the files of a consistent registry again gives every operation and every index entry
  -- back, and no other.
  pub reload_lossless :
      (id key : String)
      → (lookup id (reload r).by_id ≡ lookup id r.by_id)
        × (lookup key (reload r).index ≡ lookup key r.index)
  unfolding reload lookup
  reload_lossless id key = (
    ground (
      arith,
      c.filed id,
      lookup-reindex_from r.index id emptied r.files c.unique_files consistent-Readable,
    ),
    elim (Option-cases (lookup key r.index)) [
      | inl n ↦ elim (Option-cases (lookup key (reindex_from emptied r.files).index)) [
        | inl m ↦ ground (arith, n, m)
        | inr (v, m) ↦ absurd (
            ground (
              arith,
              n,
              reindex_from-Within r.index emptied r.files c.unique_files consistent-Readable
                  emptied-Within key v m,
            ))
      ]
      | inr (j, at) ↦
          (let (o, found, keyed) = c.indexed key j at in
            ground (
              arith,
              at,
              keyed,
              reindex_from-enters r.index emptied r.files j o c.unique_files consistent-Readable
                  emptied-Within (ground (arith, found, c.filed j)),
            ))
    ],
  )
