-- ===== src/Registry/Index.antt =====
-- packages/operation-registry/src/index.ts: the index without the entries of an operation.
use autopw.Prelude.{
  String, none, some, [], ◌∷◌, str_eq, str_eq_iff, opt_str_eq, if◌then◌else◌, Dict, lookup, remove,
  lookup-remove, UniqueKeys, remove-UniqueKeys, ◌≡◌, refl, arith,
}
use autopw.Registry.{drop_entries}

drop_entries-none :
    (id k : String) (es m : Dict String)
    → lookup k m ≡ none
    → lookup k (drop_entries id es m) ≡ none
unfolding drop_entries
drop_entries-none id k [] m h = h
drop_entries-none id k ((j, w) ∷ es) m h =
    drop_entries-none id k es (if str_eq w id then remove j m else m)
      (ground (arith, lookup-remove j k m))

-- Exactly the keys that stood for `id` are gone, and every other key reads as before.
pub lookup-drop_entries :
    (id k : String) (es m : Dict String)
    → UniqueKeys es
    → lookup k (drop_entries id es m)
      ≡ (if opt_str_eq (lookup k es) (some id) then none else lookup k m)
unfolding drop_entries lookup
lookup-drop_entries id k [] m u = refl
lookup-drop_entries id k ((j, w) ∷ es) m u = ground (
  arith,
  str_eq_iff j k,
  str_eq_iff w id,
  lookup-remove j k m,
  lookup-drop_entries id k es (if str_eq w id then remove j m else m) u.1,
  drop_entries-none id k es (remove j m),
)

pub drop_entries-UniqueKeys :
    (id : String) (es m : Dict String) → UniqueKeys m → UniqueKeys (drop_entries id es m)
unfolding drop_entries
drop_entries-UniqueKeys id [] m u = u
drop_entries-UniqueKeys id ((j, w) ∷ es) m u =
    drop_entries-UniqueKeys id es (if str_eq w id then remove j m else m)
      (ground (arith, remove-UniqueKeys j m))
