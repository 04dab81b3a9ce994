-- ===== src/Json/Order.antt =====
-- packages/operation-registry/src/index.ts: the canonical text does not depend on the order of keys.
use autopw.Prelude.{
  ℕ, String, true, false, List, [], ◌∷◌, ◌++◌, Bool-cases, inl, inr, ◌≡◌, refl, sym, subst, ◌⊎◌,
  ◌∙◌, ap, arith,
}
use autopw.Json.{
  Json, Items, Fields, obj, arr, done, field, nil, cons, text_le, text_eq, utf16, Entry,
  insert_entry, sort_entries, canonical_json, canonical_items, canonical_fields, join, entry_texts,
  same_json,
}

-- The order of texts is total, antisymmetric and transitive.
text_le_total : (xs ys : List ℕ) → text_le xs ys ≡ false → text_le ys xs ≡ true
text_le_total [] ys h = ground (arith, h)
text_le_total (x ∷ xs) [] h = refl
text_le_total (x ∷ xs) (y ∷ ys) h = ground (arith, h, text_le_total xs ys)

text_le_antisym :
    (xs ys : List ℕ) → text_le xs ys ≡ true → text_le ys xs ≡ true → text_eq xs ys ≡ true
text_le_antisym [] [] h k = refl
text_le_antisym [] (y ∷ ys) h k = ground (arith, k)
text_le_antisym (x ∷ xs) [] h k = ground (arith, h)
text_le_antisym (x ∷ xs) (y ∷ ys) h k = ground (arith, h, k, text_le_antisym xs ys)

text_le_trans :
    (xs ys zs : List ℕ) → text_le xs ys ≡ true → text_le ys zs ≡ true → text_le xs zs ≡ true
text_le_trans [] ys zs h k = refl
text_le_trans (x ∷ xs) [] zs h k = ground (arith, h)
text_le_trans (x ∷ xs) (y ∷ ys) [] h k = ground (arith, k)
text_le_trans (x ∷ xs) (y ∷ ys) (z ∷ zs) h k = ground (arith, h, k, text_le_trans xs ys zs)

text_eq_self : (xs : List ℕ) → text_eq xs xs ≡ true
text_eq_self [] = refl
text_eq_self (x ∷ xs) = ground (arith, text_eq_self xs)

-- Two keys that differ as texts of code units.
abbrev pub Differ : String → String → Type 0
Differ k j = text_eq (utf16 k) (utf16 j) ≡ false

-- Of two different keys exactly one comes first.
ordered :
    (k j : List ℕ)
    → text_eq k j ≡ false
    → ((text_le k j ≡ true) × (text_le j k ≡ false))
      ⊎ ((text_le k j ≡ false) × (text_le j k ≡ true))
ordered k j ne = elim (Bool-cases (text_le k j)) [
  | inl le ↦ inl (le, ground (arith, ne, le, text_le_antisym k j))
  | inr gt ↦ inr (gt, text_le_total k j gt)
]

insert_ordered :
    (k j : String) (t u : List ℕ) (es : List Entry)
    → text_le (utf16 k) (utf16 j) ≡ true
    → text_le (utf16 j) (utf16 k) ≡ false
    → insert_entry (k, t) (insert_entry (j, u) es) ≡ insert_entry (j, u) (insert_entry (k, t) es)
unfolding insert_entry
insert_ordered k j t u [] h g = ground (arith, h, g)
insert_ordered k j t u ((l, x) ∷ es) h g = elim (Bool-cases (text_le (utf16 j) (utf16 l))) [
  | inl jl ↦
      (let kl = text_le_trans (utf16 k) (utf16 j) (utf16 l) h jl in ground (arith, h, g, jl, kl))
  | inr lj ↦ elim (Bool-cases (text_le (utf16 k) (utf16 l))) [
    | inl kl ↦ ground (arith, h, g, lj, kl)
    | inr lk ↦ ground (arith, lj, lk, insert_ordered k j t u es h g)
  ]
]

insert_entry_comm :
    (k j : String) (t u : List ℕ) (es : List Entry)
    → Differ k j
    → insert_entry (k, t) (insert_entry (j, u) es) ≡ insert_entry (j, u) (insert_entry (k, t) es)
insert_entry_comm k j t u es ne = elim (ordered (utf16 k) (utf16 j) ne) [
  | inl (h, g) ↦ insert_ordered k j t u es h g
  | inr (g, h) ↦ sym (insert_ordered j k u t es h g)
]

-- Values that are the same up to the order of the keys in their objects, at any depth.
mutual
  pub data IsReordered : Json → Json → Type 0 where
    as_is : (a : Json) → IsReordered a a
    in_object : (fs gs : Fields) → IsReorderedFields fs gs → IsReordered (obj fs) (obj gs)
    in_array : (xs ys : Items) → IsReorderedItems xs ys → IsReordered (arr xs) (arr ys)

  pub data IsReorderedItems : Items → Items → Type 0 where
    no_item : IsReorderedItems nil nil
    item :
        (x y : Json) (xs ys : Items)
        → IsReordered x y
        → IsReorderedItems xs ys
        → IsReorderedItems (cons x xs) (cons y ys)

  pub data IsReorderedFields : Fields → Fields → Type 0 where
    no_field : IsReorderedFields done done
    entry :
        (k : String) (v w : Json) (fs gs : Fields)
        → IsReordered v w
        → IsReorderedFields fs gs
        → IsReorderedFields (field k v fs) (field k w gs)
    swap :
        (k j : String) (v w : Json) (fs : Fields)
        → Differ k j
        → IsReorderedFields (field k v (field j w fs)) (field j w (field k v fs))
    in_turn :
        (fs gs hs : Fields)
        → IsReorderedFields fs gs
        → IsReorderedFields gs hs
        → IsReorderedFields fs hs

mutual
  unfolding canonical_json sort_entries

  canonical_json-IsReordered : (a b : Json) → IsReordered a b → canonical_json a ≡ canonical_json b
  canonical_json-IsReordered a b (as_is c) = refl
  canonical_json-IsReordered a b (in_object fs gs h) =
      ap (λ es. b'{' ∷ (join (entry_texts es) ++ b'}' ∷ [])) (sorted-IsReordered fs gs h)
  canonical_json-IsReordered a b (in_array xs ys h) =
      ap (λ ts. b'[' ∷ (join ts ++ b']' ∷ [])) (canonical_items-IsReordered xs ys h)

  canonical_items-IsReordered :
      (xs ys : Items) → IsReorderedItems xs ys → canonical_items xs ≡ canonical_items ys
  canonical_items-IsReordered xs ys no_item = refl
  canonical_items-IsReordered xs ys (item x y us vs h k) =
      ground (arith, canonical_json-IsReordered x y h, canonical_items-IsReordered us vs k)

  sorted-IsReordered :
      (fs gs : Fields)
      → IsReorderedFields fs gs
      → sort_entries (canonical_fields fs) ≡ sort_entries (canonical_fields gs)
  sorted-IsReordered fs gs no_field = refl
  sorted-IsReordered fs gs (entry k v w us vs h k') =
      rw (canonical_json-IsReordered v w h, sorted-IsReordered us vs k') refl
  sorted-IsReordered fs gs (swap k j v w us ne) =
      insert_entry_comm k j (canonical_json v) (canonical_json w)
        (sort_entries (canonical_fields us)) ne
  sorted-IsReordered fs gs (in_turn us vs ws h k) =
      sorted-IsReordered us vs h ∙ sorted-IsReordered vs ws k

-- Such values are the same parameters.
pub same_json-IsReordered : (a b : Json) → IsReordered a b → same_json a b ≡ true
unfolding same_json
same_json-IsReordered a b h =
    subst (λ t. text_eq (canonical_json a) t ≡ true) (canonical_json-IsReordered a b h)
      (text_eq_self (canonical_json a))
