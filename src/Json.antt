-- ===== src/Json.antt =====
-- JSON values, and the canonical text of packages/operation-registry/src/index.ts, by which the
-- parameters of two requests are compared. A text is a list of UTF-16 code units, as in JavaScript,
-- which is also the order in which `sort` puts keys. Numbers are natural and below 2^53.
pub mod Order
use Prim.Native.Char.{code}
use autopw.Prelude.{
  ℕ, zero, suc, str_eq, Option, none, some, ◌+◌, ◌-◌, ◌/◌, ◌%◌, String, Bool, true, false, ◌&&◌,
  ◌||◌, List, [], ◌∷◌, ◌++◌, ltb, ◌==◌, if◌then◌else◌,
}

mutual
  pub data Json : Type 0 where
    null : Json
    bool : Bool → Json
    num : ℕ → Json
    str : String → Json
    arr : Items → Json
    obj : Fields → Json

  pub data Items : Type 0 where
    nil : Items
    cons : Json → Items → Items

  pub data Fields : Type 0 where
    done : Fields
    field : String → Json → Fields → Fields

-- A member of a JSON object, and its text or number.
abbrev pub member_in : String → Fields → Option Json
member_in name done = none
member_in name (field k v rest) = if str_eq k name then some v else member_in name rest

abbrev pub member : String → Json → Option Json
member name (obj fields) = member_in name fields
member name _ = none

abbrev pub text_of : Option Json → Option String
text_of (some (str s)) = some s
text_of _ = none

abbrev pub number_of : Option Json → Option ℕ
number_of (some (num n)) = some n
number_of _ = none

-- The code units of one code point.
abbrev pub units : ℕ → List ℕ
units c =
    if ltb c 65536 then c ∷ [] else (55296 + (c - 65536) / 1024) ∷ (56320 + (c - 65536) % 1024) ∷ []

abbrev pub utf16 : String → List ℕ
utf16 String.[] = []
utf16 (String.◌∷◌ c s) = units (code c) ++ utf16 s

-- `a < b` or `a = b` on texts, by code units.
abbrev pub text_le : List ℕ → List ℕ → Bool
text_le [] ys = true
text_le (x ∷ xs) [] = false
text_le (x ∷ xs) (y ∷ ys) = ltb x y || (x == y && text_le xs ys)

-- The least fuel that prints `n` is its number of digits; `n + 1` is enough.
decimal_from : ℕ → ℕ → List ℕ → List ℕ
decimal_from zero n acc = acc
decimal_from (suc fuel) n acc =
    let rest = decimal_from fuel (n / 10) ((48 + n % 10) ∷ acc) in
    if ltb n 10 then (48 + n) ∷ acc else rest

unfoldable pub decimal : ℕ → List ℕ
unfolding decimal_from
decimal n = decimal_from (n + 1) n []

-- A lower-case hexadecimal digit.
hex : ℕ → ℕ
hex d = if ltb d 10 then 48 + d else 87 + d

-- One code unit as `JSON.stringify` writes it between quotes.
escape : ℕ → List ℕ
unfolding hex
escape c =
    if c == 34
    then 92 ∷ 34 ∷ []
    else if c == 92
    then 92 ∷ 92 ∷ []
    else if c == 8
    then 92 ∷ b'b' ∷ []
    else if c == 9
    then 92 ∷ b't' ∷ []
    else if c == 10
    then 92 ∷ b'n' ∷ []
    else if c == 12
    then 92 ∷ b'f' ∷ []
    else if c == 13
    then 92 ∷ b'r' ∷ []
    else if ltb c 32
    then 92 ∷ b'u' ∷ 48 ∷ 48 ∷ hex (c / 16) ∷ hex (c % 16) ∷ []
    else c ∷ []

escape_all : List ℕ → List ℕ
unfolding escape
escape_all [] = []
escape_all (c ∷ cs) = escape c ++ escape_all cs

-- `JSON.stringify` of a text.
unfoldable pub quote : String → List ℕ
unfolding escape_all
quote s = 34 ∷ (escape_all (utf16 s) ++ 34 ∷ [])

-- `texts.join(",")`.
unfoldable pub join : List (List ℕ) → List ℕ
join [] = []
join (t ∷ []) = t
join (t ∷ u ∷ ts) = t ++ (b',' ∷ join (u ∷ ts))

-- A field's key with the text of its value.
abbrev pub Entry : Type 0
Entry = String × List ℕ

unfoldable pub insert_entry : Entry → List Entry → List Entry
insert_entry (k, t) [] = (k, t) ∷ []
insert_entry (k, t) ((j, u) ∷ es) =
    if text_le (utf16 k) (utf16 j) then (k, t) ∷ (j, u) ∷ es else (j, u) ∷ insert_entry (k, t) es

-- The entries in the order of their keys.
unfoldable pub sort_entries : List Entry → List Entry
unfolding insert_entry
sort_entries [] = []
sort_entries (e ∷ es) = insert_entry e (sort_entries es)

unfoldable pub entry_texts : List Entry → List (List ℕ)
unfolding quote
entry_texts [] = []
entry_texts ((k, t) ∷ es) = (quote k ++ (58 ∷ t)) ∷ entry_texts es

-- `canonicalJson`: the keys of each object are sorted.
unfoldable mutual
  unfolding decimal quote join sort_entries entry_texts

  pub canonical_json : Json → List ℕ
  canonical_json null = b'n' ∷ b'u' ∷ b'l' ∷ b'l' ∷ []
  canonical_json (bool true) = b't' ∷ b'r' ∷ b'u' ∷ b'e' ∷ []
  canonical_json (bool false) = b'f' ∷ b'a' ∷ b'l' ∷ b's' ∷ b'e' ∷ []
  canonical_json (num n) = decimal n
  canonical_json (str s) = quote s
  canonical_json (arr xs) = b'[' ∷ (join (canonical_items xs) ++ b']' ∷ [])
  canonical_json (obj fs) =
      b'{' ∷ (join (entry_texts (sort_entries (canonical_fields fs))) ++ b'}' ∷ [])

  pub canonical_items : Items → List (List ℕ)
  canonical_items nil = []
  canonical_items (cons x xs) = canonical_json x ∷ canonical_items xs

  pub canonical_fields : Fields → List Entry
  canonical_fields done = []
  canonical_fields (field k v fs) = (k, canonical_json v) ∷ canonical_fields fs

abbrev pub text_eq : List ℕ → List ℕ → Bool
text_eq [] [] = true
text_eq (x ∷ xs) (y ∷ ys) = x == y && text_eq xs ys
text_eq _ _ = false

-- `canonicalJson(a) === canonicalJson(b)`.
unfoldable pub same_json : Json → Json → Bool
same_json a b = text_eq (canonical_json a) (canonical_json b)
