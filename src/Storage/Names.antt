-- ===== src/Storage/Names.antt =====
-- packages/run-storage/src/index.ts: the patterns that names, kinds and handles must match, and the
-- assertions on them. `basename` of `node:path` is an argument.
use Prim.Native.Char.{Char, code}
use autopw.Prelude.{
  ℕ, zero, suc, String, Bool, true, false, not, ◌&&◌, ◌||◌, leb, ◌==◌, str_eq, truthy, Option, none,
  some, if◌then◌else◌, Result, throw_if,
}

abbrev pub is_in : ℕ → ℕ → Char → Bool
is_in first final c = leb first (code c) && leb (code c) final

abbrev pub is_digit : Char → Bool
is_digit c = is_in 48 57 c

-- `[A-Za-z0-9_.-]`
unfoldable pub is_display_char : Char → Bool
is_display_char c =
    is_in 65 90 c || is_in 97 122 c || is_digit c || code c == 95 || code c == 46 || code c == 45

-- `[A-Za-z0-9_.:-]`
unfoldable pub is_id_char : Char → Bool
unfolding is_display_char
is_id_char c = is_display_char c || code c == 58

-- `[A-Za-z0-9_.:%-]`
unfoldable pub is_segment_char : Char → Bool
unfolding is_id_char
is_segment_char c = is_id_char c || code c == 37

-- `[a-f0-9]`
unfoldable pub is_hex_char : Char → Bool
is_hex_char c = is_in 97 102 c || is_digit c

unfoldable pub all_chars : (Char → Bool) → String → Bool
all_chars p String.[] = true
all_chars p (String.◌∷◌ c s) = p c && all_chars p s

-- A text of one such character at least.
abbrev pub matches_some : (Char → Bool) → String → Bool
matches_some p s = truthy s && all_chars p s

-- `SAFE_ID` and `SAFE_KIND`, which read the same, and `SAFE_DISPLAY_NAME`.
unfoldable pub is_safe_id : String → Bool
unfolding all_chars
is_safe_id s = matches_some is_id_char s

unfoldable pub is_safe_display : String → Bool
unfolding all_chars
is_safe_display s = matches_some is_display_char s

-- The text behind a prefix.
unfoldable pub strip_prefix : String → String → Option String
strip_prefix String.[] s = some s
strip_prefix (String.◌∷◌ c p) String.[] = none
strip_prefix (String.◌∷◌ c p) (String.◌∷◌ d s) =
    let rest = strip_prefix p s in if code c == code d then rest else none

-- The text behind `n` hexadecimal digits.
unfoldable pub strip_hex : ℕ → String → Option String
strip_hex zero s = some s
strip_hex (suc n) String.[] = none
strip_hex (suc n) (String.◌∷◌ c s) =
    let rest = strip_hex n s in if is_hex_char c then rest else none

-- The text from the first character on that is not of the class.
unfoldable pub strip_while : (Char → Bool) → String → String
strip_while p String.[] = String.[]
strip_while p (String.◌∷◌ c s) = let rest = strip_while p s in if p c then rest else String.◌∷◌ c s

abbrev pub then_strip : Option String → (String → Option String) → Option String
then_strip none next = none
then_strip (some s) next = next s

abbrev pub is_empty : Option String → Bool
is_empty none = false
is_empty (some s) = not (truthy s)

-- `ARTIFACT_HANDLE`
unfoldable pub is_artifact_handle : String → Bool
unfolding strip_prefix strip_hex
is_artifact_handle s = is_empty (then_strip (strip_prefix "art_" s) (strip_hex 64))

-- `(?:\.[A-Za-z0-9_.-]+)?$`
abbrev pub is_extension_or_end : String → Bool
is_extension_or_end s =
    not (truthy s) || (elim (strip_prefix "." s) [ none ↦ false | some e ↦ is_safe_display e ])

-- `[A-Za-z0-9_.:%-]+`, which takes all it can: no such character follows.
abbrev pub strip_segment : String → Option String
strip_segment s =
    let rest = strip_while is_segment_char s in if str_eq rest s then none else some rest

-- `ARTIFACT_INDEX_PATH`
unfoldable pub is_artifact_index_path : String → Bool
unfolding strip_prefix strip_hex strip_while is_safe_display
is_artifact_index_path s =
    elim (then_strip (strip_prefix "cases/" s) (λ a.
      then_strip (strip_segment a)
        (λ b. then_strip (strip_prefix "/artifacts/art_" b) (strip_hex 64)))) [
          | none ↦ false
          | some rest ↦ is_extension_or_end rest
        ]

abbrev pub contains_char : ℕ → String → Bool
contains_char n String.[] = false
contains_char n (String.◌∷◌ c s) = code c == n || contains_char n s

abbrev pub ends_with_dot : String → Bool
ends_with_dot String.[] = false
ends_with_dot (String.◌∷◌ c String.[]) = code c == 46
ends_with_dot (String.◌∷◌ c (String.◌∷◌ d s)) = ends_with_dot (String.◌∷◌ d s)

-- `assertSafeSegment`
unfoldable pub assert_safe_segment : String → Result String (Unit {0})
unfolding is_safe_id
assert_safe_segment value =
    throw_if (str_eq value "." || str_eq value ".." || not (is_safe_id value)) "SAFE_PATH_INVALID"

-- `assertSafeFileName`
unfoldable pub assert_safe_file_name : (String → String) → String → Result String (Unit {0})
unfolding is_safe_display
assert_safe_file_name basename value =
    throw_if
      (not (truthy value)
        || str_eq value "."
        || str_eq value ".."
        || not (str_eq (basename value) value)
        || contains_char 47 value
        || contains_char 92 value
        || not (is_safe_display value)
        || ends_with_dot value)
      "SAFE_PATH_INVALID"

-- `isSafeDisplayName`
unfoldable pub is_safe_display_name : (String → String) → String → Bool
unfolding is_safe_display
is_safe_display_name basename value =
    truthy value
    && str_eq (basename value) value
    && not (contains_char 47 value)
    && not (contains_char 92 value)
    && is_safe_display value
    && not (ends_with_dot value)

-- `caseStorageSegment`: each `:` becomes `%3A`.
unfoldable pub case_storage_segment : String → String
case_storage_segment String.[] = String.[]
case_storage_segment (String.◌∷◌ c s) =
    let rest = case_storage_segment s in
    if code c == 58
    then String.◌∷◌ "%" (String.◌∷◌ "3" (String.◌∷◌ "A" rest))
    else String.◌∷◌ c rest

-- `slice(first, last)` of a text of one code unit for each character.
abbrev pub drop_chars : ℕ → String → String
drop_chars zero s = s
drop_chars (suc n) String.[] = String.[]
drop_chars (suc n) (String.◌∷◌ c s) = drop_chars n s

abbrev pub take_chars : ℕ → String → String
take_chars zero s = String.[]
take_chars (suc n) String.[] = String.[]
take_chars (suc n) (String.◌∷◌ c s) = String.◌∷◌ c (take_chars n s)
