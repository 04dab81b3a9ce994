-- ===== src/Payload.antt =====
-- packages/payload-synthesis/src/index.ts: valid, invalid and boundary payloads for the operations of
-- an application graph, whose nodes are those of packages/application-graph/src/index.ts.
mod Nodes
pub use Nodes.*
pub mod Bindings
pub mod Fixtures
pub mod Variants
use autopw.Prelude.{
  ℕ, zero, suc, ◌+◌, ◌-◌, String, Bool, true, false, not, ◌&&◌, ◌||◌, ltb, ◌==◌, max, str_eq,
  opt_str_eq, Option, none, some, List, [], ◌∷◌, ◌++◌, if◌then◌else◌, all, includes, keep, find?,
  length, Dict, insert, remove,
}
use autopw.Json.{Json, text_of, number_of}

-- A value of a payload: a JSON value, or a number below 0.
pub data Value : Type 0 where
  json : Json → Value
  minus : ℕ → Value

pub record PayloadVariant : Type 0 where
  pub field_id : String
  pub field : String
  pub rule : String
  pub payload : Dict Value

pub record SynthesizedPayload : Type 0 where
  pub operation_id : String
  pub resource_id : String
  pub schema_refs : List String
  pub valid : Dict Value
  pub invalid : List PayloadVariant
  pub boundaries : List PayloadVariant
  pub is_proven : Bool
  pub reason : Option String

-- `normalizeRule`; `lower` is `toLowerCase`.
unfoldable pub normalize_rule : (String → String) → String → String
normalize_rule lower rule =
    let r = lower rule in
    if str_eq r "minlength"
    then "min_length"
    else (if str_eq r "maxlength" then "max_length" else r)

abbrev pub constraint_of : (String → String) → FieldNode → String → Option FieldConstraint
constraint_of lower f rule = find? (λ c. str_eq (normalize_rule lower c.rule) rule) f.constraints

-- `field.constraints.find(...)?.value`
abbrev pub value_of : (String → String) → FieldNode → String → Option Json
value_of lower f rule = elim (constraint_of lower f rule) [ none ↦ none | some c ↦ c.value ]

-- `"x".repeat(n)`
abbrev pub repeat_x : ℕ → String
repeat_x zero = String.[]
repeat_x (suc n) = String.◌∷◌ "x" (repeat_x n)

-- `numericValue`
unfoldable pub numeric_value : (String → String) → FieldNode → Json
unfolding normalize_rule
numeric_value lower f = elim (number_of (value_of lower f "minimum")) [
  | some n ↦ Json.num n
  | none ↦ elim (number_of (value_of lower f "maximum")) [
    | none ↦ Json.num 1
    | some n ↦ if ltb n 1 then Json.num n else Json.num 1
  ]
]

-- The value for a text of this format, if the format is known.
abbrev pub formatted : Option String → Option String
formatted none = none
formatted (some format) =
    if str_eq format "email"
    then some "autopw@example.test"
    else (if str_eq format "uuid"
        then some "00000000-0000-4000-8000-000000000001"
        else (if str_eq format "date"
            then some "2026-01-02"
            else (if str_eq format "date-time" then some "2026-01-02T03:04:05.000Z" else none)))

abbrev pub text_length : Option ℕ → ℕ
text_length none = 8
text_length (some n) = max 1 n

abbrev pub text_value : (String → String) → FieldNode → Json
text_value lower f = elim (formatted (text_of (value_of lower f "format"))) [
  | some text ↦ Json.str text
  | none ↦ Json.str (repeat_x (text_length (number_of (value_of lower f "min_length"))))
]

abbrev pub first_or {ℓ} : {A : Type ℓ} → List A → A → A
first_or [] d = d
first_or (x ∷ xs) d = x

abbrev pub typed_value : (String → String) → FieldNode → String → Json
typed_value lower f type =
    if str_eq type "boolean"
    then Json.bool true
    else (if str_eq type "integer" || str_eq type "number"
        then numeric_value lower f
        else text_value lower f)

abbrev pub values_of : Option FieldConstraint → List Json
values_of none = []
values_of (some c) = elim c.values [ none ↦ [] | some vs ↦ vs ]

-- The default of `schema_types[0] || "string"`.
abbrev pub type_of : FieldNode → String
type_of f = let t = first_or f.schema_types "" in if str_eq t "" then "string" else t

-- `validValue`
unfoldable pub valid_value : (String → String) → FieldNode → Json
unfolding numeric_value normalize_rule
valid_value lower f =
    first_or f.examples
      (first_or (values_of (constraint_of lower f "enum")) (typed_value lower f (type_of f)))

abbrev pub is_number : Json → Bool
is_number (Json.num n) = true
is_number _ = false

-- `invalidEnum`
unfoldable pub invalid_enum : List Json → Json
invalid_enum values =
    if all is_number values then Json.num 9007199254740991 else Json.str "__autopw_invalid__"

abbrev pub variant : FieldNode → String → Dict Value → PayloadVariant
variant f rule payload = record { field_id = f.id; field = f.name; rule = rule; payload = payload }

-- `n - 1` of a natural number.
abbrev pub one_below : ℕ → Value
one_below n = if n == 0 then minus 1 else json (Json.num (n - 1))

-- The variants of one constraint: those that are invalid, and those that are at a boundary.
abbrev pub Variants : Type 0
Variants = List PayloadVariant × List PayloadVariant

abbrev pub invalid_with : FieldNode → String → Dict Value → Value → Variants
invalid_with f rule valid v = (variant f rule (insert f.name v valid) ∷ [], [])

abbrev pub boundary_with : FieldNode → String → Dict Value → Value → Variants
boundary_with f rule valid v = ([], variant f rule (insert f.name v valid) ∷ [])

-- A rule with a bound, which is a number.
abbrev pub bounded : FieldNode → String → Dict Value → Option ℕ → Variants
bounded f rule valid none = ([], [])
bounded f rule valid (some n) =
    if str_eq rule "min_length"
    then boundary_with f rule valid (json (Json.str (repeat_x (n - 1))))
    else (if str_eq rule "max_length"
        then boundary_with f rule valid (json (Json.str (repeat_x (n + 1))))
        else (if str_eq rule "minimum"
            then boundary_with f rule valid (one_below n)
            else (if str_eq rule "maximum"
                then boundary_with f rule valid (json (Json.num (n + 1)))
                else ([], []))))

unfoldable pub variants_of : FieldNode → String → Dict Value → FieldConstraint → Variants
unfolding invalid_enum
variants_of f rule valid c =
    if str_eq rule "required"
    then (variant f rule (remove f.name valid) ∷ [], [])
    else (if str_eq rule "enum"
        then invalid_with f rule valid (json (invalid_enum (values_of (some c))))
        else (if str_eq rule "format" || str_eq rule "pattern"
            then invalid_with f rule valid (json (Json.str "__autopw_invalid__"))
            else bounded f rule valid (number_of c.value)))

abbrev pub both : Variants → Variants → Variants
both (a, b) (c, d) = (a ++ c, b ++ d)

unfoldable pub constraint_variants :
    (String → String) → FieldNode → Dict Value → List FieldConstraint → Variants
unfolding normalize_rule variants_of
constraint_variants lower f valid [] = ([], [])
constraint_variants lower f valid (c ∷ cs) =
    both (variants_of f (normalize_rule lower c.rule) valid c)
      (constraint_variants lower f valid cs)

unfoldable pub field_variants : (String → String) → Dict Value → List FieldNode → Variants
unfolding constraint_variants
field_variants lower valid [] = ([], [])
field_variants lower valid (f ∷ fs) =
    both (constraint_variants lower f valid f.constraints) (field_variants lower valid fs)

unfoldable pub valid_payload : (String → String) → Dict Value → List FieldNode → Dict Value
unfolding valid_value
valid_payload lower m [] = m
valid_payload lower m (f ∷ fs) =
    valid_payload lower (insert f.name (json (valid_value lower f)) m) fs

abbrev pub has_some {ℓ} : {A : Type ℓ} → List A → Bool
has_some xs = ltb 0 (length xs)

-- `synthesizePayload`
unfoldable pub synthesize_payload :
    (String → String) → OperationNode → ResourceNode → List FieldNode → SynthesizedPayload
unfolding field_variants valid_payload
synthesize_payload lower o r fields =
    let valid = valid_payload lower [] fields in
    let variants = field_variants lower valid fields in
    let proven = has_some o.request_schema_refs && has_some fields in
    record {
      operation_id = o.id;
      resource_id = r.id;
      schema_refs = o.request_schema_refs;
      valid = valid;
      invalid = variants.0;
      boundaries = variants.1;
      is_proven = proven;
      reason =
          if proven
          then none
          else some (
              if has_some o.request_schema_refs
              then "MISSING_SCHEMA_FIELDS"
              else "MISSING_REQUEST_SCHEMA");
    }
