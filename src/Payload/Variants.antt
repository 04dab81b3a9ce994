-- ===== src/Payload/Variants.antt =====
-- packages/payload-synthesis/src/index.ts: how a variant differs from the valid payload.
use autopw.Prelude.{
  ℕ, String, Bool, true, false, ◌||◌, str_eq, str_eq_iff, Option, none, some, List, [], ◌∷◌,
  if◌then◌else◌, All, All-append, Dict, lookup, insert, remove, lookup-insert_ne, lookup-remove,
  lookup-remove_self, ◌≡◌, ◌≢◌, refl, arith,
}
use autopw.Json.{number_of}
use autopw.Payload.{
  FieldNode, OperationNode, ResourceNode, FieldConstraint, Value, PayloadVariant, Variants, variant,
  bounded, invalid_with, boundary_with, both, normalize_rule, variants_of, constraint_variants,
  field_variants, valid_payload, synthesize_payload,
}

-- The variant agrees with the valid payload on every other field, and lacks its own field if the rule
-- it breaks is that the field is required.
pub record IsSingleFault (valid : Dict Value) (v : PayloadVariant) : Type 0 where
  pub elsewhere : (k : String) → v.field ≢ k → lookup k v.payload ≡ lookup k valid
  pub omitted : v.rule ≡ "required" → lookup v.field v.payload ≡ none

abbrev AllSingle : Dict Value → Variants → Type 0
AllSingle valid (a, b) = All (IsSingleFault valid) a × All (IsSingleFault valid) b

changed-IsSingleFault :
    (valid : Dict Value) (f : FieldNode) (rule : String) (v : Value)
    → rule ≢ "required"
    → IsSingleFault valid (variant f rule (insert f.name v valid))
changed-IsSingleFault valid f rule v h = record {
  elsewhere = λ k other. lookup-insert_ne f.name k v valid other;
  omitted = λ same. ground (arith, h, same);
}

removed-IsSingleFault :
    (valid : Dict Value) (f : FieldNode) (rule : String)
    → IsSingleFault valid (variant f rule (remove f.name valid))
removed-IsSingleFault valid f rule = record {
  elsewhere = λ k other. ground (arith, lookup-remove f.name k valid, str_eq_iff f.name k, other);
  omitted = λ same. lookup-remove_self f.name valid;
}

both-AllSingle :
    (valid : Dict Value) (a b : Variants)
    → AllSingle valid a
    → AllSingle valid b
    → AllSingle valid (both a b)
both-AllSingle valid (a, b) (c, d) h k =
    (All-append (IsSingleFault valid) a c h.0 k.0, All-append (IsSingleFault valid) b d h.1 k.1)

-- A choice between variants, under what the test tells.
chosen-AllSingle :
    (valid : Dict Value) (b : Bool) (x y : Variants)
    → (b ≡ true → AllSingle valid x)
    → (b ≡ false → AllSingle valid y)
    → AllSingle valid (if b then x else y)
chosen-AllSingle valid true x y h k = h refl
chosen-AllSingle valid false x y h k = k refl

bounded-AllSingle :
    (valid : Dict Value) (f : FieldNode) (rule : String) (n : Option ℕ)
    → rule ≢ "required"
    → AllSingle valid (bounded f rule valid n)
bounded-AllSingle valid f rule none h = (tt, tt)
bounded-AllSingle valid f rule (some n) h =
    let faulty : (v : Value) → AllSingle valid (boundary_with f rule valid v) =
      λ v. (tt, (changed-IsSingleFault valid f rule v h, tt)) in
    chosen-AllSingle valid (str_eq rule "min_length") _ _ (λ _. faulty _)
      (λ _.
        chosen-AllSingle valid (str_eq rule "max_length") _ _ (λ _. faulty _)
          (λ _.
            chosen-AllSingle valid (str_eq rule "minimum") _ _ (λ _. faulty _)
              (λ _.
                chosen-AllSingle valid (str_eq rule "maximum") _ _ (λ _. faulty _)
                  (λ _. (tt, tt)))))

variants_of-AllSingle :
    (valid : Dict Value) (f : FieldNode) (rule : String) (c : FieldConstraint)
    → AllSingle valid (variants_of f rule valid c)
unfolding variants_of
variants_of-AllSingle valid f rule c =
    chosen-AllSingle valid (str_eq rule "required") _ _
      (λ _. ((removed-IsSingleFault valid f rule, tt), tt))
      (λ other.
        let kept : rule ≢ "required" =
          λ same. ground (arith, other, str_eq_iff rule "required", same) in
        let faulty : (v : Value) → AllSingle valid (invalid_with f rule valid v) =
          λ v. ((changed-IsSingleFault valid f rule v kept, tt), tt) in
        chosen-AllSingle valid (str_eq rule "enum") _ _ (λ _. faulty _)
          (λ _.
            chosen-AllSingle valid (str_eq rule "format" || str_eq rule "pattern") _ _
              (λ _. faulty _) (λ _. bounded-AllSingle valid f rule (number_of c.value) kept)))

constraint_variants-AllSingle :
    (lower : String → String) (valid : Dict Value) (f : FieldNode) (cs : List FieldConstraint)
    → AllSingle valid (constraint_variants lower f valid cs)
unfolding constraint_variants
constraint_variants-AllSingle lower valid f [] = (tt, tt)
constraint_variants-AllSingle lower valid f (c ∷ cs) =
    both-AllSingle valid (variants_of f (normalize_rule lower c.rule) valid c)
      (constraint_variants lower f valid cs)
      (variants_of-AllSingle valid f (normalize_rule lower c.rule) c)
      (constraint_variants-AllSingle lower valid f cs)

field_variants-AllSingle :
    (lower : String → String) (valid : Dict Value) (fs : List FieldNode)
    → AllSingle valid (field_variants lower valid fs)
unfolding field_variants
field_variants-AllSingle lower valid [] = (tt, tt)
field_variants-AllSingle lower valid (f ∷ fs) =
    both-AllSingle valid (constraint_variants lower f valid f.constraints)
      (field_variants lower valid fs) (constraint_variants-AllSingle lower valid f f.constraints)
      (field_variants-AllSingle lower valid fs)

-- Every variant of a synthesised payload, invalid or at a boundary, agrees with the valid payload on
-- every field but its own; and the variant of a required field lacks that field.
pub synthesize_payload-IsSingleFault :
    (lower : String → String) (o : OperationNode) (r : ResourceNode) (fields : List FieldNode)
    → let p = synthesize_payload lower o r fields in
      All (IsSingleFault p.valid) p.invalid × All (IsSingleFault p.valid) p.boundaries
unfolding synthesize_payload
synthesize_payload-IsSingleFault lower o r fields =
    field_variants-AllSingle lower (valid_payload lower [] fields) fields
