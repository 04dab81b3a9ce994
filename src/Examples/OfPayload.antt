-- ===== src/Examples/OfPayload.antt =====
-- A field that is required and has a minimal length, and a resource whose read operation has no path.
use Prim.Native.Nat.{Ordering}
use autopw.Prelude.{String, true, none, some, [], ◌∷◌, All, lookup, insert, remove, ◌≡◌, refl}
use autopw.Json.{Json}
use autopw.Payload.{
  OperationNode, ResourceNode, FieldNode, SynthesizedPayload, Protocol, IdentityKind, json,
  synthesize_payload, valid_payload, field_variants, constraint_variants, variants_of, valid_value,
  normalize_rule, numeric_value,
}
use autopw.Payload.Variants.{IsSingleFault, synthesize_payload-IsSingleFault}
use autopw.Payload.Bindings.{Texts, ResourceFixtureBinding, identity_for, ref}
use autopw.Payload.Fixtures.{synthesize_fixture}

abbrev as_is : String → String
as_is s = s

abbrev name_field : FieldNode
name_field = record {
  id = "f1";
  name = "name";
  resource_id = some "users";
  constraints =
      record { rule = "required"; value = none; values = none }
      ∷ record { rule = "minlength"; value = some (Json.num 3); values = none }
      ∷ [];
  schema_types = "string" ∷ [];
  examples = [];
}

abbrev age_field : FieldNode
age_field = record name_field {
  id = "f2";
  name = "age";
  constraints = record { rule = "minimum"; value = some (Json.num 0); values = none } ∷ [];
  schema_types = "integer" ∷ [];
}

abbrev create_user : OperationNode
create_user = record {
  id = "createUser";
  protocol = Protocol.http;
  method = some "POST";
  path_template = some "/users";
  request_schema_refs = "User" ∷ [];
  identity_candidates =
      record { kind = IdentityKind.response_body; path = some "id"; header = none } ∷ [];
}

abbrev users : ResourceNode
users = record { id = "users"; operation_ids = [] }

abbrev payload : SynthesizedPayload
payload = synthesize_payload as_is create_user users (name_field ∷ age_field ∷ [])

valid_user : payload.valid ≡ ("name", json (Json.str "xxx")) ∷ ("age", json (Json.num 0)) ∷ []
unfolding synthesize_payload valid_payload field_variants constraint_variants variants_of
    valid_value normalize_rule numeric_value insert remove lookup
valid_user = refl

synthesize_payload-IsSingleFault_example :
    All (IsSingleFault payload.valid) payload.invalid
    × All (IsSingleFault payload.valid) payload.boundaries
synthesize_payload-IsSingleFault_example =
    synthesize_payload-IsSingleFault as_is create_user users (name_field ∷ age_field ∷ [])

abbrev texts : Texts
texts = record {
  locale_compare = λ a b. Ordering.eq;
  sorted = λ ids. ids;
  lower = as_is;
  has_colon = λ path. true;
}

abbrev read_user : OperationNode
read_user = record create_user { id = "readUser"; method = some "GET"; path_template = none }

abbrev delete_user : OperationNode
delete_user = record create_user { id = "deleteUser"; method = some "DELETE" }

abbrev binding : ResourceFixtureBinding
binding =
    synthesize_fixture texts users (create_user ∷ read_user ∷ delete_user ∷ []) (payload ∷ []) none

-- The binding counts as proven, and names no operation that reads.
proven_without_read : (binding.is_proven ≡ true) × (binding.read ≡ none)
unfolding synthesize_fixture identity_for ref synthesize_payload
proven_without_read = (refl, refl)
