-- ===== src/Payload/Fixtures.antt =====
-- packages/payload-synthesis/src/index.ts: the fixtures of resources, and the synthesis for a graph.
use Prim.Native.String.{◌++◌ as joined}
use autopw.Prelude.{
  String, Bool, true, false, not, ◌&&◌, ◌||◌, str_eq, opt_str_eq, truthy?, Option, none, some,
  is_some, List, [], ◌∷◌, ◌++◌, if◌then◌else◌, keep, find?, includes, sort_by, map_list, Dict,
  lookup,
}
use autopw.Payload.{
  http, graphql, rpc, other_ui, explicit, OperationNode, ResourceNode, FieldNode, Value,
  SynthesizedPayload, synthesize_payload,
}
use autopw.Payload.Bindings.{
  OperationRef, IdentityStrategy, FixtureOverride, ResourceFixtureBinding, Texts, identity_for, ref,
  resource_crud, seed, manual, blocked,
}

abbrev pub is_http : OperationNode → Bool
is_http o = elim o.protocol [ http ↦ true | graphql ↦ false | rpc ↦ false | other_ui ↦ false ]

abbrev pub has_method : List String → OperationNode → Bool
has_method methods o = elim o.method [ none ↦ false | some m ↦ includes methods m ]

abbrev pub is_item_read : Texts → OperationNode → Bool
is_item_read t o =
    has_method ("GET" ∷ []) o
    && (elim o.path_template [ none ↦ false | some path ↦ t.has_colon path ])

abbrev pub or_else_find : Option OperationNode → Option OperationNode → Option OperationNode
or_else_find none later = later
or_else_find (some o) later = some o

abbrev pub ids_of : List (Option OperationNode) → List String
ids_of [] = []
ids_of (none ∷ os) = ids_of os
ids_of (some o ∷ os) = o.id ∷ ids_of os

abbrev pub unknown_identity : String → IdentityStrategy
unknown_identity reason = record {
  kind = none;
  path = none;
  header = none;
  is_proven = false;
  reason = some reason;
}

abbrev pub blocked_binding : Texts → ResourceNode → List OperationNode → ResourceFixtureBinding
blocked_binding t r operations = record {
  resource_id = r.id;
  kind = blocked;
  create = none;
  read = none;
  update = none;
  cleanup = none;
  payload = none;
  identity = unknown_identity "RESOURCE_HAS_NO_CREATE_OPERATION";
  operation_ids = t.sorted (map_list (λ o. o.id) operations);
  is_proven = false;
  reason = some "EXPLICIT_SEED_OR_MANUAL_FIXTURE_REQUIRED";
}

abbrev pub explicit_identity : FixtureOverride → IdentityStrategy
explicit_identity x = record {
  kind = some explicit;
  path = some x.identity;
  header = none;
  is_proven = true;
  reason = none;
}

abbrev pub override_ref : ResourceNode → String → String → Option String → Option OperationRef
override_ref r name method path = elim (truthy? path) [
  | none ↦ none
  | some p ↦ some (record {
    operation_id = joined "override:" (joined r.id (joined ":" name));
    method = method;
    path = p;
  })
]

abbrev pub ref_or : Option OperationRef → Option OperationRef → Option OperationRef
ref_or none later = later
ref_or (some x) later = some x

-- The binding of a resource without a create operation that is overridden.
abbrev pub override_binding :
    Texts
    → ResourceNode
    → List OperationNode
    → Option OperationNode
    → FixtureOverride
    → ResourceFixtureBinding
override_binding t r operations read x =
    let read_ref = ref_or (override_ref r "read" "GET" x.read_path) (ref read) in
    record {
      resource_id = r.id;
      kind = if x.is_seed then seed else manual;
      create = none;
      read = read_ref;
      update = none;
      cleanup = override_ref r "cleanup" "DELETE" x.cleanup_path;
      payload = none;
      identity = explicit_identity x;
      operation_ids = t.sorted (map_list (λ o. o.id) operations);
      is_proven = is_some read_ref;
      reason = if is_some read_ref then none else some "MISSING_FIXTURE_READ_OPERATION";
    }

abbrev pub is_proven_payload : Option SynthesizedPayload → Bool
is_proven_payload none = false
is_proven_payload (some p) = p.is_proven

abbrev pub valid_of : Option SynthesizedPayload → Option (Dict Value)
valid_of none = none
valid_of (some p) = some p.valid

-- `payload?.reason || "FIXTURE_PAYLOAD_UNPROVEN"`
abbrev pub payload_reason : Option SynthesizedPayload → String
payload_reason none = "FIXTURE_PAYLOAD_UNPROVEN"
payload_reason (some p) = elim (truthy? p.reason) [ none ↦ "FIXTURE_PAYLOAD_UNPROVEN" | some r ↦ r ]

-- The binding of a resource that can be created.
abbrev pub crud_binding :
    Texts
    → ResourceNode
    → OperationNode
    → Option OperationNode
    → Option OperationNode
    → Option OperationNode
    → Option SynthesizedPayload
    → ResourceFixtureBinding
crud_binding t r create read update cleanup payload =
    let identity = identity_for create in
    record {
      resource_id = r.id;
      kind = resource_crud;
      create = ref (some create);
      read = ref read;
      update = ref update;
      cleanup = ref cleanup;
      payload = valid_of payload;
      identity = identity;
      operation_ids = t.sorted (ids_of (some create ∷ read ∷ update ∷ cleanup ∷ []));
      is_proven =
          is_proven_payload payload && identity.is_proven && is_some read && is_some cleanup;
      reason =
          if not (is_proven_payload payload)
          then some (payload_reason payload)
          else (if not identity.is_proven
              then identity.reason
              else (if not (is_some read) || not (is_some cleanup)
                  then some "MISSING_RESOURCE_FIXTURE_OPERATION"
                  else none));
    }

abbrev pub payload_of : List SynthesizedPayload → OperationNode → Option SynthesizedPayload
payload_of payloads o = find? (λ p. str_eq p.operation_id o.id) payloads

-- `synthesizeFixture`
unfoldable pub synthesize_fixture :
    Texts
    → ResourceNode
    → List OperationNode
    → List SynthesizedPayload
    → Option FixtureOverride
    → ResourceFixtureBinding
unfolding identity_for ref
synthesize_fixture t r operations payloads given =
    let http_operations = keep is_http operations in
    let read =
      or_else_find (find? (is_item_read t) http_operations)
        (find? (has_method ("GET" ∷ [])) http_operations) in
    elim (find? (has_method ("POST" ∷ [])) http_operations) [
      | none ↦ elim given [
        | none ↦ blocked_binding t r operations
        | some x ↦ override_binding t r operations read x
      ]
      | some create ↦
          crud_binding t r create read (find? (has_method ("PATCH" ∷ "PUT" ∷ [])) http_operations)
            (find? (has_method ("DELETE" ∷ [])) http_operations) (payload_of payloads create)
    ]

-- The nodes of a graph that the synthesis reads.
pub record ApplicationGraph : Type 0 where
  pub operations : List OperationNode
  pub resources : List ResourceNode
  pub fields : List FieldNode

pub record PayloadSynthesisResult : Type 0 where
  pub payloads : List SynthesizedPayload
  pub fixtures : List ResourceFixtureBinding

-- `new Map(operations.map(...)).get(id)`: the last operation with the id.
abbrev pub operation_by_id : List OperationNode → String → Option OperationNode
operation_by_id [] id = none
operation_by_id (o ∷ os) id =
    or_else_find (operation_by_id os id) (if str_eq o.id id then some o else none)

abbrev pub operations_of : List OperationNode → List String → List OperationNode
operations_of os [] = []
operations_of os (id ∷ ids) =
    let rest = operations_of os ids in
    elim (operation_by_id os id) [ none ↦ rest | some o ↦ o ∷ rest ]

abbrev pub has_body : OperationNode → Bool
has_body o = is_http o && has_method ("POST" ∷ "PUT" ∷ "PATCH" ∷ []) o

abbrev pub is_field_of : ResourceNode → FieldNode → Bool
is_field_of r f = opt_str_eq f.resource_id (some r.id)

-- The loop over the resources; a fixture sees the payloads of the resources before it too.
unfoldable pub synthesize_from :
    Texts
    → ApplicationGraph
    → Dict FixtureOverride
    → List ResourceNode
    → PayloadSynthesisResult
    → PayloadSynthesisResult
unfolding synthesize_fixture synthesize_payload
synthesize_from t g overrides [] done = done
synthesize_from t g overrides (r ∷ rs) done =
    let operations = operations_of g.operations r.operation_ids in
    let fields = keep (is_field_of r) g.fields in
    let payloads =
      done.payloads
      ++ map_list (λ o. synthesize_payload t.lower o r fields) (keep has_body operations) in
    synthesize_from t g overrides rs (record {
      payloads = payloads;
      fixtures =
          done.fixtures
          ++ (synthesize_fixture t r operations payloads (lookup r.id overrides) ∷ []);
    })

-- `synthesizeApplicationPayloads`
unfoldable pub synthesize_application_payloads :
    Texts → ApplicationGraph → Dict FixtureOverride → PayloadSynthesisResult
unfolding synthesize_from
synthesize_application_payloads t g overrides =
    let all = synthesize_from t g overrides g.resources (record { payloads = []; fixtures = [] }) in
    record {
      payloads = sort_by (λ a b. t.locale_compare a.operation_id b.operation_id) all.payloads;
      fixtures = sort_by (λ a b. t.locale_compare a.resource_id b.resource_id) all.fixtures;
    }
