-- ===== src/Payload/Nodes.antt =====
-- packages/application-graph/src/index.ts: the nodes that the synthesis of payloads reads.
use autopw.Prelude.{String, Option, List}
use autopw.Json.{Json}

pub data Protocol : Type 0 where
  http graphql rpc other_ui : Protocol

pub data IdentityKind : Type 0 where
  response_body location_header explicit : IdentityKind

pub record IdentityCandidate : Type 0 where
  pub kind : IdentityKind
  pub path : Option String
  pub header : Option String

-- The members of the nodes that the synthesis reads.
pub record OperationNode : Type 0 where
  pub id : String
  pub protocol : Protocol
  pub method : Option String
  pub path_template : Option String
  pub request_schema_refs : List String
  pub identity_candidates : List IdentityCandidate

pub record ResourceNode : Type 0 where
  pub id : String
  pub operation_ids : List String

pub record FieldConstraint : Type 0 where
  pub rule : String
  pub value : Option Json
  pub values : Option (List Json)

pub record FieldNode : Type 0 where
  pub id : String
  pub name : String
  pub resource_id : Option String
  pub constraints : List FieldConstraint
  pub schema_types : List String
  pub examples : List Json
