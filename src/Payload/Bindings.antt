-- ===== src/Payload/Bindings.antt =====
-- packages/payload-synthesis/src/index.ts: the bindings of fixtures, the references to operations and
-- the identity of what is created.
use Prim.Native.Nat.{Ordering}
use autopw.Prelude.{
  String, Bool, true, false, ◌||◌, truthy?, Option, none, some, is_some, List, [], ◌∷◌,
  if◌then◌else◌, Dict,
}
use autopw.Payload.{
  IdentityKind, response_body, location_header, explicit, IdentityCandidate, OperationNode, Value,
}

pub record OperationRef : Type 0 where
  pub operation_id : String
  pub method : String
  pub path : String

-- The kind is absent for an identity that is not known.
pub record IdentityStrategy : Type 0 where
  pub kind : Option IdentityKind
  pub path : Option String
  pub header : Option String
  pub is_proven : Bool
  pub reason : Option String

pub data FixtureKind : Type 0 where
  resource_crud seed manual blocked : FixtureKind

-- The identity of an override is printed.
pub record FixtureOverride : Type 0 where
  pub is_seed : Bool
  pub identity : String
  pub read_path : Option String
  pub cleanup_path : Option String

pub record ResourceFixtureBinding : Type 0 where
  pub resource_id : String
  pub kind : FixtureKind
  pub create : Option OperationRef
  pub read : Option OperationRef
  pub update : Option OperationRef
  pub cleanup : Option OperationRef
  pub payload : Option (Dict Value)
  pub identity : IdentityStrategy
  pub operation_ids : List String
  pub is_proven : Bool
  pub reason : Option String

-- `localeCompare`, `sort` without a comparison, `toLowerCase` and `includes(":")`.
pub record Texts : Type 0 where
  pub locale_compare : String → String → Ordering
  pub sorted : List String → List String
  pub lower : String → String
  pub has_colon : String → Bool

-- `identityRank`
abbrev pub is_ranked_before : IdentityKind → IdentityKind → Bool
is_ranked_before explicit explicit = false
is_ranked_before explicit k = true
is_ranked_before response_body location_header = true
is_ranked_before k l = false

-- The first of the candidates of the lowest rank.
abbrev pub best_candidate : List IdentityCandidate → Option IdentityCandidate
best_candidate [] = none
best_candidate (c ∷ cs) = elim (best_candidate cs) [
  | none ↦ some c
  | some d ↦ if is_ranked_before d.kind c.kind then some d else some c
]

-- `identityFor`
unfoldable pub identity_for : OperationNode → IdentityStrategy
identity_for o = elim (best_candidate o.identity_candidates) [
  | none ↦ record {
    kind = none;
    path = none;
    header = none;
    is_proven = false;
    reason = some "MISSING_IDENTITY_EVIDENCE";
  }
  | some c ↦
      (let proven = is_some (truthy? c.path) || is_some (truthy? c.header) in
        record {
          kind = some c.kind;
          path = c.path;
          header = c.header;
          is_proven = proven;
          reason = if proven then none else some "MALFORMED_IDENTITY_EVIDENCE";
        })
]

-- `ref`
unfoldable pub ref : Option OperationNode → Option OperationRef
ref none = none
ref (some o) = elim (truthy? o.method) [
  | none ↦ none
  | some method ↦ elim (truthy? o.path_template) [
    | none ↦ none
    | some path ↦ some (record { operation_id = o.id; method = method; path = path })
  ]
]
