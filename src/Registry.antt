-- ===== src/Registry.antt =====
-- packages/operation-registry/src/index.ts: the durable registry of operations. The two `Map`s of
-- the class, the files of its directory and the written index are the fields of one state. The
-- clock, the random id, the listing of the directory and the files that cannot be deleted are
-- arguments; the log is left out.
pub mod Records
pub mod Index
pub mod Invariant
pub mod Updates
pub mod Keys
pub mod Idempotency
pub mod Versions
pub mod Sweep
pub mod Expiry
pub mod Durable
use autopw.Prelude.{
  ℕ, zero, suc, ◌+◌, String, Bool, true, false, not, ◌&&◌, ◌||◌, Option, none, some, List, [], ◌∷◌,
  ltb, leb, ◌==◌, str_eq, opt_nat_eq, truthy, truthy?, or_zero, is_some, if◌then◌else◌, Dict,
  lookup, insert, remove, values, keep, length, Result, ok, err, ◌>>=◌, ◌>>◌, throw_if,
}
use autopw.Json.{Json, same_json}
use autopw.Domain.{OperationStatus}
use Records.{
  OperationKind, OperationRecord, RunSnapshot, RetentionPolicy, Tombstone, idempotency_key,
}

pub record Registry : Type 0 where
  pub by_id : Dict OperationRecord
  pub index : Dict String
  -- The operation files, by operation id; `none` is a file that does not parse.
  pub files : Dict (Option OperationRecord)
  pub tombstones : Dict Tombstone
  pub index_file : Dict String
  pub retention : RetentionPolicy

pub data RegistryError : Type 0 where
  missing_client_request_id index_drift backpressure_refused : RegistryError
  state_version_conflict file_unreadable result_expired : RegistryError
  idempotency_conflict : String → RegistryError

pub record CreateInput : Type 0 where
  pub tool : String
  pub client_request_id : String
  pub workspace_id : String
  pub kind : OperationKind
  pub params : Json

pub record Created : Type 0 where
  pub operation_id : String
  pub operation : OperationRecord
  pub is_new : Bool

unfoldable pub get : Registry → String → Option OperationRecord
get r id = elim (lookup id r.by_id) [ none ↦ none | some o ↦ if o.tombstoned then none else some o ]

unfoldable pub find_by_idempotency : Registry → String → String → String → Option OperationRecord
find_by_idempotency r workspace_id tool client_request_id =
    elim (truthy? (lookup (idempotency_key workspace_id tool client_request_id) r.index)) [
      | none ↦ none
      | some id ↦ get r id
    ]

unfoldable pub same_params : OperationRecord → Json → Bool
same_params existing params = same_json existing.params params

unfoldable pub list_by_workspace : Registry → String → List OperationRecord
list_by_workspace r workspace_id =
    keep (λ o. str_eq o.workspace_id workspace_id && not o.tombstoned) (values r.by_id)

unfoldable pub reclaimable_count : Registry → ℕ → ℕ
reclaimable_count r now =
    length (keep (λ o. not o.tombstoned && leb o.expires_at now) (values r.by_id))

abbrev pub at_high_watermark : Registry → Bool
at_high_watermark r = leb r.retention.high_watermark (length r.by_id)

abbrev pub at_low_watermark : Registry → Bool
at_low_watermark r = leb (length r.by_id) r.retention.low_watermark

abbrev pub ttl_ms : RetentionPolicy → OperationKind → ℕ
ttl_ms p OperationKind.run = p.run_ttl_ms
ttl_ms p _ = p.operation_ttl_ms

abbrev pub new_record : RetentionPolicy → CreateInput → ℕ → String → OperationRecord
new_record p input now id = record {
  operation_id = id;
  tool = input.tool;
  client_request_id = input.client_request_id;
  workspace_id = input.workspace_id;
  kind = input.kind;
  params = input.params;
  status = OperationStatus.accepted;
  run_id = none;
  result_ref = none;
  created_at = now;
  updated_at = now;
  expires_at = now + ttl_ms p input.kind;
  tombstoned = false;
  state_version = none;
  phase = none;
  run_status = none;
  audit_status = none;
  gate = none;
  fatal_class = none;
  progress_pct = none;
  next_action = none;
  cancel_requested = none;
  result_summary = none;
  results_ref = none;
  report_ref = none;
  gate_summary = none;
  evidence_refs = none;
  cases = none;
  audit_summary = none;
}

-- The branch of `create` for a key that the index knows.
unfoldable pub create_again :
    Registry → CreateInput → String → Result RegistryError (Registry × Created)
create_again r input id = elim (lookup id r.by_id) [
  | none ↦ err index_drift
  | some o ↦
      if same_params o input.params
      then ok (r, record { operation_id = id; operation = o; is_new = false })
      else err (idempotency_conflict id)
]

abbrev pub store_new : Registry → OperationRecord → String → Registry
store_new r o key = record r {
  files = insert o.operation_id (some o) r.files;
  by_id = insert o.operation_id o r.by_id;
  index = insert key o.operation_id r.index;
  index_file = insert key o.operation_id r.index;
}

-- The branch of `create` for a new key.
unfoldable pub create_new :
    Registry → ℕ → String → CreateInput → String → Result RegistryError (Registry × Created)
create_new r now id input key =
    if at_high_watermark r && reclaimable_count r now == 0
    then err backpressure_refused
    else (let o = new_record r.retention input now id in
        ok (store_new r o key, record { operation_id = id; operation = o; is_new = true }))

unfoldable pub create :
    Registry → ℕ → String → CreateInput → Result RegistryError (Registry × Created)
create r now id input =
    let key = idempotency_key input.workspace_id input.tool input.client_request_id in
    if truthy input.client_request_id
    then (elim (truthy? (lookup key r.index)) [
      | some existing ↦ create_again r input existing
      | none ↦ create_new r now id input key
    ])
    else err missing_client_request_id

-- What `update` starts from: the record in memory, or else the one in its file.
unfoldable pub current_record : Registry → String → Result RegistryError OperationRecord
current_record r id = elim (lookup id r.by_id) [
  | some o ↦ ok o
  | none ↦ (elim (lookup id r.files) [ some (some o) ↦ ok o | _ ↦ err file_unreadable ])
]

-- The version that the written record carries.
unfoldable pub next_version : OperationRecord → OperationRecord → Result RegistryError ℕ
next_version current next =
    let bumped = or_zero current.state_version + 1 in
    if not (is_some next.state_version) || opt_nat_eq next.state_version current.state_version
    then ok bumped
    else if opt_nat_eq next.state_version (some bumped)
    then ok bumped
    else err state_version_conflict

unfoldable pub update :
    Registry
    → ℕ
    → String
    → (OperationRecord → Option OperationRecord)
    → Result RegistryError (Registry × OperationRecord)
update r now id mutator = do
  current ← current_record r id
  elim (mutator current) [
    | none ↦ ok (r, current)
    | some changed ↦ (do
      version ← next_version current changed
      let next = record changed { updated_at = now; state_version = some version }
      ok (record r { files = insert id (some next) r.files; by_id = insert id next r.by_id }, next))
  ]

-- The mutator of `updateRun`.
abbrev pub with_run : RunSnapshot → Option OperationStatus → OperationRecord → OperationRecord
with_run run status o = record o {
  run_id = some run.run_id;
  phase = some run.phase;
  run_status = some run.run_status;
  audit_status = run.audit_status;
  gate = run.gate;
  fatal_class = run.fatal_class;
  progress_pct = some run.progress_pct;
  next_action = some run.next_action;
  cancel_requested = some run.cancel_requested;
  results_ref = run.results_ref;
  report_ref = run.report_ref;
  gate_summary = run.gate_summary;
  evidence_refs = run.evidence_refs;
  cases = run.cases;
  audit_summary = run.audit_summary;
  status = elim status [ some s ↦ s | none ↦ o.status ];
}

unfoldable pub update_run :
    Registry
    → ℕ
    → RunSnapshot
    → Option OperationStatus
    → Result RegistryError (Registry × OperationRecord)
update_run r now run status = update r now run.operation_id (λ o. some (with_run run status o))

-- `for (const [key, operationId] of this.index) if (operationId === id) this.index.delete(key)`
unfoldable pub drop_entries : String → Dict String → Dict String → Dict String
drop_entries id [] m = m
drop_entries id ((key, v) ∷ es) m = drop_entries id es (if str_eq v id then remove key m else m)

-- `_writeTombstone`
abbrev pub buried : OperationRecord → ℕ → Tombstone
buried o now = record {
  handle = o.operation_id;
  kind = o.kind;
  deleted_at = now;
  expires_at = o.expires_at;
}

-- One record is reclaimed. `undeletable` tells which files `fs.rmSync` fails to delete.
unfoldable pub reclaim : Registry → ℕ → Bool → (String → Bool) → OperationRecord → Registry
reclaim r now force_tombstone undeletable o = record r {
  tombstones =
      if force_tombstone then insert o.operation_id (buried o now) r.tombstones else r.tombstones;
  files = if undeletable o.operation_id then r.files else remove o.operation_id r.files;
  by_id = remove o.operation_id r.by_id;
  index = drop_entries o.operation_id r.index r.index;
}

-- The loop of `sweep`, with the number of records reclaimed.
unfoldable pub sweep_from :
    Registry → ℕ → Bool → (String → Bool) → ℕ → List OperationRecord → Registry × ℕ
sweep_from r now force undeletable n [] = (r, n)
sweep_from r now force undeletable n (o ∷ os) =
    let skipped = sweep_from r now force undeletable n os in
    let swept = reclaim r now force undeletable o in
    let rest = sweep_from swept now force undeletable (n + 1) os in
    if o.tombstoned || ltb now o.expires_at
    then skipped
    else if at_low_watermark swept
    then (swept, n + 1)
    else rest

unfoldable pub sweep : Registry → ℕ → Bool → (String → Bool) → Registry × ℕ
unfolding sweep_from
sweep r now force undeletable =
    let (swept, n) = sweep_from r now force undeletable 0 (values r.by_id) in
    (record swept { index_file = swept.index }, n)

unfoldable pub query_after_tombstone :
    Registry → String → Result RegistryError (Option OperationRecord)
query_after_tombstone r id =
    if is_some (lookup id r.tombstones) then err result_expired else ok (get r id)

-- The loop of `_reindex` over the files of the directory.
unfoldable pub reindex_from : Registry → Dict (Option OperationRecord) → Registry
reindex_from r [] = r
reindex_from r ((file, none) ∷ fs) = reindex_from r fs
reindex_from r ((file, some o) ∷ fs) =
    let kept = record r {
      by_id = insert o.operation_id o r.by_id;
      index =
          if truthy o.client_request_id
          then insert (idempotency_key o.workspace_id o.tool o.client_request_id) o.operation_id
              r.index
          else r.index;
    } in
    reindex_from (if truthy o.operation_id then kept else r) fs

-- `_reindex` and `reload`.
unfoldable pub reload : Registry → Registry
unfolding reindex_from
reload r = reindex_from (record r { by_id = []; index = [] }) r.files
