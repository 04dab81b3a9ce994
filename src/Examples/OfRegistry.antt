-- ===== src/Examples/OfRegistry.antt =====
-- A registry with one audit, created at time 100.
use autopw.Prelude.{
  ◌≤◌, String, Bool, true, false, Option, none, some, List, [], ◌∷◌, lookup, insert, ok, err, ◌≡◌,
  ◌⊎◌, refl, arith, Result, if◌then◌else◌,
}
use autopw.Json.{Json, obj, field, done, num, str, same_json, canonical_json}
use autopw.Domain.{RunPhase, RunStatus, OperationStatus}
use autopw.Json.Order.{IsReordered, in_object, swap}
use autopw.Registry.Records.{
  OperationKind, OperationRecord, RunSnapshot, RetentionPolicy, default_retention, idempotency_key,
}
use autopw.Registry.{
  Registry, CreateInput, Created, get, create, create_again, create_new, new_record, store_new,
  update, sweep, reload, query_after_tombstone, at_low_watermark, backpressure_refused,
  result_expired, RegistryError, idempotency_conflict, update_run, reclaimable_count,
  current_record, next_version,
}
use autopw.Registry.Invariant.{IsConsistent, KeepsIdentity, create-IsConsistent}
use autopw.Registry.Updates.{update-IsConsistent}
use autopw.Registry.Sweep.{sweep-IsConsistent, sweep_outcome}
use autopw.Registry.Expiry.{sweep-thorough, IsSwept}
use autopw.Registry.Durable.{reload_lossless}
use autopw.Registry.Versions.{RunUpdate, update_runs, IsRecorded, update_runs-IsRecorded}
use autopw.Registry.Idempotency.{create_repeated}

abbrev retention : RetentionPolicy
retention = record default_retention { run_ttl_ms = 1000; high_watermark = 1; low_watermark = 0 }

abbrev empty : Registry
empty = record {
  by_id = [];
  index = [];
  files = [];
  tombstones = [];
  index_file = [];
  retention = retention;
}

empty-IsConsistent : IsConsistent empty
unfolding lookup
empty-IsConsistent = record {
  stored = λ id o h. absurd (ground (arith, h));
  indexed = λ k id h. absurd (ground (arith, h));
  filed = λ id. refl;
  written = refl;
  unique_by_id = tt;
  unique_index = tt;
  unique_files = tt;
}

abbrev request : CreateInput
request = record {
  tool = "run_audit";
  client_request_id = "c1";
  workspace_id = "ws";
  kind = OperationKind.run;
  params = obj (field "base_tier" (str "fast") (field "page" (num 2) done));
}

-- The same parameters, their keys in another order.
abbrev reordered : Json
reordered = obj (field "page" (num 2) (field "base_tier" (str "fast") done))

abbrev audit : OperationRecord
audit = new_record retention request 100 "op_1"

abbrev made : Created
made = record { operation_id = "op_1"; operation = audit; is_new = true }

one : Registry
one = store_new empty audit "ws|run_audit|c1"

created : create empty 100 "op_1" request ≡ ok (one, made)
unfolding create create_again create_new one lookup insert reclaimable_count idempotency_key
created = refl

order_is_ignored : same_json request.params reordered ≡ true
unfolding same_json canonical_json
order_is_ignored = refl

-- A second client is refused while the first operation lives.
refused :
    create one 200 "op_2" (record request { client_request_id = "c2" }) ≡ err backpressure_refused
unfolding create create_again create_new one lookup insert reclaimable_count idempotency_key
refused = refl

one-IsConsistent : IsConsistent one
unfolding lookup
one-IsConsistent =
    create-IsConsistent empty 100 "op_1" request one made empty-IsConsistent refl refl created

stored_audit : lookup "op_1" one.by_id ≡ some audit
unfolding one lookup insert
stored_audit = refl

create-IsConsistent_example : IsConsistent one
unfolding lookup
create-IsConsistent_example =
    create-IsConsistent empty 100 "op_1" request one made empty-IsConsistent refl refl created

-- A mutator as the worker writes them.
abbrev complete : OperationRecord → Option OperationRecord
complete o = some (record o { status = OperationStatus.completed })

abbrev completed_audit : OperationRecord
completed_audit = record audit {
  status = OperationStatus.completed;
  updated_at = 300;
  state_version = some 1;
}

abbrev updated : Registry
updated = record one {
  files = insert "op_1" (some completed_audit) one.files;
  by_id = insert "op_1" completed_audit one.by_id;
}

completing : update one 300 "op_1" complete ≡ ok (updated, completed_audit)
unfolding update current_record next_version one lookup insert
completing = refl

complete-KeepsIdentity : (p q : OperationRecord) → complete p ≡ some q → KeepsIdentity p q
complete-KeepsIdentity p q e = ground arith

update-IsConsistent_example : IsConsistent updated
update-IsConsistent_example =
    update-IsConsistent one 300 "op_1" complete updated completed_audit one-IsConsistent
      complete-KeepsIdentity completing

reload_lossless_example :
    (lookup "op_1" (reload one).by_id ≡ lookup "op_1" one.by_id)
    × (lookup "ws|run_audit|c1" (reload one).index ≡ lookup "ws|run_audit|c1" one.index)
reload_lossless_example = reload_lossless one one-IsConsistent "op_1" "ws|run_audit|c1"

-- No file resists deletion.
abbrev deletable : String → Bool
deletable id = false

sweep-IsConsistent_example : IsConsistent (sweep one 2000 true deletable).0
sweep-IsConsistent_example = sweep-IsConsistent one 2000 true one-IsConsistent

sweep_outcome_example :
    (get (sweep one 2000 true deletable).0 "op_1" ≡ some audit)
    ⊎ ((audit.expires_at ≤ 2000)
        × (get (sweep one 2000 true deletable).0 "op_1" ≡ none)
        × (query_after_tombstone (sweep one 2000 true deletable).0 "op_1" ≡ err result_expired))
sweep_outcome_example = sweep_outcome one 2000 deletable "op_1" audit one-IsConsistent stored_audit

sweep-thorough_example :
    (at_low_watermark (sweep one 2000 false deletable).0 ≡ true)
    ⊎ IsSwept 2000 (sweep one 2000 false deletable).0
sweep-thorough_example = sweep-thorough one 2000 false deletable one-IsConsistent

abbrev snapshot : RunSnapshot
snapshot = record {
  run_id = "run_1";
  operation_id = "op_1";
  workspace_id = "ws";
  phase = RunPhase.created;
  run_status = RunStatus.active;
  audit_status = none;
  gate = none;
  fatal_class = none;
  progress_pct = 7;
  next_action = "poll get_run_status";
  cancel_requested = false;
  results_ref = none;
  report_ref = none;
  gate_summary = none;
  evidence_refs = none;
  cases = none;
  audit_summary = none;
}

abbrev progress : List RunUpdate
progress =
    record { at = 110; run = snapshot; status = some OperationStatus.running }
    ∷ record { at = 120; run = snapshot; status = none }
    ∷ []

update_runs-IsRecorded_example :
    (next : Registry) × (update_runs one progress ≡ ok next) × IsRecorded one next "op_1" audit 2
unfolding one lookup insert
update_runs-IsRecorded_example =
    update_runs-IsRecorded one "op_1" audit progress refl refl (refl, (refl, tt))

progressed : Registry
unfolding update_runs update_run update
progressed = registry_of (update_runs one progress)
  where
    registry_of : Result RegistryError Registry → Registry
    registry_of (ok r) = r
    registry_of (err e) = one

progresses : update_runs one progress ≡ ok progressed
unfolding progressed update_runs update_run update current_record next_version one lookup insert
progresses = refl

reordered-IsReordered : IsReordered request.params reordered
reordered-IsReordered = in_object _ _ (swap "base_tier" "page" (str "fast") (num 2) done refl)

other_params : Json
other_params = obj (field "base_tier" (str "full") done)

-- The params are told apart also after the operation has made progress.
create_repeated_example :
    (current : OperationRecord) × (lookup "op_1" progressed.by_id ≡ some current)
    × (let again : Registry × Created =
          (progressed, record { operation_id = "op_1"; operation = current; is_new = false }) in
        (create progressed 200 "op_2" (record request { params = reordered }) ≡ ok again)
        × (create progressed 200 "op_2" (record request { params = other_params }) ≡ (
            if same_json request.params other_params
            then ok again
            else err (idempotency_conflict "op_1"))))
create_repeated_example =
    create_repeated empty 100 200 "op_1" "op_2" request reordered other_params one progressed made
      progress refl created refl progresses reordered-IsReordered
