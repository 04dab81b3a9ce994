-- ===== src/Control/Refusals.antt =====
-- packages/control-plane/src/index.ts: what a refused call leaves behind.
use autopw.Prelude.{
  String, Bool, true, false, not, str_eq, Option, some, ◌≡◌, arith, Bool-cases, Option-cases,
  Result-cases, inl, inr,
}
use autopw.Json.{Json}
use autopw.Registry.Records.{OperationRecord, OperationKind}
use autopw.Registry.{CreateInput, find_by_idempotency, create, update, update_run}
use autopw.Domain.{OperationStatus}
use autopw.Worker.Lifecycle.{create_fixture_run}
use autopw.Control.Queries.{Reply}
use autopw.Control.Authorize.{Surroundings, authorize}
use autopw.Control.Creation.{
  Site, Call, Moment, accepted_for, matrix_refusal, target_refusal, enqueue_accepted, start_audit,
  bind_run, begin_operation, create_operation, handle_creation, handle, op_kind, with_registry,
}

-- A reply that neither accepts an operation nor reports an internal error.
abbrev pub is_refusal_or_answer : Reply → Bool
is_refusal_or_answer (Reply.error code message details) = not (str_eq code "INTERNAL_ERROR")
is_refusal_or_answer (Reply.accepted id handle run) = false
is_refusal_or_answer reply = true

accepted_for-accepted :
    (tool : String) (o : OperationRecord) → is_refusal_or_answer (accepted_for tool o) ≡ false
unfolding accepted_for
accepted_for-accepted tool o = ground arith

enqueue_accepted-accepted :
    (c : Call) (params : Json) (id : String) (kind : OperationKind) (s : Site)
    → is_refusal_or_answer (enqueue_accepted c params id kind s).1 ≡ false
unfolding enqueue_accepted
enqueue_accepted-accepted c params id kind s = ground (arith, accepted_for-accepted c.tool_name)

start_audit-accepted :
    (m : Moment) (c : Call) (params : Json) (id : String) (kind : OperationKind) (s : Site)
    → is_refusal_or_answer (start_audit m c params id kind s).1 ≡ false
unfolding start_audit
start_audit-accepted m c params id kind s =
    elim (Result-cases (create_fixture_run s.worker m.now m.run_id c.request.workspace_id id)) [
      | inl ((w, run), made) ↦
          elim (Result-cases
            (update_run w.registry m.now run.snapshot (some OperationStatus.running))) [
              | inl ((r, o), updated) ↦ ground (
                arith,
                made,
                updated,
                enqueue_accepted-accepted c params id kind
                    (with_registry (record s { worker = w }) r),
              )
              | inr (e, failed) ↦ ground (arith, made, failed)
            ]
      | inr (e, failed) ↦ ground (arith, failed)
    ]

bind_run-accepted :
    (m : Moment) (c : Call) (params : Json) (id : String) (kind : OperationKind) (s : Site)
    → is_refusal_or_answer (bind_run m c params id kind s).1 ≡ false
unfolding bind_run
bind_run-accepted m c params id kind s =
    let change : OperationRecord → Option OperationRecord =
      λ o. some (record o { run_id = some c.run_id }) in
    elim (Result-cases (update s.worker.registry m.now id change)) [
      | inl ((r, o), updated) ↦
          ground (arith, updated, enqueue_accepted-accepted c params id kind (with_registry s r))
      | inr (e, failed) ↦ ground (arith, failed)
    ]

begin_operation-accepted :
    (m : Moment) (c : Call) (params : Json) (id : String) (kind : OperationKind) (s : Site)
    → is_refusal_or_answer (begin_operation m c params id kind s).1 ≡ false
unfolding begin_operation
begin_operation-accepted m c params id kind s = ground (
  arith,
  start_audit-accepted m c params id kind s,
  bind_run-accepted m c params id kind s,
  enqueue_accepted-accepted c params id kind s,
)

create_operation-refused :
    (m : Moment) (c : Call) (params : Json) (s : Site)
    → is_refusal_or_answer (create_operation m c params s).1 ≡ true
    → (create_operation m c params s).0 ≡ s
unfolding create_operation
create_operation-refused m c params s h =
    let input : CreateInput = record {
      tool = c.tool_name;
      client_request_id = c.client_request_id;
      workspace_id = c.request.workspace_id;
      kind = op_kind c.tool_name;
      params = params;
    } in
    elim (Result-cases (create s.worker.registry m.now m.operation_id input)) [
      | inl ((r, created), made) ↦ ground (
        arith,
        h,
        made,
        begin_operation-accepted m c params created.operation_id created.operation.kind
            (with_registry s r),
        accepted_for-accepted c.tool_name created.operation,
      )
      | inr (e, failed) ↦ ground (arith, failed)
    ]

handle_creation-refused :
    (m : Moment) (c : Call) (params : Json) (s : Site)
    → is_refusal_or_answer (handle_creation m c params s).1 ≡ true
    → (handle_creation m c params s).0 ≡ s
unfolding handle_creation
handle_creation-refused m c params s h =
    elim (Option-cases (
      find_by_idempotency s.worker.registry c.request.workspace_id c.tool_name
        c.client_request_id)) [
          | inr (existing, found) ↦ ground (arith, found)
          | inl fresh ↦ elim (Option-cases (matrix_refusal m s.worker c.tool_name)) [
            | inr (reply, refused) ↦ ground (arith, fresh, refused)
            | inl fits ↦ elim (Option-cases (target_refusal s.worker c)) [
              | inr (reply, refused) ↦ ground (arith, fresh, fits, refused)
              | inl bound ↦
                  ground (arith, h, fresh, fits, bound, create_operation-refused m c params s)
            ]
          ]
        ]

-- A call that is answered with anything but an acceptance or an internal error, be it refused by the
-- authorisation, the matrix budget, the binding of the run or the registry, or answered as a query,
-- leaves the worker, its registry and its queue exactly as they were.
pub handle-refused :
    (x : Surroundings) (m : Moment) (c : Call) (s : Site)
    → is_refusal_or_answer (handle x m c s).1 ≡ true
    → (handle x m c s).0 ≡ s
unfolding handle
handle-refused x m c s h = elim (Result-cases (authorize x c.tool_name c.request)) [
  | inl (g, allowed) ↦ elim (Bool-cases g.tool.creates_operation) [
    | inl creates ↦
        ground
          (arith, h, allowed, creates, handle_creation-refused m c (c.persisted g.resolution) s)
    | inr reads ↦ ground (arith, allowed, reads)
  ]
  | inr (code, denied) ↦ ground (arith, denied)
]
