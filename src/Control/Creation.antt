-- ===== src/Control/Creation.antt =====
-- packages/control-plane/src/index.ts: the calls that create an operation, `_handle`, and the catch of
-- `handle`. The messages of errors that other parts throw are left empty.
use autopw.Prelude.{
  ℕ, String, Bool, not, ◌&&◌, ◌||◌, ltb, str_eq, truthy?, includes, Option, none, some, [], ◌∷◌,
  if◌then◌else◌, lookup, Result, ok, err,
}
use autopw.Json.{Json}
use autopw.Domain.{OperationStatus}
use autopw.Registry.Records.{OperationRecord, OperationKind}
use autopw.Registry.{
  Registry, RegistryError, missing_client_request_id, index_drift, backpressure_refused,
  state_version_conflict, file_unreadable, result_expired, idempotency_conflict, get,
  find_by_idempotency, same_params, create, update, update_run,
}
use autopw.Worker.State.{Worker}
use autopw.Worker.Lifecycle.{create_fixture_run, is_gated}
use autopw.Worker.Scheduler.{Scheduler, enqueue}
use autopw.Planner.{ExecutionProjection}
use autopw.Security.{TrustResolution}
use autopw.Control.Queries.{Thrown, Artifacts, Query, Reply, refuse, accepted, error}
use autopw.Control.Answers.{handle_query}
use autopw.Control.Authorize.{Surroundings, ToolRequest, authorize}

-- The worker, with the registry that it shares with the control plane, and the worker's queue.
pub record Site : Type 0 where
  pub worker : Worker
  pub scheduler : Scheduler

-- A call: its request as it is authorised, as a query, and as it is persisted.
pub record Call : Type 0 where
  pub tool_name : String
  pub request : ToolRequest
  pub query : Query
  pub client_request_id : String
  pub run_id : String
  pub persisted : TrustResolution → Json

-- What a call meets: the time, the ids that are drawn, the artifact store, the `preflight` of the
-- runtime, and how the details of a refused matrix are written.
pub record Moment : Type 0 where
  pub now : ℕ
  pub operation_id : String
  pub run_id : String
  pub artifacts : Artifacts
  pub preflight : Result Thrown ExecutionProjection
  pub details : ExecutionProjection → Json

-- `_opKind`
abbrev pub op_kind : String → OperationKind
op_kind tool =
    if str_eq tool "run_audit" || str_eq tool "resume_run"
    then OperationKind.run
    else (if str_eq tool "derive_coverage"
        then OperationKind.preview
        else OperationKind.maintenance)

-- `_acceptedFor`
unfoldable pub accepted_for : String → OperationRecord → Reply
accepted_for tool o =
    if str_eq tool "run_audit"
    then accepted o.operation_id o.run_id none
    else accepted o.operation_id none (truthy? o.run_id)

-- The `code` of an error of the registry; a failed read throws another error, without a message here.
abbrev pub registry_code : RegistryError → String
registry_code missing_client_request_id = "MISSING_CLIENT_REQUEST_ID"
registry_code index_drift = "INDEX_DRIFT"
registry_code backpressure_refused = "BACKPRESSURE_REFUSED"
registry_code state_version_conflict = "STATE_VERSION_CONFLICT"
registry_code file_unreadable = "ENOENT"
registry_code result_expired = "RESULT_EXPIRED"
registry_code (idempotency_conflict id) = "IDEMPOTENCY_CONFLICT"

-- `worker.preflight`
abbrev pub preflight_of : Moment → Worker → Result Thrown ExecutionProjection
preflight_of m w =
    if w.has_runtime
    then m.preflight
    else err (record { code = none; message = "M3_RUNTIME_NOT_CONFIGURED" })

abbrev pub code_or : Option String → String → String
code_or code d = elim (truthy? code) [ none ↦ d | some c ↦ c ]

abbrev pub is_planned : String → Bool
is_planned tool = str_eq tool "derive_coverage" || str_eq tool "run_audit"

abbrev pub is_target_tool : String → Bool
is_target_tool tool = includes ("resume_run" ∷ "cancel_run" ∷ "cleanup_run" ∷ []) tool

-- The reply that refuses a call, if its matrix exceeds the budget or cannot be projected.
unfoldable pub matrix_refusal : Moment → Worker → String → Option Reply
matrix_refusal m w tool =
    if is_planned tool
    then (elim (preflight_of m w) [
      | err e ↦ some (refuse (code_or e.code "PREFLIGHT_FAILED") e.message)
      | ok p ↦
          if ltb p.effective_budget p.projected_execution_instances
          then some (
              error "MATRIX_BUDGET_EXCEEDED"
                "projected execution instances exceed effective matrix budget" (some (m.details p)))
          else none
    ])
    else none

-- The reply that refuses a call about a run.
unfoldable pub target_refusal : Worker → Call → Option Reply
target_refusal w c =
    if is_target_tool c.tool_name
    then (elim (lookup c.run_id w.runs) [
      | none ↦ some (refuse "RUN_FORBIDDEN" "handle not bound to this workspace")
      | some run ↦
          if not (str_eq run.workspace_id c.request.workspace_id)
          then some (refuse "RUN_FORBIDDEN" "handle not bound to this workspace")
          else (if str_eq c.tool_name "resume_run" && is_gated run.phase
              then some (refuse "RUN_NOT_RESUMABLE" "run is already terminal")
              else none)
    ])
    else none

-- What `handle` makes of an error that is thrown.
abbrev pub internal_error : Reply
internal_error = refuse "INTERNAL_ERROR" ""

abbrev pub with_registry : Site → Registry → Site
with_registry s r = record s { worker = record (s.worker) { registry = r } }

-- The end of `_handle`: the operation is queued and accepted.
unfoldable pub enqueue_accepted : Call → Json → String → OperationKind → Site → Site × Reply
unfolding accepted_for
enqueue_accepted c params id kind s =
    let queued : Site = record s {
      scheduler = enqueue s.scheduler (record {
        operation_id = id;
        kind = kind;
        workspace_id = c.request.workspace_id;
        request_run = some c.run_id;
        request = params;
        tool_name = c.tool_name;
      });
    } in
    (
      queued,
      elim (get s.worker.registry id) [
        | none ↦ internal_error
        | some o ↦ accepted_for c.tool_name o
      ],
    )

-- The run of a new audit.
unfoldable pub start_audit : Moment → Call → Json → String → OperationKind → Site → Site × Reply
unfolding enqueue_accepted
start_audit m c params id kind s =
    elim (create_fixture_run s.worker m.now m.run_id c.request.workspace_id id) [
      | err e ↦ (s, internal_error)
      | ok (w, run) ↦
          elim (update_run w.registry m.now run.snapshot (some OperationStatus.running)) [
            | err e ↦ (record s { worker = w }, internal_error)
            | ok (r, o) ↦
                enqueue_accepted c params id kind (with_registry (record s { worker = w }) r)
          ]
    ]

-- The run that a new operation is about.
unfoldable pub bind_run : Moment → Call → Json → String → OperationKind → Site → Site × Reply
unfolding enqueue_accepted
bind_run m c params id kind s =
    elim (update s.worker.registry m.now id (λ o. some (record o { run_id = some c.run_id }))) [
      | err e ↦ (s, internal_error)
      | ok (r, o) ↦ enqueue_accepted c params id kind (with_registry s r)
    ]

-- What follows the creation of an operation.
unfoldable pub begin_operation : Moment → Call → Json → String → OperationKind → Site → Site × Reply
unfolding start_audit bind_run enqueue_accepted
begin_operation m c params id kind s =
    if str_eq c.tool_name "run_audit"
    then start_audit m c params id kind s
    else (if is_target_tool c.tool_name
        then bind_run m c params id kind s
        else enqueue_accepted c params id kind s)

-- `registry.create` and what follows it.
unfoldable pub create_operation : Moment → Call → Json → Site → Site × Reply
unfolding begin_operation accepted_for
create_operation m c params s =
    elim (create s.worker.registry m.now m.operation_id (record {
      tool = c.tool_name;
      client_request_id = c.client_request_id;
      workspace_id = c.request.workspace_id;
      kind = op_kind c.tool_name;
      params = params;
    })) [
      | err e ↦ (s, refuse (registry_code e) "")
      | ok (r, created) ↦
          if created.is_new
          then begin_operation m c params created.operation_id created.operation.kind
              (with_registry s r)
          else (with_registry s r, accepted_for c.tool_name created.operation)
    ]

-- The guards behind the authorisation of a call that creates an operation.
unfoldable pub handle_creation : Moment → Call → Json → Site → Site × Reply
unfolding create_operation matrix_refusal target_refusal accepted_for
handle_creation m c params s =
    elim (find_by_idempotency s.worker.registry c.request.workspace_id c.tool_name
      c.client_request_id) [
        | some existing ↦ (
          s,
          if same_params existing params
              then accepted_for c.tool_name existing
              else refuse "IDEMPOTENCY_CONFLICT" "same client_request_id with different params",
        )
        | none ↦ elim (matrix_refusal m s.worker c.tool_name) [
          | some refusal ↦ (s, refusal)
          | none ↦ elim (target_refusal s.worker c) [
            | some refusal ↦ (s, refusal)
            | none ↦ create_operation m c params s
          ]
        ]
      ]

-- `_handle`
unfoldable pub handle : Surroundings → Moment → Call → Site → Site × Reply
unfolding handle_creation authorize
handle x m c s = elim (authorize x c.tool_name c.request) [
  | err code ↦ (s, refuse code "")
  | ok g ↦
      if g.tool.creates_operation
      then handle_creation m c (c.persisted g.resolution) s
      else (s, handle_query m.artifacts s.worker c.tool_name c.query)
]
