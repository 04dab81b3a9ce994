-- ===== src/Control/Queries.antt =====
-- packages/control-plane/src/index.ts: the tools that only read, `_handleQuery`. What the artifact
-- store holds is an argument, as `Artifacts`.
use autopw.Prelude.{
  ℕ, String, Bool, true, false, ◌||◌, Option, none, some, List, [], ◌∷◌, opt_str_eq, if◌then◌else◌,
  Dict, Result, ok, err, ◌>>◌,
}
use autopw.Domain.{RunPhase, RunStatus, AuditStatus, OperationStatus, Gate, FatalFailureClass}
use autopw.Json.{Json, Items, Fields, member, text_of}
use autopw.Registry.Records.{ArtifactSnapshot}
use autopw.Worker.Lifecycle.{is_gated, is_closed}
use autopw.Worker.State.{RunState}
use autopw.Control.Paging.{PageMeta}
use autopw.Control.Replies.{CaseView, Counts}

-- What the code below throws: the `code` of the error, if it has one, and its message.
pub record Thrown : Type 0 where
  pub code : Option String
  pub message : String

pub record Artifacts : Type 0 where
  -- `SecureArtifactService.authorizeRead`, `readArtifact` with `JSON.parse`, and `readEvents`
  pub authorize_read : String → ArtifactSnapshot → Result Thrown (Unit {0})
  pub read_json : String → ArtifactSnapshot → Result Thrown Json
  pub read_events : String → ℕ → Result Thrown (List Json)

-- A request; a member that the tool does not have is empty.
pub record Query : Type 0 where
  pub workspace_id : String
  pub operation_id : String
  pub run_id : String
  pub page : Option ℕ
  pub page_size : Option ℕ
  pub focus_case_id : Option String

pub record RunStatusReply : Type 0 where
  pub run_id : String
  pub phase : RunPhase
  pub run_status : RunStatus
  pub progress_pct : ℕ
  pub counts : Counts
  pub by_tier : Dict Counts
  pub by_batch : Dict Counts
  pub next_action : String
  pub poll_after_ms : ℕ
  pub stale : Bool
  pub interrupted : Bool
  pub recent_events : List Json
  pub audit_status : Option AuditStatus
  pub gate : Option Gate

pub record RunResultReply : Type 0 where
  pub run_id : String
  pub gate : Option Gate
  pub audit_status : Option AuditStatus
  pub results_ref : ArtifactSnapshot
  pub report_ref : ArtifactSnapshot
  pub gate_summary : Json
  pub issues : List Json
  pub pagination : PageMeta

pub record ExplanationReply : Type 0 where
  pub run_id : String
  pub cases : List Json
  pub evidence_refs : List ArtifactSnapshot
  pub pagination : PageMeta
  pub gate_summary : Json
  pub gate : Option Gate
  pub audit_status : Option AuditStatus

-- The results: an error with its code, message and details; an accepted operation with its run as
-- `run_handle` or as `run_id`; and the answers to queries.
pub data Reply : Type 0 where
  error : String → String → Option Json → Reply
  accepted : String → Option String → Option String → Reply
  operation_status : String → OperationStatus → Reply
  operation_result : String → Json → Json → PageMeta → Reply
  operation_not_ready run_not_ready : String → Reply
  run_failed : String → FatalFailureClass → Reply
  run_status : RunStatusReply → Reply
  run_result : RunResultReply → Reply
  explanation : ExplanationReply → Reply

abbrev pub refuse : String → String → Reply
refuse code message = error code message none

abbrev pub case_view : Json → CaseView
case_view j = record {
  case_id = text_of (member "case_id" j);
  status = text_of (member "status" j);
  effective_tier = text_of (member "effective_tier" j);
  tier = text_of (member "tier" j);
  batch_id = text_of (member "batch_id" j);
  rest = j;
}

abbrev pub views : List Json → List CaseView
views [] = []
views (j ∷ js) = case_view j ∷ views js

abbrev pub given_or {ℓ} : {A : Type ℓ} → Option A → A → A
given_or none d = d
given_or (some a) d = a

abbrev pub no_json : Json
no_json = Json.obj Fields.done

abbrev pub snapshot_of : String → String → ArtifactSnapshot
snapshot_of handle kind = record { handle = handle; kind = kind; size_bytes = none }

abbrev pub preview_ref : Json
preview_ref = Json.obj (
    Fields.field "handle" (Json.str "art_preview")
      (Fields.field "kind" (Json.str "cdd.json") Fields.done))

abbrev pub is_completed : OperationStatus → Bool
is_completed OperationStatus.completed = true
is_completed _ = false

abbrev pub is_failed : RunStatus → Bool
is_failed RunStatus.failed = true
is_failed _ = false

abbrev pub is_interrupted : RunStatus → Bool
is_interrupted RunStatus.interrupted = true
is_interrupted _ = false

-- `isTerminalRun`
abbrev pub is_terminal_run : RunState → Bool
is_terminal_run run = is_gated run.phase || is_closed run.run_status

abbrev pub is_record : Json → Bool
is_record (Json.obj fields) = true
is_record _ = false

abbrev pub records_in : Items → List Json
records_in Items.nil = []
records_in (Items.cons j js) = if is_record j then j ∷ records_in js else records_in js

abbrev pub issues_in : Option Json → List Json
issues_in (some (Json.arr items)) = records_in items
issues_in _ = []

abbrev pub has_expired : Thrown → Bool
has_expired e = opt_str_eq e.code (some "RESULT_EXPIRED")

-- `readArtifactIssues`: a file that cannot be read has no issues, unless it has expired.
unfoldable pub read_artifact_issues : Artifacts → RunState → Result Thrown (List Json)
read_artifact_issues a run = elim run.results_ref [
  | none ↦ ok []
  | some ref ↦ (do
    a.authorize_read run.workspace_id ref
    elim (a.read_json run.run_id ref) [
      | ok parsed ↦ ok (issues_in (member "issues" parsed))
      | err e ↦ if has_expired e then err e else ok []
    ])
]
