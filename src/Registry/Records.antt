-- ===== src/Registry/Records.antt =====
-- The records of packages/operation-registry/src/index.ts. Members that the source leaves open
-- (`Record<string, unknown>`) are JSON values; `null` and `undefined` are `none`.
use Prim.Native.String.{◌++◌}
use autopw.Prelude.{ℕ, String, Bool, Option, List}
use autopw.Json.{Json}
use autopw.Domain.{RunPhase, RunStatus, AuditStatus, OperationStatus, Gate, FatalFailureClass}

pub record ArtifactSnapshot : Type 0 where
  pub handle : String
  pub kind : String
  pub size_bytes : Option ℕ

pub record RetentionPolicy : Type 0 where
  pub operation_ttl_ms : ℕ
  pub run_ttl_ms : ℕ
  pub evidence_ttl_ms : ℕ
  pub cache_ttl_ms : ℕ
  pub artifact_ttl_ms : ℕ
  pub high_watermark : ℕ
  pub low_watermark : ℕ

abbrev pub default_retention : RetentionPolicy
default_retention = record {
  operation_ttl_ms = 604800000;
  run_ttl_ms = 2592000000;
  evidence_ttl_ms = 0;
  cache_ttl_ms = 0;
  artifact_ttl_ms = 0;
  high_watermark = 1000;
  low_watermark = 100;
}

pub data OperationKind : Type 0 where
  run preview maintenance : OperationKind

pub record OperationRecord : Type 0 where
  pub operation_id : String
  pub tool : String
  pub client_request_id : String
  pub workspace_id : String
  pub kind : OperationKind
  pub params : Json
  pub status : OperationStatus
  pub run_id : Option String
  pub result_ref : Option Json
  pub created_at : ℕ
  pub updated_at : ℕ
  pub expires_at : ℕ
  pub tombstoned : Bool
  pub state_version : Option ℕ
  pub phase : Option RunPhase
  pub run_status : Option RunStatus
  pub audit_status : Option AuditStatus
  pub gate : Option Gate
  pub fatal_class : Option FatalFailureClass
  pub progress_pct : Option ℕ
  pub next_action : Option String
  pub cancel_requested : Option Bool
  pub result_summary : Option Json
  pub results_ref : Option ArtifactSnapshot
  pub report_ref : Option ArtifactSnapshot
  pub gate_summary : Option Json
  pub evidence_refs : Option (List ArtifactSnapshot)
  pub cases : Option (List Json)
  pub audit_summary : Option Json

pub record RunSnapshot : Type 0 where
  pub run_id : String
  pub operation_id : String
  pub workspace_id : String
  pub phase : RunPhase
  pub run_status : RunStatus
  pub audit_status : Option AuditStatus
  pub gate : Option Gate
  pub fatal_class : Option FatalFailureClass
  pub progress_pct : ℕ
  pub next_action : String
  pub cancel_requested : Bool
  pub results_ref : Option ArtifactSnapshot
  pub report_ref : Option ArtifactSnapshot
  pub gate_summary : Option Json
  pub evidence_refs : Option (List ArtifactSnapshot)
  pub cases : Option (List Json)
  pub audit_summary : Option Json

-- The file that `_writeTombstone` leaves; its two times are printed in the source.
pub record Tombstone : Type 0 where
  pub handle : String
  pub kind : OperationKind
  pub deleted_at : ℕ
  pub expires_at : ℕ

-- `_key`
unfoldable pub idempotency_key : String → String → String → String
idempotency_key workspace_id tool client_request_id =
    workspace_id ++ "|" ++ tool ++ "|" ++ client_request_id
