-- ===== src/Worker/Persisting.antt =====
-- packages/worker/src/index.ts: what `_persistRun` leaves behind.
use autopw.Prelude.{
  ℕ, ◌+◌, String, Bool-cases, Option-cases, inl, inr, ◌⊎◌, ◌≢◌, refl, ap, ◌∙◌, str_eq, str_eq_self,
  true, false, none, some, ◌∷◌, str_eq_iff, or_zero, includes, lookup, insert, lookup-insert,
  lookup-insert_self, ok, ◌≡◌, arith,
}
use autopw.Domain.{OperationStatus}
use autopw.Registry.Records.{OperationRecord}
use autopw.Registry.{Registry, update_run, update, current_record, next_version, with_run}
use autopw.Lease.{RunLease, release_lease}
use autopw.Worker.State.{
  persisted_lease, RunState, Worker, put_run, write_run_state, publish, persist_run, persisted,
  notice_of,
}

-- The run may be persisted: it has not crashed, and the registry knows its operation.
pub record IsKnown (w : Worker) (run : RunState) : Type 0 where
  pub sound : includes w.crashed_runs run.run_id ≡ false
  pub operation : OperationRecord
  pub listed : lookup run.operation_id w.registry.by_id ≡ some operation

-- The operation's record mirrors the run, under this status.
pub record IsMirrored (o : OperationRecord) (run : RunState) (status : OperationStatus)
    : Type 0 where
  pub run_named : o.run_id ≡ some run.run_id
  pub phase : o.phase ≡ some run.phase
  pub run_status : o.run_status ≡ some run.run_status
  pub audit_status : o.audit_status ≡ run.audit_status
  pub gate : o.gate ≡ run.gate
  pub progress : o.progress_pct ≡ some run.progress_pct
  pub summary : o.gate_summary ≡ run.gate_summary
  pub operation_status : o.status ≡ status
  pub fatal_class : o.fatal_class ≡ run.fatal_class
  pub next_action : o.next_action ≡ some run.next_action
  pub cancel_requested : o.cancel_requested ≡ some run.cancel_requested
  pub results : o.results_ref ≡ run.results_ref
  pub report : o.report_ref ≡ run.report_ref
  pub evidence : o.evidence_refs ≡ run.evidence_refs
  pub cases : o.cases ≡ run.cases
  pub audit_summary : o.audit_summary ≡ run.audit_summary

-- After the run was persisted: what memory, the file of the runtime and the registry hold.
pub record IsPersisted (w : Worker) (run : RunState) (status : OperationStatus) : Type 0 where
  pub known : IsKnown w run
  pub in_memory : lookup run.run_id w.runs ≡ some run
  pub in_file : w.has_runtime ≡ true → lookup run.run_id w.stored ≡ some run
  pub mirrored : IsMirrored known.operation run status
  pub released : status ≡ OperationStatus.completed → run.lease.owner ≡ none

-- The lease of a run that was persisted under a status: a holder that makes progress renews it for
-- a whole term, anybody else's progress leaves it alone, and the end of the run releases it.
pub record IsSettled (worker_id : String) (now : ℕ) (status : OperationStatus)
    (before after : RunLease) : Type 0 where
  pub renewed :
      status ≡ OperationStatus.running
      → before.owner ≡ some worker_id
      → after ≡ record {
        owner = some worker_id;
        owner_pid = before.owner_pid;
        acquired_at = before.acquired_at;
        heartbeat_at = some now;
        expires_at = some (now + before.policy.lease_ttl_ms);
        state_version = before.state_version + 1;
        stale_confirmations = 0;
        policy = before.policy;
      }
  pub untouched : status ≡ OperationStatus.running → before.owner ≢ some worker_id → after ≡ before
  pub released :
      (status ≡ OperationStatus.completed) ⊎ (status ≡ OperationStatus.failed)
      → after ≡ record {
        owner = none;
        owner_pid = none;
        acquired_at = before.acquired_at;
        heartbeat_at = before.heartbeat_at;
        expires_at = none;
        state_version = before.state_version + 1;
        stale_confirmations = 0;
        policy = before.policy;
      }

persisted_lease-IsSettled :
    (worker_id : String) (now : ℕ) (status : OperationStatus) (l : RunLease)
    → IsSettled worker_id now status l (persisted_lease worker_id now status l)
unfolding persisted_lease release_lease
persisted_lease-IsSettled worker_id now status l = record {
  renewed = λ h k. ground (arith, h, k, str_eq_self worker_id);
  untouched = λ h k. elim (Option-cases l.owner) [
    | inl e ↦ ground (arith, h, e)
    | inr (o, e) ↦ elim (Bool-cases (str_eq o worker_id)) [
      | inl same ↦ absurd (k (e ∙ ap some ((str_eq_iff o worker_id).0 same)))
      | inr other ↦ ground (arith, h, e, other)
    ]
  ];
  released = λ h. ground (arith, h);
}

-- What the registry makes of the operation's record.
abbrev mirror : ℕ → RunState → OperationStatus → OperationRecord → OperationRecord
mirror now run status o = record (with_run run.snapshot (some status) o) {
  updated_at = now;
  state_version = some (or_zero o.state_version + 1);
}

abbrev recorded : Registry → RunState → OperationRecord → Registry
recorded r run o = record r {
  files = insert run.operation_id (some o) r.files;
  by_id = insert run.operation_id o r.by_id;
}

publish_lem :
    (w : Worker) (now : ℕ) (run : RunState) (status : OperationStatus) (o : OperationRecord)
    → lookup run.operation_id w.registry.by_id ≡ some o
    → publish now run status w ≡ (
      record w {
        registry = recorded w.registry run (mirror now run status o);
        notices = notice_of run now ∷ w.notices;
      },
      ok run,
    )
unfolding publish update_run update current_record next_version
publish_lem w now run status o h = ground arith

-- What it leaves, for a run that may be persisted.
pub persist_run-IsPersisted :
    (w : Worker) (now : ℕ) (run : RunState) (status : OperationStatus)
    → IsKnown w run
    → let next = persisted w.worker_id now status run in
      (v : Worker) × (persist_run now run status w ≡ (v, ok next))
      × IsPersisted v next status
      × (v.notices ≡ notice_of next now ∷ w.notices)
      × (v.worker_id ≡ w.worker_id)
unfolding persist_run persisted_lease release_lease
persist_run-IsPersisted w now run status k =
    let next : RunState = persisted w.worker_id now status run in
    let written : Worker = write_run_state (put_run w next) next in
    let o = mirror now next status k.operation in
    let v : Worker = record written {
      registry = recorded written.registry next o;
      notices = notice_of next now ∷ written.notices;
    } in
    (
      v,
      ground (arith, k.sound, k.listed, publish_lem written now next status k.operation),
      record {
        known = record {
          sound = ground (arith, k.sound);
          operation = o;
          listed = lookup-insert_self run.operation_id o written.registry.by_id;
        };
        in_memory = ground (
          arith,
          lookup-insert run.run_id run.run_id next w.runs,
          str_eq_iff run.run_id run.run_id,
        );
        in_file = λ h. ground (
          arith,
          h,
          lookup-insert run.run_id run.run_id next w.stored,
          str_eq_iff run.run_id run.run_id,
        );
        mirrored = ground arith;
        released = λ h. ground (arith, h);
      },
      ground arith,
      ground arith,
    )

-- Persisting a run that has not crashed and whose operation the registry knows never fails. It
-- leaves the run as it was but for its version, which is raised by one, and its lease: renewed for a
-- whole term from now where this worker holds it and the run goes on, left alone where it goes on
-- and another holds it, released where the run completed or failed. That run is in memory and, with
-- a runtime, in its file, the operation's record mirrors it, and one notification is sent.
pub persist_run_lem :
    (w : Worker) (now : ℕ) (run : RunState) (status : OperationStatus)
    → IsKnown w run
    → let next = persisted w.worker_id now status run in
      (v : Worker) × (persist_run now run status w ≡ (v, ok next))
      × IsPersisted v next status
      × (v.notices ≡ notice_of next now ∷ w.notices)
      × (v.worker_id ≡ w.worker_id)
      × (next ≡ record run { lease = next.lease; state_version = run.state_version + 1 })
      × IsSettled w.worker_id now status run.lease next.lease
persist_run_lem w now run status k =
    let (v, runs, kept, told, same) = persist_run-IsPersisted w now run status k in
    (v, runs, kept, told, same, refl, persisted_lease-IsSettled w.worker_id now status run.lease)
