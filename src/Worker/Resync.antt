-- ===== src/Worker/Resync.antt =====
-- packages/worker/src/index.ts: `_resyncFromRegistry` and `start`, by which a worker takes up the
-- operations of its registry.
use autopw.Prelude.{
  ℕ, String, Bool, true, false, ◌&&◌, ◌==◌, truthy?, or_zero, Option, none, some, is_some, List, [],
  ◌∷◌, if◌then◌else◌, lookup, insert, values, Result, ok, err, ◌>>=◌,
}
use autopw.Domain.{RunPhase, RunStatus, OperationStatus}
use autopw.Json.{member, text_of}
use autopw.Registry.Records.{OperationRecord}
use autopw.Lease.{PolicyError, RunLease, new_lease}
use autopw.Worker.State.{RunState, Worker}
use autopw.Worker.Leases.{assign_run}
use autopw.Worker.Scheduler.{Scheduler, enqueue}

abbrev pub given {ℓ} : {A : Type ℓ} → Option A → A → A
given none d = d
given (some a) d = a

abbrev pub is_completed_operation : OperationStatus → Bool
is_completed_operation OperationStatus.completed = true
is_completed_operation _ = false

-- `["ACCEPTED", "RUNNING"].includes(record.status)`
abbrev pub is_open : OperationStatus → Bool
is_open OperationStatus.accepted = true
is_open OperationStatus.running = true
is_open _ = false

abbrev pub is_active_run : RunStatus → Bool
is_active_run RunStatus.active = true
is_active_run _ = false

-- The run that a record tells of, where no file holds it.
unfoldable pub rebuilt : Worker → OperationRecord → String → RunLease → RunState
rebuilt w o run_id l = record {
  snapshot = record {
    run_id = run_id;
    operation_id = o.operation_id;
    workspace_id = o.workspace_id;
    phase = given o.phase RunPhase.created;
    run_status =
        given o.run_status
          (if is_completed_operation o.status then RunStatus.completed else RunStatus.active);
    audit_status = o.audit_status;
    gate = o.gate;
    fatal_class = o.fatal_class;
    progress_pct = or_zero o.progress_pct;
    next_action = given (truthy? o.next_action) "poll get_run_status";
    cancel_requested = given o.cancel_requested false;
    results_ref = o.results_ref;
    report_ref = o.report_ref;
    gate_summary = o.gate_summary;
    evidence_refs = o.evidence_refs;
    cases = o.cases;
    audit_summary = o.audit_summary;
  };
  state_version = 1;
  leased_by = w.pid;
  lease_owner = w.worker_id;
  lease = l;
  resume_attempts = 0;
}

-- `n || d`
abbrev pub nonzero_or : ℕ → ℕ → ℕ
nonzero_or n d = if n == 0 then d else n

-- A run that a file holds, with the members that mirror its lease.
abbrev pub from_file : Worker → RunState → RunState
from_file w stored = record stored {
  leased_by = nonzero_or (or_zero stored.lease.owner_pid) w.pid;
  lease_owner = given stored.lease.owner "";
  state_version = nonzero_or stored.state_version 1;
}

abbrev pub stored_run : Worker → String → Option RunState
stored_run w run_id = if w.has_runtime then lookup run_id w.stored else none

-- `persisted`. A lease that cannot be made is an error.
unfoldable pub recalled : Worker → ℕ → OperationRecord → String → Result PolicyError RunState
unfolding rebuilt
recalled w now o run_id = elim (stored_run w run_id) [
  | some stored ↦ ok (from_file w stored)
  | none ↦ elim (new_lease w.worker_id w.pid w.lease_policy now) [
    | err e ↦ err e
    | ok l ↦ ok (rebuilt w o run_id l)
  ]
]

-- `Object.assign(current, persisted)`, or the run as it is; under the id of the record. A run from a
-- file lacks the members that it does not hold, so those of the known run stay. A rebuilt one has
-- all of them, also where they are `undefined`, and replaces the known run.
abbrev pub taken_up : Worker → RunState → String → RunState
taken_up w run run_id = elim (lookup run_id w.runs) [
  | none ↦ run
  | some current ↦ if is_some (stored_run w run_id) then assign_run current run else run
]

abbrev pub Site : Type 0
Site = Worker × Scheduler

-- `String(request.workspace_id || "")`, where the member is a text.
abbrev pub text_or_empty : Option String → String
text_or_empty o = given o ""

-- The queue with the operation of the record, if it is open and its run is active.
abbrev pub requeued : OperationRecord → RunState → Scheduler → Scheduler
requeued o run s =
    if is_open o.status && is_active_run run.run_status
    then enqueue s (record {
      operation_id = o.operation_id;
      kind = o.kind;
      workspace_id = text_or_empty (text_of (member "workspace_id" o.params));
      request_run = text_of (member "run_id" o.params);
      request = o.params;
      tool_name = o.tool;
    })
    else s

-- One round of the loop, for a record with a run.
unfoldable pub take_up : ℕ → OperationRecord → String → Site → Result PolicyError Site
unfolding recalled enqueue
take_up now o run_id (w, s) = elim (recalled w now o run_id) [
  | err e ↦ err e
  | ok run ↦ ok (record w { runs = insert run_id (taken_up w run run_id) w.runs }, requeued o run s)
]

-- The run of a record that is not skipped.
abbrev pub run_to_take : OperationRecord → Option String
run_to_take o = if o.tombstoned then none else truthy? o.run_id

unfoldable pub resync_from : ℕ → List OperationRecord → Site → Result PolicyError Site
unfolding take_up
resync_from now [] site = ok site
resync_from now (o ∷ os) site =
    (elim (run_to_take o) [ none ↦ ok site | some run_id ↦ take_up now o run_id site ])
    >>= resync_from now os

-- `_resyncFromRegistry`
unfoldable pub resync_from_registry : ℕ → Site → Result PolicyError Site
unfolding resync_from
resync_from_registry now site = resync_from now (values site.0.registry.by_id) site

-- `start`, which `reload` repeats.
unfoldable pub start : ℕ → Site → Result PolicyError Site
unfolding resync_from_registry
start now (w, s) =
    resync_from_registry now
      (record w { active_workers = w.worker_id ∷ w.active_workers }, record s { stopped = false })
