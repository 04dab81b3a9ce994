-- ===== src/Worker/Recalled.antt =====
-- packages/worker/src/index.ts: the run that a worker recalls from a file or from a record, merged
-- with what it knew.
use autopw.Prelude.{
  ℕ, String, Bool, true, false, truthy?, or_zero, Option, none, some, is_some, if◌then◌else◌,
  lookup, ok, ◌≡◌, ◌≢◌, ◌⊎◌, refl, subst, arith, Option-cases, Result-cases, Bool-cases, inl, inr,
}
use autopw.Domain.{RunPhase, RunStatus}
use autopw.Registry.Records.{OperationRecord}
use autopw.Lease.{LeasePolicy, fresh_lease, new_lease, validate_lease_policy}
use autopw.Worker.State.{RunState, Worker}
use autopw.Worker.Leases.{assign_run}
use autopw.Worker.Resync.{given, is_completed_operation, rebuilt, from_file, recalled, stored_run}

-- What the first holds, the second holds.
abbrev pub Holds : {A : Type 0} → Option A → Option A → Type 0
Holds {A} source member = (a : A) → source ≡ some a → member ≡ some a

-- The members that a run need not have are not lost.
pub record Remembers (before run : RunState) : Type 0 where
  results_ref : is_some before.results_ref ≡ true → is_some run.results_ref ≡ true
  report_ref : is_some before.report_ref ≡ true → is_some run.report_ref ≡ true
  gate_summary : is_some before.gate_summary ≡ true → is_some run.gate_summary ≡ true
  evidence_refs : is_some before.evidence_refs ≡ true → is_some run.evidence_refs ≡ true
  cases : is_some before.cases ≡ true → is_some run.cases ≡ true
  audit_summary : is_some before.audit_summary ≡ true → is_some run.audit_summary ≡ true

-- The run is the one that the record tells of, leased to this worker for a whole term from now.
pub record IsRebuilt (worker_id : String) (pid : ℕ) (policy : LeasePolicy) (now : ℕ)
    (o : OperationRecord) (run_id : String) (run : RunState) : Type 0 where
  named : run.run_id ≡ run_id
  operation : run.operation_id ≡ o.operation_id
  workspace : run.workspace_id ≡ o.workspace_id
  phase : run.phase ≡ given o.phase RunPhase.created
  run_status :
      run.run_status
      ≡ given o.run_status
          (if is_completed_operation o.status then RunStatus.completed else RunStatus.active)
  audit_status : run.audit_status ≡ o.audit_status
  gate : run.gate ≡ o.gate
  fatal_class : run.fatal_class ≡ o.fatal_class
  progress : run.progress_pct ≡ or_zero o.progress_pct
  next_action : run.next_action ≡ given (truthy? o.next_action) "poll get_run_status"
  cancel_requested : run.cancel_requested ≡ given o.cancel_requested false
  results_ref : run.results_ref ≡ o.results_ref
  report_ref : run.report_ref ≡ o.report_ref
  gate_summary : run.gate_summary ≡ o.gate_summary
  evidence_refs : run.evidence_refs ≡ o.evidence_refs
  cases : run.cases ≡ o.cases
  audit_summary : run.audit_summary ≡ o.audit_summary
  lease : run.lease ≡ fresh_lease worker_id pid policy now
  holder : (run.lease_owner ≡ worker_id) × (run.leased_by ≡ pid)
  untried : (run.state_version ≡ 1) × (run.resume_attempts ≡ 0)

-- The run is the one that its file holds, its holder read off the lease.
pub record IsFiled (stored run : RunState) : Type 0 where
  same : run ≡ record stored {
    snapshot = record (stored.snapshot) {
      results_ref = run.results_ref;
      report_ref = run.report_ref;
      gate_summary = run.gate_summary;
      evidence_refs = run.evidence_refs;
      cases = run.cases;
      audit_summary = run.audit_summary;
    };
    state_version = run.state_version;
    lease_owner = given stored.lease.owner "";
    leased_by = run.leased_by;
  }
  version : stored.state_version ≢ 0 → run.state_version ≡ stored.state_version
  process : (n : ℕ) → stored.lease.owner_pid ≡ some n → n ≢ 0 → run.leased_by ≡ n
  results_ref : Holds stored.results_ref run.results_ref
  report_ref : Holds stored.report_ref run.report_ref
  gate_summary : Holds stored.gate_summary run.gate_summary
  evidence_refs : Holds stored.evidence_refs run.evidence_refs
  cases : Holds stored.cases run.cases
  audit_summary : Holds stored.audit_summary run.audit_summary

-- A run is taken from its file, and from the record where there is none.
abbrev pub IsTakenUp : Worker → ℕ → OperationRecord → String → RunState → Type 0
IsTakenUp w now o run_id run =
    ((stored : RunState)
      → w.has_runtime ≡ true
      → lookup run_id w.stored ≡ some stored
      → IsFiled stored run)
    × ((w.has_runtime ≡ false) ⊎ (lookup run_id w.stored ≡ none)
        → IsRebuilt w.worker_id w.pid w.lease_policy now o run_id run)

-- The merge of what was recalled, from a file or not, with what was known.
unfoldable pub known_after : Bool → Option RunState → RunState → RunState
known_after filed none run = run
known_after true (some current) run = assign_run current run
known_after false (some current) run = run

from_file-IsFiled :
    (w : Worker) (stored : RunState) (before : Option RunState)
    → IsFiled stored (known_after true before (from_file w stored))
unfolding known_after
from_file-IsFiled w stored none = record {
  same = refl;
  version = λ ne. ground (arith, ne);
  process = λ n e ne. ground (arith, e, ne);
  results_ref = λ a e. ground (arith, e);
  report_ref = λ a e. ground (arith, e);
  gate_summary = λ a e. ground (arith, e);
  evidence_refs = λ a e. ground (arith, e);
  cases = λ a e. ground (arith, e);
  audit_summary = λ a e. ground (arith, e);
}
from_file-IsFiled w stored (some current) = record {
  same = refl;
  version = λ ne. ground (arith, ne);
  process = λ n e ne. ground (arith, e, ne);
  results_ref = λ a e. ground (arith, e);
  report_ref = λ a e. ground (arith, e);
  gate_summary = λ a e. ground (arith, e);
  evidence_refs = λ a e. ground (arith, e);
  cases = λ a e. ground (arith, e);
  audit_summary = λ a e. ground (arith, e);
}

-- The run that a record tells of, with its new lease.
abbrev told_of : Worker → ℕ → OperationRecord → String → RunState
told_of w now o run_id = rebuilt w o run_id (fresh_lease w.worker_id w.pid w.lease_policy now)

told_of-IsRebuilt :
    (w : Worker) (now : ℕ) (o : OperationRecord) (run_id : String) (before : Option RunState)
    → IsRebuilt w.worker_id w.pid w.lease_policy now o run_id
        (known_after false before (told_of w now o run_id))
unfolding known_after rebuilt
told_of-IsRebuilt w now o run_id none = record {
  named = refl;
  operation = refl;
  workspace = refl;
  phase = refl;
  run_status = refl;
  audit_status = refl;
  gate = refl;
  fatal_class = refl;
  progress = refl;
  next_action = refl;
  cancel_requested = refl;
  results_ref = refl;
  report_ref = refl;
  gate_summary = refl;
  evidence_refs = refl;
  cases = refl;
  audit_summary = refl;
  lease = refl;
  holder = (refl, refl);
  untried = (refl, refl);
}
told_of-IsRebuilt w now o run_id (some current) = record {
  named = refl;
  operation = refl;
  workspace = refl;
  phase = refl;
  run_status = refl;
  audit_status = refl;
  gate = refl;
  fatal_class = refl;
  progress = refl;
  next_action = refl;
  cancel_requested = refl;
  results_ref = refl;
  report_ref = refl;
  gate_summary = refl;
  evidence_refs = refl;
  cases = refl;
  audit_summary = refl;
  lease = refl;
  holder = (refl, refl);
  untried = (refl, refl);
}

assign_run-Remembers : (current run : RunState) → Remembers current (assign_run current run)
assign_run-Remembers current run = record {
  results_ref = λ e. ground (arith, e);
  report_ref = λ e. ground (arith, e);
  gate_summary = λ e. ground (arith, e);
  evidence_refs = λ e. ground (arith, e);
  cases = λ e. ground (arith, e);
  audit_summary = λ e. ground (arith, e);
}

pub known_after-Remembers :
    (before : Option RunState) (run b : RunState)
    → before ≡ some b
    → Remembers b (known_after true before run)
unfolding known_after
known_after-Remembers none run b e = ground (arith, e)
known_after-Remembers (some current) run b e =
    let same : current ≡ b = ground (arith, e) in
    subst (λ x. Remembers x (assign_run current run)) same (assign_run-Remembers current run)

pub Remembers-trans : (a b c : RunState) → Remembers a b → Remembers b c → Remembers a c
Remembers-trans a b c h k = record {
  results_ref = λ e. k.results_ref (h.results_ref e);
  report_ref = λ e. k.report_ref (h.report_ref e);
  gate_summary = λ e. k.gate_summary (h.gate_summary e);
  evidence_refs = λ e. k.evidence_refs (h.evidence_refs e);
  cases = λ e. k.cases (h.cases e);
  audit_summary = λ e. k.audit_summary (h.audit_summary e);
}

-- Where a recalled run comes from.
recalled-source :
    (w : Worker) (now : ℕ) (o : OperationRecord) (run_id : String) (run : RunState)
    → recalled w now o run_id ≡ ok run
    → ((stored : RunState) × (w.has_runtime ≡ true)
        × (lookup run_id w.stored ≡ some stored)
        × (run ≡ from_file w stored))
      ⊎ (((w.has_runtime ≡ false) ⊎ (lookup run_id w.stored ≡ none))
          × (run ≡ told_of w now o run_id))
unfolding recalled new_lease
recalled-source w now o run_id run h = elim (Result-cases (validate_lease_policy w.lease_policy)) [
  | inl (u, valid) ↦ elim (Bool-cases w.has_runtime) [
    | inl runtime ↦ elim (Option-cases (lookup run_id w.stored)) [
      | inl e ↦ inr (inr e, ground (arith, h, valid, runtime, e))
      | inr (stored, e) ↦ inl (stored, runtime, e, ground (arith, h, runtime, e))
    ]
    | inr no_runtime ↦ inr (inl no_runtime, ground (arith, h, valid, no_runtime))
  ]
  | inr (x, bad) ↦ elim (Bool-cases w.has_runtime) [
    | inl runtime ↦ elim (Option-cases (lookup run_id w.stored)) [
      | inl e ↦ absurd (ground (arith, h, bad, runtime, e))
      | inr (stored, e) ↦ inl (stored, runtime, e, ground (arith, h, runtime, e))
    ]
    | inr no_runtime ↦ absurd (ground (arith, h, bad, no_runtime))
  ]
]

-- Whether a file holds the run.
abbrev pub is_filed : Worker → String → Bool
is_filed w run_id = is_some (stored_run w run_id)

pub recalled-IsTakenUp :
    (w : Worker) (now : ℕ) (o : OperationRecord) (run_id : String) (run : RunState)
    (before : Option RunState)
    → recalled w now o run_id ≡ ok run
    → IsTakenUp w now o run_id (known_after (is_filed w run_id) before run)
recalled-IsTakenUp w now o run_id run before h = elim (recalled-source w now o run_id run h) [
  | inl (stored, runtime, at, e) ↦
      (let filed : is_filed w run_id ≡ true = ground (arith, runtime, at) in
        (
          λ other r k.
              (let same : stored ≡ other = ground (arith, at, k) in
                subst (λ x. IsFiled x (known_after (is_filed w run_id) before run)) same
                  (rw (filed, e) (from_file-IsFiled w stored before))),
          λ none_found. absurd (ground (arith, runtime, at, none_found)),
        ))
  | inr (missing, e) ↦
      (let unfiled : is_filed w run_id ≡ false = ground (arith, missing) in
        (
          λ stored r k. absurd (ground (arith, missing, r, k)),
          λ _. rw (unfiled, e) (told_of-IsRebuilt w now o run_id before),
        ))
]
