-- ===== src/Worker/State.antt =====
-- packages/worker/src/index.ts: the runs of a worker and how they are persisted. A method that
-- mutates the worker returns the new one, also where it throws. The clock is an argument, read once
-- for each call of a method.
use autopw.Prelude.{
  ℕ, ◌+◌, String, Bool, some, List, ◌∷◌, opt_str_eq, includes, if◌then◌else◌, Dict, insert, Result,
  ok, err,
}
use autopw.Domain.{RunPhase, OperationStatus}
use autopw.Lease.{LeasePolicy, PolicyError, RunLease, release_lease}
use autopw.Registry.Records.{RunSnapshot}
use autopw.Registry.{Registry, RegistryError, update_run}

pub record RunState : Type 0 where
  pub snapshot : RunSnapshot
  pub open snapshot use *
  pub state_version : ℕ
  pub leased_by : ℕ
  pub lease_owner : String
  pub lease : RunLease
  pub resume_attempts : ℕ

pub record ProgressNotification : Type 0 where
  -- The three parts of `notification_id`.
  pub run_id : String
  pub state_version : ℕ
  pub phase : RunPhase
  pub progress_pct : ℕ
  pub next_action : String
  pub at : ℕ

pub record Worker : Type 0 where
  pub registry : Registry
  pub runs : Dict RunState
  pub worker_id : String
  pub pid : ℕ
  pub lease_policy : LeasePolicy
  -- `ACTIVE_WORKER_IDS`, which the workers of a process share.
  pub active_workers : List String
  pub crashed_runs : List String
  -- Whether a runtime is configured, and the `run_state.json` files that it keeps.
  pub has_runtime : Bool
  pub stored : Dict RunState
  -- The runs whose folder holds a `seed.json`.
  pub seeds : List String
  -- What `onProgress` was told, newest first.
  pub notices : List ProgressNotification

-- What a method may throw.
pub data Fault : Type 0 where
  registry_fault : RegistryError → Fault
  policy_fault : PolicyError → Fault

-- A method: the worker after it, and what it returns or throws.
abbrev pub M : Type 0 → Type 0
M A = Worker → Worker × Result Fault A

abbrev pub pure : {A : Type 0} → A → M A
pure a w = (w, ok a)

infixl 5 ◌>>=◌ ◌>>◌
abbrev pub ◌>>=◌ : {A B : Type 0} → M A → (A → M B) → M B
◌>>=◌ m f w = let (w', r) = m w in elim r [ ok a ↦ f a w' | err e ↦ (w', err e) ]

abbrev pub ◌>>◌ : {A B : Type 0} → M A → M B → M B
m >> k = m >>= λ _. k

abbrev pub put_run : Worker → RunState → Worker
put_run w run = record w { runs = insert run.run_id run w.runs }

-- `_writeRunState`
abbrev pub write_run_state : Worker → RunState → Worker
write_run_state w run =
    if w.has_runtime then record w { stored = insert run.run_id run w.stored } else w

-- The lease part of `_persistRun`: a holder's progress is a heartbeat, and the end releases it.
unfoldable pub persisted_lease : String → ℕ → OperationStatus → RunLease → RunLease
persisted_lease worker_id now OperationStatus.running l =
    if opt_str_eq l.owner (some worker_id)
    then record l {
      heartbeat_at = some now;
      expires_at = some (now + l.policy.lease_ttl_ms);
      state_version = l.state_version + 1;
      stale_confirmations = 0;
    }
    else l
persisted_lease worker_id now OperationStatus.completed l = release_lease l
persisted_lease worker_id now OperationStatus.failed l = release_lease l
persisted_lease worker_id now _ l = l

-- The run as `_persistRun` writes it.
abbrev pub persisted : String → ℕ → OperationStatus → RunState → RunState
persisted worker_id now status run = record run {
  lease = persisted_lease worker_id now status run.lease;
  state_version = run.state_version + 1;
}

abbrev pub notice_of : RunState → ℕ → ProgressNotification
notice_of run now = record {
  run_id = run.run_id;
  state_version = run.state_version;
  phase = run.phase;
  progress_pct = run.progress_pct;
  next_action = run.next_action;
  at = now;
}

-- The end of `_persistRun`: the registry, which may throw, and the notification.
unfoldable pub publish : ℕ → RunState → OperationStatus → M RunState
publish now run status w = elim (update_run w.registry now run.snapshot (some status)) [
  | err e ↦ (w, err (registry_fault e))
  | ok (next, o) ↦ (record w { registry = next; notices = notice_of run now ∷ w.notices }, ok run)
]

-- `_persistRun` of a run that the caller has just changed to `run`. The change stays in memory also
-- where the run has crashed and nothing is persisted.
unfoldable pub persist_run : ℕ → RunState → OperationStatus → M RunState
persist_run now run status w =
    if includes w.crashed_runs run.run_id
    then (put_run w run, ok run)
    else (let next = persisted w.worker_id now status run in
        publish now next status (write_run_state (put_run w next) next))
