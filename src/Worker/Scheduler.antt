-- ===== src/Worker/Scheduler.antt =====
-- packages/worker/src/index.ts: the queue of operations, the budgets and what is running.
-- `enqueue`, `_tick` and the `finally` of a task. Whether the registry knows the run of an operation
-- is an argument; a task's work is modelled elsewhere.
use autopw.Prelude.{
  ℕ, ◌+◌, ◌-◌, String, Bool, true, ◌&&◌, ◌||◌, Option, none, some, List, [], ◌∷◌, ◌++◌, leb, str_eq,
  truthy, or_zero, if◌then◌else◌, Dict, lookup, insert, any, includes, length, max, ◌==◌,
}
use autopw.Json.{Json}
use autopw.Registry.Records.{OperationKind}

pub record QueueItem : Type 0 where
  pub operation_id : String
  pub kind : OperationKind
  -- `String(request.workspace_id || "")`
  pub workspace_id : String
  -- `request.run_id` where it is a text
  pub request_run : Option String
  pub request : Json
  pub tool_name : String

pub record Budgets : Type 0 where
  pub installation : ℕ
  pub workspace : ℕ
  pub global : ℕ
  pub workspace_per_run : ℕ

abbrev pub default_budgets : Budgets
default_budgets = record { installation = 8; workspace = 4; global = 16; workspace_per_run = 2 }

-- A started task: what its `finally` needs. `run_id` is empty where the operation has no run.
pub record Task : Type 0 where
  pub operation_id : String
  pub workspace_id : String
  pub run_id : String

pub record Scheduler : Type 0 where
  pub queue : List QueueItem
  pub budgets : Budgets
  pub running : List String
  pub running_by_workspace : Dict ℕ
  pub running_by_run : Dict ℕ
  pub in_flight : List Task
  pub stopped : Bool

unfoldable pub enqueue : Scheduler → QueueItem → Scheduler
enqueue s item =
    if s.stopped
      || includes s.running item.operation_id
      || any (λ q. str_eq q.operation_id item.operation_id) s.queue
    then s
    else record s { queue = s.queue ++ item ∷ [] }

-- `operation?.run_id || (typeof slot.request.run_id === "string" ? slot.request.run_id : "")`
abbrev pub run_of : Option String → QueueItem → String
run_of operation_run item = elim operation_run [
  | some r ↦ if truthy r then r else request_run item.request_run
  | none ↦ request_run item.request_run
]
  where
    request_run : Option String → String
    request_run none = ""
    request_run (some r) = r

-- `this.runningByWorkspace.get(key) || 0`
abbrev pub counter : Dict ℕ → String → ℕ
counter m key = or_zero (lookup key m)

abbrev pub task_of : Option String → QueueItem → Task
task_of operation_run item = record {
  operation_id = item.operation_id;
  workspace_id = item.workspace_id;
  run_id = run_of operation_run item;
}

abbrev pub start_task : Scheduler → List QueueItem → Task → Scheduler
start_task s rest t = record s {
  queue = rest;
  running = if includes s.running t.operation_id then s.running else t.operation_id ∷ s.running;
  running_by_workspace =
      insert t.workspace_id (counter s.running_by_workspace t.workspace_id + 1)
        s.running_by_workspace;
  running_by_run =
      if truthy t.run_id
      then insert t.run_id (counter s.running_by_run t.run_id + 1) s.running_by_run
      else s.running_by_run;
  in_flight = t ∷ s.in_flight;
}

-- Some budget forbids to start the task at the head of the queue.
abbrev pub is_blocked : Scheduler → Task → Bool
is_blocked s t =
    leb s.budgets.workspace (counter s.running_by_workspace t.workspace_id)
    || (truthy t.run_id && leb s.budgets.workspace_per_run (counter s.running_by_run t.run_id))

-- The installation is at its limit.
abbrev pub is_full : Scheduler → Bool
is_full s = leb s.budgets.installation (length s.running) || leb s.budgets.global (length s.running)

unfoldable pub tick_slot :
    Scheduler → (String → Option String) → List QueueItem → Scheduler × Option QueueItem
tick_slot s operation_run [] = (s, none)
tick_slot s operation_run (slot ∷ rest) =
    let t = task_of (operation_run slot.operation_id) slot in
    if is_blocked s t then (s, none) else (start_task s rest t, some slot)

-- One call of `_tick`, with the item whose task it starts. A blocked item goes back to the head of
-- the queue, so that the state is as before.
unfoldable pub tick : Scheduler → (String → Option String) → Scheduler × Option QueueItem
unfolding tick_slot
tick s operation_run =
    if s.stopped || is_full s then (s, none) else tick_slot s operation_run s.queue

-- `Math.max(0, (counter || 1) - 1)`
abbrev pub decremented : Dict ℕ → String → ℕ
decremented m key = max 0 (one_less (counter m key))
  where
    one_less : ℕ → ℕ
    one_less n = if n == 0 then 0 else n - 1

unfoldable pub drop_task : Task → List Task → List Task
drop_task t [] = []
drop_task t (u ∷ us) = if str_eq u.operation_id t.operation_id then us else u ∷ drop_task t us

unfoldable pub drop_id : String → List String → List String
drop_id id [] = []
drop_id id (j ∷ js) = if str_eq j id then js else j ∷ drop_id id js

-- The `finally` of a task.
unfoldable pub finish : Scheduler → Task → Scheduler
unfolding drop_task drop_id
finish s t = record s {
  running = drop_id t.operation_id s.running;
  running_by_workspace =
      insert t.workspace_id (decremented s.running_by_workspace t.workspace_id)
        s.running_by_workspace;
  running_by_run =
      if truthy t.run_id
      then insert t.run_id (decremented s.running_by_run t.run_id) s.running_by_run
      else s.running_by_run;
  in_flight = drop_task t s.in_flight;
}

-- `stop`, up to the wait for the tasks in flight.
unfoldable pub halt : Scheduler → Scheduler
halt s = record s { stopped = true; queue = [] }
