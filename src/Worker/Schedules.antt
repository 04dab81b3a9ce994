-- ===== src/Worker/Schedules.antt =====
-- packages/worker/src/index.ts: interleavings of enqueues, ticks, finished tasks, stops and
-- starts.
use autopw.Prelude.{String, false, Option, some, [], lookup, ◌≡◌, refl, arith}
use autopw.Worker.Scheduler.{QueueItem, Budgets, Task, Scheduler, enqueue, tick, finish, halt}
use autopw.Worker.Budgets.{IsBudgeted, enqueue-IsBudgeted, tick-IsBudgeted}
use autopw.Worker.Finished.{find_task, finish-IsBudgeted}

-- A worker as its constructor leaves it.
unfoldable pub idle : Budgets → Scheduler
idle b = record {
  queue = [];
  budgets = b;
  running = [];
  running_by_workspace = [];
  running_by_run = [];
  in_flight = [];
  stopped = false;
}

-- `start` and `reload`, up to the resynchronisation.
abbrev pub restart : Scheduler → Scheduler
restart s = record s { stopped = false }

-- What may happen to the scheduler next. Only a task in flight finishes.
pub data Step : Scheduler → Scheduler → Type 0 where
  enqueues : (s : Scheduler) (item : QueueItem) → Step s (enqueue s item)
  ticks : (s : Scheduler) (operation_run : String → Option String) → Step s (tick s operation_run).0
  finishes :
      (s : Scheduler) (t : Task)
      → find_task t.operation_id s.in_flight ≡ some t
      → Step s (finish s t)
  stops : (s : Scheduler) → Step s (halt s)
  starts : (s : Scheduler) → Step s (restart s)

pub data Reach (s : Scheduler) : Scheduler → Type 0 where
  here : Reach s s
  next : {t u : Scheduler} → Reach s t → Step t u → Reach s u

idle-IsBudgeted : (b : Budgets) → IsBudgeted (idle b)
unfolding idle lookup
idle-IsBudgeted b = record {
  tracked = refl;
  by_workspace = λ w. refl;
  by_run = λ r h. refl;
  workspace_cap = λ w. omega arith;
  run_cap = λ r h. omega arith;
  installation_cap = omega arith;
  global_cap = omega arith;
  distinct_running = tt;
  distinct_queue = tt;
  apart = tt;
}

Step-IsBudgeted : {s t : Scheduler} → Step s t → IsBudgeted s → IsBudgeted t
unfolding halt
Step-IsBudgeted (enqueues s item) b = enqueue-IsBudgeted s item b
Step-IsBudgeted (ticks s operation_run) b = tick-IsBudgeted s operation_run b
Step-IsBudgeted (finishes s t h) b = finish-IsBudgeted s t h b
Step-IsBudgeted (stops s) b = record {
  tracked = b.tracked;
  by_workspace = b.by_workspace;
  by_run = b.by_run;
  workspace_cap = b.workspace_cap;
  run_cap = b.run_cap;
  installation_cap = b.installation_cap;
  global_cap = b.global_cap;
  distinct_running = b.distinct_running;
  distinct_queue = tt;
  apart = tt;
}
Step-IsBudgeted (starts s) b = record {
  tracked = b.tracked;
  by_workspace = b.by_workspace;
  by_run = b.by_run;
  workspace_cap = b.workspace_cap;
  run_cap = b.run_cap;
  installation_cap = b.installation_cap;
  global_cap = b.global_cap;
  distinct_running = b.distinct_running;
  distinct_queue = b.distinct_queue;
  apart = b.apart;
}

-- From an idle worker no interleaving of enqueues, ticks, finished tasks, stops and starts exceeds
-- a budget: at most `installation` and `global` tasks are in flight, at most `workspace` of any one
-- workspace and at most `workspace_per_run` of any one run; the counters are exact, so that no
-- budget leaks; and no operation is in flight twice, waits twice, or waits while it is in flight.
pub Reach-IsBudgeted : (b : Budgets) {s : Scheduler} → Reach (idle b) s → IsBudgeted s
Reach-IsBudgeted b here = idle-IsBudgeted b
Reach-IsBudgeted b (next r st) = Step-IsBudgeted st (Reach-IsBudgeted b r)
