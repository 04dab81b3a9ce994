-- ===== src/Worker/Finished.antt =====
-- packages/worker/src/index.ts: the end of a task and the scheduler's invariant.
use autopw.Prelude.{
  Distinct, ◌+◌, ◌≤◌, String, false, Option, none, some, List, [], ◌∷◌, str_eq, str_eq_iff,
  if◌then◌else◌, lookup-insert, includes, length, ◌≡◌, refl, arith,
}
use autopw.Worker.Scheduler.{QueueItem, Task, Scheduler, decremented, drop_task, drop_id, finish}
use autopw.Worker.Budgets.{running_in, running_for, ids, IsApart, IsBudgeted}

-- The task that is in flight for an operation.
abbrev pub find_task : String → List Task → Option Task
find_task id [] = none
find_task id (t ∷ ts) = if str_eq t.operation_id id then some t else find_task id ts

module _ (t : Task) where
  running_in-drop :
      (w : String) (ts : List Task)
      → find_task t.operation_id ts ≡ some t
      → running_in w ts ≡ running_in w (drop_task t ts) + (if str_eq t.workspace_id w then 1 else 0)
  unfolding drop_task
  running_in-drop w [] h = absurd (ground (arith, h))
  running_in-drop w (u ∷ us) h = ground (arith, h, running_in-drop w us)

  running_for-drop :
      (r : String) (ts : List Task)
      → find_task t.operation_id ts ≡ some t
      → running_for r ts ≡ running_for r (drop_task t ts) + (if str_eq t.run_id r then 1 else 0)
  unfolding drop_task
  running_for-drop r [] h = absurd (ground (arith, h))
  running_for-drop r (u ∷ us) h = ground (arith, h, running_for-drop r us)

  length-drop_task : (ts : List Task) → length (drop_task t ts) ≤ length ts
  unfolding drop_task
  length-drop_task [] = omega arith
  length-drop_task (u ∷ us) = ground (arith, length-drop_task us)

  ids-drop : (ts : List Task) → ids (drop_task t ts) ≡ drop_id t.operation_id (ids ts)
  unfolding drop_task drop_id
  ids-drop [] = refl
  ids-drop (u ∷ us) = ground (arith, ids-drop us)

includes-drop_id :
    (id j : String) (js : List String) → includes js j ≡ false → includes (drop_id id js) j ≡ false
unfolding drop_id
includes-drop_id id j [] h = refl
includes-drop_id id j (k ∷ ks) h = ground (arith, h, includes-drop_id id j ks)

Distinct-drop_id : (id : String) (js : List String) → Distinct js → Distinct (drop_id id js)
unfolding drop_id
Distinct-drop_id id [] d = tt
Distinct-drop_id id (k ∷ ks) d =
    ground (arith, d, Distinct-drop_id id ks d.1, includes-drop_id id k ks d.0)

IsApart-drop_id :
    (id : String) (js : List String) (qs : List QueueItem)
    → IsApart js qs
    → IsApart (drop_id id js) qs
IsApart-drop_id id js [] a = tt
IsApart-drop_id id js (q ∷ qs) a =
    (includes-drop_id id q.operation_id js a.0, IsApart-drop_id id js qs a.1)

-- The end of a task in flight keeps the budgets.
pub finish-IsBudgeted :
    (s : Scheduler) (t : Task)
    → find_task t.operation_id s.in_flight ≡ some t
    → IsBudgeted s
    → IsBudgeted (finish s t)
unfolding finish
finish-IsBudgeted s t h b = record {
  tracked = rw (ids-drop t s.in_flight, b.tracked) refl;
  by_workspace = λ w. ground (
    arith,
    b.by_workspace w,
    b.by_workspace t.workspace_id,
    str_eq_iff t.workspace_id w,
    running_in-drop t w s.in_flight h,
    lookup-insert t.workspace_id w (decremented s.running_by_workspace t.workspace_id)
        s.running_by_workspace,
  );
  by_run = λ r truth. ground (
    arith,
    b.by_run r,
    b.by_run t.run_id,
    str_eq_iff t.run_id r,
    running_for-drop t r s.in_flight h,
    lookup-insert t.run_id r (decremented s.running_by_run t.run_id) s.running_by_run,
  );
  workspace_cap = λ w. omega (arith, b.workspace_cap w, running_in-drop t w s.in_flight h);
  run_cap = λ r truth. omega (arith, b.run_cap r truth, running_for-drop t r s.in_flight h);
  installation_cap = omega (arith, b.installation_cap, length-drop_task t s.in_flight);
  global_cap = omega (arith, b.global_cap, length-drop_task t s.in_flight);
  distinct_running = Distinct-drop_id t.operation_id s.running b.distinct_running;
  distinct_queue = b.distinct_queue;
  apart = IsApart-drop_id t.operation_id s.running s.queue b.apart;
}
