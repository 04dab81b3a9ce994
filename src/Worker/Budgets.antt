-- ===== src/Worker/Budgets.antt =====
-- packages/worker/src/index.ts: the invariant of the scheduler, `enqueue` and `_tick`.
use autopw.Prelude.{
  Distinct, ℕ, ◌+◌, ◌≤◌, String, true, false, ◌||◌, Option, List, [], ◌∷◌, ◌++◌, str_eq, str_eq_iff,
  truthy, if◌then◌else◌, lookup-insert, any, includes, All, All-append, length, ◌≡◌, refl, subst,
  arith, Bool-cases, inl, inr,
}
use autopw.Worker.Scheduler.{
  QueueItem, Task, Scheduler, enqueue, counter, task_of, start_task, is_blocked, is_full, tick,
  tick_slot,
}

abbrev pub running_in : String → List Task → ℕ
running_in w [] = 0
running_in w (t ∷ ts) =
    let rest = running_in w ts in if str_eq t.workspace_id w then rest + 1 else rest

abbrev pub running_for : String → List Task → ℕ
running_for r [] = 0
running_for r (t ∷ ts) = let rest = running_for r ts in if str_eq t.run_id r then rest + 1 else rest

abbrev pub ids : List Task → List String
ids [] = []
ids (t ∷ ts) = t.operation_id ∷ ids ts

abbrev pub queued_ids : List QueueItem → List String
queued_ids [] = []
queued_ids (q ∷ qs) = q.operation_id ∷ queued_ids qs

abbrev pub IsApart : List String → List QueueItem → Type 0
IsApart js = All (λ (q : QueueItem). includes js q.operation_id ≡ false)

pub record IsBudgeted (s : Scheduler) : Type 0 where
  pub tracked : s.running ≡ ids s.in_flight
  pub by_workspace : (w : String) → counter s.running_by_workspace w ≡ running_in w s.in_flight
  pub by_run :
      (r : String) → truthy r ≡ true → counter s.running_by_run r ≡ running_for r s.in_flight
  pub workspace_cap : (w : String) → running_in w s.in_flight ≤ s.budgets.workspace
  pub run_cap :
      (r : String) → truthy r ≡ true → running_for r s.in_flight ≤ s.budgets.workspace_per_run
  pub installation_cap : length s.in_flight ≤ s.budgets.installation
  pub global_cap : length s.in_flight ≤ s.budgets.global
  pub distinct_running : Distinct s.running
  pub distinct_queue : Distinct (queued_ids s.queue)
  pub apart : IsApart s.running s.queue

length-ids : (ts : List Task) → length (ids ts) ≡ length ts
length-ids [] = refl
length-ids (t ∷ ts) = ground (arith, length-ids ts)

Distinct-append :
    (qs : List QueueItem) (item : QueueItem)
    → any (λ q. str_eq q.operation_id item.operation_id) qs ≡ false
    → Distinct (queued_ids qs)
    → Distinct (queued_ids (qs ++ item ∷ []))
Distinct-append [] item h d = (refl, tt)
Distinct-append (q ∷ qs) item h d =
    (not_in qs (ground (arith, h)) d.0, Distinct-append qs item (ground (arith, h)) d.1)
  where
    not_in :
        (ps : List QueueItem)
        → str_eq q.operation_id item.operation_id ≡ false
        → includes (queued_ids ps) q.operation_id ≡ false
        → includes (queued_ids (ps ++ item ∷ [])) q.operation_id ≡ false
    not_in [] e k = ground (arith, e)
    not_in (p ∷ ps) e k = ground (arith, e, k, not_in ps)

-- Enqueueing keeps the budgets.
pub enqueue-IsBudgeted :
    (s : Scheduler) (item : QueueItem) → IsBudgeted s → IsBudgeted (enqueue s item)
unfolding enqueue
enqueue-IsBudgeted s item b =
    elim (Bool-cases (
      s.stopped
      || includes s.running item.operation_id
      || any (λ q. str_eq q.operation_id item.operation_id) s.queue)) [
        | inl e ↦ rw e b
        | inr e ↦ rw e (record {
          tracked = b.tracked;
          by_workspace = b.by_workspace;
          by_run = b.by_run;
          workspace_cap = b.workspace_cap;
          run_cap = b.run_cap;
          installation_cap = b.installation_cap;
          global_cap = b.global_cap;
          distinct_running = b.distinct_running;
          distinct_queue = Distinct-append s.queue item (ground (arith, e)) b.distinct_queue;
          apart = All-append _ s.queue (item ∷ []) b.apart (ground (arith, e), tt);
        })
      ]

IsApart-cons :
    (js : List String) (j : String) (qs : List QueueItem)
    → includes (queued_ids qs) j ≡ false
    → IsApart js qs
    → IsApart (j ∷ js) qs
IsApart-cons js j [] h a = tt
IsApart-cons js j (q ∷ qs) h a = (
  ground (arith, h, a.0, str_eq_iff j q.operation_id, str_eq_iff q.operation_id j),
  IsApart-cons js j qs (ground (arith, h)) a.1,
)

module _ (s : Scheduler) (b : IsBudgeted s) (slot : QueueItem) (rest : List QueueItem)
    (t : Task) where
  start_task-IsBudgeted :
      s.queue ≡ slot ∷ rest
      → t.operation_id ≡ slot.operation_id
      → is_full s ≡ false
      → is_blocked s t ≡ false
      → IsBudgeted (start_task s rest t)
  start_task-IsBudgeted at same room free =
      let waiting : IsApart s.running (slot ∷ rest) = subst (IsApart s.running) at b.apart in
      let queued : Distinct (queued_ids (slot ∷ rest)) =
        subst (λ q. Distinct (queued_ids q)) at b.distinct_queue in
      let new : includes s.running t.operation_id ≡ false = rw same waiting.0 in
      record {
        tracked = ground (arith, b.tracked, new);
        by_workspace = λ w. ground (
          arith,
          b.by_workspace w,
          b.by_workspace t.workspace_id,
          str_eq_iff t.workspace_id w,
          lookup-insert t.workspace_id w (counter s.running_by_workspace t.workspace_id + 1)
              s.running_by_workspace,
        );
        by_run = λ r truth. ground (
          arith,
          b.by_run r,
          b.by_run t.run_id,
          str_eq_iff t.run_id r,
          lookup-insert t.run_id r (counter s.running_by_run t.run_id + 1) s.running_by_run,
        );
        workspace_cap = λ w. ground (
          arith,
          free,
          b.workspace_cap w,
          b.by_workspace t.workspace_id,
          str_eq_iff t.workspace_id w,
        );
        run_cap =
            λ r truth. ground (arith, free, b.run_cap r, b.by_run t.run_id, str_eq_iff t.run_id r);
        installation_cap = ground (arith, room, b.tracked, length-ids s.in_flight);
        global_cap = ground (arith, room, b.tracked, length-ids s.in_flight);
        distinct_running = ground (arith, new, b.distinct_running);
        distinct_queue = queued.1;
        apart = rw (new) (IsApart-cons s.running t.operation_id rest (rw same queued.0) waiting.1);
      }

tick_slot-IsBudgeted :
    (s : Scheduler) (operation_run : String → Option String) (q : List QueueItem)
    → IsBudgeted s
    → s.queue ≡ q
    → is_full s ≡ false
    → IsBudgeted (tick_slot s operation_run q).0
unfolding tick_slot
tick_slot-IsBudgeted s operation_run [] b at room = b
tick_slot-IsBudgeted s operation_run (slot ∷ rest) b at room =
    let t = task_of (operation_run slot.operation_id) slot in
    elim (Bool-cases (is_blocked s t)) [
      | inl e ↦ rw e b
      | inr e ↦ rw e (start_task-IsBudgeted s b slot rest t at refl room e)
    ]

-- A tick keeps the budgets, whatever runs the registry names.
pub tick-IsBudgeted :
    (s : Scheduler) (operation_run : String → Option String)
    → IsBudgeted s
    → IsBudgeted (tick s operation_run).0
unfolding tick
tick-IsBudgeted s operation_run b = elim (Bool-cases (s.stopped || is_full s)) [
  | inl e ↦ rw e b
  | inr e ↦ rw e (tick_slot-IsBudgeted s operation_run s.queue b refl (ground (arith, e)))
]
