-- ===== src/Control/Isolation.antt =====
-- packages/control-plane/src/index.ts: which workspace the answer to a query is about.
use autopw.Prelude.{
  String, Bool, true, false, not, ◌&&◌, Option, none, some, [], str_eq, str_eq_iff, is_some,
  truthy?, if◌then◌else◌, length, ◌==◌, keep, lookup, insert, lookup-insert, Result, ok, err,
  Option-cases, Result-cases, Bool-cases, inl, inr, ◌≡◌, ◌≢◌, refl, sym, ap, ◌∙◌, subst, arith,
}
use autopw.Registry.Records.{OperationRecord}
use autopw.Registry.{get}
use autopw.Worker.Lifecycle.{is_gated}
use autopw.Worker.State.{RunState, Worker, put_run}
use autopw.Control.Queries.{
  Thrown, Artifacts, Query, Reply, error, accepted, operation_status, operation_result,
  operation_not_ready, run_not_ready, run_failed, run_status, run_result, explanation, is_completed,
  is_failed, read_artifact_issues, given_or,
}
use autopw.Control.Answers.{
  bound_operation, own_run, forbidden_run, bound_run, operation_result_of, run_status_of,
  run_result_of, explanation_of, answer_for, answer_query, answered, handle_query, in_focus,
}

abbrev pub OwnOperation : Worker → Query → String → Type 0
OwnOperation w q id =
    (o : OperationRecord) × (get w.registry q.operation_id ≡ some o)
    × (o.workspace_id ≡ q.workspace_id)
    × (id ≡ o.operation_id)

abbrev pub OwnRun : Worker → Query → String → Type 0
OwnRun w q id =
    (run : RunState) × (lookup q.run_id w.runs ≡ some run)
    × (run.workspace_id ≡ q.workspace_id)
    × (id ≡ run.run_id)

-- A reply is an error, or it is about an operation or a run of the workspace that asks.
abbrev pub IsBound : Worker → Query → Reply → Type 0
IsBound w q (error code message details) = Unit
IsBound w q (accepted id handle run) = true ≡ false
IsBound w q (operation_status id status) = OwnOperation w q id
IsBound w q (operation_result id ref summary page) = OwnOperation w q id
IsBound w q (operation_not_ready id) = OwnOperation w q id
IsBound w q (run_not_ready id) = OwnRun w q id
IsBound w q (run_failed id class) = OwnRun w q id
IsBound w q (run_status r) = OwnRun w q r.run_id
IsBound w q (run_result r) = OwnRun w q r.run_id
IsBound w q (explanation r) = OwnRun w q r.run_id

operation_result_of-IsBound :
    (w : Worker) (q : Query) (o : OperationRecord)
    → OwnOperation w q o.operation_id
    → IsBound w q (operation_result_of q o)
unfolding operation_result_of
operation_result_of-IsBound w q o h = elim (Bool-cases (is_completed o.status)) [
  | inl done ↦ rw done h
  | inr open_one ↦ rw open_one h
]

explanation_of-IsBound :
    (w : Worker) (q : Query) (run : RunState)
    → OwnRun w q run.run_id
    → IsBound w q (explanation_of q run)
unfolding explanation_of
explanation_of-IsBound w q run h =
    elim (Bool-cases (
      is_some (truthy? q.focus_case_id)
      && length (keep (in_focus q.focus_case_id) (given_or run.cases [])) == 0)) [
        | inl missing ↦ rw missing tt
        | inr found ↦ rw found h
      ]

record AllBound (w : Worker) (q : Query) (r : Result Thrown Reply) : Type 0 where
  shown : (reply : Reply) → r ≡ ok reply → IsBound w q reply

replied : (w : Worker) (q : Query) (reply : Reply) → IsBound w q reply → AllBound w q (ok reply)
replied w q reply h = record { shown = λ r e. subst (IsBound w q) (ground (arith, e)) h }

threw : (w : Worker) (q : Query) (e : Thrown) → AllBound w q (err e)
threw w q e = record { shown = λ r h. ground (arith, h) }

run_status_of-IsBound :
    (a : Artifacts) (w : Worker) (q : Query) (run : RunState)
    → OwnRun w q run.run_id
    → AllBound w q (run_status_of a run)
unfolding run_status_of
run_status_of-IsBound a w q run h = elim (Result-cases (a.read_events run.run_id 5)) [
  | inl (events, e) ↦ rw e (replied w q _ h)
  | inr (thrown, e) ↦ rw e (threw w q thrown)
]

run_result_of-IsBound :
    (a : Artifacts) (w : Worker) (q : Query) (run : RunState)
    → OwnRun w q run.run_id
    → AllBound w q (run_result_of a q run)
unfolding run_result_of
run_result_of-IsBound a w q run h =
    elim (Bool-cases (not (is_gated run.phase) && not (is_failed run.run_status))) [
      | inl e ↦ rw e (replied w q _ h)
      | inr e ↦ elim (Bool-cases (is_failed run.run_status)) [
        | inl f ↦ rw (e, f) (replied w q _ h)
        | inr f ↦ elim (Result-cases (read_artifact_issues a run)) [
          | inl (issues, g) ↦ rw (e, f, g) (replied w q _ h)
          | inr (thrown, g) ↦ rw (e, f, g) (threw w q thrown)
        ]
      ]
    ]

-- The operation that a request may see is one of its workspace; otherwise it gets an error.
bound_operation-AllBound :
    (w : Worker) (q : Query) (f : OperationRecord → Result Thrown Reply)
    → ((o : OperationRecord) → OwnOperation w q o.operation_id → AllBound w q (f o))
    → AllBound w q (answer_for (bound_operation w q) f)
unfolding bound_operation
bound_operation-AllBound w q f h = elim (Option-cases (get w.registry q.operation_id)) [
  | inl e ↦ rw (answer_for, e) (replied w q _ tt)
  | inr (o, e) ↦ elim (Bool-cases (str_eq o.workspace_id q.workspace_id)) [
    | inl own ↦
        rw (answer_for, e, own) (h o (o, e, (str_eq_iff o.workspace_id q.workspace_id).0 own, refl))
    | inr other ↦ rw (answer_for, e, other) (replied w q _ tt)
  ]
]

bound_run-AllBound :
    (w : Worker) (q : Query) (f : RunState → Result Thrown Reply)
    → ((run : RunState) → OwnRun w q run.run_id → AllBound w q (f run))
    → AllBound w q (answer_for (bound_run w q) f)
unfolding bound_run own_run
bound_run-AllBound w q f h = elim (Option-cases (lookup q.run_id w.runs)) [
  | inl e ↦ rw (answer_for, e) (replied w q _ tt)
  | inr (run, e) ↦ elim (Bool-cases (str_eq run.workspace_id q.workspace_id)) [
    | inl own ↦
        rw (answer_for, e, own)
          (h run (run, e, (str_eq_iff run.workspace_id q.workspace_id).0 own, refl))
    | inr other ↦ rw (answer_for, e, other) (replied w q _ tt)
  ]
]

choose :
    (w : Worker) (q : Query) (b : Bool) (x y : Result Thrown Reply)
    → AllBound w q x
    → AllBound w q y
    → AllBound w q (if b then x else y)
choose w q true x y h k = h
choose w q false x y h k = k

answer_query-AllBound :
    (a : Artifacts) (w : Worker) (tool : String) (q : Query)
    → AllBound w q (answer_query a w tool q)
unfolding answer_query
answer_query-AllBound a w tool q =
    choose w q _ _ _ (bound_operation-AllBound w q _ (λ o h. replied w q _ h)) (
      choose w q _ _ _
        (bound_operation-AllBound w q _
          (λ o h. replied w q _ (operation_result_of-IsBound w q o h)))
        (choose w q _ _ _ (bound_run-AllBound w q _ (run_status_of-IsBound a w q)) (
          choose w q _ _ _ (bound_run-AllBound w q _ (run_result_of-IsBound a w q)) (
            choose w q _ _ _
              (bound_run-AllBound w q _ (λ run h. replied w q _ (explanation_of-IsBound w q run h)))
              (replied w q _ tt)))))

answered-IsBound :
    (w : Worker) (q : Query) (r : Result Thrown Reply) → AllBound w q r → IsBound w q (answered r)
answered-IsBound w q (ok reply) h = h.shown reply refl
answered-IsBound w q (err e) h = tt

bound_operation-put_run :
    (w : Worker) (q : Query) (other : RunState)
    → bound_operation (put_run w other) q ≡ bound_operation w q
unfolding bound_operation
bound_operation-put_run w q other = refl

differs : (s t : String) → s ≢ t → str_eq s t ≡ false
differs s t h = ground (arith, str_eq_iff s t, h)

own_run-other :
    (workspace_id : String) (run : RunState)
    → run.workspace_id ≢ workspace_id
    → own_run workspace_id (some run) ≡ forbidden_run
unfolding own_run
own_run-other workspace_id run h = rw (differs run.workspace_id workspace_id h) refl

own_run-foreign :
    (workspace_id : String) (found : Option RunState)
    → ((run : RunState) → found ≡ some run → run.workspace_id ≢ workspace_id)
    → own_run workspace_id found ≡ forbidden_run
unfolding own_run
own_run-foreign workspace_id none h = refl
own_run-foreign workspace_id (some run) h = own_run-other workspace_id run (h run refl)

bound_run-put_run :
    (w : Worker) (q : Query) (other : RunState)
    → other.workspace_id ≢ q.workspace_id
    → ((old : RunState) → lookup other.run_id w.runs ≡ some old → old.workspace_id ≢ q.workspace_id)
    → bound_run (put_run w other) q ≡ bound_run w q
unfolding bound_run own_run
bound_run-put_run w q other foreign old_foreign =
    let now_stored = lookup-insert other.run_id q.run_id other w.runs in
    elim (Bool-cases (str_eq other.run_id q.run_id)) [
      | inr apart ↦ ap (own_run q.workspace_id) (cc (now_stored, apart))
      | inl same ↦
          let at_same = (str_eq_iff other.run_id q.run_id).0 same in
          let stored : lookup q.run_id (insert other.run_id other w.runs) ≡ some other =
            cc (now_stored, same) in
          ap (own_run q.workspace_id) stored
          ∙ own_run-other q.workspace_id other foreign
          ∙ sym (
              own_run-foreign q.workspace_id (lookup q.run_id w.runs)
                (λ r e. old_foreign r (cc (e, at_same))))
    ]

-- Whatever tool is called and whatever ids are asked for, the answer to a query is an error, or it
-- is about the operation or the run that was named, and that one belongs to the workspace that asks.
pub handle_query-IsBound :
    (a : Artifacts) (w : Worker) (tool : String) (q : Query) → IsBound w q (handle_query a w tool q)
unfolding handle_query
handle_query-IsBound a w tool q =
    answered-IsBound w q (answer_query a w tool q) (answer_query-AllBound a w tool q)

-- What another workspace does with its runs, a query does not notice: after any change of a run of
-- another workspace, under an id that was free or its own, every query is answered as before.
pub handle_query-put_run :
    (a : Artifacts) (w : Worker) (tool : String) (q : Query) (other : RunState)
    → other.workspace_id ≢ q.workspace_id
    → ((old : RunState) → lookup other.run_id w.runs ≡ some old → old.workspace_id ≢ q.workspace_id)
    → handle_query a (put_run w other) tool q ≡ handle_query a w tool q
unfolding handle_query answer_query
handle_query-put_run a w tool q other foreign old_foreign =
    rw (bound_run-put_run w q other foreign old_foreign, bound_operation-put_run w q other) refl
