-- ===== src/Control/Answers.antt =====
-- packages/control-plane/src/index.ts: the branches of `_handleQuery`, one for each tool.
use Prim.Native.String.{◌++◌}
use autopw.Prelude.{
  String, Bool, true, not, ◌&&◌, Option, none, some, [], str_eq, truthy?, is_some, opt_str_eq,
  if◌then◌else◌, keep, length, ◌==◌, lookup, Result, ok, err, ◌>>=◌,
}
use autopw.Domain.{FatalFailureClass}
use autopw.Json.{member, number_of, text_of, Json}
use autopw.Registry.Records.{OperationRecord}
use autopw.Registry.{get}
use autopw.Worker.Lifecycle.{is_gated}
use autopw.Worker.State.{RunState, Worker}
use autopw.Control.Paging.{number_or, page_meta, page_items}
use autopw.Control.Replies.{progress_counts, grouped_counts, by_tier, by_batch}
use autopw.Control.Queries.{
  Thrown, Artifacts, Query, Reply, operation_status, operation_result, operation_not_ready,
  run_not_ready, run_failed, run_status, run_result, explanation, refuse, views, given_or, no_json,
  preview_ref, snapshot_of, is_completed, is_failed, is_interrupted, is_terminal_run,
  read_artifact_issues, has_expired,
}

-- The operation that a request may see, or the refusal.
unfoldable pub bound_operation : Worker → Query → Result Reply OperationRecord
bound_operation w q = elim (get w.registry q.operation_id) [
  | none ↦ err (refuse "OPERATION_NOT_FOUND" "operation id unknown or expired")
  | some o ↦
      if str_eq o.workspace_id q.workspace_id
      then ok o
      else err (refuse "OPERATION_FORBIDDEN" "operation not bound to this workspace")
]

abbrev pub forbidden_run : Result Reply RunState
forbidden_run = err (refuse "RUN_FORBIDDEN" "handle not bound to this workspace")

unfoldable pub own_run : String → Option RunState → Result Reply RunState
own_run workspace_id none = forbidden_run
own_run workspace_id (some run) =
    if str_eq run.workspace_id workspace_id then ok run else forbidden_run

-- The run that a request may see, or the refusal.
unfoldable pub bound_run : Worker → Query → Result Reply RunState
unfolding own_run
bound_run w q = own_run q.workspace_id (lookup q.run_id w.runs)

unfoldable pub operation_status_of : OperationRecord → Reply
operation_status_of o = operation_status o.operation_id o.status

unfoldable pub operation_result_of : Query → OperationRecord → Reply
operation_result_of q o =
    let summary = given_or o.result_summary no_json in
    if is_completed o.status
    then operation_result o.operation_id (given_or o.result_ref preview_ref) summary (
        page_meta (number_or q.page 1) (number_or q.page_size 20)
          (given_or (number_of (member "skeleton_count" summary)) 0))
    else operation_not_ready o.operation_id

unfoldable pub run_status_of : Artifacts → RunState → Result Thrown Reply
run_status_of a run = do
  let cases = views (given_or run.cases [])
  events ← a.read_events run.run_id 5
  ok (
      run_status (record {
        run_id = run.run_id;
        phase = run.phase;
        run_status = run.run_status;
        progress_pct = run.progress_pct;
        counts = progress_counts cases;
        by_tier = grouped_counts by_tier cases;
        by_batch = grouped_counts by_batch cases;
        next_action = run.next_action;
        poll_after_ms = if is_terminal_run run then 0 else 2000;
        stale = is_interrupted run.run_status;
        interrupted = is_interrupted run.run_status;
        recent_events = events;
        audit_status = run.audit_status;
        gate = run.gate;
      }))

unfoldable pub run_result_of : Artifacts → Query → RunState → Result Thrown Reply
run_result_of a q run =
    if not (is_gated run.phase) && not (is_failed run.run_status)
    then ok (run_not_ready run.run_id)
    else if is_failed run.run_status
    then ok (run_failed run.run_id (given_or run.fatal_class FatalFailureClass.state_corrupted))
    else (do
      issues ← read_artifact_issues a run
      let page = page_items issues q.page q.page_size
      ok (
          run_result (record {
            run_id = run.run_id;
            gate = run.gate;
            audit_status = run.audit_status;
            results_ref = given_or run.results_ref (snapshot_of "art_results" "results.json");
            report_ref = given_or run.report_ref (snapshot_of "art_report" "report.md");
            gate_summary = given_or run.gate_summary no_json;
            issues = page.items;
            pagination = page.pagination;
          })))

-- The case that a request is about, or every case.
abbrev pub in_focus : Option String → Json → Bool
in_focus focus item = elim (truthy? focus) [
  | none ↦ true
  | some id ↦ opt_str_eq (text_of (member "case_id" item)) (some id)
]

unfoldable pub explanation_of : Query → RunState → Reply
explanation_of q run =
    let cases = keep (in_focus q.focus_case_id) (given_or run.cases []) in
    if is_some (truthy? q.focus_case_id) && length cases == 0
    then refuse "CASE_NOT_FOUND" "focus_case_id is not present in this run"
    else (let page = page_items cases q.page q.page_size in
        explanation (record {
          run_id = run.run_id;
          cases = page.items;
          evidence_refs = given_or run.evidence_refs [];
          pagination = page.pagination;
          gate_summary = given_or run.gate_summary no_json;
          gate = run.gate;
          audit_status = run.audit_status;
        }))

-- A refusal is an answer.
abbrev pub answer_for :
    {A : Type 0} → Result Reply A → (A → Result Thrown Reply) → Result Thrown Reply
answer_for (err refusal) f = ok refusal
answer_for (ok a) f = f a

-- The body of `_handleQuery`.
unfoldable pub answer_query : Artifacts → Worker → String → Query → Result Thrown Reply
unfolding bound_operation bound_run operation_status_of operation_result_of run_status_of
    run_result_of explanation_of
answer_query a w tool q =
    if str_eq tool "get_operation_status"
    then answer_for (bound_operation w q) (λ o. ok (operation_status_of o))
    else if str_eq tool "get_operation_result"
    then answer_for (bound_operation w q) (λ o. ok (operation_result_of q o))
    else if str_eq tool "get_run_status"
    then answer_for (bound_run w q) (run_status_of a)
    else if str_eq tool "get_run_result"
    then answer_for (bound_run w q) (run_result_of a q)
    else if str_eq tool "explain_run"
    then answer_for (bound_run w q) (λ run. ok (explanation_of q run))
    else ok (refuse "TOOL_NOT_HANDLED" ("query tool " ++ tool ++ " not handled"))

-- The `catch` of `_handleQuery`.
abbrev pub answered : Result Thrown Reply → Reply
answered (ok reply) = reply
answered (err e) = refuse (if has_expired e then "RESULT_EXPIRED" else "QUERY_FAILED") e.message

-- `_handleQuery`
unfoldable pub handle_query : Artifacts → Worker → String → Query → Reply
unfolding answer_query
handle_query a w tool q = answered (answer_query a w tool q)
