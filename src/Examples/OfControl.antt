-- ===== src/Examples/OfControl.antt =====
-- A worker with a run of one workspace and a run of another, and the queries about them.
use autopw.Prelude.{
  ℕ, String, true, none, some, List, [], ◌∷◌, insert, lookup, ok, ◌≡◌, ◌≢◌, refl, ap, str_eq, arith,
}
use autopw.Json.{obj, done}
use autopw.Lease.{default_lease_policy, fresh_lease}
use autopw.Registry.Records.{default_retention}
use autopw.Worker.State.{RunState, Worker, put_run}
use autopw.Worker.Lifecycle.{created_run}
use autopw.Control.Paging.{page_items, follow, follow_all}
use autopw.Control.Replies.{CaseView, by_batch, progress_counts}
use autopw.Control.Counting.{group_of}
use autopw.Control.Queries.{Artifacts, Query, run_not_ready}
use autopw.Control.Answers.{handle_query, answer_query, bound_run, own_run, run_result_of}
use autopw.Control.Isolation.{IsBound, handle_query-IsBound}

abbrev five : List ℕ
five = 1 ∷ 2 ∷ 3 ∷ 4 ∷ 5 ∷ []

second_page : (page_items five (some 2) (some 2)).items ≡ 3 ∷ 4 ∷ []
unfolding page_items
second_page = refl

follow_all_example : follow 6 five (some 2) 1 ≡ five
follow_all_example = follow_all 6 five (some 2) (omega arith)

abbrev a_case : String → String → CaseView
a_case status batch = record {
  case_id = some "c";
  status = some status;
  effective_tier = none;
  tier = none;
  batch_id = some batch;
  rest = obj done;
}

abbrev some_cases : List CaseView
some_cases = a_case "PASSED" "x" ∷ a_case "NOT_RUN" "y" ∷ a_case "RUNNING" "x" ∷ []

two_in_x :
    progress_counts (group_of by_batch "x" some_cases)
    ≡ record { planned = 2; started = 2; terminal = 1 }
unfolding progress_counts
two_in_x = refl

abbrev pub artifacts : Artifacts
artifacts = record {
  authorize_read = λ id ref. ok tt;
  read_json = λ id ref. ok (obj done);
  read_events = λ id limit. ok [];
}

abbrev pub empty_worker : Worker
empty_worker = record {
  registry = record {
    by_id = [];
    index = [];
    files = [];
    tombstones = [];
    index_file = [];
    retention = default_retention;
  };
  runs = [];
  worker_id = "a";
  pid = 7;
  lease_policy = default_lease_policy;
  active_workers = "a" ∷ [];
  crashed_runs = [];
  has_runtime = true;
  stored = [];
  seeds = [];
  notices = [];
}

abbrev run_in : String → String → RunState
run_in workspace_id run_id =
    created_run empty_worker run_id workspace_id "op" (fresh_lease "a" 7 default_lease_policy 0)

abbrev working : Worker
working = put_run empty_worker (run_in "ws" "run_1")

abbrev pub about_run : String → Query
about_run run_id = record {
  workspace_id = "ws";
  operation_id = "";
  run_id = run_id;
  page = none;
  page_size = none;
  focus_case_id = none;
}

own_run_answered :
    handle_query artifacts working "get_run_result" (about_run "run_1") ≡ run_not_ready "run_1"
unfolding handle_query answer_query bound_run own_run run_result_of insert lookup
own_run_answered = refl

handle_query-IsBound_example :
    IsBound working
      (about_run "run_1")
      (handle_query artifacts working "get_run_result" (about_run "run_1"))
handle_query-IsBound_example =
    handle_query-IsBound artifacts working "get_run_result" (about_run "run_1")

other_ne_ws : ◌≢◌ {A = String} "other" "ws"
other_ne_ws h = ground (arith, ap (str_eq "other") h)

run_2_is_new : (old : RunState) → lookup "run_2" working.runs ≡ some old → old.workspace_id ≢ "ws"
unfolding lookup insert
run_2_is_new old h = ground (arith, h)
