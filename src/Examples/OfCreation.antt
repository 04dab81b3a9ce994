-- ===== src/Examples/OfCreation.antt =====
-- A call whose matrix is too large.
use autopw.Prelude.{some, lookup, ok, ap, ◌≡◌, refl, distinct_from}
use autopw.Json.{obj, done}
use autopw.Planner.{nothing_planned}
use autopw.Registry.{find_by_idempotency}
use autopw.Security.{authorize_request, resolve, check_request, policy_of, map_result}
use autopw.Control.Queries.{Reply}
use autopw.Control.Authorize.{authorize}
use autopw.Control.Creation.{Site, Call, Moment, handle, handle_creation, matrix_refusal}
use autopw.Control.Refusals.{is_refusal_or_answer, handle-refused}
use autopw.Examples.OfSecurity.{surroundings, call}
use autopw.Examples.OfControl.{artifacts, about_run, empty_worker}
use autopw.Examples.OfExecution.{queue}

abbrev site : Site
site = record { worker = empty_worker; scheduler = queue }

abbrev audit_call : Call
audit_call = record {
  tool_name = "run_audit";
  request = call;
  query = about_run "";
  client_request_id = "c1";
  run_id = "";
  persisted = λ resolution. obj done;
}

abbrev too_large : Moment
too_large = record {
  now = 200;
  operation_id = "op_1";
  run_id = "run_1";
  artifacts = artifacts;
  preflight = ok (record (nothing_planned 3) { projected_execution_instances = 4 });
  details = λ projection. obj done;
}

is_too_large :
    (handle surroundings too_large audit_call site).1
    ≡ Reply.error "MATRIX_BUDGET_EXCEEDED"
        "projected execution instances exceed effective matrix budget"
        (some (obj done))
unfolding handle handle_creation matrix_refusal find_by_idempotency authorize authorize_request
    resolve check_request policy_of map_result distinct_from lookup
is_too_large = refl

handle-refused_example : (handle surroundings too_large audit_call site).0 ≡ site
handle-refused_example =
    handle-refused surroundings too_large audit_call site (ap is_refusal_or_answer is_too_large)
