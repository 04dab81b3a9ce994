-- ===== src/Examples/OfPlanner.antt =====
-- Two cases in two browsers.
use Prim.Native.Nat.{Ordering}
use Prim.Native.String.{◌++◌}
use autopw.Prelude.{String, none, some, List, [], ◌∷◌}
use autopw.Planner.{Texts, MatrixProfile, Tier, plan_execution_instances}
use autopw.Planner.Projection.{IsProjected, plan_execution_instances-IsProjected}

-- Texts that are told apart by the browser only.
abbrev texts : Texts
texts = record {
  locale_compare = λ a b. Ordering.eq;
  batch_id_of = λ k. k.browser;
  execution_id_of = λ c b. c ++ b;
  viewport_text = λ v. "screen";
}

abbrev profile : MatrixProfile
profile = record {
  browsers = some ("chromium" ∷ "firefox" ∷ []);
  viewports = none;
  locales = none;
  auth_scope_ids = none;
  host_max_execution_instances = some 3;
  profile_max_execution_instances = some 0;
}

abbrev ids : List String
ids = "login" ∷ "logout" ∷ []

plan_execution_instances-IsProjected_example :
    IsProjected texts ids Tier.fast profile (plan_execution_instances texts ids Tier.fast profile)
plan_execution_instances-IsProjected_example =
    plan_execution_instances-IsProjected texts ids Tier.fast profile
