-- ===== src/Planner.antt =====
-- packages/planner/src/index.ts: the projection of a plan's cases onto the execution matrix. Digests
-- and the locale's comparison of texts are arguments.
pub mod Counting
pub mod Projection
use Prim.Native.Nat.{compare, Ordering}
use autopw.Prelude.{
  ℕ, ◌+◌, String, Bool, true, false, Option, none, some, List, [], ◌∷◌, ltb, ◌==◌, str_eq, min,
  or_zero, if◌then◌else◌, length, find?, flat_map, map_list, sort_by, then_by, Dict, lookup, insert,
}

pub data Tier : Type 0 where
  smoke fast full : Tier

pub record Viewport : Type 0 where
  pub width : ℕ
  pub height : ℕ

pub record MatrixProfile : Type 0 where
  pub browsers : Option (List String)
  pub viewports : Option (List Viewport)
  pub locales : Option (List String)
  pub auth_scope_ids : Option (List String)
  pub host_max_execution_instances : Option ℕ
  pub profile_max_execution_instances : Option ℕ

pub record BatchKey : Type 0 where
  pub tier : Tier
  pub browser : String
  pub viewport : Viewport
  pub locale : String
  pub auth_scope_id : String

pub record ExecutionBatch : Type 0 where
  pub key : BatchKey
  pub batch_id : String
  pub case_ids : List String

-- An instance is created with the status `NOT_RUN`.
pub record ExecutionInstance : Type 0 where
  pub execution_id : String
  pub case_id : String
  pub batch_id : String

pub record Dimensions : Type 0 where
  pub browsers : Dict ℕ
  pub viewports : Dict ℕ
  pub locales : Dict ℕ
  pub auth_scopes : Dict ℕ

pub record ExecutionProjection : Type 0 where
  pub projected_execution_instances : ℕ
  pub dimensions : Dimensions
  pub batches : List ExecutionBatch
  pub instances : List ExecutionInstance
  pub effective_budget : ℕ
  pub narrowing_suggestions : List String

-- `localeCompare`; the batch id of a key; the execution id of a case in a batch; and the text of a
-- viewport.
pub record Texts : Type 0 where
  pub locale_compare : String → String → Ordering
  pub batch_id_of : BatchKey → String
  pub execution_id_of : String → String → String
  pub viewport_text : Viewport → String

-- `asked || d`
abbrev pub or_given {ℓ} : {A : Type ℓ} → Option A → A → A
or_given none d = d
or_given (some xs) d = xs

abbrev pub desktop : Viewport
desktop = record { width = 1280; height = 720 }

abbrev pub wide : Viewport
wide = record { width = 1440; height = 900 }

abbrev pub is_full_tier : Tier → Bool
is_full_tier full = true
is_full_tier _ = false

abbrev pub browsers_of : Tier → MatrixProfile → List String
browsers_of tier p =
    or_given p.browsers
      (if is_full_tier tier then "chromium" ∷ "firefox" ∷ "webkit" ∷ [] else "chromium" ∷ [])

abbrev pub viewports_of : Tier → MatrixProfile → List Viewport
viewports_of tier p =
    or_given p.viewports (if is_full_tier tier then desktop ∷ wide ∷ [] else desktop ∷ [])

abbrev pub locales_of : MatrixProfile → List String
locales_of p = or_given p.locales ("en-US" ∷ [])

abbrev pub scopes_of : MatrixProfile → List String
scopes_of p = or_given p.auth_scope_ids ("as_demo" ∷ [])

-- `limit || Number.MAX_SAFE_INTEGER`
abbrev pub or_unlimited : Option ℕ → ℕ
or_unlimited limit = if or_zero limit == 0 then 9007199254740991 else or_zero limit

abbrev pub effective_budget_of : MatrixProfile → ℕ
effective_budget_of p =
    min (or_unlimited p.host_max_execution_instances)
      (or_unlimited p.profile_max_execution_instances)

unfoldable pub cartesian :
    Tier → List String → List Viewport → List String → List String → List BatchKey
cartesian tier browsers viewports locales scopes =
    flat_map
      (λ browser.
        flat_map
          (λ viewport.
            flat_map
              (λ locale.
                map_list
                  (λ scope. record {
                    tier = tier;
                    browser = browser;
                    viewport = viewport;
                    locale = locale;
                    auth_scope_id = scope;
                  })
                  scopes)
              locales)
          viewports)
      browsers

abbrev pub tier_name : Tier → String
tier_name smoke = "smoke"
tier_name fast = "fast"
tier_name full = "full"

unfoldable pub batch_order :
    (String → String → Ordering) → ExecutionBatch → ExecutionBatch → Ordering
batch_order locale_compare a b =
    then_by (locale_compare (tier_name a.key.tier) (tier_name b.key.tier)) (
      then_by (locale_compare a.key.browser b.key.browser) (
        then_by (compare a.key.viewport.width b.key.viewport.width) (
          then_by (compare a.key.viewport.height b.key.viewport.height) (
            then_by (locale_compare a.key.locale b.key.locale)
              (locale_compare a.key.auth_scope_id b.key.auth_scope_id)))))

abbrev pub instance_order :
    (String → String → Ordering) → ExecutionInstance → ExecutionInstance → Ordering
instance_order locale_compare a b =
    then_by (locale_compare a.case_id b.case_id) (locale_compare a.execution_id b.execution_id)

-- `countBy`
unfoldable pub count_from : {A : Type 0} → (A → String) → Dict ℕ → List A → Dict ℕ
count_from key counts [] = counts
count_from key counts (x ∷ xs) =
    count_from key (insert (key x) (or_zero (lookup (key x) counts) + 1) counts) xs

unfoldable pub count_by : {A : Type 0} → (A → String) → List A → Dict ℕ
unfolding count_from
count_by key xs = count_from key [] xs

abbrev pub batch_of : List ExecutionBatch → ExecutionInstance → Option ExecutionBatch
batch_of batches i = find? (λ b. str_eq b.batch_id i.batch_id) batches

abbrev pub of_batch : (BatchKey → String) → Option ExecutionBatch → String
of_batch f none = ""
of_batch f (some b) = f b.key

abbrev pub batch_for : Texts → List String → BatchKey → ExecutionBatch
batch_for t ids key = record { key = key; batch_id = t.batch_id_of key; case_ids = ids }

abbrev pub instances_of : Texts → List String → BatchKey → List ExecutionInstance
instances_of t ids key =
    map_list
      (λ id. record {
        execution_id = t.execution_id_of id (t.batch_id_of key);
        case_id = id;
        batch_id = t.batch_id_of key;
      })
      ids

abbrev pub nothing_planned : ℕ → ExecutionProjection
nothing_planned budget = record {
  projected_execution_instances = 0;
  dimensions = record { browsers = []; viewports = []; locales = []; auth_scopes = [] };
  batches = [];
  instances = [];
  effective_budget = budget;
  narrowing_suggestions = [];
}

abbrev pub suggestions : List String
suggestions =
    "reduce browser or viewport dimensions" ∷ "use fast/smoke explicitly"
    ∷ "increase the approved matrix budget" ∷ []

-- How many instances have each value of one dimension.
unfoldable pub count_dimension :
    (BatchKey → String) → List ExecutionBatch → List ExecutionInstance → Dict ℕ
unfolding count_by
count_dimension f batches instances = count_by (λ i. of_batch f (batch_of batches i)) instances

-- The projection of sorted cases, of which there is one at least.
unfoldable pub project_onto : Texts → List String → List BatchKey → ℕ → ExecutionProjection
unfolding count_dimension batch_order
project_onto t ids keys budget =
    let batches = sort_by (batch_order t.locale_compare) (map_list (batch_for t ids) keys) in
    let instances =
      sort_by (instance_order t.locale_compare) (flat_map (instances_of t ids) keys) in
    record {
      projected_execution_instances = length instances;
      dimensions = record {
        browsers = count_dimension (λ k. k.browser) batches instances;
        viewports = count_dimension (λ k. t.viewport_text k.viewport) batches instances;
        locales = count_dimension (λ k. k.locale) batches instances;
        auth_scopes = count_dimension (λ k. k.auth_scope_id) batches instances;
      };
      batches = batches;
      instances = instances;
      effective_budget = budget;
      narrowing_suggestions = if ltb budget (length instances) then suggestions else [];
    }

-- `planExecutionInstances`, for the case ids of the cases.
unfoldable pub plan_execution_instances :
    Texts → List String → Tier → MatrixProfile → ExecutionProjection
unfolding project_onto cartesian
plan_execution_instances t case_ids tier p =
    let ids = sort_by t.locale_compare case_ids in
    if length ids == 0
    then nothing_planned (effective_budget_of p)
    else project_onto t ids
        (cartesian tier (browsers_of tier p) (viewports_of tier p) (locales_of p) (scopes_of p))
        (effective_budget_of p)
