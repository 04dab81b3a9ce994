-- ===== src/Planner/Projection.antt =====
-- packages/planner/src/index.ts: how many executions a plan is projected to, and how they are
-- counted.
use autopw.Prelude.{
  ℕ, ◌+◌, ◌*◌, String, List, [], ◌∷◌, ltb, ◌==◌, or_zero, if◌then◌else◌, length, flat_map, map_list,
  length-flat_map, length-map_list, sort_by, length-sort_by, length-keep-sort_by, str_eq, Bool,
  true, false, Dict, lookup, insert, values, Bool-cases, inl, inr, ◌≡◌, refl, ◌∙◌, arith,
}
use autopw.Planner.Counting.{
  number, is_batch, is_execution, number-cartesian, number-batches, number-executions,
}
use autopw.Planner.{
  Tier, Viewport, MatrixProfile, BatchKey, ExecutionProjection, Texts, browsers_of, viewports_of,
  locales_of, scopes_of, effective_budget_of, ExecutionBatch, ExecutionInstance, count_dimension,
  of_batch, batch_of, batch_for, batch_order, cartesian, instances_of, instance_order, count_from,
  count_by, project_onto, plan_execution_instances, suggestions,
}

-- The number of combinations whose parts pass these tests.
abbrev pub combinations :
    (Tier → String → Bool)
    → (Viewport → Bool)
    → (String → Bool)
    → (String → Bool)
    → Tier
    → MatrixProfile
    → ℕ
combinations of_browser of_viewport of_locale of_scope tier p =
    number (of_browser tier) (browsers_of tier p)
    * (number of_viewport (viewports_of tier p)
        * (number of_locale (locales_of p) * number of_scope (scopes_of p)))

-- What a projection holds for these cases: the batches for the combinations, in each of them an
-- execution for each case, and the flag.
pub record IsProjected (t : Texts) (case_ids : List String) (tier : Tier) (p : MatrixProfile)
    (r : ExecutionProjection) : Type 0 where
  pub batches :
      (of_browser : Tier → String → Bool) (of_viewport : Viewport → Bool)
      (of_locale of_scope : String → Bool)
      → number (is_batch of_browser of_viewport of_locale of_scope t) r.batches ≡ (
          if length case_ids == 0
          then 0
          else combinations of_browser of_viewport of_locale of_scope tier p)
  pub instances :
      (case_id batch_id : String)
      → number (is_execution t case_id batch_id) r.instances
        ≡ number (λ c. str_eq c case_id) case_ids
          * number (λ b. str_eq b.batch_id batch_id) r.batches
  pub no_more : length r.instances ≡ length r.batches * length case_ids
  pub counted : r.projected_execution_instances ≡ length r.instances
  pub flagged :
      r.narrowing_suggestions
      ≡ (if ltb (effective_budget_of p) (length r.instances) then suggestions else [])

project_onto-IsProjected :
    (t : Texts) (case_ids : List String) (tier : Tier) (p : MatrixProfile)
    → (length case_ids == 0) ≡ false
    → IsProjected t case_ids tier p (
        project_onto t
          (sort_by t.locale_compare case_ids)
          (cartesian tier (browsers_of tier p) (viewports_of tier p) (locales_of p) (scopes_of p))
          (effective_budget_of p))
unfolding project_onto
project_onto-IsProjected t case_ids tier p some_case =
    let ids = sort_by t.locale_compare case_ids in
    let keys =
      cartesian tier (browsers_of tier p) (viewports_of tier p) (locales_of p) (scopes_of p) in
    let in_order = batch_order t.locale_compare in
    let made = map_list (batch_for t ids) keys in
    let run_in = instance_order t.locale_compare in
    let executions = flat_map (instances_of t ids) keys in
    record {
      batches = λ of_browser of_viewport of_locale of_scope. rw some_case (
          length-keep-sort_by in_order (is_batch of_browser of_viewport of_locale of_scope t) made
          ∙ (number-batches of_browser of_viewport of_locale of_scope t ids keys
              ∙ number-cartesian of_browser of_viewport of_locale of_scope tier (browsers_of tier p)
                  (viewports_of tier p) (locales_of p) (scopes_of p)));
      instances = λ case_id batch_id.
          rw
            (
              length-keep-sort_by run_in (is_execution t case_id batch_id) executions,
              length-keep-sort_by in_order (λ b. str_eq b.batch_id batch_id) made,
              ← length-keep-sort_by t.locale_compare (λ c. str_eq c case_id) case_ids,
            )
            (number-executions t case_id batch_id ids keys);
      no_more =
          rw
            (
              length-sort_by in_order made,
              length-map_list (batch_for t ids) keys,
              ← length-sort_by t.locale_compare case_ids,
            )
            (length-sort_by run_in executions
              ∙ length-flat_map (instances_of t ids) (length ids) keys
                  (λ k. length-map_list _ ids));
      counted = refl;
      flagged = refl;
    }

nothing-IsProjected :
    (t : Texts) (tier : Tier) (p : MatrixProfile)
    → IsProjected t [] tier p (plan_execution_instances t [] tier p)
unfolding plan_execution_instances sort_by
nothing-IsProjected t tier p = record {
  batches = λ of_browser of_viewport of_locale of_scope. refl;
  instances = λ case_id batch_id. refl;
  no_more = refl;
  counted = refl;
  flagged = ground arith;
}

no_cases : (xs : List String) → (length xs == 0) ≡ true → xs ≡ []
no_cases [] h = refl
no_cases (x ∷ xs) h = ground (arith, h)

-- One batch is projected for each combination of browser, viewport, locale and scope, as often as
-- its parts are listed, if there is a case at all. One execution is projected for each case in each
-- batch, as often as the case is listed and the batch's id occurs, under the id of the two, and
-- there are no others. They are counted, and the projection is flagged exactly if there are more of
-- them than the budget.
pub plan_execution_instances-IsProjected :
    (t : Texts) (case_ids : List String) (tier : Tier) (p : MatrixProfile)
    → IsProjected t case_ids tier p (plan_execution_instances t case_ids tier p)
unfolding plan_execution_instances
plan_execution_instances-IsProjected t case_ids tier p =
    let sorted = length-sort_by t.locale_compare case_ids in
    elim (Bool-cases (length case_ids == 0)) [
      | inl empty ↦ rw (no_cases case_ids empty) (nothing-IsProjected t tier p)
      | inr some_case ↦
          rw (sorted, some_case) (project_onto-IsProjected t case_ids tier p some_case)
    ]

abbrev pub sum : List ℕ → ℕ
sum [] = 0
sum (n ∷ ns) = n + sum ns

sum-insert :
    (k : String) (n : ℕ) (m : Dict ℕ)
    → sum (values (insert k n m)) + or_zero (lookup k m) ≡ sum (values m) + n
unfolding insert lookup
sum-insert k n [] = ground arith
sum-insert k n ((j, v) ∷ m) = ground (arith, sum-insert k n m)

count_from-sum :
    {A : Type 0} (key : A → String) (counts : Dict ℕ) (xs : List A)
    → sum (values (count_from key counts xs)) ≡ sum (values counts) + length xs
unfolding count_from
count_from-sum key counts [] = omega arith
count_from-sum key counts (x ∷ xs) = omega (
  arith,
  sum-insert (key x) (or_zero (lookup (key x) counts) + 1) counts,
  count_from-sum key (insert (key x) (or_zero (lookup (key x) counts) + 1) counts) xs,
)

count_dimension-sum :
    (f : BatchKey → String) (batches : List ExecutionBatch) (instances : List ExecutionInstance)
    → sum (values (count_dimension f batches instances)) ≡ length instances
unfolding count_dimension count_by
count_dimension-sum f batches instances =
    omega (arith, count_from-sum (λ i. of_batch f (batch_of batches i)) [] instances)

abbrev Counted : ExecutionProjection → Type 0
Counted r =
    (sum (values r.dimensions.browsers) ≡ length r.instances)
    × (sum (values r.dimensions.viewports) ≡ length r.instances)
    × (sum (values r.dimensions.locales) ≡ length r.instances)
    × (sum (values r.dimensions.auth_scopes) ≡ length r.instances)

project_onto-Counted :
    (t : Texts) (ids : List String) (keys : List BatchKey) (budget : ℕ)
    → Counted (project_onto t ids keys budget)
unfolding project_onto
project_onto-Counted t ids keys budget =
    let batches = sort_by (batch_order t.locale_compare) (map_list (batch_for t ids) keys) in
    let instances =
      sort_by (instance_order t.locale_compare) (flat_map (instances_of t ids) keys) in
    (
      count_dimension-sum (λ k. k.browser) batches instances,
      count_dimension-sum (λ k. t.viewport_text k.viewport) batches instances,
      count_dimension-sum (λ k. k.locale) batches instances,
      count_dimension-sum (λ k. k.auth_scope_id) batches instances,
    )

-- Each dimension of a projection counts every execution once.
pub dimensions-sum :
    (t : Texts) (case_ids : List String) (tier : Tier) (p : MatrixProfile)
    → let r = plan_execution_instances t case_ids tier p in
      (sum (values r.dimensions.browsers) ≡ length r.instances)
      × (sum (values r.dimensions.viewports) ≡ length r.instances)
      × (sum (values r.dimensions.locales) ≡ length r.instances)
      × (sum (values r.dimensions.auth_scopes) ≡ length r.instances)
unfolding plan_execution_instances
dimensions-sum t case_ids tier p =
    let ids = sort_by t.locale_compare case_ids in
    elim (Bool-cases (length ids == 0)) [
      | inl empty ↦ rw empty (refl, refl, refl, refl)
      | inr some_case ↦ rw some_case (
          project_onto-Counted t ids
            (cartesian tier (browsers_of tier p) (viewports_of tier p) (locales_of p) (scopes_of p))
            (effective_budget_of p))
    ]
