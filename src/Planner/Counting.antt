-- ===== src/Planner/Counting.antt =====
-- packages/planner/src/index.ts: how often a batch and an execution stand in a projection.
use autopw.Prelude.{
  ℕ, ◌+◌, ◌*◌, String, Bool, true, false, ◌&&◌, List, [], ◌∷◌, ◌++◌, str_eq, str_eq_iff,
  if◌then◌else◌, length, keep, flat_map, map_list, Bool-cases, inl, inr, ◌≡◌, refl, ◌∙◌, arith,
}
use autopw.Planner.{
  Tier, Viewport, BatchKey, ExecutionBatch, ExecutionInstance, Texts, cartesian, batch_for,
  instances_of,
}

-- How many elements pass a test.
abbrev pub number : {A : Type 0} → (A → Bool) → List A → ℕ
number p xs = length (keep p xs)

module _ {A : Type 0} where
  number-append : (p : A → Bool) (xs ys : List A) → number p (xs ++ ys) ≡ number p xs + number p ys
  number-append p [] ys = omega arith
  number-append p (x ∷ xs) ys = ground (arith, number-append p xs ys)

  -- Tests of what does not depend on the element.
  number-guard :
      (b : Bool) (q : A → Bool) (n : ℕ) (xs : List A)
      → number (λ x. b && q x) xs * n ≡ (if b then number q xs * n else 0)
  number-guard true q n xs = refl
  number-guard false q n [] = omega arith
  number-guard false q n (x ∷ xs) = number-guard false q n xs

  number-guards :
      (a b : Bool) (q : A → Bool) (n : ℕ) (xs : List A)
      → number (λ x. a && (b && q x)) xs * n ≡ (if a && b then number q xs * n else 0)
  number-guards true b q n xs = number-guard b q n xs
  number-guards false b q n [] = omega arith
  number-guards false b q n (x ∷ xs) = number-guards false b q n xs

  number-all_guards :
      (a b c : Bool) (q : A → Bool) (xs : List A)
      → number (λ x. a && (b && (c && q x))) xs ≡ (if a && (b && c) then number q xs else 0)
  number-all_guards a b c q [] = ground arith
  number-all_guards a b c q (x ∷ xs) = ground (arith, number-all_guards a b c q xs)

module _ {A B : Type 0} where
  number-map_list :
      (p : B → Bool) (f : A → B) (xs : List A) → number p (map_list f xs) ≡ number (λ x. p (f x)) xs
  number-map_list p f [] = refl
  number-map_list p f (x ∷ xs) = ground (arith, number-map_list p f xs)

  -- Where each element that passes `q` brings `n`, and no other brings any.
  number-flat_map :
      (p : B → Bool) (f : A → List B) (q : A → Bool) (n : ℕ) (xs : List A)
      → ((x : A) → number p (f x) ≡ (if q x then n else 0))
      → number p (flat_map f xs) ≡ number q xs * n
  number-flat_map p f q n [] h = omega arith
  number-flat_map p f q n (x ∷ xs) h =
      let rest = number-flat_map p f q n xs h in
      let both = number-append p (f x) (flat_map f xs) in
      elim (Bool-cases (q x)) [
        | inl passes ↦
            (let here : number p (f x) ≡ n = ground (arith, h x, passes) in
              rw passes (omega (arith, both, here, rest)))
        | inr fails ↦
            (let here : number p (f x) ≡ 0 = ground (arith, h x, fails) in
              rw fails (omega (arith, both, here, rest)))
      ]

module _ (of_browser : Tier → String → Bool) (of_viewport : Viewport → Bool)
    (of_locale of_scope : String → Bool) where
  -- The combination passes the tests of its parts.
  abbrev pub is_key : BatchKey → Bool
  is_key k =
      of_browser k.tier k.browser
      && (of_viewport k.viewport && (of_locale k.locale && of_scope k.auth_scope_id))

  -- The batch is that of such a combination, under the id of that.
  abbrev pub is_batch : Texts → ExecutionBatch → Bool
  is_batch t b = str_eq b.batch_id (t.batch_id_of b.key) && is_key b.key

  pub number-cartesian :
      (tier : Tier) (browsers : List String) (viewports : List Viewport)
      (locales scopes : List String)
      → number is_key (cartesian tier browsers viewports locales scopes)
        ≡ number (of_browser tier) browsers
          * (number of_viewport viewports * (number of_locale locales * number of_scope scopes))
  unfolding cartesian
  number-cartesian tier browsers viewports locales scopes =
      number-flat_map is_key _ (of_browser tier)
        (number of_viewport viewports * (number of_locale locales * number of_scope scopes))
        browsers
        (λ b.
          number-flat_map is_key _ (λ v. of_browser tier b && of_viewport v)
            (number of_locale locales * number of_scope scopes) viewports
            (λ v.
              number-flat_map is_key _ (λ l. of_browser tier b && (of_viewport v && of_locale l))
                (number of_scope scopes) locales
                (λ l.
                  number-map_list is_key _ scopes
                  ∙ number-all_guards (of_browser tier b) (of_viewport v) (of_locale l) of_scope
                      scopes)
              ∙ number-guards (of_browser tier b) (of_viewport v) of_locale (number of_scope scopes)
                  locales)
          ∙ number-guard (of_browser tier b) of_viewport
              (number of_locale locales * number of_scope scopes) viewports)

  pub number-batches :
      (t : Texts) (ids : List String) (keys : List BatchKey)
      → number (is_batch t) (map_list (batch_for t ids) keys) ≡ number is_key keys
  number-batches t ids [] = refl
  number-batches t ids (k ∷ ks) =
      ground (arith, number-batches t ids ks, str_eq_iff (t.batch_id_of k) (t.batch_id_of k))

-- The execution of this case in this batch, under the id of the two.
abbrev pub is_execution : Texts → String → String → ExecutionInstance → Bool
is_execution t case_id batch_id i =
    str_eq i.case_id case_id
    && (str_eq i.batch_id batch_id && str_eq i.execution_id (t.execution_id_of case_id batch_id))

number-instances_of :
    (t : Texts) (case_id batch_id : String) (k : BatchKey) (ids : List String)
    → number (is_execution t case_id batch_id) (instances_of t ids k)
      ≡ (if str_eq (t.batch_id_of k) batch_id then number (λ c. str_eq c case_id) ids else 0)
number-instances_of t case_id batch_id k [] = ground arith
number-instances_of t case_id batch_id k (c ∷ cs) = ground (
  arith,
  number-instances_of t case_id batch_id k cs,
  str_eq_iff c case_id,
  str_eq_iff (t.batch_id_of k) batch_id,
  str_eq_iff (t.execution_id_of c (t.batch_id_of k)) (t.execution_id_of case_id batch_id),
)

number-batch_ids :
    (t : Texts) (batch_id : String) (ids : List String) (keys : List BatchKey)
    → number (λ b. str_eq b.batch_id batch_id) (map_list (batch_for t ids) keys)
      ≡ number (λ k. str_eq (t.batch_id_of k) batch_id) keys
number-batch_ids t batch_id ids keys =
    number-map_list (λ b. str_eq b.batch_id batch_id) (batch_for t ids) keys

pub number-executions :
    (t : Texts) (case_id batch_id : String) (ids : List String) (keys : List BatchKey)
    → number (is_execution t case_id batch_id) (flat_map (instances_of t ids) keys)
      ≡ number (λ c. str_eq c case_id) ids
        * number (λ b. str_eq b.batch_id batch_id) (map_list (batch_for t ids) keys)
number-executions t case_id batch_id ids keys =
    let each =
      number-flat_map (is_execution t case_id batch_id) (instances_of t ids)
        (λ k. str_eq (t.batch_id_of k) batch_id) (number (λ c. str_eq c case_id) ids) keys
        (λ k. number-instances_of t case_id batch_id k ids) in
    grind (arith, each, number-batch_ids t batch_id ids keys)
