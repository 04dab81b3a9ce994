-- ===== src/Control/Paging.antt =====
-- packages/control-plane/src/index.ts: how a long answer is cut into pages, `pageItems` and
-- `pageMeta`. What a request asks for is a number or is absent.
use native.Mathlib.Nat.{le-div_iff_mul-le}
use autopw.Prelude.{
  ℕ, zero, suc, ◌+◌, ◌-◌, ◌*◌, ◌/◌, ◌≤◌, ◌<◌, min, max, Bool, true, false, Option, none, some, List,
  [], ◌∷◌, ◌++◌, ltb, ◌==◌, if◌then◌else◌, length, take, drop, ◌≡◌, refl, arith, ◌↔◌, sym,
}

-- `Number(asked || d)`, where 0 and an absent number both give `d`.
abbrev pub number_or : Option ℕ → ℕ → ℕ
number_or none d = d
number_or (some n) d = if n == 0 then d else n

pub record PageMeta : Type 0 where
  pub page : ℕ
  pub page_size : ℕ
  pub total_items : ℕ
  pub total_pages : ℕ
  pub has_more : Bool
  -- `none` is `null`.
  pub next_page : Option ℕ

-- `Math.ceil(a / b)` for a positive `b`.
abbrev pub ceil_div : ℕ → ℕ → ℕ
ceil_div a b = (a + (b - 1)) / b

unfoldable pub page_meta : ℕ → ℕ → ℕ → PageMeta
page_meta page page_size total_items =
    let total_pages = if total_items == 0 then 0 else ceil_div total_items page_size in
    record {
      page = page;
      page_size = page_size;
      total_items = total_items;
      total_pages = total_pages;
      has_more = ltb page total_pages;
      next_page = if ltb page total_pages then some (page + 1) else none;
    }

pub record Page {ℓ} (A : Type ℓ) : Type ℓ where
  pub items : List A
  pub pagination : PageMeta

abbrev pub size_of : Option ℕ → ℕ
size_of requested = min 100 (max 1 (number_or requested 20))

module _ {ℓ} {A : Type ℓ} where
  unfoldable pub page_items : List A → Option ℕ → Option ℕ → Page A
  unfolding page_meta
  page_items items requested_page requested_size =
      let page = max 1 (number_or requested_page 1) in
      let page_size = size_of requested_size in
      let offset = (page - 1) * page_size in
      record {
        items = take page_size (drop offset items);
        pagination = page_meta page page_size (length items);
      }

  -- A client that asks for a page and then for each `next_page`, at most `fuel` times.
  unfoldable pub follow : ℕ → List A → Option ℕ → ℕ → List A
  follow zero items requested_size page = []
  follow (suc fuel) items requested_size page =
      let answer = page_items items (some page) requested_size in
      answer.items ++ elim answer.pagination.next_page [
        | none ↦ []
        | some next ↦ follow fuel items requested_size next
      ]

  -- `k` is `m + n`.
  take-drop : (n m k : ℕ) (xs : List A) → k ≡ m + n → take n (drop m xs) ++ drop k xs ≡ drop m xs
  take-drop zero zero zero xs e = refl
  take-drop (suc n) m zero xs e = absurd (omega (arith, e))
  take-drop zero (suc m) zero xs e = absurd (omega (arith, e))
  take-drop zero zero (suc k) xs e = absurd (omega (arith, e))
  take-drop (suc n) zero (suc k) [] e = refl
  take-drop (suc n) zero (suc k) (x ∷ xs) e = cc (take-drop n zero k xs (omega (arith, e)))
  take-drop zero (suc m) (suc k) [] e = refl
  take-drop (suc n) (suc m) (suc k) [] e = refl
  take-drop n (suc m) (suc k) (x ∷ xs) e = take-drop n m k xs (omega (arith, e))

  drop_all : (n : ℕ) (xs : List A) → length xs ≤ n → drop n xs ≡ []
  drop_all zero [] h = refl
  drop_all zero (x ∷ xs) h = absurd (omega (arith, h))
  drop_all (suc n) [] h = refl
  drop_all (suc n) (x ∷ xs) h = drop_all n xs (omega (arith, h))

-- There is a next page exactly where items are left after this one.
has_more_iff :
    (page size total : ℕ)
    → 0 < size
    → (ltb page (if total == 0 then 0 else ceil_div total size) ≡ true) ↔ (page * size < total)
has_more_iff page size total pos =
    ground (arith, le-div_iff_mul-le {k = size} {x = page + 1} {y = total + (size - 1)} pos)

le-mul : (n k : ℕ) → 0 < k → n ≤ n * k
le-mul n k pos = grind arith

first_page : (page : ℕ) → max 1 (number_or (some (page + 1)) 1) ≡ page + 1
first_page page = ground arith

one_less : (page : ℕ) → page + 1 - 1 ≡ page
one_less page = omega arith

no_offset : (size : ℕ) → 0 * size ≡ 0
no_offset size = omega arith

first_of_all : 0 + 1 ≡ 1
first_of_all = omega arith

size_of_positive : (requested : Option ℕ) → 0 < size_of requested
size_of_positive none = ground arith
size_of_positive (some n) = ground arith

module _ {ℓ} {A : Type ℓ} where
  -- One page and what the following ones hold.
  page_and_rest :
      (more : Bool) (size start stop page : ℕ) (items : List A) (others : ℕ → List A)
      → stop ≡ start + size
      → (more ≡ true → others page ≡ drop stop items)
      → (more ≡ false → length items ≤ stop)
      → take size (drop start items)
          ++ elim (if more then some page else none) [ none ↦ [] | some next ↦ others next ]
        ≡ drop start items
  page_and_rest true size start stop page items others e h k =
      rw (h refl) (take-drop size start stop items e)
  page_and_rest false size start stop page items others e h k =
      cc (take-drop size start stop items e, drop_all stop items (k refl))

  follow_rest :
      (fuel : ℕ) (items : List A) (requested_size : Option ℕ) (page : ℕ)
      → length items < page + fuel
      → follow fuel items requested_size (page + 1) ≡ drop (page * size_of requested_size) items
  unfolding follow page_items page_meta
  follow_rest zero items requested_size page enough =
      sym
        (drop_all _ items (omega (arith, enough, le-mul page _ (size_of_positive requested_size))))
  follow_rest (suc fuel) items requested_size page enough =
      let size = size_of requested_size in
      let more = has_more_iff (page + 1) size (length items) (size_of_positive requested_size) in
      rw (first_page page, one_less page)
        (page_and_rest
          (ltb (page + 1) (if length items == 0 then 0 else ceil_div (length items) size)) size
          (page * size) ((page + 1) * size) (page + 1 + 1) items (follow fuel items requested_size)
          (grind arith)
          (λ h. follow_rest fuel items requested_size (page + 1) (omega (arith, enough)))
          (λ h. ground (arith, h, more)))

  -- A client that starts at the first page and asks for every `next_page`, with more requests at
  -- hand than there are items, gets all items, each once and in order, whatever size it asks for.
  pub follow_all :
      (fuel : ℕ) (items : List A) (requested_size : Option ℕ)
      → length items < fuel
      → follow fuel items requested_size 1 ≡ items
  follow_all fuel items requested_size enough =
      let all_of_it = follow_rest fuel items requested_size 0 (omega (arith, enough)) in
      cc (all_of_it, no_offset (size_of requested_size), first_of_all)
