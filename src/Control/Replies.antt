-- ===== src/Control/Replies.antt =====
-- packages/control-plane/src/index.ts: the counts in what the control plane answers,
-- `progressCounts` and `groupedCounts`.
use autopw.Prelude.{
  ℕ, ◌+◌, String, Bool, false, not, Option, none, some, List, [], ◌∷◌, str_eq, truthy?, keep,
  length, includes, Dict, lookup, insert,
}
use autopw.Json.{Json}

-- A case of a run: the members that the answers look at. A tier is the case's `effective_tier`, or
-- its `tier` where that is absent.
pub record CaseView : Type 0 where
  pub case_id : Option String
  pub status : Option String
  pub effective_tier : Option String
  pub tier : Option String
  pub batch_id : Option String
  pub rest : Json

pub record Counts : Type 0 where
  pub planned : ℕ
  pub started : ℕ
  pub terminal : ℕ

abbrev pub terminal_statuses : List String
terminal_statuses = "PASSED" ∷ "FAILED" ∷ "FLAKY" ∷ "BLOCKED" ∷ "INFRA_BLOCKED" ∷ []

abbrev pub is_started : CaseView → Bool
is_started c = elim (truthy? c.status) [ none ↦ false | some s ↦ not (str_eq s "NOT_RUN") ]

-- `terminal.has(String(item.status))`, where an absent status reads `undefined`.
abbrev pub is_terminal : CaseView → Bool
is_terminal c = elim c.status [ none ↦ false | some s ↦ includes terminal_statuses s ]

unfoldable pub progress_counts : List CaseView → Counts
progress_counts items = record {
  planned = length items;
  started = length (keep is_started items);
  terminal = length (keep is_terminal items);
}

abbrev pub first_of : Option String → Option String → Option String
first_of (some a) d = some a
first_of none d = d

-- `keys.map(...).find(...) || "unknown"`
abbrev pub group_key : Option String → String
group_key found = elim (truthy? found) [ none ↦ "unknown" | some k ↦ k ]

abbrev pub by_tier : CaseView → Option String
by_tier c = first_of c.effective_tier c.tier

abbrev pub by_batch : CaseView → Option String
by_batch c = c.batch_id

abbrev pub no_counts : Counts
no_counts = record { planned = 0; started = 0; terminal = 0 }

abbrev pub bucket_of : Option Counts → Counts
bucket_of none = no_counts
bucket_of (some b) = b

unfoldable pub add_counts : Counts → Counts → Counts
add_counts a b = record {
  planned = a.planned + b.planned;
  started = a.started + b.started;
  terminal = a.terminal + b.terminal;
}

unfoldable pub grouped_from : Dict Counts → (CaseView → Option String) → List CaseView → Dict Counts
unfolding progress_counts add_counts
grouped_from result key [] = result
grouped_from result key (item ∷ items) =
    let k = group_key (key item) in
    grouped_from
      (insert k (add_counts (bucket_of (lookup k result)) (progress_counts (item ∷ []))) result) key
      items

-- `groupedCounts`
unfoldable pub grouped_counts : (CaseView → Option String) → List CaseView → Dict Counts
unfolding grouped_from
grouped_counts key items = grouped_from [] key items
