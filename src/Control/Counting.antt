-- ===== src/Control/Counting.antt =====
-- packages/control-plane/src/index.ts: the counts of a run's status.
use autopw.Prelude.{
  String, Option, List, [], ◌∷◌, str_eq, str_eq_iff, keep, Dict, lookup, insert, lookup-insert,
  Bool-cases, inl, inr, ◌≡◌, sym, ◌∙◌, arith,
}
use autopw.Control.Replies.{
  CaseView, Counts, no_counts, bucket_of, progress_counts, add_counts, group_key, grouped_from,
  grouped_counts,
}

-- The cases of one group.
abbrev pub group_of : (CaseView → Option String) → String → List CaseView → List CaseView
group_of key k items = keep (λ c. str_eq (group_key (key c)) k) items

progress_counts-cons :
    (c : CaseView) (cs : List CaseView)
    → progress_counts (c ∷ cs) ≡ add_counts (progress_counts (c ∷ [])) (progress_counts cs)
unfolding progress_counts add_counts
progress_counts-cons c cs = ground arith

add_counts_assoc : (a b c : Counts) → add_counts (add_counts a b) c ≡ add_counts a (add_counts b c)
unfolding add_counts
add_counts_assoc a b c = ground arith

add_counts_none : (a : Counts) → add_counts a (progress_counts []) ≡ a
unfolding add_counts progress_counts
add_counts_none a = ground arith

none_add_counts : (a : Counts) → add_counts no_counts a ≡ a
unfolding add_counts
none_add_counts a = ground arith

grouped_from_lem :
    (result : Dict Counts) (key : CaseView → Option String) (items : List CaseView) (k : String)
    → bucket_of (lookup k (grouped_from result key items))
      ≡ add_counts (bucket_of (lookup k result)) (progress_counts (group_of key k items))
unfolding grouped_from
grouped_from_lem result key [] k = sym (add_counts_none (bucket_of (lookup k result)))
grouped_from_lem result key (c ∷ cs) k =
    let g = group_key (key c) in
    let bucket = add_counts (bucket_of (lookup g result)) (progress_counts (c ∷ [])) in
    let rest = grouped_from_lem (insert g bucket result) key cs k in
    elim (Bool-cases (str_eq g k)) [
      | inl same ↦ rw same (
          ground (
            arith,
            rest,
            lookup-insert g k bucket result,
            same,
            str_eq_iff g k,
            add_counts_assoc (bucket_of (lookup k result)) (progress_counts (c ∷ []))
                (progress_counts (group_of key k cs)),
            progress_counts-cons c (group_of key k cs),
          ))
      | inr other ↦ rw other (ground (arith, rest, lookup-insert g k bucket result, other))
    ]

-- A group's counts are the counts of the cases in it, so that the groups of a run are counted by the
-- same measure as the run itself.
pub grouped_counts_lem :
    (key : CaseView → Option String) (items : List CaseView) (k : String)
    → bucket_of (lookup k (grouped_counts key items)) ≡ progress_counts (group_of key k items)
unfolding grouped_counts lookup
grouped_counts_lem key items k =
    grouped_from_lem [] key items k ∙ none_add_counts (progress_counts (group_of key k items))
