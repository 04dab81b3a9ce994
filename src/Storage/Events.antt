-- ===== src/Storage/Events.antt =====
-- packages/run-storage/src/index.ts: `appendEvent` and `readEvents`. The lines of `events.jsonl` are
-- the events that they hold; there is no list where the file does not exist.
use autopw.Prelude.{
  ℕ, suc, ◌+◌, ◌-◌, max, String, Option, none, some, List, [], ◌∷◌, ◌++◌, length, drop,
  length-append, truthy?, ◌≡◌, refl, ap, ◌∙◌, sym, arith,
}
use autopw.Json.{Json}

-- The time of an event is a text.
pub record RunEvent : Type 0 where
  pub seq : ℕ
  pub kind : String
  pub phase : Option String
  pub at : String
  pub detail : Json

-- An event that is not numbered yet.
pub record NewEvent : Type 0 where
  pub kind : String
  pub phase : Option String
  pub at : Option String
  pub detail : Json

abbrev pub lines_of : Option (List RunEvent) → List RunEvent
lines_of none = []
lines_of (some lines) = lines

-- `event.at || new Date().toISOString()`
abbrev pub time_of : String → NewEvent → String
time_of now e = elim (truthy? e.at) [ none ↦ now | some t ↦ t ]

abbrev pub numbered : ℕ → String → NewEvent → RunEvent
numbered seq now e = record {
  seq = seq;
  kind = e.kind;
  phase = e.phase;
  at = time_of now e;
  detail = e.detail;
}

-- `appendEvent`: the file after it, and the event.
unfoldable pub append_event :
    String → NewEvent → Option (List RunEvent) → Option (List RunEvent) × RunEvent
append_event now e file =
    let next = numbered (length (lines_of file) + 1) now e in
    (some (lines_of file ++ (next ∷ [])), next)

-- `readEvents`: the last `limit` events, and one at least.
unfoldable pub read_events : ℕ → Option (List RunEvent) → List RunEvent
read_events limit none = []
read_events limit (some lines) = drop (length lines - max 1 limit) lines

-- One call of `appendEvent` for each event, at its time.
unfoldable pub append_events :
    List (String × NewEvent) → Option (List RunEvent) → Option (List RunEvent)
unfolding append_event
append_events [] file = file
append_events ((now, e) ∷ es) file = append_events es (append_event now e file).0

-- The events with the numbers from `seq` on.
abbrev pub numbered_from : ℕ → List (String × NewEvent) → List RunEvent
numbered_from seq [] = []
numbered_from seq ((now, e) ∷ es) = numbered seq now e ∷ numbered_from (seq + 1) es

append_assoc : (xs ys zs : List RunEvent) → (xs ++ ys) ++ zs ≡ xs ++ (ys ++ zs)
append_assoc [] ys zs = refl
append_assoc (x ∷ xs) ys zs = ap (λ r. x ∷ r) (append_assoc xs ys zs)

append_nil : (xs : List RunEvent) → xs ++ [] ≡ xs
append_nil [] = refl
append_nil (x ∷ xs) = ap (λ r. x ∷ r) (append_nil xs)

length-numbered_from :
    (seq : ℕ) (es : List (String × NewEvent)) → length (numbered_from seq es) ≡ length es
length-numbered_from seq [] = refl
length-numbered_from seq (e ∷ es) = omega (arith, length-numbered_from (seq + 1) es)

append_events-some :
    (es : List (String × NewEvent)) (lines : List RunEvent)
    → append_events es (some lines) ≡ some (lines ++ numbered_from (length lines + 1) es)
unfolding append_events append_event
append_events-some [] lines = ap some (sym (append_nil lines))
append_events-some ((now, e) ∷ es) lines =
    let next = numbered (length lines + 1) now e in
    let longer : length (lines ++ (next ∷ [])) ≡ length lines + 1 =
      length-append lines (next ∷ []) in
    append_events-some es (lines ++ (next ∷ []))
    ∙ ap (λ n. some ((lines ++ (next ∷ [])) ++ numbered_from (n + 1) es)) longer
    ∙ ap some (append_assoc lines (next ∷ []) (numbered_from (length lines + 1 + 1) es))

-- Events that are appended to an absent log are numbered from 1 in their order, and a reader gets the
-- last of them, as many as it asks for and at least one.
pub read_events-append_events :
    (e : String × NewEvent) (es : List (String × NewEvent)) (limit : ℕ)
    → read_events limit (append_events (e ∷ es) none)
      ≡ drop (length (e ∷ es) - max 1 limit) (numbered_from 1 (e ∷ es))
unfolding read_events append_events append_event
read_events-append_events (now, e) es limit =
    let first = numbered 1 now e in
    ap (read_events limit) (append_events-some es (first ∷ []))
    ∙ ap (λ n. drop (suc n - max 1 limit) (first ∷ numbered_from 2 es)) (length-numbered_from 2 es)
