-- ===== src/Worker/Late.antt =====
-- packages/worker/src/index.ts: what an execution may still do to a run that was cancelled or that
-- crashed while it was under way.
use autopw.Prelude.{
  ℕ, String, true, some, List, [], ◌∷◌, ◌++◌, lookup, Result, ok, err, ◌≡◌, refl, ◌∙◌, ap, arith,
}
use autopw.Domain.{RunPhase}
use autopw.Worker.State.{RunState, Worker}
use autopw.Worker.Executing.{
  VerticalResult, Thrown, Event, reports, meanwhile, Errors, is_deaf, on_phase, go_on, play,
  keep_result, try_audit, execute_audit, recover_audit,
}

-- A phase that the runtime reports, with its progress and the next action.
abbrev pub Report : Type 0
Report = RunPhase × ℕ × String

abbrev pub reported : List Report → List Event
reported [] = []
reported ((phase, progress, next_action) ∷ rs) = reports phase progress next_action ∷ reported rs

-- The run is in the map, and the worker does not listen to its execution any more.
pub record IsDeaf (w : Worker) (run_id : String) : Type 0 where
  pub run : RunState
  pub in_memory : lookup run_id w.runs ≡ some run
  pub deaf : is_deaf w run ≡ true

play-reported :
    (x : Errors) (now : ℕ) (run_id : String) (w : Worker) (rs : List Report)
    → IsDeaf w run_id
    → play x now run_id (reported rs) w ≡ (w, ok tt)
unfolding play on_phase
play-reported x now run_id w [] d = refl
play-reported x now run_id w ((phase, progress, next_action) ∷ rs) d =
    ground (arith, d.in_memory, d.deaf, play-reported x now run_id w rs d)

go_on-append :
    (x : Errors) (now : ℕ) (run_id : String) (v : Worker) (before after : List Event)
    (p : Worker × Result Thrown (Unit {0}))
    → go_on (play x now run_id before) p ≡ (v, ok tt)
    → ((u : Worker)
        → play x now run_id before u ≡ (v, ok tt)
        → play x now run_id (before ++ after) u ≡ play x now run_id after v)
    → go_on (play x now run_id (before ++ after)) p ≡ play x now run_id after v
go_on-append x now run_id v before after (u, ok _) h next = next u h
go_on-append x now run_id v before after (u, err e) h next = ground (arith, h)

play-append :
    (x : Errors) (now : ℕ) (run_id : String) (w v : Worker) (before after : List Event)
    → play x now run_id before w ≡ (v, ok tt)
    → play x now run_id (before ++ after) w ≡ play x now run_id after v
unfolding play
play-append x now run_id w v [] after h =
    ap (λ (p : Worker × Result Thrown (Unit {0})). play x now run_id after p.0) h
play-append x now run_id w v (reports phase progress next_action ∷ before) after h =
    go_on-append x now run_id v before after (on_phase x now run_id phase progress next_action w) h
      (λ u k. play-append x now run_id u v before after k)
play-append x now run_id w v (meanwhile act ∷ before) after h =
    play-append x now run_id (act w) v before after h

-- If a run is cancelled or crashes at any point of its execution, then whatever the runtime reports
-- from there on, and whatever result it returns, the worker stays exactly as the cancellation or the
-- crash left it.
pub execute_audit-ignored :
    (x : Errors) (now : ℕ) (run_id : String) (w v : Worker) (before : List Event)
    (act : Worker → Worker) (late : List Report) (result : VerticalResult)
    → play x now run_id before w ≡ (v, ok tt)
    → IsDeaf (act v) run_id
    → execute_audit x now run_id
        (record { events = before ++ (meanwhile act ∷ reported late); outcome = ok result })
        w
      ≡ (act v, ok tt)
unfolding execute_audit try_audit keep_result play
execute_audit-ignored x now run_id w v before act late result h d =
    let kept : Worker → Worker × Result Thrown (Unit {0}) =
      λ u. keep_result x now run_id result u in
    let played =
      play-append x now run_id w v before (meanwhile act ∷ reported late) h
      ∙ play-reported x now run_id (act v) late d in
    ap (λ (p : Worker × Result Thrown (Unit {0})). recover_audit x now run_id (go_on kept p)) played
    ∙ ground (arith, d.in_memory, d.deaf)
