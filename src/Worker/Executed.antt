-- ===== src/Worker/Executed.antt =====
-- packages/worker/src/index.ts: an execution that nothing disturbs.
use autopw.Prelude.{
  ℕ, String, false, none, some, List, [], ◌∷◌, lookup, Result, ok, ◌≡◌, refl, ◌∙◌, ap, subst, arith,
}
use autopw.Domain.{RunPhase, RunStatus, OperationStatus}
use autopw.Worker.State.{RunState, Worker, persisted}
use autopw.Worker.Executing.{
  VerticalResult, Thrown, Errors, on_phase, go_on, play, keep_result, try_audit, execute_audit,
  recover_audit, audited_run, status_of_phase,
}
use autopw.Worker.Persisting.{IsKnown, IsPersisted, persist_run-IsPersisted}
use autopw.Worker.Late.{Report, reported}

-- The run is known, and the worker listens to its execution.
pub record IsLive (w : Worker) (run : RunState) : Type 0 where
  pub known : IsKnown w run
  pub in_memory : lookup run.run_id w.runs ≡ some run
  pub heard : run.cancel_requested ≡ false

-- The run with the members that a report sets.
abbrev told_run : Report → RunState → RunState
told_run (phase, progress, next_action) run = record run {
  snapshot = record (run.snapshot) {
    phase = phase;
    progress_pct = progress;
    next_action = next_action;
  };
}

on_phase-IsLive :
    (x : Errors) (now : ℕ) (w : Worker) (run : RunState) (r : Report)
    → IsLive w run
    → (v : Worker) × (next : RunState) × (on_phase x now run.run_id r.0 r.1 r.2 w ≡ (v, ok tt))
      × IsLive v next
      × (next.run_id ≡ run.run_id)
unfolding on_phase
on_phase-IsLive x now w run r live =
    let told = told_run r run in
    let status = status_of_phase r.0 in
    let (v, stored, kept, _, _) = persist_run-IsPersisted w now told status (record {
      sound = live.known.sound;
      operation = live.known.operation;
      listed = live.known.listed;
    }) in
    (
      v,
      persisted w.worker_id now status told,
      ground (arith, live.in_memory, live.heard, live.known.sound, stored),
      record { known = kept.known; in_memory = kept.in_memory; heard = live.heard },
      refl,
    )

play-IsLive :
    (x : Errors) (now : ℕ) (run_id : String) (w : Worker) (run : RunState) (rs : List Report)
    → run.run_id ≡ run_id
    → IsLive w run
    → (v : Worker) × (next : RunState) × (play x now run_id (reported rs) w ≡ (v, ok tt))
      × IsLive v next
      × (next.run_id ≡ run_id)
unfolding play
play-IsLive x now run_id w run [] same live = (w, run, refl, live, same)
play-IsLive x now run_id w run (r ∷ rs) same live =
    let (u, told, first, live', same') = on_phase-IsLive x now w run r live in
    let (v, next, rest, live'', same'') = play-IsLive x now run_id u told rs (same' ∙ same) live' in
    (
      v,
      next,
      ap (λ (p : Worker × Result Thrown (Unit {0})). go_on (play x now run_id (reported rs)) p)
            (subst (λ id. on_phase x now id r.0 r.1 r.2 w ≡ (u, ok tt)) same first)
          ∙ rest,
      live'',
      same'',
    )

-- The run is over with the verdict of the result, nobody holds its lease, and memory, file and
-- registry agree on that.
pub record IsAudited (v : Worker) (run : RunState) (result : VerticalResult) : Type 0 where
  pub persisted_run : IsPersisted v run OperationStatus.completed
  pub gated : run.phase ≡ RunPhase.gated
  pub closed : run.run_status ≡ RunStatus.completed
  pub judged : run.gate ≡ some result.gate
  pub audited : run.audit_status ≡ some result.audit_status
  pub reported_at : run.report_ref ≡ some result.report_ref
  pub free : run.lease.owner ≡ none

-- If a known run is neither cancelled nor crashes, then whatever phases its execution reports before it
-- returns a result, the audit ends: the run is over with the gate and the audit status of that
-- result, in memory, in the file and in the registry, and its lease is released.
pub execute_audit-IsAudited :
    (x : Errors) (now : ℕ) (w : Worker) (run : RunState) (rs : List Report)
    (result : VerticalResult)
    → IsLive w run
    → (v : Worker) × (next : RunState) × (execute_audit x now run.run_id
          (record { events = reported rs; outcome = ok result })
          w
        ≡ (v, ok tt))
      × IsAudited v next result
      × (next.run_id ≡ run.run_id)
unfolding execute_audit try_audit keep_result
execute_audit-IsAudited x now w run rs result live =
    let (u, told, played, live', same) = play-IsLive x now run.run_id w run rs refl live in
    let last = audited_run result told in
    let (v, stored, kept, _, _) =
      persist_run-IsPersisted u now last OperationStatus.completed (record {
        sound = live'.known.sound;
        operation = live'.known.operation;
        listed = live'.known.listed;
      }) in
    let found : lookup run.run_id u.runs ≡ some told =
      subst (λ id. lookup id u.runs ≡ some told) same live'.in_memory in
    let kept_result : Worker → Worker × Result Thrown (Unit {0}) =
      λ p. keep_result x now run.run_id result p in
    (
      v,
      persisted u.worker_id now OperationStatus.completed last,
      ap
            (λ (p : Worker × Result Thrown (Unit {0})).
              recover_audit x now run.run_id (go_on kept_result p))
            played
          ∙ ground (arith, found, live'.heard, live'.known.sound, stored),
      record {
        persisted_run = kept;
        gated = refl;
        closed = refl;
        judged = refl;
        audited = refl;
        reported_at = refl;
        free = kept.released refl;
      },
      same,
    )
