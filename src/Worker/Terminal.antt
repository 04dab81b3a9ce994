-- ===== src/Worker/Terminal.antt =====
-- packages/worker/src/index.ts: the loop of `_finalizeCancelled` and its siblings.
use autopw.Prelude.{ℕ, ◌+◌, List, [], ◌∷◌, map, length, ok, ◌≡◌, refl, arith}
use autopw.Domain.{RunPhase, OperationStatus}
use autopw.Registry.Records.{RunSnapshot}
use autopw.Worker.State.{RunState, Worker, ProgressNotification, persisted}
use autopw.Worker.Runs.{Ending, end_in, status_in, finalize}
use autopw.Worker.Persisting.{IsKnown, IsPersisted, persist_run-IsPersisted}

-- The phases that were notified, newest first.
abbrev pub told : Worker → List RunPhase
told w = map (λ (n : ProgressNotification). n.phase) w.notices

-- `older` behind the phases of a list that were gone through in order.
abbrev pub newest_first : List RunPhase → List RunPhase → List RunPhase
newest_first [] older = older
newest_first (p ∷ ps) older = newest_first ps (p ∷ older)

-- The snapshot after the rounds of these phases.
abbrev pub end_all : Ending → List RunPhase → RunSnapshot → RunSnapshot
end_all e [] s = s
end_all e (p ∷ ps) s = end_all e ps (end_in e p s)

abbrev last_status : RunPhase → List RunPhase → OperationStatus
last_status p [] = status_in p
last_status p (q ∷ qs) = last_status q qs

end_in-phase : (e : Ending) (p : RunPhase) (s : RunSnapshot) → (end_in e p s).phase ≡ p
end_in-phase e RunPhase.audited s = refl
end_in-phase e RunPhase.gated s = refl
end_in-phase e _ s = refl

end_in-names :
    (e : Ending) (p : RunPhase) (s : RunSnapshot)
    → ((end_in e p s).run_id ≡ s.run_id) × ((end_in e p s).operation_id ≡ s.operation_id)
end_in-names e RunPhase.audited s = (refl, refl)
end_in-names e RunPhase.gated s = (refl, refl)
end_in-names e _ s = (refl, refl)

-- One round of the loop.
ending_round : Ending → RunPhase → RunState → RunState
ending_round e p run = record run { snapshot = end_in e p run.snapshot }

pub finalize-lem :
    (w : Worker) (now : ℕ) (e : Ending) (p : RunPhase) (ps : List RunPhase) (run : RunState)
    → IsKnown w run
    → (v : Worker) × (next : RunState) × (finalize now e (p ∷ ps) run w ≡ (v, ok next))
      × IsPersisted v next (last_status p ps)
      × (next.snapshot ≡ end_all e (p ∷ ps) run.snapshot)
      × (next.state_version ≡ run.state_version + length (p ∷ ps))
      × (told v ≡ newest_first (p ∷ ps) (told w))
unfolding finalize ending_round
finalize-lem w now e p [] run k =
    let (v, run_ok, kept, notices, _) =
      persist_run-IsPersisted w now (ending_round e p run) (status_in p) (record {
        sound = ground (arith, k.sound, end_in-names e p run.snapshot);
        operation = k.operation;
        listed = ground (arith, k.listed, end_in-names e p run.snapshot);
      }) in
    (
      v,
      persisted w.worker_id now (status_in p) (ending_round e p run),
      ground (arith, run_ok),
      kept,
      refl,
      omega arith,
      ground (arith, notices, end_in-phase e p run.snapshot),
    )
finalize-lem w now e p (q ∷ qs) run k =
    let (v, run_ok, kept, notices, _) =
      persist_run-IsPersisted w now (ending_round e p run) (status_in p) (record {
        sound = ground (arith, k.sound, end_in-names e p run.snapshot);
        operation = k.operation;
        listed = ground (arith, k.listed, end_in-names e p run.snapshot);
      }) in
    let mid = persisted w.worker_id now (status_in p) (ending_round e p run) in
    let (u, next, rest_ok, done, snap, version, heard) = finalize-lem v now e q qs mid kept.known in
    (
      u,
      next,
      ground (arith, run_ok, rest_ok),
      done,
      snap,
      omega (arith, version),
      ground (arith, notices, heard, end_in-phase e p run.snapshot),
    )
