-- ===== src/Worker/Restarts.antt =====
-- packages/worker/src/index.ts: what a worker knows after `_resyncFromRegistry` and `start`.
use autopw.Prelude.{
  ℕ, String, Bool, true, not, ◌&&◌, truthy, opt_str_eq, Option, none, some, List, [], ◌∷◌,
  if◌then◌else◌, Dict, lookup, ok, ◌≡◌, Result,
}
use autopw.Registry.Records.{OperationRecord}
use autopw.Lease.{PolicyError}
use autopw.Worker.State.{RunState, Worker}
use autopw.Worker.Scheduler.{Scheduler}
use autopw.Worker.Resync.{Site, run_to_take, take_up}
use autopw.Worker.Recalled.{Remembers, IsTakenUp, is_filed}

-- A record names a run, unless it is buried or the name is empty.
abbrev pub names : String → OperationRecord → Bool
names run_id o = not o.tombstoned && (truthy run_id && opt_str_eq o.run_id (some run_id))

-- The last record that names a run.
abbrev pub last_naming : String → List OperationRecord → Option OperationRecord
last_naming run_id [] = none
last_naming run_id (o ∷ os) = elim (last_naming run_id os) [
  | some p ↦ some p
  | none ↦ if names run_id o then some o else none
]

-- What becomes of a run, for the last record that names it. A run that no record names is left
-- alone.
abbrev pub Outcome : Worker → ℕ → Dict RunState → String → Option OperationRecord → Type 0
Outcome w now runs run_id none = lookup run_id runs ≡ lookup run_id w.runs
Outcome w now runs run_id (some o) =
    (run : RunState) × (lookup run_id runs ≡ some run)
    × IsTakenUp w now o run_id run
    × ((before : RunState)
        → is_filed w run_id ≡ true
        → lookup run_id w.runs ≡ some before
        → Remembers before run)

-- One round changes nothing but the runs, of which those are left alone that its record does not
-- name.
abbrev Round : Worker → ℕ → OperationRecord → Worker → Type 0
Round w now o v =
    (m : Dict RunState) × (v ≡ record w { runs = m })
    × ((j : String) → Outcome w now m j (if names j o then some o else none))

-- The first round of the loop, for any record.
abbrev round : ℕ → OperationRecord → Site → Result PolicyError Site
round now o site = elim (run_to_take o) [ none ↦ ok site | some run_id ↦ take_up now o run_id site ]
