-- ===== src/Examples/OfStorage.antt =====
-- A file that is replaced, a lock that two processes want, an event log and an artifact.
use Prim.Native.Nat.{Ordering}
use Prim.Native.String.{◌++◌}
use autopw.Prelude.{
  ℕ, String, false, Option, none, some, [], ◌∷◌, str_eq, All, if◌then◌else◌, sort_by, insert_by,
  insert, lookup, Result, ok, err, ◌≡◌, refl, arith,
}
use autopw.Json.{Json}
use autopw.Storage.Disk.{Slot, Call, Faults}
use autopw.Storage.Replacing.{
  write_file_locked, recover_file_replacement, rename_rounds, replace_existing_file,
}
use autopw.Storage.Crashes.{
  at_rest, no_fault, ReadsWhole, write_file_locked-ReadsWhole, write_file_locked-in_place,
}
use autopw.Storage.Locks.{
  LockPath, LockFolder, LockHandle, acquire_lock, acquire_claimed, acquire_claim, claim_rounds,
  create_claimed_owner, current_owner, is_expired, assert_lock_owner, new_folder,
}
use autopw.Storage.Owners.{acquire_lock-exclusive}
use autopw.Storage.Events.{NewEvent, append_event, append_events, numbered, read_events}
use autopw.Storage.ArtifactIndex.{
  ArtifactRef, RunFiles, Platform, update_artifact_index, read_artifact_index,
  validate_artifact_index, is_valid_entry,
}
use autopw.Storage.Artifacts.{write_case_artifact, read_artifact_ref, write_immutable}
use autopw.Storage.Names.{
  all_chars, strip_prefix, strip_hex, strip_while, is_display_char, is_id_char, is_segment_char,
  is_hex_char, is_safe_id, is_safe_display, is_artifact_handle, is_artifact_index_path,
  assert_safe_segment, assert_safe_file_name, is_safe_display_name, case_storage_segment,
}
use autopw.Storage.RoundTrip.{read_artifact_ref-write_case_artifact}

abbrev old_file : Slot
old_file = record { target = some "old"; previous = none; temporary = none }

-- Every rename over a file that exists fails.
abbrev no_replacing : Faults
no_replacing (Call.rename_over n) = some "EPERM"
no_replacing call = none

replaced_after_all :
    (write_file_locked no_replacing "new" (at_rest old_file)).0.slot.target ≡ some "new"
unfolding write_file_locked recover_file_replacement rename_rounds replace_existing_file
replaced_after_all = refl

write_file_locked-ReadsWhole_example :
    let d = (write_file_locked no_replacing "new" (at_rest old_file)).0 in
    All (ReadsWhole old_file "new") (d.slot ∷ d.history)
write_file_locked-ReadsWhole_example = write_file_locked-ReadsWhole no_replacing "new" old_file refl

write_file_locked-in_place_example :
    ((e : Faults)
      → (write_file_locked e "new" (at_rest old_file)).1 ≡ ok tt
      → (write_file_locked e "new" (at_rest old_file)).0.slot.target ≡ some "new")
    × ((write_file_locked no_fault "new" (at_rest old_file)).1 ≡ ok tt)
write_file_locked-in_place_example = write_file_locked-in_place "new" old_file refl

-- Only the order of two tokens matters here.
abbrev by_token : String → String → Ordering
by_token a b =
    if str_eq a b then Ordering.eq else (if str_eq a "first" then Ordering.lt else Ordering.gt)

abbrev clock : ℕ → ℕ
clock n = 1000

abbrev first : LockHandle
first = record { owner_token = "first" }

abbrev second : LockHandle
second = record { owner_token = "second" }

abbrev folder_of : LockPath → LockFolder
folder_of (LockPath.lock_folder f) = f
folder_of p = new_folder

-- A process finds the folder of a lock that another is about to acquire, and acquires it first.
abbrev overtaken : LockPath × Option LockHandle
overtaken = acquire_lock by_token clock 1000 "first" (LockPath.lock_folder new_folder)

-- The process that made the folder goes on as behind `mkdirSync`.
abbrev going_on : LockPath × Option LockHandle
going_on = acquire_claimed by_token clock 1000 "second" false (folder_of overtaken.0)

-- Both get a handle; the lock is then asserted in vain by the first.
two_handles :
    (overtaken.1 ≡ some first)
    × (going_on.1 ≡ some second)
    × (assert_lock_owner by_token 1000 first going_on.0 ≡ err "LOCK_NOT_OWNER")
unfolding acquire_lock acquire_claimed acquire_claim claim_rounds create_claimed_owner current_owner
    is_expired assert_lock_owner sort_by insert_by
two_handles = (refl, refl, refl)

acquire_lock-exclusive_example :
    let held = (acquire_lock by_token clock 1000 "first" LockPath.absent).0 in
    (assert_lock_owner by_token 2000 first held ≡ ok tt)
    × ((clock' : ℕ → ℕ) (other : String)
        → acquire_lock by_token clock' 2000 other held ≡ (held, none))
unfolding acquire_lock acquire_claimed acquire_claim claim_rounds create_claimed_owner current_owner
    is_expired sort_by insert_by
acquire_lock-exclusive_example =
    acquire_lock-exclusive by_token clock 1000 "first" LockPath.absent first tt refl 2000
      (ground arith) (ground arith)

abbrev begun : String × NewEvent
begun = ("12:00", record { kind = "started"; phase = none; at = none; detail = Json.null })

last_event :
    read_events 1 (append_events (begun ∷ begun ∷ []) none) ≡ numbered 2 "12:00" begun.1 ∷ []
unfolding read_events append_events append_event
last_event = refl

abbrev sixteen : String
sixteen = "0123456789abcdef"

-- A digest that is the same for all bytes.
abbrev platform : Platform
platform = record {
  basename = λ s. elim (strip_prefix "cases/login/artifacts/" s) [ none ↦ s | some rest ↦ rest ];
  extname = λ s. ".png";
  digest = λ s. sixteen ++ sixteen ++ sixteen ++ sixteen;
  size = λ s. 4;
  escape = λ s. none;
}

abbrev empty_run : RunFiles
empty_run = record { files = []; index = none }

abbrev written : RunFiles × Result String ArtifactRef
written = write_case_artifact platform "run_1" "login" "shot.png" "screenshot" "data" empty_run

abbrev reference : ArtifactRef
reference = record {
  handle = "art_" ++ sixteen ++ sixteen ++ sixteen ++ sixteen;
  kind = "screenshot";
  size_bytes = some 4;
}

is_written : written ≡ (written.0, ok reference)
unfolding write_case_artifact read_artifact_ref write_immutable update_artifact_index
    read_artifact_index validate_artifact_index is_valid_entry all_chars strip_prefix strip_hex
    strip_while is_display_char is_id_char is_segment_char is_hex_char is_safe_id is_safe_display
    is_artifact_handle is_artifact_index_path assert_safe_segment assert_safe_file_name
    is_safe_display_name case_storage_segment insert lookup
is_written = refl

read_artifact_ref-write_case_artifact_example :
    (found : String) × (read_artifact_ref platform "run_1" reference written.0 ≡ ok found)
    × (platform.size found ≡ platform.size "data")
    × (platform.digest found ≡ platform.digest "data")
read_artifact_ref-write_case_artifact_example =
    read_artifact_ref-write_case_artifact platform "run_1" "login" "shot.png" "screenshot" "data"
      empty_run written.0 reference is_written
