-- ===== src/Storage/Replacing.antt =====
-- packages/run-storage/src/index.ts: how a file is written, recovered and read. The lock of the
-- file is held; whether it still is when it is asserted is one of the calls that may fail.
use autopw.Prelude.{
  ℕ, zero, suc, ◌+◌, String, true, false, ◌&&◌, ◌==◌, str_eq, Option, none, some, List, [], ◌∷◌,
  includes, if◌then◌else◌, Result, ok, err,
}
use autopw.Storage.Disk.{
  Slot, Disk, Call, Faults, D, pure, throw, ◌>>=◌, ◌>>◌, try_call, silently, finally, leave,
  rename_temporary, rename_target, rename_previous, remove_previous, remove_temporary,
}

-- `_recoverFileReplacement`
unfoldable pub recover_file_replacement : Faults → D (Unit {0})
recover_file_replacement e d = elim d.slot.target [
  | none ↦ elim d.slot.previous [
    | none ↦ (d, ok tt)
    | some p ↦ silently (try_call (e Call.recover_rename) rename_previous) d
  ]
  | some t ↦ elim d.slot.previous [
    | none ↦ (d, ok tt)
    | some p ↦ silently (try_call (e Call.recover_remove) remove_previous) d
  ]
]

-- The error that is left where those of these codes are ignored.
abbrev pub tolerating : List String → Option String → D (Unit {0})
tolerating codes none = pure tt
tolerating codes (some code) = if includes codes code then pure tt else throw code

abbrev pub first_error : Option String → Option String → Option String
first_error none later = later
first_error (some code) later = some code

-- `_syncDescriptor`
abbrev pub sync_descriptor : Option String → D (Unit {0})
sync_descriptor failure = tolerating ("EPERM" ∷ "EINVAL" ∷ "ENOTSUP" ∷ []) failure

-- `_syncFile`, for the errors of `openSync` and of `fsyncSync`.
abbrev pub sync_file : Option String → Option String → D (Unit {0})
sync_file opening syncing = try_call opening (sync_descriptor syncing)

-- `_syncDirectory`
abbrev pub sync_directory : Option String → Option String → D (Unit {0})
sync_directory opening syncing =
    tolerating ("EPERM" ∷ "EINVAL" ∷ "ENOTSUP" ∷ "EISDIR" ∷ []) (first_error opening syncing)

-- What the caught error of `_replaceExistingFile` does.
abbrev pub restoring : Faults → Disk → Disk
restoring e d = elim d.slot.target [
  | none ↦ (try_call (e Call.put_back) rename_previous d).0
  | some t ↦ d
]

abbrev pub or_restored : Faults → Disk × Result String (Unit {0}) → Disk × Result String (Unit {0})
or_restored e (d, ok done) = (d, ok done)
or_restored e (d, err code) = (restoring e d, err code)

abbrev pub move_new_in : Faults → D (Unit {0})
move_new_in e d =
    or_restored e
      ((try_call (e Call.check_between) (pure tt) >> try_call (e Call.move_in) rename_temporary) d)

-- `_replaceExistingFile`
unfoldable pub replace_existing_file : Faults → D (Unit {0})
replace_existing_file e = do
  silently (try_call (e Call.drop_stale) remove_previous)
  try_call (e Call.check_before) (pure tt)
  try_call (e Call.move_aside) rename_target
  move_new_in e
  silently (try_call (e Call.drop_previous) remove_previous)
  sync_directory (e Call.open_after) (e Call.sync_after)

abbrev pub retryable : List String
retryable = "EEXIST" ∷ "EPERM" ∷ "EACCES" ∷ "ENOTEMPTY" ∷ []

-- The body of the loop of `_writeFileLocked`.
abbrev pub rename_round : Faults → ℕ → D (Unit {0})
rename_round e n = do
  try_call (e (Call.check_owner n)) (pure tt)
  try_call (e (Call.rename_over n)) rename_temporary
  sync_directory (e (Call.open_folder n)) (e (Call.sync_folder n))

-- How the loop ends: the file is in place, or the rounds are used up with this `lastError`.
pub data Rounds : Type 0 where
  in_place : Rounds
  used_up : String → Rounds

abbrev pub after_rename :
    D Rounds → (String → D Rounds) → Disk × Result String (Unit {0}) → Disk × Result String Rounds
after_rename done again (d, ok _) = done d
after_rename done again (d, err code) = elim (includes retryable code) [
  | true ↦ again code d
  | false ↦ (d, err code)
]

-- The loop, from round `n` with `left` rounds left.
unfoldable pub rename_rounds : Faults → ℕ → ℕ → String → D Rounds
rename_rounds e n zero last d = (d, ok (Rounds.used_up last))
rename_rounds e n (suc left) last d =
    after_rename (pure Rounds.in_place) (λ code. rename_rounds e (n + 1) left code)
      (rename_round e n d)

-- What stands behind the loop.
abbrev pub after_rounds : Faults → Rounds → D (Unit {0})
after_rounds e Rounds.in_place d = (d, ok tt)
after_rounds e (Rounds.used_up last) d = elim d.slot.target [
  | none ↦ (d, err last)
  | some t ↦ replace_existing_file e d
]

abbrev pub fill_temporary : Faults → String → D (Unit {0})
fill_temporary e bytes =
    try_call (e Call.write_temporary) (λ d. leave (record (d.slot) { temporary = some bytes }) d)

-- The inner `try` of `_writeFileLocked` and its `finally`.
abbrev pub install_temporary : Faults → D (Unit {0})
install_temporary e =
    sync_file (e Call.open_temporary) (e Call.sync_temporary)
    >> (rename_rounds e 0 20 "" >>= after_rounds e)

abbrev pub clean_temporary : Faults → D (Unit {0})
clean_temporary e = silently (try_call (e Call.drop_temporary) remove_temporary)

-- `_writeFileLocked`
unfoldable pub write_file_locked : Faults → String → D (Unit {0})
unfolding recover_file_replacement rename_rounds replace_existing_file
write_file_locked e bytes = do
  recover_file_replacement e
  fill_temporary e bytes
  finally (install_temporary e) (clean_temporary e)

-- `_writeImmutableFile`; `sha` is the digest.
unfoldable pub write_immutable_file :
    (String → String) → (String → ℕ) → Faults → String → D (Unit {0})
unfolding write_file_locked recover_file_replacement
write_immutable_file sha size e bytes = do
  recover_file_replacement e
  λ d. elim d.slot.target [
    | none ↦ write_file_locked e bytes d
    | some existing ↦
        if size existing == size bytes && str_eq (sha existing) (sha bytes)
        then (d, ok tt)
        else (d, err "ARTIFACT_HANDLE_COLLISION")
  ]

abbrev pub unless_failing : Option String → Option String → Option String
unless_failing none found = found
unless_failing (some code) found = none

abbrev pub or_next : Option String → Option String → Option String
or_next none later = later
or_next (some bytes) later = some bytes

-- The loop of `_readFileWithFallback`.
unfoldable pub read_rounds : Faults → ℕ → ℕ → Slot → Option String
read_rounds e n zero s = none
read_rounds e n (suc left) s =
    or_next (unless_failing (e (Call.read_target n)) s.target) (
      or_next (unless_failing (e (Call.read_previous n)) s.previous) (read_rounds e (n + 1) left s))

-- `_readFileWithFallback`
unfoldable pub read_file_with_fallback : Faults → Slot → Option String
unfolding read_rounds
read_file_with_fallback e s = read_rounds e 0 3 s
