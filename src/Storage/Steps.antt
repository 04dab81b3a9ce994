-- ===== src/Storage/Steps.antt =====
-- packages/run-storage/src/index.ts: the calls of `_writeFileLocked`, one by one: what each leaves of
-- the file.
use autopw.Prelude.{
  ℕ, zero, suc, ◌+◌, String, true, Option, none, some, List, [], ◌∷◌, includes, is_some, All,
  Result, ok, err, ◌≡◌, refl, ◌⊎◌, inl, inr, ap, arith, Bool-cases, Option-cases,
}
use autopw.Storage.Disk.{
  Slot, Disk, Call, Faults, D, pure, continue, ◌>>=◌, ◌>>◌, try_call, silently, finally, leave,
  rename_temporary, rename_target, rename_previous, remove_previous, remove_temporary, content_of,
}
use autopw.Storage.Replacing.{
  recover_file_replacement, tolerating, sync_descriptor, sync_file, sync_directory, first_error,
  replace_existing_file, restoring, or_restored, move_new_in, retryable, rename_round, Rounds,
  after_rename, rename_rounds, after_rounds, write_file_locked, fill_temporary, install_temporary,
  clean_temporary,
}

-- The file reads as before or as written, and the temporary file holds nothing else.
abbrev pub IsWhole : Option String → String → Slot → Type 0
IsWhole old new s =
    ((content_of s ≡ old) ⊎ (content_of s ≡ some new))
    × ((s.temporary ≡ none) ⊎ (s.temporary ≡ some new))

module _ (old : Option String) (new : String) where
  abbrev pub G : Disk → Type 0
  G d = IsWhole old new d.slot × All (IsWhole old new) d.history

  -- `G` after a call, and `P` where it did not throw.
  abbrev pub Post : {A : Type 0} → (Disk → Type 0) → Disk × Result String A → Type 0
  Post P (d, ok a) = P d
  Post P (d, err code) = G d

  abbrev HasTarget : Disk → Type 0
  HasTarget d = G d × (is_some d.slot.target ≡ true)

  -- The new content is in place.
  abbrev pub HasNew : Disk → Type 0
  HasNew d = G d × (d.slot.target ≡ some new)

  HasNew-HasTarget : (d : Disk) → HasNew d → HasTarget d
  HasNew-HasTarget d h = (h.0, ap is_some h.1)

  Post-G : {A : Type 0} (p : Disk × Result String A) → G p.0 → Post G p
  Post-G (d, ok a) h = h
  Post-G (d, err code) h = h

  pub HasNew-Post : {A : Type 0} (p : Disk × Result String A) → Post HasNew p → Post G p
  HasNew-Post (d, ok a) h = h.0
  HasNew-Post (d, err code) h = h

  pub HasNew-ok :
      (p : Disk × Result String (Unit {0}))
      → Post HasNew p
      → p.1 ≡ ok tt
      → p.0.slot.target ≡ some new
  HasNew-ok (d, ok done) h returned = h.1
  HasNew-ok (d, err code) g returned = ground (arith, returned)

  pub G-Post : {A : Type 0} (p : Disk × Result String A) → Post G p → G p.0
  G-Post (d, ok a) h = h
  G-Post (d, err code) h = h

  continue-Post :
      {A B : Type 0} (P Q : Disk → Type 0) (k : A → D B) (p : Disk × Result String A)
      → Post P p
      → ((a : A) (d : Disk) → P d → Post Q (k a d))
      → Post Q (continue k p)
  continue-Post P Q k (d, ok a) h next = next a d h
  continue-Post P Q k (d, err code) h next = h

  try_call-Post :
      {A : Type 0} (P : Disk → Type 0) (o : Option String) (m : D A) (d : Disk)
      → G d
      → Post P (m d)
      → Post P (try_call o m d)
  try_call-Post P none m d g h = h
  try_call-Post P (some code) m d g h = g

  leave-G : (s : Slot) (d : Disk) → IsWhole old new s → G d → G (leave s d).0
  leave-G s d whole g = (whole, (whole, g.1))

  rename_temporary-G : (d : Disk) → G d → Post HasNew (rename_temporary d)
  rename_temporary-G d g = ground (arith, g)

  rename_target-G : (d : Disk) → HasTarget d → Post G (rename_target d)
  rename_target-G d g = ground (arith, g)

  rename_previous-G : (d : Disk) → G d → d.slot.target ≡ none → Post G (rename_previous d)
  rename_previous-G d g h = ground (arith, g, h)

  remove_previous-G : (d : Disk) → HasTarget d → HasTarget (remove_previous d).0
  remove_previous-G d g = ground (arith, g)

  remove_temporary-G : (d : Disk) → G d → G (remove_temporary d).0
  remove_temporary-G d g = leave-G (record (d.slot) { temporary = none }) d (g.0.0, inl refl) g

  silently-Post :
      {A : Type 0} (P : Disk → Type 0) (m : D A) (d : Disk) → P (m d).0 → Post P (silently m d)
  silently-Post P m d h = h

  -- A call that keeps `HasTarget`, tried and with its error dropped.
  tried_remove-G :
      (o : Option String) (d : Disk)
      → HasTarget d
      → HasTarget (silently (try_call o remove_previous) d).0
  tried_remove-G none d h = remove_previous-G d h
  tried_remove-G (some code) d h = h

  tried_remove-HasNew :
      (o : Option String) (d : Disk) → HasNew d → HasNew (silently (try_call o remove_previous) d).0
  tried_remove-HasNew none d h = ((remove_previous-G d (HasNew-HasTarget d h)).0, h.1)
  tried_remove-HasNew (some code) d h = h

  tolerating-Post :
      (P : Disk → Type 0) (codes : List String) (o : Option String) (d : Disk)
      → G d
      → P d
      → Post P (tolerating codes o d)
  tolerating-Post P codes none d g h = h
  tolerating-Post P codes (some code) d g h = elim (Bool-cases (includes codes code)) [
    | inl known ↦ rw known h
    | inr other ↦ rw other g
  ]

  recover-G : (e : Faults) (d : Disk) → G d → Post G (recover_file_replacement e d)
  unfolding recover_file_replacement
  recover-G e d g = elim (Option-cases (e Call.recover_rename)) [
    | inl fine ↦ elim (Option-cases (e Call.recover_remove)) [
      | inl clear ↦ ground (arith, g, fine, clear)
      | inr (code, failing) ↦ ground (arith, g, fine, failing)
    ]
    | inr (code, failing) ↦ elim (Option-cases (e Call.recover_remove)) [
      | inl clear ↦ ground (arith, g, failing, clear)
      | inr (code', failing') ↦ ground (arith, g, failing, failing')
    ]
  ]

  restoring-G : (e : Faults) (d : Disk) → G d → G (restoring e d)
  restoring-G e d g = elim (Option-cases (e Call.put_back)) [
    | inl fine ↦ ground (arith, g, fine)
    | inr (code, failing) ↦ ground (arith, g, failing)
  ]

  or_restored-G :
      (e : Faults) (p : Disk × Result String (Unit {0}))
      → Post HasNew p
      → Post HasNew (or_restored e p)
  or_restored-G e (d, ok done) h = h
  or_restored-G e (d, err code) h = restoring-G e d h

  move_new_in-G : (e : Faults) (d : Disk) → G d → Post HasNew (move_new_in e d)
  move_new_in-G e d g =
      or_restored-G e
        ((try_call (e Call.check_between) (pure tt) >> try_call (e Call.move_in) rename_temporary)
          d)
        (continue-Post G HasNew (λ _. try_call (e Call.move_in) rename_temporary)
          (try_call (e Call.check_between) (pure tt) d)
          (try_call-Post G (e Call.check_between) (pure tt) d g g)
          (λ _ d' g'.
            try_call-Post HasNew (e Call.move_in) rename_temporary d' g'
              (rename_temporary-G d' g')))

  sync_file-G :
      (opening syncing : Option String) (d : Disk) → G d → Post G (sync_file opening syncing d)
  sync_file-G opening syncing d g =
      try_call-Post G opening (sync_descriptor syncing) d g
        (tolerating-Post G ("EPERM" ∷ "EINVAL" ∷ "ENOTSUP" ∷ []) syncing d g g)

  >>-Post :
      {A B : Type 0} (P Q : Disk → Type 0) (m : D A) (k : D B) (d : Disk)
      → Post P (m d)
      → ((d' : Disk) → P d' → Post Q (k d'))
      → Post Q ((m >> k) d)
  >>-Post P Q m k d h next = continue-Post P Q (λ _. k) (m d) h (λ _ d' p. next d' p)

  check-Post :
      (P : Disk → Type 0) (o : Option String) (d : Disk)
      → G d
      → P d
      → Post P (try_call o (pure tt) d)
  check-Post P o d g h = try_call-Post P o (pure tt) d g h

  sync_directory-HasNew :
      (opening syncing : Option String) (d : Disk)
      → HasNew d
      → Post HasNew (sync_directory opening syncing d)
  sync_directory-HasNew opening syncing d h =
      tolerating-Post HasNew ("EPERM" ∷ "EINVAL" ∷ "ENOTSUP" ∷ "EISDIR" ∷ [])
        (first_error opening syncing) d h.0 h

  -- What follows once the file has been moved aside.
  moved_aside-HasNew :
      (e : Faults) (d : Disk)
      → G d
      → Post HasNew (
          (move_new_in e
              >> (silently (try_call (e Call.drop_previous) remove_previous)
                  >> sync_directory (e Call.open_after) (e Call.sync_after)))
            d)
  moved_aside-HasNew e d g =
      let synced = sync_directory (e Call.open_after) (e Call.sync_after) in
      let dropped = silently (try_call (e Call.drop_previous) remove_previous) in
      >>-Post HasNew HasNew (move_new_in e) (dropped >> synced) d (move_new_in-G e d g) (λ d' h.
        >>-Post HasNew HasNew dropped synced d' (tried_remove-HasNew (e Call.drop_previous) d' h)
          (λ d'' h'. sync_directory-HasNew (e Call.open_after) (e Call.sync_after) d'' h'))

  replace_existing_file-HasNew :
      (e : Faults) (d : Disk) → HasTarget d → Post HasNew (replace_existing_file e d)
  unfolding replace_existing_file
  replace_existing_file-HasNew e d h =
      let dropped = silently (try_call (e Call.drop_stale) remove_previous) in
      let checked : D (Unit {0}) = try_call (e Call.check_before) (pure tt) in
      let moved = try_call (e Call.move_aside) rename_target in
      let rest =
        move_new_in e
        >> (silently (try_call (e Call.drop_previous) remove_previous)
            >> sync_directory (e Call.open_after) (e Call.sync_after)) in
      >>-Post HasTarget HasNew dropped (checked >> (moved >> rest)) d
        (tried_remove-G (e Call.drop_stale) d h)
        (λ d1 h1.
          >>-Post HasTarget HasNew checked (moved >> rest) d1
            (check-Post HasTarget (e Call.check_before) d1 h1.0 h1)
            (λ d2 h2.
              >>-Post G HasNew moved rest d2
                (try_call-Post G (e Call.move_aside) rename_target d2 h2.0 (rename_target-G d2 h2))
                (λ d3 g3. moved_aside-HasNew e d3 g3)))

  rename_round-HasNew : (e : Faults) (n : ℕ) (d : Disk) → G d → Post HasNew (rename_round e n d)
  rename_round-HasNew e n d g =
      let checked : D (Unit {0}) = try_call (e (Call.check_owner n)) (pure tt) in
      let renamed = try_call (e (Call.rename_over n)) rename_temporary in
      let synced = sync_directory (e (Call.open_folder n)) (e (Call.sync_folder n)) in
      >>-Post G HasNew checked (renamed >> synced) d (check-Post G (e (Call.check_owner n)) d g g)
        (λ d1 g1.
          >>-Post HasNew HasNew renamed synced d1
            (try_call-Post HasNew (e (Call.rename_over n)) rename_temporary d1 g1
              (rename_temporary-G d1 g1))
            (sync_directory-HasNew (e (Call.open_folder n)) (e (Call.sync_folder n))))

  -- How the loop leaves the disk.
  abbrev Ended : Disk × Result String Rounds → Type 0
  Ended (d, ok Rounds.in_place) = HasNew d
  Ended (d, ok (Rounds.used_up last)) = G d
  Ended (d, err code) = G d

  after_rename-Ended :
      (again : String → D Rounds) (p : Disk × Result String (Unit {0}))
      → Post HasNew p
      → ((code : String) (d : Disk) → G d → Ended (again code d))
      → Ended (after_rename (pure Rounds.in_place) again p)
  after_rename-Ended again (d, ok _) h k = h
  after_rename-Ended again (d, err code) g k = elim (Bool-cases (includes retryable code)) [
    | inl retried ↦ ground (arith, retried, k code d g)
    | inr final ↦ ground (arith, final, g)
  ]

  rename_rounds-Ended :
      (e : Faults) (n left : ℕ) (last : String) (d : Disk)
      → G d
      → Ended (rename_rounds e n left last d)
  unfolding rename_rounds
  rename_rounds-Ended e n zero last d g = g
  rename_rounds-Ended e n (suc left) last d g =
      after_rename-Ended (λ code. rename_rounds e (n + 1) left code) (rename_round e n d)
        (rename_round-HasNew e n d g) (λ code d' g'. rename_rounds-Ended e (n + 1) left code d' g')

  used_up-HasNew :
      (e : Faults) (last : String) (d : Disk)
      → G d
      → Post HasNew (after_rounds e (Rounds.used_up last) d)
  used_up-HasNew e last d g = elim (Option-cases d.slot.target) [
    | inl gone ↦ ground (arith, g, gone)
    | inr (t, there) ↦ ground (arith, there, replace_existing_file-HasNew e d (g, ap is_some there))
  ]

  after_rounds-HasNew :
      (e : Faults) (p : Disk × Result String Rounds)
      → Ended p
      → Post HasNew (continue (after_rounds e) p)
  after_rounds-HasNew e (d, ok Rounds.in_place) h = h
  after_rounds-HasNew e (d, ok (Rounds.used_up last)) g = used_up-HasNew e last d g
  after_rounds-HasNew e (d, err code) g = g

  tried_clean-G :
      (o : Option String) (d : Disk) → G d → G (silently (try_call o remove_temporary) d).0
  tried_clean-G none d g = remove_temporary-G d g
  tried_clean-G (some code) d g = g

  tried_clean-HasNew :
      (o : Option String) (p : Disk × Result String (Unit {0}))
      → Post HasNew p
      → Post HasNew ((silently (try_call o remove_temporary) p.0).0, p.1)
  tried_clean-HasNew none (d, ok done) h = (remove_temporary-G d h.0, h.1)
  tried_clean-HasNew (some code) (d, ok done) h = h
  tried_clean-HasNew o (d, err code) g = tried_clean-G o d g

  install_temporary-HasNew : (e : Faults) (d : Disk) → G d → Post HasNew (install_temporary e d)
  install_temporary-HasNew e d g =
      let synced = sync_file (e Call.open_temporary) (e Call.sync_temporary) in
      >>-Post G HasNew synced (rename_rounds e 0 20 "" >>= after_rounds e) d
        (sync_file-G (e Call.open_temporary) (e Call.sync_temporary) d g)
        (λ d' g'.
          after_rounds-HasNew e (rename_rounds e 0 20 "" d') (rename_rounds-Ended e 0 20 "" d' g'))

  pub write_file_locked-HasNew :
      (e : Faults) (d : Disk) → G d → Post HasNew (write_file_locked e new d)
  unfolding write_file_locked
  write_file_locked-HasNew e d g =
      let filled = fill_temporary e new in
      let installed = finally (install_temporary e) (clean_temporary e) in
      >>-Post G HasNew (recover_file_replacement e) (filled >> installed) d (recover-G e d g)
        (λ d1 g1.
          >>-Post G HasNew filled installed d1
            (try_call-Post G (e Call.write_temporary)
              (λ d'. leave (record (d'.slot) { temporary = some new }) d') d1 g1
              (leave-G (record (d1.slot) { temporary = some new }) d1 (g1.0.0, inr refl) g1))
            (λ d2 g2.
              tried_clean-HasNew (e Call.drop_temporary) (install_temporary e d2)
                (install_temporary-HasNew e d2 g2)))
