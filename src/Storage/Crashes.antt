-- ===== src/Storage/Crashes.antt =====
-- packages/run-storage/src/index.ts: what a crash during `_writeFileLocked` leaves behind.
use autopw.Prelude.{
  String, none, some, List, [], ◌∷◌, All, Result, ok, err, ◌≡◌, refl, ◌⊎◌, inl, arith,
}
use autopw.Storage.Disk.{Slot, Disk, Faults, D, continue, ◌>>◌, finally, content_of}
use autopw.Storage.Replacing.{
  recover_file_replacement, rename_rounds, write_file_locked, read_file_with_fallback, read_rounds,
  fill_temporary, install_temporary, clean_temporary,
}
use autopw.Storage.Steps.{IsWhole, HasNew-Post, HasNew-ok, G-Post, write_file_locked-HasNew}

abbrev pub at_rest : Slot → Disk
at_rest s = record { slot = s; history = [] }

abbrev pub no_fault : Faults
no_fault call = none

read_file_with_fallback-content_of : (s : Slot) → read_file_with_fallback no_fault s ≡ content_of s
unfolding read_file_with_fallback read_rounds
read_file_with_fallback-content_of s = ground arith

-- A reader finds what the file held before, or what was to be written.
abbrev pub ReadsWhole : Slot → String → Slot → Type 0
ReadsWhole s bytes r =
    (read_file_with_fallback no_fault r ≡ read_file_with_fallback no_fault s)
    ⊎ (read_file_with_fallback no_fault r ≡ some bytes)

IsWhole-ReadsWhole :
    (s : Slot) (bytes : String) (r : Slot) → IsWhole (content_of s) bytes r → ReadsWhole s bytes r
IsWhole-ReadsWhole s bytes r h =
    rw (read_file_with_fallback-content_of r, read_file_with_fallback-content_of s) h.0

All-ReadsWhole :
    (s : Slot) (bytes : String) (rs : List Slot)
    → All (IsWhole (content_of s) bytes) rs
    → All (ReadsWhole s bytes) rs
All-ReadsWhole s bytes [] h = tt
All-ReadsWhole s bytes (r ∷ rs) h =
    (IsWhole-ReadsWhole s bytes r h.0, All-ReadsWhole s bytes rs h.1)

-- Whichever calls of the file system fail, and wherever among its calls the process crashes while
-- it writes a file, a reader finds the whole old content or the whole new one.
pub write_file_locked-ReadsWhole :
    (e : Faults) (bytes : String) (s : Slot)
    → s.temporary ≡ none
    → let d = (write_file_locked e bytes (at_rest s)).0 in
      All (ReadsWhole s bytes) (d.slot ∷ d.history)
write_file_locked-ReadsWhole e bytes s h =
    let written = write_file_locked e bytes (at_rest s) in
    let kept =
      HasNew-Post (content_of s) bytes written
        (write_file_locked-HasNew (content_of s) bytes e (at_rest s) ((inl refl, inl h), tt)) in
    All-ReadsWhole s bytes (written.0.slot ∷ written.0.history)
      (G-Post (content_of s) bytes written kept)

continue-ok :
    {A : Type 0} (k : Unit {0} → D A) (a : A) (p : Disk × Result String (Unit {0}))
    → p.1 ≡ ok tt
    → ((d : Disk) → (k tt d).1 ≡ ok a)
    → (continue k p).1 ≡ ok a
continue-ok k a (d, ok done) h next = next d
continue-ok k a (d, err code) h next = ground (arith, h)

recover_file_replacement-ok : (e : Faults) (d : Disk) → (recover_file_replacement e d).1 ≡ ok tt
unfolding recover_file_replacement
recover_file_replacement-ok e d = ground arith

write_file_locked-ok : (bytes : String) (d : Disk) → (write_file_locked no_fault bytes d).1 ≡ ok tt
unfolding write_file_locked rename_rounds
write_file_locked-ok bytes d =
    let rest =
      fill_temporary no_fault bytes
      >> finally (install_temporary no_fault) (clean_temporary no_fault) in
    continue-ok (λ _. rest) tt (recover_file_replacement no_fault d)
      (recover_file_replacement-ok no_fault d) (λ d'. refl)

-- A write that returns, whatever failed on the way, has put the new content in place; and where no
-- call fails it returns.
pub write_file_locked-in_place :
    (bytes : String) (s : Slot)
    → s.temporary ≡ none
    → ((e : Faults)
        → (write_file_locked e bytes (at_rest s)).1 ≡ ok tt
        → (write_file_locked e bytes (at_rest s)).0.slot.target ≡ some bytes)
      × ((write_file_locked no_fault bytes (at_rest s)).1 ≡ ok tt)
write_file_locked-in_place bytes s h = (
  λ e returned.
      HasNew-ok (content_of s) bytes (write_file_locked e bytes (at_rest s))
        (write_file_locked-HasNew (content_of s) bytes e (at_rest s) ((inl refl, inl h), tt))
        returned,
  write_file_locked-ok bytes (at_rest s),
)
