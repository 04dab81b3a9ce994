-- ===== src/Storage/Disk.antt =====
-- packages/run-storage/src/index.ts: one file of a run with the two files beside it that its
-- replacement uses, and the calls of the file system on them. Every state that a call leaves behind
-- is recorded, since the process may crash there. Which calls fail is an argument.
use autopw.Prelude.{ℕ, String, Option, none, some, List, ◌∷◌, Result, ok, err}

-- The file, its `.previous` and the temporary file, each with its content.
pub record Slot : Type 0 where
  pub target : Option String
  pub previous : Option String
  pub temporary : Option String

-- The states that were passed through are listed newest first.
pub record Disk : Type 0 where
  pub slot : Slot
  pub history : List Slot

-- The calls that may fail; a number tells the rounds of a loop apart.
pub data Call : Type 0 where
  recover_rename recover_remove write_temporary open_temporary sync_temporary : Call
  check_owner rename_over open_folder sync_folder : ℕ → Call
  drop_stale check_before move_aside check_between move_in put_back drop_previous : Call
  open_after sync_after drop_temporary : Call
  read_target read_previous : ℕ → Call

-- The code of the error that a call throws, if it does.
abbrev pub Faults : Type 0
Faults = Call → Option String

-- A method: the disk after it, and what it returns or the code that it throws.
abbrev pub D : Type 0 → Type 0
D A = Disk → Disk × Result String A

abbrev pub pure : {A : Type 0} → A → D A
pure a d = (d, ok a)

abbrev pub throw : {A : Type 0} → String → D A
throw code d = (d, err code)

abbrev pub continue : {A B : Type 0} → (A → D B) → Disk × Result String A → Disk × Result String B
continue k (d, ok a) = k a d
continue k (d, err code) = (d, err code)

infixl 5 ◌>>=◌ ◌>>◌
abbrev pub ◌>>=◌ : {A B : Type 0} → D A → (A → D B) → D B
◌>>=◌ m k d = continue k (m d)

abbrev pub ◌>>◌ : {A B : Type 0} → D A → D B → D B
m >> k = m >>= λ _. k

-- A call that may fail before it does anything.
abbrev pub try_call : {A : Type 0} → Option String → D A → D A
try_call none m d = m d
try_call (some code) m d = (d, err code)

-- `try { ... } catch { }`
abbrev pub silently : {A : Type 0} → D A → D (Unit {0})
silently m d = ((m d).0, ok tt)

-- `try { ... } finally { ... }` where the last part throws nothing.
abbrev pub finally : {A : Type 0} → D A → D (Unit {0}) → D A
finally m last d = ((last (m d).0).0, (m d).1)

abbrev pub leave : Slot → D (Unit {0})
leave s d = (record { slot = s; history = s ∷ d.history }, ok tt)

-- `renameSync`, from one of the three files over another.
abbrev pub rename_temporary : D (Unit {0})
rename_temporary d = elim d.slot.temporary [
  | none ↦ (d, err "ENOENT")
  | some bytes ↦ leave (record (d.slot) { target = some bytes; temporary = none }) d
]

abbrev pub rename_target : D (Unit {0})
rename_target d = elim d.slot.target [
  | none ↦ (d, err "ENOENT")
  | some bytes ↦ leave (record (d.slot) { target = none; previous = some bytes }) d
]

abbrev pub rename_previous : D (Unit {0})
rename_previous d = elim d.slot.previous [
  | none ↦ (d, err "ENOENT")
  | some bytes ↦ leave (record (d.slot) { target = some bytes; previous = none }) d
]

-- `rmSync` with `force`.
abbrev pub remove_previous : D (Unit {0})
remove_previous d = leave (record (d.slot) { previous = none }) d

abbrev pub remove_temporary : D (Unit {0})
remove_temporary d = leave (record (d.slot) { temporary = none }) d

-- What is read of a file where no call fails.
abbrev pub content_of : Slot → Option String
content_of s = elim s.target [ none ↦ s.previous | some bytes ↦ some bytes ]
