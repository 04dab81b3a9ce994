-- ===== src/Storage/Locks.antt =====
-- packages/run-storage/src/index.ts: the locks, which are folders with a file for each owner. A
-- method runs to its end before another process acts, except where an argument says otherwise.
use Prim.Native.Nat.{Ordering}
use autopw.Prelude.{
  ℕ, zero, suc, ◌+◌, ◌-◌, String, Bool, true, false, not, ◌&&◌, ◌||◌, ltb, str_eq, opt_str_eq,
  Option, none, some, List, [], ◌∷◌, ◌++◌, if◌then◌else◌, keep, find?, sort_by, Result, ok, err,
}

abbrev pub lock_lease_ms : ℕ
lock_lease_ms = 120000

-- The members of an owner file that are read again.
pub record LockMetadata : Type 0 where
  pub owner_token : Option String
  pub created_at : Option ℕ
  pub expires_at : Option ℕ

-- A file `owner.<token>.json`; there is no metadata where it cannot be parsed.
pub record OwnerFile : Type 0 where
  pub name_token : String
  pub metadata : Option LockMetadata

-- A lock's folder, with the time of its `.claim` where there is one.
pub record LockFolder : Type 0 where
  pub claim : Option ℕ
  pub owners : List OwnerFile

-- What stands at a lock's path; older writers leave a file.
pub data LockPath : Type 0 where
  absent : LockPath
  legacy_file : Option LockMetadata → LockPath
  lock_folder : LockFolder → LockPath

pub record LockHandle : Type 0 where
  pub owner_token : String

abbrev pub no_metadata : LockMetadata
no_metadata = record { owner_token = none; created_at = none; expires_at = none }

abbrev pub metadata_of : OwnerFile → LockMetadata
metadata_of o = elim o.metadata [ none ↦ no_metadata | some m ↦ m ]

-- `_isExpired`
unfoldable pub is_expired : ℕ → LockMetadata → Bool
is_expired now m = elim m.expires_at [ none ↦ true | some t ↦ ltb t now ]

abbrev pub token_of : OwnerFile → String
token_of o = elim (metadata_of o).owner_token [ none ↦ "" | some t ↦ t ]

-- `.at(-1)`
abbrev pub last {ℓ} : {A : Type ℓ} → List A → Option A
last [] = none
last (x ∷ xs) = elim (last xs) [ none ↦ some x | some y ↦ some y ]

abbrev pub active_owners : ℕ → LockFolder → List OwnerFile
active_owners now f = keep (λ o. not (is_expired now (metadata_of o))) f.owners

-- `_currentOwner`; `locale_compare` is the locale's order of texts.
unfoldable pub current_owner : (String → String → Ordering) → ℕ → LockFolder → Option OwnerFile
unfolding is_expired
current_owner locale_compare now f =
    last (sort_by (λ a b. locale_compare (token_of a) (token_of b)) (active_owners now f))

abbrev pub token_is : Option OwnerFile → String → Bool
token_is none token = false
token_is (some o) token = opt_str_eq (metadata_of o).owner_token (some token)

-- `_isCurrentOwner`
abbrev pub is_current_owner : (String → String → Ordering) → ℕ → LockHandle → LockFolder → Bool
is_current_owner locale_compare now h f =
    token_is (current_owner locale_compare now f) h.owner_token

abbrev pub file_of : LockFolder → String → Option OwnerFile
file_of f token = find? (λ o. str_eq o.name_token token) f.owners

-- `_assertLockOwner`; a missing or malformed file throws another error.
unfoldable pub assert_lock_owner :
    (String → String → Ordering) → ℕ → LockHandle → LockPath → Result String (Unit {0})
unfolding current_owner is_expired
assert_lock_owner locale_compare now h absent = err "ENOENT"
assert_lock_owner locale_compare now h (legacy_file m) = err "ENOTDIR"
assert_lock_owner locale_compare now h (lock_folder f) = elim (file_of f h.owner_token) [
  | none ↦ err "ENOENT"
  | some o ↦ elim o.metadata [
    | none ↦ err "SyntaxError"
    | some m ↦
        if not (opt_str_eq m.owner_token (some h.owner_token))
          || is_expired now m
          || not (is_current_owner locale_compare now h f)
        then err "LOCK_NOT_OWNER"
        else ok tt
  ]
]

-- The file that `_createOwner` writes.
abbrev pub owner_file : ℕ → String → OwnerFile
owner_file now token = record {
  name_token = token;
  metadata = some (record {
    owner_token = some token;
    created_at = some now;
    expires_at = some (now + lock_lease_ms);
  });
}

-- `_createOwner`
abbrev pub create_owner : ℕ → String → LockFolder → LockFolder
create_owner now token f = record f { owners = f.owners ++ (owner_file now token ∷ []) }

abbrev pub is_stale_file : ℕ → OwnerFile → Bool
is_stale_file now o = elim o.metadata [ none ↦ false | some m ↦ is_expired now m ]

abbrev pub is_own_file : LockHandle → OwnerFile → Bool
is_own_file h o =
    str_eq o.name_token h.owner_token && opt_str_eq (metadata_of o).owner_token (some h.owner_token)

-- The folder is removed once it is empty.
abbrev pub unless_empty : LockFolder → LockPath
unless_empty f = elim f.owners [
  | [] ↦ elim f.claim [ none ↦ absent | some t ↦ lock_folder f ]
  | o ∷ os ↦ lock_folder f
]

-- `_releaseLock`
unfoldable pub release_lock : ℕ → LockHandle → LockPath → LockPath
unfolding is_expired
release_lock now h absent = absent
release_lock now h (legacy_file m) = legacy_file m
release_lock now h (lock_folder f) = unless_empty (record f {
  owners = keep (λ o. not (is_stale_file now o)) (keep (λ o. not (is_own_file h o)) f.owners);
})

-- `_createClaimedOwner`
unfoldable pub create_claimed_owner :
    (String → String → Ordering) → ℕ → String → LockFolder → LockPath × Option LockHandle
unfolding current_owner release_lock is_expired
create_claimed_owner locale_compare now token f =
    let h : LockHandle = record { owner_token = token } in
    let created = create_owner now token f in
    if is_current_owner locale_compare now h created
    then (lock_folder created, some h)
    else (release_lock now h (lock_folder created), none)

abbrev pub without_stale_claim : ℕ → LockFolder → LockFolder
without_stale_claim now f = elim f.claim [
  | none ↦ f
  | some t ↦ if ltb lock_lease_ms (now - t) then record f { claim = none } else f
]

-- The loop of `_acquireClaim`, from attempt `n` on; `clock n` is the time of an attempt. A claim
-- that is too old is removed, and taken by the next attempt.
unfoldable pub claim_rounds : (ℕ → ℕ) → ℕ → ℕ → LockFolder → LockFolder × Bool
claim_rounds clock n zero f = (f, false)
claim_rounds clock n (suc left) f = elim f.claim [
  | none ↦ (record f { claim = some (clock n) }, true)
  | some t ↦ claim_rounds clock (n + 1) left (without_stale_claim (clock n) f)
]

-- `_acquireClaim`
unfoldable pub acquire_claim : (ℕ → ℕ) → LockFolder → LockFolder × Bool
unfolding claim_rounds
acquire_claim clock f = claim_rounds clock 0 2000 f

-- `_releaseClaim`
abbrev pub release_claim : LockPath → LockPath
release_claim (lock_folder f) = lock_folder (record f { claim = none })
release_claim p = p

abbrev pub released : LockPath × Option LockHandle → LockPath × Option LockHandle
released (p, h) = (release_claim p, h)

-- A claim, the owner that is created under it, and the release of the claim.
unfoldable pub acquire_claimed :
    (String → String → Ordering)
    → (ℕ → ℕ)
    → ℕ
    → String
    → Bool
    → LockFolder
    → LockPath × Option LockHandle
unfolding acquire_claim create_claimed_owner current_owner is_expired
acquire_claimed locale_compare clock now token checks f =
    let (claimed, taken) = acquire_claim clock f in
    if not taken
    then (lock_folder claimed, none)
    else (elim (current_owner locale_compare now claimed) [
      | none ↦ released (create_claimed_owner locale_compare now token claimed)
      | some o ↦
          (if checks
            then (lock_folder (record claimed { claim = none }), none)
            else released (create_claimed_owner locale_compare now token claimed))
    ])

abbrev pub new_folder : LockFolder
new_folder = record { claim = none; owners = [] }

-- When a legacy lock ends: at once where its file says nothing.
abbrev pub legacy_expiry : Option LockMetadata → ℕ
legacy_expiry none = 0
legacy_expiry (some m) = elim m.expires_at [
  | some t ↦ t
  | none ↦ elim m.created_at [ none ↦ 0 | some t ↦ t + lock_lease_ms ]
]

-- `_acquireLock`; `token` is the new owner's token.
unfoldable pub acquire_lock :
    (String → String → Ordering) → (ℕ → ℕ) → ℕ → String → LockPath → LockPath × Option LockHandle
unfolding acquire_claimed current_owner
acquire_lock locale_compare clock now token absent =
    acquire_claimed locale_compare clock now token false new_folder
acquire_lock locale_compare clock now token (legacy_file m) =
    if ltb now (legacy_expiry m)
    then (legacy_file m, none)
    else acquire_claimed locale_compare clock now token false new_folder
acquire_lock locale_compare clock now token (lock_folder f) =
    elim (current_owner locale_compare now f) [
      | some o ↦ (lock_folder f, none)
      | none ↦ acquire_claimed locale_compare clock now token true f
    ]

abbrev pub or_again :
    (LockPath → LockPath × Result String LockHandle)
    → LockPath × Option LockHandle
    → LockPath × Result String LockHandle
or_again again (p, none) = again p
or_again again (p, some h) = (p, ok h)

-- The loop of `_acquireRetryingLock`: `attempt n` is attempt `n`, and `between n` is what other
-- processes do to the lock while it sleeps behind it.
unfoldable pub retry_lock :
    (ℕ → LockPath → LockPath × Option LockHandle)
    → (ℕ → LockPath → LockPath)
    → ℕ
    → ℕ
    → LockPath
    → LockPath × Result String LockHandle
retry_lock attempt between n zero p = (p, err "ARTIFACT_INDEX_LOCK_TIMEOUT")
retry_lock attempt between n (suc left) p =
    or_again (λ p'. retry_lock attempt between (n + 1) left (between n p')) (attempt n p)

-- `_acquireRetryingLock`
unfoldable pub acquire_retrying_lock :
    (ℕ → LockPath → LockPath × Option LockHandle)
    → (ℕ → LockPath → LockPath)
    → LockPath
    → LockPath × Result String LockHandle
unfolding retry_lock
acquire_retrying_lock attempt between p = retry_lock attempt between 0 25000 p
