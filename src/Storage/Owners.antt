-- ===== src/Storage/Owners.antt =====
-- packages/run-storage/src/index.ts: what holding a lock means.
use Prim.Native.Nat.{Ordering}
use autopw.Prelude.{
  ℕ, zero, suc, ◌+◌, ◌≤◌, String, Bool, true, false, not, ltb, str_eq, str_eq_self, Option, none,
  some, List, [], ◌∷◌, ◌++◌, keep, find?, length, sort_by, insert_by, length-sort_by, ok, ◌≡◌, refl,
  ap, sym, subst, ◌∙◌, arith, Option-cases, Bool-cases, ◌⊎◌, inl, inr,
}
use autopw.Storage.Locks.{
  OwnerFile, LockMetadata, without_stale_claim, LockFolder, LockPath, LockHandle, absent,
  legacy_file, lock_folder, lock_lease_ms, metadata_of, is_expired, token_of, last, active_owners,
  current_owner, file_of, assert_lock_owner, owner_file, create_owner, create_claimed_owner,
  claim_rounds, acquire_claim, acquire_claimed, acquire_lock, new_folder, legacy_expiry,
}

last-none : {A : Type 0} (xs : List A) → last xs ≡ none → length xs ≡ 0
last-none [] h = refl
last-none (x ∷ xs) h = elim (Option-cases (last xs)) [
  | inl e ↦ ground (arith, h, e)
  | inr (y, e) ↦ ground (arith, h, e)
]

length-none : {A : Type 0} (xs : List A) → length xs ≡ 0 → xs ≡ []
length-none [] h = refl
length-none (x ∷ xs) h = ground (arith, h)

-- An owner that is expired stays so.
is_expired-later :
    (now later : ℕ) (m : LockMetadata)
    → now ≤ later
    → is_expired now m ≡ true
    → is_expired later m ≡ true
unfolding is_expired
is_expired-later now later m h k = elim (Option-cases m.expires_at) [
  | inl e ↦ ground (arith, h, k, e)
  | inr (t, e) ↦ ground (arith, h, k, e)
]

expired_later :
    (now later : ℕ)
    → now ≤ later
    → (os : List OwnerFile) → keep (λ o. not (is_expired now (metadata_of o))) os ≡ []
    → keep (λ o. not (is_expired later (metadata_of o))) os ≡ []
expired_later now later h [] k = refl
expired_later now later h (o ∷ os) k = elim (Bool-cases (is_expired now (metadata_of o))) [
  | inl e ↦
      ground
        (arith, e, k, is_expired-later now later (metadata_of o) h e, expired_later now later h os)
  | inr e ↦ ground (arith, e, k)
]

keep-append :
    {A : Type 0} (p : A → Bool) (xs ys : List A) → keep p (xs ++ ys) ≡ keep p xs ++ keep p ys
keep-append p [] ys = refl
keep-append p (x ∷ xs) ys = ground (arith, keep-append p xs ys)

find?-append :
    {A : Type 0} (p : A → Bool) (xs ys : List A)
    → find? p xs ≡ none
    → find? p (xs ++ ys) ≡ find? p ys
find?-append p [] ys h = refl
find?-append p (x ∷ xs) ys h = ground (arith, find?-append p xs ys, h)

claim_rounds-owners :
    (clock : ℕ → ℕ) (n left : ℕ) (f : LockFolder)
    → (claim_rounds clock n left f).0.owners ≡ f.owners
unfolding claim_rounds
claim_rounds-owners clock n zero f = refl
claim_rounds-owners clock n (suc left) f =
    ground (arith, claim_rounds-owners clock (n + 1) left (without_stale_claim (clock n) f))

acquire_claim-owners :
    (clock : ℕ → ℕ) (f : LockFolder) → (acquire_claim clock f).0.owners ≡ f.owners
unfolding acquire_claim
acquire_claim-owners clock f = claim_rounds-owners clock 0 2000 f

module _ (c : String → String → Ordering) (now : ℕ) where
  active-none : (f : LockFolder) → current_owner c now f ≡ none → active_owners now f ≡ []
  unfolding current_owner
  active-none f h =
      let order : OwnerFile → OwnerFile → Ordering = λ a b. c (token_of a) (token_of b) in
      length-none (active_owners now f) (
        sym (length-sort_by order (active_owners now f))
        ∙ last-none (sort_by order (active_owners now f)) h)

  current_owner-owners :
      (f g : LockFolder) → f.owners ≡ g.owners → current_owner c now f ≡ current_owner c now g
  unfolding current_owner
  current_owner-owners f g h = ground (arith, h)

  active-create_owner :
      (token : String) (f : LockFolder) (later : ℕ)
      → current_owner c now f ≡ none
      → now ≤ later
      → later ≤ now + lock_lease_ms
      → active_owners later (create_owner now token f) ≡ (owner_file now token ∷ [])
  unfolding is_expired
  active-create_owner token f later h k l =
      let p : OwnerFile → Bool = λ o. not (is_expired later (metadata_of o)) in
      let gone : active_owners later f ≡ [] =
        expired_later now later k f.owners (active-none f h) in
      let created : keep p (owner_file now token ∷ []) ≡ (owner_file now token ∷ []) =
        ground (arith, k, l) in
      keep-append p f.owners (owner_file now token ∷ [])
      ∙ (ap (λ os. os ++ keep p (owner_file now token ∷ [])) gone ∙ created)

  -- A new owner beside expired ones is the current one as long as its lease lasts.
  current_owner-create_owner :
      (token : String) (f : LockFolder) (later : ℕ)
      → current_owner c now f ≡ none
      → now ≤ later
      → later ≤ now + lock_lease_ms
      → current_owner c later (create_owner now token f) ≡ some (owner_file now token)
  unfolding current_owner sort_by insert_by
  current_owner-create_owner token f later h k l =
      let order : OwnerFile → OwnerFile → Ordering = λ a b. c (token_of a) (token_of b) in
      ap (λ os. last (sort_by order os)) (active-create_owner token f later h k l)

  abbrev owned : String → List OwnerFile → LockPath
  owned token os = lock_folder (record { claim = none; owners = os ++ (owner_file now token ∷ []) })

  IsNew : String → List OwnerFile → Type 0
  IsNew token os = find? (λ o. str_eq o.name_token token) os ≡ none

  -- Whoever holds a lock may use it, and nobody else gets it.
  assert_lock_owner-owned :
      (token : String) (f : LockFolder) (later : ℕ)
      → current_owner c now f ≡ none
      → now ≤ later
      → later ≤ now + lock_lease_ms
      → file_of f token ≡ none
      → assert_lock_owner c later
          (record { owner_token = token })
          (lock_folder (create_owner now token f))
        ≡ ok tt
  unfolding assert_lock_owner is_expired
  assert_lock_owner-owned token f later h k l new =
      let current = current_owner-create_owner token f later h k l in
      let found =
        find?-append (λ o. str_eq o.name_token token) f.owners (owner_file now token ∷ []) new in
      ground (arith, found, current, str_eq_self token, k, l)

  create_claimed_owner-owned :
      (token : String) (f : LockFolder)
      → current_owner c now f ≡ none
      → create_claimed_owner c now token f
        ≡ (lock_folder (create_owner now token f), some (record { owner_token = token }))
  unfolding create_claimed_owner
  create_claimed_owner-owned token f h =
      let current = current_owner-create_owner token f now h (omega arith) (omega arith) in
      ground (arith, current, str_eq_self token)

  -- What an acquisition leaves that got its lock.
  abbrev Got : String → List OwnerFile → LockPath × Option LockHandle → Type 0
  Got token os r = (r.1 ≡ some (record { owner_token = token })) × (r.0 ≡ owned token os)

  acquire_claimed-Got :
      (clock : ℕ → ℕ) (token : String) (checks : Bool) (f : LockFolder)
      → current_owner c now f ≡ none
      → ((acquire_claimed c clock now token checks f).1 ≡ none)
        ⊎ Got token f.owners (acquire_claimed c clock now token checks f)
  unfolding acquire_claimed
  acquire_claimed-Got clock token checks f h =
      let claimed = (acquire_claim clock f).0 in
      let same : claimed.owners ≡ f.owners = acquire_claim-owners clock f in
      let free : current_owner c now claimed ≡ none = current_owner-owners claimed f same ∙ h in
      elim (Bool-cases (acquire_claim clock f).1) [
        | inl taken ↦
            ground (arith, taken, free, same, create_claimed_owner-owned token claimed free)
        | inr busy ↦ inl (ground (arith, busy))
      ]

  -- Its holder may use a lock until `later`, and nobody else gets it.
  abbrev Held : LockPath → LockHandle → ℕ → Type 0
  Held p h later =
      (assert_lock_owner c later h p ≡ ok tt)
      × ((clock : ℕ → ℕ) (other : String) → acquire_lock c clock later other p ≡ (p, none))

  owned-Held :
      (token : String) (f : LockFolder) (later : ℕ)
      → current_owner c now f ≡ none
      → file_of f token ≡ none
      → now ≤ later
      → later ≤ now + lock_lease_ms
      → Held (owned token f.owners) (record { owner_token = token }) later
  unfolding acquire_lock
  owned-Held token f later h new k l =
      let g : LockFolder = record { claim = none; owners = f.owners } in
      let free : current_owner c now g ≡ none = current_owner-owners g f refl ∙ h in
      (
        assert_lock_owner-owned token g later free k l new,
        λ clock other. ground (arith, current_owner-create_owner token g later free k l),
      )

  the_handle : String → Option LockHandle → LockHandle
  the_handle token none = record { owner_token = token }
  the_handle token (some h) = h

  Got-Held :
      (token : String) (f : LockFolder) (r : LockPath × Option LockHandle) (h : LockHandle)
      (later : ℕ)
      → Got token f.owners r
      → r.1 ≡ some h
      → current_owner c now f ≡ none
      → file_of f token ≡ none
      → now ≤ later
      → later ≤ now + lock_lease_ms
      → Held r.0 h later
  unfolding the_handle
  Got-Held token f r h later owned got free new k l =
      let same : record { owner_token = token } ≡ h = ap (the_handle token) (sym owned.0 ∙ got) in
      subst (λ x. Held r.0 x later) same
        (subst (λ p. Held p (record { owner_token = token }) later) (sym owned.1)
          (owned-Held token f later free new k l))

-- The token is not that of a file that is there.
abbrev pub IsNewToken : String → LockPath → Type 0
IsNewToken token (lock_folder f) = file_of f token ≡ none
IsNewToken token p = Unit

new_folder-free : (c : String → String → Ordering) (now : ℕ) → current_owner c now new_folder ≡ none
unfolding current_owner sort_by
new_folder-free c now = refl

-- An acquisition that succeeds starts from a folder without an owner whose lease lasts.
abbrev StartsFrom :
    (String → String → Ordering) → ℕ → String → LockPath × Option LockHandle → LockFolder → Type 0
StartsFrom c now token r f =
    (current_owner c now f ≡ none) × (file_of f token ≡ none) × Got c now token f.owners r

acquire_lock-StartsFrom :
    (c : String → String → Ordering) (clock : ℕ → ℕ) (now : ℕ) (token : String) (p : LockPath)
    → IsNewToken token p
    → ((acquire_lock c clock now token p).1 ≡ none)
      ⊎ ((f : LockFolder) × StartsFrom c now token (acquire_lock c clock now token p) f)
unfolding acquire_lock
acquire_lock-StartsFrom c clock now token absent new =
    elim (acquire_claimed-Got c now clock token false new_folder (new_folder-free c now)) [
      | inl refused ↦ inl refused
      | inr got ↦ inr (new_folder, (new_folder-free c now, refl, got))
    ]
acquire_lock-StartsFrom c clock now token (legacy_file m) new =
    elim (Bool-cases (ltb now (legacy_expiry m))) [
      | inl live ↦ inl (rw live refl)
      | inr over ↦
          rw over
            (elim (acquire_claimed-Got c now clock token false new_folder (new_folder-free c now)) [
              | inl refused ↦ inl refused
              | inr got ↦ inr (new_folder, (new_folder-free c now, refl, got))
            ])
    ]
acquire_lock-StartsFrom c clock now token (lock_folder f) new =
    elim (Option-cases (current_owner c now f)) [
      | inl free ↦ elim (acquire_claimed-Got c now clock token true f free) [
        | inl refused ↦ inl (ground (arith, free, refused))
        | inr got ↦ inr (f, (free, new, ground (arith, free, got)))
      ]
      | inr (o, held) ↦ inl (ground (arith, held))
    ]

-- If a lock is acquired under a token that is not in use, and nothing has changed the path since
-- that acquisition, then until the lease of two minutes ends, its holder may use it, and an attempt
-- to acquire it that starts then, under any token and however its clock runs, fails and changes
-- nothing. Attempts that were under way during the acquisition are not covered.
pub acquire_lock-exclusive :
    (c : String → String → Ordering) (clock : ℕ → ℕ) (now : ℕ) (token : String) (p : LockPath)
    (h : LockHandle)
    → IsNewToken token p
    → (acquire_lock c clock now token p).1 ≡ some h
    → (later : ℕ) → now ≤ later
    → later ≤ now + lock_lease_ms
    → let held = (acquire_lock c clock now token p).0 in
      (assert_lock_owner c later h held ≡ ok tt)
      × ((clock' : ℕ → ℕ) (other : String) → acquire_lock c clock' later other held ≡ (held, none))
acquire_lock-exclusive c clock now token p h new got later k l =
    elim (acquire_lock-StartsFrom c clock now token p new) [
      | inl refused ↦ ground (arith, refused, got)
      | inr (f, from) ↦
          Got-Held c now token f (acquire_lock c clock now token p) h later from.2 got from.0 from.1
            k l
    ]
