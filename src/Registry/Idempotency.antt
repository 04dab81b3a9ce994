-- ===== src/Registry/Idempotency.antt =====
-- packages/operation-registry/src/index.ts: creation under a key. What a repeated request gets,
-- and when a request is turned away.
use mathlib.Core.List.{Memᴰ}
use autopw.Prelude.{
  ℕ, ◌≤◌, ◌<◌, String, Bool, true, false, not, ◌&&◌, none, some, List, [], ◌∷◌, leb, str_eq_iff,
  truthy, if◌then◌else◌, lookup, values, keep, lookup-insert, All, All-values, lookup-Mem, length,
  ok, err, ◌≡◌, refl, sym, subst, ◌↔◌, arith, Bool-cases, inl, inr, ap, ◌∙◌, >>=-eq-ok,
}
use autopw.Json.{Json, same_json}
use autopw.Json.Order.{IsReordered, same_json-IsReordered}
use autopw.Registry.Versions.{RunUpdate, update_runs, update_run-kept}
use autopw.Registry.Records.{OperationRecord, idempotency_key}
use autopw.Registry.Invariant.{IsConsistent}
use autopw.Registry.{
  Registry, CreateInput, Created, create, create_again, create_new, same_params, get,
  find_by_idempotency, update_run, idempotency_conflict, backpressure_refused, reclaimable_count,
}

-- What updates keep of an operation that they may or may not be about, and of the index.
record IsKept (r next : Registry) (id : String) (o : OperationRecord) : Type 0 where
  index : next.index ≡ r.index
  current : OperationRecord
  found : lookup id next.by_id ≡ some current
  params : current.params ≡ o.params

update_runs-IsKept :
    (r next : Registry) (id : String) (o : OperationRecord) (us : List RunUpdate)
    → lookup id r.by_id ≡ some o
    → update_runs r us ≡ ok next
    → IsKept r next id o
unfolding update_runs
update_runs-IsKept r next id o [] h k =
    let same : r ≡ next = ground (arith, k) in
    record {
      index = ap (λ x. x.index) (sym same);
      current = o;
      found = subst (λ x. lookup id x.by_id ≡ some o) same h;
      params = refl;
    }
update_runs-IsKept r next id o (u ∷ us) h k =
    let (step, first, rest) =
      >>=-eq-ok (update_run r u.at u.run u.status) (λ x. update_runs x.0 us) k in
    let (index, now, at, same) = update_run-kept r step.0 step.1 id o u h first in
    let kept = update_runs-IsKept step.0 next id now us at rest in
    record {
      index = kept.index ∙ index;
      current = kept.current;
      found = kept.found;
      params = kept.params ∙ same;
    }

created_at :
    (r next : Registry) (now : ℕ) (id : String) (input : CreateInput) (made : Created)
    → truthy id ≡ true
    → create r now id input ≡ ok (next, made)
    → made.is_new ≡ true
    → (lookup (idempotency_key input.workspace_id input.tool input.client_request_id) next.index
        ≡ some made.operation_id)
      × (lookup made.operation_id next.by_id ≡ some made.operation)
      × (made.operation.params ≡ input.params)
      × (truthy input.client_request_id ≡ true)
      × (truthy made.operation_id ≡ true)
unfolding create create_again create_new
created_at r next now id input made named h new =
    let key = idempotency_key input.workspace_id input.tool input.client_request_id in
    ground (
      arith,
      lookup-insert key key id r.index,
      str_eq_iff key key,
      lookup-insert id id made.operation r.by_id,
      str_eq_iff id id,
    )

-- A request under the key of a stored operation.
create-stored :
    (r : Registry) (now : ℕ) (other id : String) (input : CreateInput) (o : OperationRecord)
    → truthy input.client_request_id ≡ true
    → truthy id ≡ true
    → lookup (idempotency_key input.workspace_id input.tool input.client_request_id) r.index
      ≡ some id
    → lookup id r.by_id ≡ some o
    → create r now other input ≡ (
        if same_json o.params input.params
        then ok (r, record { operation_id = id; operation = o; is_new = false })
        else err (idempotency_conflict id))
unfolding create create_again same_params
create-stored r now other id input o asked named indexed stored = ground arith

-- Once an operation was created, and after any updates that record the progress of operations, a
-- request under the same workspace, tool and client request id changes nothing. If its parameters
-- are those of the first request up to the order of the keys in their objects, it gets the operation
-- as it stands now. Any others are compared by their canonical texts, and refused, where those
-- differ, as a conflict that names the operation. The time and the id drawn for the later request
-- play no part, nor do watermarks.
pub create_repeated :
    (r : Registry) (now later : ℕ) (id other : String) (input : CreateInput)
    (reordered params : Json) (next after : Registry) (made : Created) (us : List RunUpdate)
    → truthy id ≡ true
    → create r now id input ≡ ok (next, made)
    → made.is_new ≡ true
    → update_runs next us ≡ ok after
    → IsReordered input.params reordered
    → (current : OperationRecord) × (lookup made.operation_id after.by_id ≡ some current)
      × (let again : Registry × Created = (
        after,
        record { operation_id = made.operation_id; operation = current; is_new = false },
      ) in
          (create after later other (record input { params = reordered }) ≡ ok again)
          × (create after later other (record input { params = params }) ≡ (
              if same_json input.params params
              then ok again
              else err (idempotency_conflict made.operation_id))))
create_repeated r now later id other input reordered params next after made us named h new updated
      alike =
    let (indexed, stored, params_kept, asked, is_named) =
      created_at r next now id input made named h new in
    let kept = update_runs-IsKept next after made.operation_id made.operation us stored updated in
    let same = kept.params ∙ params_kept in
    let found =
      ap (lookup (idempotency_key input.workspace_id input.tool input.client_request_id)) kept.index
      ∙ indexed in
    let answer = λ (p : Json).
      create-stored after later other made.operation_id (record input { params = p }) kept.current
        asked is_named found kept.found in
    (
      kept.current,
      kept.found,
      (
        ground (arith, answer reordered, same, same_json-IsReordered input.params reordered alike),
        ground (arith, answer params, same),
      ),
    )

-- A created operation is found again by its key.
pub find_by_idempotency-create :
    (r : Registry) (now : ℕ) (id : String) (input : CreateInput) (next : Registry) (made : Created)
    → truthy id ≡ true
    → create r now id input ≡ ok (next, made)
    → made.is_new ≡ true
    → find_by_idempotency next input.workspace_id input.tool input.client_request_id
      ≡ some made.operation
unfolding create create_again create_new find_by_idempotency get
find_by_idempotency-create r now id input next made named h new =
    let key = idempotency_key input.workspace_id input.tool input.client_request_id in
    ground (
      arith,
      lookup-insert key key id r.index,
      str_eq_iff key key,
      lookup-insert id id made.operation r.by_id,
      str_eq_iff id id,
    )

length-keep_none :
    (p : OperationRecord → Bool) (os : List OperationRecord)
    → length (keep p os) ≡ 0
    → All (λ o. p o ≡ false) os
length-keep_none p [] h = tt
length-keep_none p (o ∷ os) h = elim (Bool-cases (p o)) [
  | inl e ↦ absurd (ground (arith, h, e))
  | inr e ↦ (e, length-keep_none p os (ground (arith, h, e)))
]

keep_none-length :
    (p : OperationRecord → Bool) (os : List OperationRecord)
    → All (λ o. p o ≡ false) os
    → length (keep p os) ≡ 0
keep_none-length p [] h = refl
keep_none-length p (o ∷ os) h = ground (arith, h, keep_none-length p os h.1)

All-Memᴰ :
    (P : OperationRecord → Type 0) (os : List OperationRecord) (o : OperationRecord)
    → All P os
    → Memᴰ o os
    → P o
All-Memᴰ P [] o h m = elim m [ ]
All-Memᴰ P (p ∷ os) o h (Memᴰ.head e) = subst P (sym e) h.0
All-Memᴰ P (p ∷ os) o h (Memᴰ.tail m) = All-Memᴰ P os o h.1 m

-- Nothing can be reclaimed exactly when no stored record has expired.
reclaimable_count-zero_iff :
    (r : Registry) (now : ℕ)
    → IsConsistent r
    → (reclaimable_count r now ≡ 0)
      ↔ ((id : String) (o : OperationRecord) → lookup id r.by_id ≡ some o → now < o.expires_at)
unfolding reclaimable_count
reclaimable_count-zero_iff r now c = (
  λ h id o at. ground (
    arith,
    (c.stored id o at).live,
    All-Memᴰ (λ p. (not p.tombstoned && leb p.expires_at now) ≡ false) (values r.by_id) o
        (length-keep_none _ (values r.by_id) h) (lookup-Mem id o r.by_id at),
  ),
  λ h. keep_none-length _ (values r.by_id) (
      All-values (λ p. (not p.tombstoned && leb p.expires_at now) ≡ false) r.by_id c.unique_by_id
        (λ k o at. ground (arith, h k o at))),
)

-- A request under a new key is turned away for back pressure exactly when the registry holds at
-- least `high_watermark` operations and none of them has expired.
pub create-backpressure_iff :
    (r : Registry) (now : ℕ) (id : String) (input : CreateInput)
    → IsConsistent r
    → truthy input.client_request_id ≡ true
    → lookup (idempotency_key input.workspace_id input.tool input.client_request_id) r.index ≡ none
    → (create r now id input ≡ err backpressure_refused) ↔ (
        (r.retention.high_watermark ≤ length r.by_id)
        × ((j : String) (o : OperationRecord) → lookup j r.by_id ≡ some o → now < o.expires_at))
unfolding create create_new
create-backpressure_iff r now id input c asked free = (
  λ h. (ground (arith, h), (reclaimable_count-zero_iff r now c).0 (ground (arith, h))),
  λ h. ground (arith, h.0, (reclaimable_count-zero_iff r now c).1 h.1),
)
