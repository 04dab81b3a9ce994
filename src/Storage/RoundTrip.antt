-- ===== src/Storage/RoundTrip.antt =====
-- packages/run-storage/src/index.ts: artifacts that are written and read.
use Prim.Native.String.{◌++◌}
use autopw.Prelude.{
  String, Bool, true, false, not, ◌&&◌, ◌==◌, str_eq, str_eq_iff, Option, some, [], ◌∷◌, all, Dict,
  lookup, insert, lookup-insert_self, Result, ok, err, ◌>>◌, >>=-eq-ok, >>-eq-ok, throw_if, ◌≡◌,
  refl, ap, subst, ◌∙◌, arith, Bool-cases, Option-cases, inl, inr,
}
use autopw.Storage.Names.{
  is_artifact_handle, is_safe_id, assert_safe_segment, assert_safe_file_name,
}
use autopw.Storage.ArtifactIndex.{
  ArtifactRef, ArtifactIndexEntry, ArtifactIndex, RunFiles, Platform, safe_path, is_valid_entry,
  validate_artifact_index, read_artifact_index, or_empty, update_artifact_index,
}
use autopw.Storage.Artifacts.{
  write_immutable, artifacts_folder, case_folder, handle_of, check_artifact, recorded, after_write,
  write_case_artifact, read_indexed, read_artifact_ref,
}

throw_if-ok : {E : Type 0} (bad : Bool) (e : E) → throw_if bad e ≡ ok tt → bad ≡ false
throw_if-ok true e h = ground (arith, h)
throw_if-ok false e h = refl

module _ (p : Platform) where
  -- What is stored cannot be told from the bytes by its size and its digest.
  abbrev pub IsStored : String → String → Type 0
  IsStored bytes found = (p.size found ≡ p.size bytes) × (p.digest found ≡ p.digest bytes)

  write_immutable-IsStored :
      (path bytes : String) (s written : RunFiles)
      → write_immutable p path bytes s ≡ ok written
      → (found : String) × (lookup path written.files ≡ some found) × IsStored bytes found
  unfolding write_immutable
  write_immutable-IsStored path bytes s written h = elim (Option-cases (lookup path s.files)) [
    | inl absent ↦
        (bytes, ground (arith, h, absent, lookup-insert_self path bytes s.files), (refl, refl))
    | inr (existing, there) ↦
        elim (Bool-cases
          (p.size existing == p.size bytes && str_eq (p.digest existing) (p.digest bytes))) [
            | inl same ↦ (
              existing,
              ground (arith, h, there, same),
              (
                ground (arith, same),
                ground (arith, same, str_eq_iff (p.digest existing) (p.digest bytes)),
              ),
            )
            | inr other ↦ ground (arith, h, there, other)
          ]
  ]

  all-lookup :
      (q : String × ArtifactIndexEntry → Bool) (m : Dict ArtifactIndexEntry) (k : String)
      (e : ArtifactIndexEntry)
      → all q m ≡ true
      → lookup k m ≡ some e
      → q (k, e) ≡ true
  unfolding lookup
  all-lookup q [] k e h l = ground (arith, l)
  all-lookup q ((j, d) ∷ m) k e h l = ground (arith, h, l, str_eq_iff j k, all-lookup q m k e)

  update_artifact_index-ok :
      (handle : String) (e : ArtifactIndexEntry) (s t : RunFiles)
      → update_artifact_index p handle e s ≡ ok t
      → (next : ArtifactIndex) × (t ≡ record s { index = some next })
        × (lookup handle next.artifacts ≡ some e)
        × (validate_artifact_index p next ≡ ok tt)
  unfolding update_artifact_index
  update_artifact_index-ok handle e s t h =
      let with_entry : Option ArtifactIndex → ArtifactIndex = λ current. record (or_empty current) {
        artifacts = insert handle e (or_empty current).artifacts;
      } in
      let finish : Option ArtifactIndex → Result String RunFiles = λ current.
        validate_artifact_index p (with_entry current)
        >> ok (record s { index = some (with_entry current) }) in
      let (current, _, rest) = >>=-eq-ok (read_artifact_index p s) finish h in
      let parts =
        >>-eq-ok (validate_artifact_index p (with_entry current))
          (ok (record s { index = some (with_entry current) })) rest in
      (
        with_entry current,
        ground (arith, parts.1),
        lookup-insert_self handle e (or_empty current).artifacts,
        parts.0,
      )

  is_artifact_handle-lookup :
      (index : ArtifactIndex) (handle : String) (e : ArtifactIndexEntry)
      → validate_artifact_index p index ≡ ok tt
      → lookup handle index.artifacts ≡ some e
      → is_artifact_handle handle ≡ true
  unfolding validate_artifact_index is_valid_entry
  is_artifact_handle-lookup index handle e h l =
      let listed : all (is_valid_entry p) index.artifacts ≡ true = ground (arith, h) in
      let valid : is_valid_entry p (handle, e) ≡ true =
        all-lookup (is_valid_entry p) index.artifacts handle e listed l in
      ground (arith, valid)

  check_artifact-ok :
      (run_id case_id name kind path : String)
      → check_artifact p run_id case_id name kind path ≡ ok tt
      → (is_safe_id kind ≡ true) × (safe_path p path ≡ ok tt)
  check_artifact-ok run_id case_id name kind path h =
      let paths = safe_path p (case_folder case_id) >> safe_path p path in
      let runs = assert_safe_segment run_id >> paths in
      let cases = assert_safe_segment case_id >> runs in
      let bad = not (is_safe_id kind) in
      let named =
        >>-eq-ok (assert_safe_file_name p.basename name)
          (throw_if bad "ARTIFACT_KIND_INVALID" >> cases) h in
      let of_kind = >>-eq-ok (throw_if bad "ARTIFACT_KIND_INVALID") cases named.1 in
      let in_case = >>-eq-ok (assert_safe_segment case_id) runs of_kind.1 in
      let in_run = >>-eq-ok (assert_safe_segment run_id) paths in_case.1 in
      let in_folder = >>-eq-ok (safe_path p (case_folder case_id)) (safe_path p path) in_run.1 in
      (ground (arith, throw_if-ok bad "ARTIFACT_KIND_INVALID" of_kind.0), in_folder.1)

  read_indexed-ok :
      (ref : ArtifactRef) (e : ArtifactIndexEntry) (index : ArtifactIndex) (s : RunFiles)
      (found : String)
      → s.index ≡ some index
      → validate_artifact_index p index ≡ ok tt
      → lookup ref.handle index.artifacts ≡ some e
      → is_safe_id ref.kind ≡ true
      → e.kind ≡ ref.kind
      → safe_path p e.relative_path ≡ ok tt
      → lookup e.relative_path s.files ≡ some found
      → (p.size found ≡ e.size_bytes) × (p.digest found ≡ e.sha256)
      → read_indexed p ref s ≡ ok found
  unfolding read_indexed read_artifact_index
  read_indexed-ok ref e index s found at valid listed safe same path there whole =
      let opened : read_artifact_index p s ≡ ok (some index) = ground (arith, at, valid) in
      ground (
        arith,
        opened,
        listed,
        safe,
        same,
        path,
        there,
        whole,
        str_eq_iff e.kind ref.kind,
        str_eq_iff (p.digest found) e.sha256,
      )

  after_write-ok :
      (next : RunFiles → RunFiles × Result String ArtifactRef) (s t : RunFiles)
      (r : Result String RunFiles) (ref : ArtifactRef)
      → after_write next s r ≡ (t, ok ref)
      → (written : RunFiles) × (r ≡ ok written) × (next written ≡ (t, ok ref))
  after_write-ok next s t (err code) ref h = ground (arith, h)
  after_write-ok next s t (ok written) ref h = (written, refl, h)

  recorded-ok :
      (s t : RunFiles) (ref ref' : ArtifactRef) (r : Result String RunFiles)
      → recorded s ref r ≡ (t, ok ref')
      → (r ≡ ok t) × (ref ≡ ref')
  recorded-ok s t ref ref' (err code) h = ground (arith, h)
  recorded-ok s t ref ref' (ok s') h = (ground (arith, h), ground (arith, h))

  -- What a reference reads, for one whose entry was just set.
  read_artifact_ref-updated :
      (run_id kind bytes found : String) (ref : ArtifactRef) (e : ArtifactIndexEntry)
      (written t : RunFiles)
      → update_artifact_index p ref.handle e written ≡ ok t
      → is_safe_id ref.kind ≡ true
      → e.kind ≡ ref.kind
      → safe_path p e.relative_path ≡ ok tt
      → lookup e.relative_path written.files ≡ some found
      → (p.size found ≡ e.size_bytes) × (p.digest found ≡ e.sha256)
      → read_artifact_ref p run_id ref t ≡ ok found
  unfolding read_artifact_ref
  read_artifact_ref-updated run_id kind bytes found ref e written t h safe same path there whole =
      let (next, after, listed, valid) = update_artifact_index-ok ref.handle e written t h in
      let handled = is_artifact_handle-lookup next ref.handle e valid listed in
      let reads =
        read_indexed-ok ref e next t found (ap (λ r. r.index) after) valid listed safe same path
          (ap (λ r. lookup e.relative_path r.files) after ∙ there) whole in
      ground (arith, handled, reads)

-- An artifact that was written is read by the reference that the writer got: the bytes that are read
-- have the size and the digest of those that were written.
pub read_artifact_ref-write_case_artifact :
    (p : Platform) (run_id case_id name kind bytes : String) (s t : RunFiles) (ref : ArtifactRef)
    → write_case_artifact p run_id case_id name kind bytes s ≡ (t, ok ref)
    → (found : String) × (read_artifact_ref p run_id ref t ≡ ok found)
      × (p.size found ≡ p.size bytes)
      × (p.digest found ≡ p.digest bytes)
unfolding write_case_artifact read_artifact_ref
read_artifact_ref-write_case_artifact p run_id case_id name kind bytes s t ref h =
    let handle = handle_of p run_id case_id name kind bytes in
    let path = artifacts_folder case_id ++ (handle ++ p.extname name) in
    let e : ArtifactIndexEntry = record {
      relative_path = path;
      kind = kind;
      size_bytes = p.size bytes;
      sha256 = p.digest bytes;
      display_name = some name;
    } in
    let made : ArtifactRef = record {
      handle = handle;
      kind = kind;
      size_bytes = some (p.size bytes);
    } in
    let checked = check_artifact p run_id case_id name kind path in
    let next : RunFiles → RunFiles × Result String ArtifactRef =
      λ w. recorded w made (update_artifact_index p handle e w) in
    let (written, wrote, indexed) =
      after_write-ok p next s t (checked >> write_immutable p path bytes s) ref h in
    let done = >>-eq-ok checked (write_immutable p path bytes s) wrote in
    let allowed = check_artifact-ok p run_id case_id name kind path done.0 in
    let (found, there, whole) = write_immutable-IsStored p path bytes s written done.1 in
    let (updated, same) =
      recorded-ok p written t made ref (update_artifact_index p handle e written) indexed in
    let reads =
      read_artifact_ref-updated p run_id kind bytes found made e written t updated allowed.0 refl
        allowed.1 there whole in
    (found, subst (λ r. read_artifact_ref p run_id r t ≡ ok found) same reads, whole.0, whole.1)
