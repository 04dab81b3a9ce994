-- ===== src/Storage/Artifacts.antt =====
-- packages/run-storage/src/index.ts: the artifacts of a run and their index. The locks are free, no
-- call of the file system fails, and a file is known by its path in the run's folder.
use Prim.Native.Char.{code}
use Prim.Native.String.{◌++◌}
use autopw.Prelude.{
  String, false, not, ◌&&◌, ◌||◌, ◌==◌, str_eq, truthy, none, some, if◌then◌else◌, lookup, insert,
  Result, ok, err, ◌>>=◌, ◌>>◌, throw_if,
}
use autopw.Storage.Names.{
  all_chars, is_display_char, matches_some, is_safe_id, strip_prefix, is_artifact_handle,
  assert_safe_segment, assert_safe_file_name, case_storage_segment, drop_chars, take_chars,
}
use autopw.Storage.ArtifactIndex.{
  ArtifactRef, ArtifactIndexEntry, RunFiles, Platform, safe_path, read_artifact_index, or_empty,
  update_artifact_index,
}

-- `_writeImmutableFile`
unfoldable pub write_immutable : Platform → String → String → RunFiles → Result String RunFiles
write_immutable p name bytes s = elim (lookup name s.files) [
  | none ↦ ok (record s { files = insert name bytes s.files })
  | some existing ↦
      if p.size existing == p.size bytes && str_eq (p.digest existing) (p.digest bytes)
      then ok s
      else err "ARTIFACT_HANDLE_COLLISION"
]

abbrev pub case_folder : String → String
case_folder case_id = "cases/" ++ case_storage_segment case_id

abbrev pub artifacts_folder : String → String
artifacts_folder case_id = "cases/" ++ (case_storage_segment case_id ++ "/artifacts/")

-- The handle: a digest of the run, the logical path, the kind and the bytes.
abbrev pub handle_of : Platform → String → String → String → String → String → String
handle_of p run_id case_id name kind bytes =
    "art_" ++ p.digest (run_id ++ "\0" ++ artifacts_folder case_id ++ name ++ "\0" ++ kind ++ bytes)

-- What `writeCaseArtifact` asserts before it writes.
abbrev pub check_artifact :
    Platform → String → String → String → String → String → Result String (Unit {0})
check_artifact p run_id case_id name kind path =
    assert_safe_file_name p.basename name
    >> (throw_if (not (is_safe_id kind)) "ARTIFACT_KIND_INVALID"
        >> (assert_safe_segment case_id
            >> (assert_safe_segment run_id
                >> (safe_path p (case_folder case_id) >> safe_path p path))))

-- The result of a method that may throw after it has written.
abbrev pub recorded :
    RunFiles → ArtifactRef → Result String RunFiles → RunFiles × Result String ArtifactRef
recorded s ref (err code) = (s, err code)
recorded s ref (ok s') = (s', ok ref)

abbrev pub after_write :
    (RunFiles → RunFiles × Result String ArtifactRef)
    → RunFiles
    → Result String RunFiles
    → RunFiles × Result String ArtifactRef
after_write next s (err code) = (s, err code)
after_write next s (ok written) = next written

-- `writeCaseArtifact`
unfoldable pub write_case_artifact :
    Platform
    → String
    → String
    → String
    → String
    → String
    → RunFiles
    → RunFiles × Result String ArtifactRef
unfolding assert_safe_segment assert_safe_file_name is_safe_id write_immutable update_artifact_index
write_case_artifact p run_id case_id name kind bytes s =
    let handle = handle_of p run_id case_id name kind bytes in
    let path = artifacts_folder case_id ++ (handle ++ p.extname name) in
    let entry : ArtifactIndexEntry = record {
      relative_path = path;
      kind = kind;
      size_bytes = p.size bytes;
      sha256 = p.digest bytes;
      display_name = some name;
    } in
    let ref : ArtifactRef = record {
      handle = handle;
      kind = kind;
      size_bytes = some (p.size bytes);
    } in
    after_write (λ written. recorded written ref (update_artifact_index p handle entry written)) s
      (check_artifact p run_id case_id name kind path >> write_immutable p path bytes s)

-- What `readArtifactRef` does for a handle of the index.
unfoldable pub read_indexed : Platform → ArtifactRef → RunFiles → Result String String
unfolding read_artifact_index is_safe_id
read_indexed p ref s = read_artifact_index p s >>= λ index.
    elim (lookup ref.handle (or_empty index).artifacts) [
      | none ↦ err "ARTIFACT_HANDLE_INVALID"
      | some entry ↦
          throw_if (not (is_safe_id ref.kind) || not (str_eq entry.kind ref.kind))
            "ARTIFACT_HANDLE_INVALID"
          >> (safe_path p entry.relative_path >> (elim (lookup entry.relative_path s.files) [
            | none ↦ err "RESULT_EXPIRED"
            | some bytes ↦
                throw_if
                  (not (p.size bytes == entry.size_bytes)
                    || not (str_eq (p.digest bytes) entry.sha256))
                  "ARTIFACT_CORRUPT"
                >> ok bytes
          ]))
    ]

-- The prefix that binds an older handle to its run.
abbrev pub run_prefix : String → String
run_prefix run_id = "art_" ++ (take_chars 8 (drop_chars 4 run_id) ++ "_")

-- `readArtifactRef` for a handle that names a file.
unfoldable pub read_named : Platform → String → ArtifactRef → RunFiles → Result String String
unfolding strip_prefix all_chars is_display_char
read_named p run_id ref s = elim (strip_prefix (run_prefix run_id) ref.handle) [
  | none ↦ err "ARTIFACT_HANDLE_INVALID"
  | some name ↦
      throw_if
        (not (elim (strip_prefix "art_" ref.handle) [
          | none ↦ false
          | some rest ↦ matches_some is_display_char rest
        ]))
        "ARTIFACT_HANDLE_INVALID"
      >> (throw_if
            (not (truthy name)
              || not (str_eq (p.basename name) name)
              || (truthy ref.kind && not (str_eq name ref.kind)))
            "ARTIFACT_HANDLE_INVALID"
          >> (safe_path p ("artifacts/" ++ name) >> (elim (lookup ("artifacts/" ++ name) s.files) [
            | none ↦ err "RESULT_EXPIRED"
            | some bytes ↦ ok bytes
          ])))
]

-- `readArtifactRef`
unfoldable pub read_artifact_ref : Platform → String → ArtifactRef → RunFiles → Result String String
unfolding is_artifact_handle read_indexed read_named
read_artifact_ref p run_id ref s =
    if is_artifact_handle ref.handle then read_indexed p ref s else read_named p run_id ref s

-- `name.replace(/[^A-Za-z0-9_.-]/g, "_")`
unfoldable pub plain_name : String → String
plain_name String.[] = String.[]
plain_name (String.◌∷◌ c s) =
    let rest = plain_name s in if is_display_char c then String.◌∷◌ c rest else String.◌∷◌ "_" rest

-- `writeArtifact`, which replaces a file that is there.
unfoldable pub write_artifact :
    Platform → String → String → String → String → RunFiles → Result String (RunFiles × ArtifactRef)
unfolding plain_name
write_artifact p run_id name kind bytes s =
    safe_path p ("artifacts/" ++ name)
    >> ok (
      record s { files = insert ("artifacts/" ++ name) bytes s.files },
      record {
        handle = run_prefix run_id ++ plain_name name;
        kind = kind;
        size_bytes = some (p.size bytes);
      },
    )

-- `artifactRef`
unfoldable pub artifact_ref : Platform → String → String → String → Result String ArtifactRef
unfolding plain_name is_safe_id assert_safe_segment assert_safe_file_name
artifact_ref p run_id name kind =
    assert_safe_segment run_id
    >> (assert_safe_file_name p.basename name
        >> (throw_if (not (is_safe_id kind)) "ARTIFACT_KIND_INVALID"
            >> ok (record {
              handle = run_prefix run_id ++ plain_name name;
              kind = kind;
              size_bytes = none;
            })))

-- `readArtifact`
unfoldable pub read_artifact : Platform → String → RunFiles → Result String String
read_artifact p name s =
    safe_path p ("artifacts/" ++ name) >> (elim (lookup ("artifacts/" ++ name) s.files) [
      | none ↦ err "ENOENT"
      | some bytes ↦ ok bytes
    ])
