-- ===== src/Storage/ArtifactIndex.antt =====
-- packages/run-storage/src/index.ts: the index of a run's artifacts. The locks are free, no call of the
-- file system fails, and a file is known by its path in the run's folder.
use Prim.Native.Char.{code}
use Prim.Native.String.{◌++◌}
use autopw.Prelude.{
  ℕ, String, Bool, true, false, not, ◌&&◌, ◌||◌, str_eq, truthy, Option, none, some, is_some, [],
  all, Dict, insert, Result, ok, err, ◌>>=◌, ◌>>◌, throw_if,
}
use autopw.Storage.Names.{
  is_safe_id, strip_prefix, strip_hex, is_artifact_handle, is_artifact_index_path,
  is_safe_display_name,
}

pub record ArtifactRef : Type 0 where
  pub handle : String
  pub kind : String
  pub size_bytes : Option ℕ

pub record ArtifactIndexEntry : Type 0 where
  pub relative_path : String
  pub kind : String
  pub size_bytes : ℕ
  pub sha256 : String
  pub display_name : Option String

pub record ArtifactIndex : Type 0 where
  pub schema_version : String
  pub artifacts : Dict ArtifactIndexEntry

-- The folder of a run; `artifact-index.json` is kept apart.
pub record RunFiles : Type 0 where
  pub files : Dict String
  pub index : Option ArtifactIndex

-- `node:path`, the digest as hexadecimal text, the size of some bytes, and the code with which
-- `safePath` throws for a name, if it does.
pub record Platform : Type 0 where
  pub basename : String → String
  pub extname : String → String
  pub digest : String → String
  pub size : String → ℕ
  pub escape : String → Option String

abbrev pub safe_path : Platform → String → Result String (Unit {0})
safe_path p name = elim (p.escape name) [ none ↦ ok tt | some code ↦ err code ]

-- The stored name is the handle, or goes on behind it with a dot.
abbrev pub is_stored_as : String → String → Bool
is_stored_as handle stored = str_eq stored handle || is_some (strip_prefix (handle ++ ".") stored)

abbrev pub is_shown : Platform → Option String → Bool
is_shown p none = true
is_shown p (some name) = is_safe_display_name p.basename name

abbrev pub is_hex_64 : String → Bool
is_hex_64 s = elim (strip_hex 64 s) [ none ↦ false | some rest ↦ not (truthy rest) ]

unfoldable pub is_valid_entry : Platform → String × ArtifactIndexEntry → Bool
unfolding is_artifact_handle is_artifact_index_path is_safe_id is_safe_display_name strip_hex
    strip_prefix
is_valid_entry p (handle, entry) =
    is_artifact_handle handle
    && is_artifact_index_path entry.relative_path
    && is_stored_as handle (p.basename entry.relative_path)
    && is_safe_id entry.kind
    && is_hex_64 entry.sha256
    && is_shown p entry.display_name

-- `validateArtifactIndex`
unfoldable pub validate_artifact_index : Platform → ArtifactIndex → Result String (Unit {0})
unfolding is_valid_entry
validate_artifact_index p index =
    throw_if (not (str_eq index.schema_version "1.0" && all (is_valid_entry p) index.artifacts))
      "ARTIFACT_INDEX_INVALID"

-- `readArtifactIndex`
unfoldable pub read_artifact_index : Platform → RunFiles → Result String (Option ArtifactIndex)
unfolding validate_artifact_index
read_artifact_index p s = elim s.index [
  | none ↦ ok none
  | some index ↦ validate_artifact_index p index >> ok (some index)
]

abbrev pub or_empty : Option ArtifactIndex → ArtifactIndex
or_empty none = record { schema_version = "1.0"; artifacts = [] }
or_empty (some index) = index

-- `updateArtifactIndex`, for a mutator that sets one entry.
unfoldable pub update_artifact_index :
    Platform → String → ArtifactIndexEntry → RunFiles → Result String RunFiles
unfolding validate_artifact_index read_artifact_index
update_artifact_index p handle entry s = do
  current ← read_artifact_index p s
  let next : ArtifactIndex = record (or_empty current) {
    artifacts = insert handle entry (or_empty current).artifacts;
  }
  validate_artifact_index p next
  ok (record s { index = some next })
