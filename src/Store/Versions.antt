-- ===== src/Store/Versions.antt =====
-- internal/store/file_store.go, `FileVersionStore`: the rows of `file_versions` and `file_features`.
pub mod Latest
pub mod Cloned
use prowiki.Base.{
  ℕ, zero, suc, Bool, true, false, ◌&&◌, String, List, [], ◌∷◌, ◌++◌, map, select, first_where,
  exists_where, update_where, ◌==◌, if◌then◌else◌, Option, none, some, Bytes,
}
use prowiki.Domain.Errors.{Error, Result, ok, err, panicked, is_no_rows}
use prowiki.Domain.Entities.{FileVersion, FileFeature}
use prowiki.Db.Schema.{Tables, VersionRow, insert, next_id, has_file, has_version, has_feature}
use prowiki.Db.Io.{Env, World, Io, Query, pure, ◌>>◌, statement}

abbrev pub version_row : ℕ → ℕ → Bytes → String → Bool → ℕ → VersionRow
version_row now file content hash latest id = record {
  id = id;
  file_id = file;
  content = content;
  ast_hash = hash;
  summary = none;
  is_latest = latest;
  created_at = now;
}

unfoldable pub insert_version_query : ℕ → Bytes → String → Bool → Query ℕ
insert_version_query file content hash latest now t =
    if has_file t file
    then ok (
      next_id t.versions,
      record t { versions = insert (version_row now file content hash latest) t.versions },
    )
    else err (Error.constraint "FOREIGN KEY constraint failed")

-- `InsertVersion`, which sets `version.ID`: the result is that id. The INSERT names no summary.
unfoldable pub insert_version : Env → ℕ → Bytes → String → Bool → Io ℕ
unfolding insert_version_query statement
insert_version env file content hash latest =
    statement env (insert_version_query file content hash latest)

-- `sql.ErrNoRows` becomes `domain.ErrNotFound`.
abbrev pub or_not_found : {A : Type 0} → Result A × World → Result A × World
or_not_found (ok a, w) = (ok a, w)
or_not_found (err e, w) = (err (if is_no_rows e then Error.not_found else e), w)
or_not_found (panicked p, w) = (panicked p, w)

abbrev pub is_latest_of : ℕ → VersionRow → Bool
is_latest_of file v = (v.file_id == file) && v.is_latest

-- The struct that the row is scanned into; a column that is not selected keeps the zero value.
abbrev pub scanned : VersionRow → String → FileVersion
scanned v summary = record {
  id = v.id;
  file_id = v.file_id;
  content = v.content;
  ast_hash = v.ast_hash;
  is_latest = v.is_latest;
  summary = summary;
  created_at = v.created_at;
}

unfoldable pub latest_query : ℕ → Query FileVersion
latest_query file now t = elim (first_where (is_latest_of file) t.versions.rows) [
  | none ↦ err Error.no_rows
  | some v ↦ ok (scanned v "", t)
]

-- `LatestByFileID`: the SELECT does not name the summary.
unfoldable pub latest_by_file_id : Env → ℕ → Io FileVersion
unfolding latest_query statement
latest_by_file_id env file w = or_not_found (statement env (latest_query file) w)

abbrev pub mark_latest : Bool → VersionRow → VersionRow
mark_latest b v = record v { is_latest = b }

unfoldable pub mark_rows : Bool → ℕ → List VersionRow → List VersionRow
mark_rows b id rows = update_where (λ (v : VersionRow). v.id == id) (mark_latest b) rows

unfoldable pub mark_query : Bool → ℕ → Query (Unit {0})
unfolding mark_rows
mark_query b id now t = ok (
  tt,
  record t { versions = record { rows = mark_rows b id t.versions.rows; seq = t.versions.seq } },
)

-- `oldVersionID != 0`
abbrev pub demote : Env → ℕ → Io (Unit {0})
demote env old = if old == 0 then pure tt else statement env (mark_query false old)

-- `SetLatest`
unfoldable pub set_latest : Env → ℕ → ℕ → Io (Unit {0})
unfolding mark_query statement
set_latest env new old = demote env old >> statement env (mark_query true new)

abbrev pub is_junction : ℕ → ℕ → FileFeature → Bool
is_junction version feature r = (r.file_version_id == version) && (r.feature_id == feature)

-- One row of an INSERT into `file_features`, with its FOREIGN KEYs.
abbrev pub link : ℕ → ℕ → Tables → Tables
link version feature t = record t {
  file_features =
      t.file_features ++ record { file_version_id = version; feature_id = feature } ∷ [];
}

abbrev pub is_linkable : Tables → ℕ → ℕ → Bool
is_linkable t version feature = has_version t version && has_feature t feature

-- The rows that the SELECT gave, inserted for `new`; the PRIMARY KEY refuses a pair that is there.
unfoldable pub clone_rows : ℕ → List FileFeature → Query (Unit {0})
clone_rows new [] now t = ok (tt, t)
clone_rows new (r ∷ rs) now t = elim (exists_where (is_junction new r.feature_id) t.file_features) [
  | true ↦ err (Error.constraint "UNIQUE constraint failed")
  | false ↦ elim (is_linkable t new r.feature_id) [
    | true ↦ clone_rows new rs now (link new r.feature_id t)
    | false ↦ err (Error.constraint "FOREIGN KEY constraint failed")
  ]
]

abbrev pub junctions_of : ℕ → List FileFeature → List FileFeature
junctions_of version = select (λ (r : FileFeature). r.file_version_id == version)

unfoldable pub clone_query : ℕ → ℕ → Query (Unit {0})
unfolding clone_rows
clone_query old new now t = clone_rows new (junctions_of old t.file_features) now t

-- `CloneJunctions`
unfoldable pub clone_junctions : Env → ℕ → ℕ → Io (Unit {0})
unfolding clone_query statement
clone_junctions env old new = statement env (clone_query old new)

abbrev pub summary_text : Option String → String
summary_text none = ""
summary_text (some s) = s

unfoldable pub version_query : ℕ → Query FileVersion
version_query id now t = elim (first_where (λ (v : VersionRow). v.id == id) t.versions.rows) [
  | none ↦ err Error.no_rows
  | some v ↦ ok (scanned v (summary_text v.summary), t)
]

-- `GetByID`
unfoldable pub get_by_id : Env → ℕ → Io FileVersion
unfolding version_query statement
get_by_id env id w = or_not_found (statement env (version_query id) w)

unfoldable pub summary_query : ℕ → String → Query (Unit {0})
summary_query id summary now t = ok (
  tt,
  record t {
    versions = record {
      rows =
          update_where (λ (v : VersionRow). v.id == id)
            (λ (v : VersionRow). record v { summary = some summary }) t.versions.rows;
      seq = t.versions.seq;
    };
  },
)

-- `UpdateSummary`
unfoldable pub update_summary : Env → ℕ → String → Io (Unit {0})
unfolding summary_query statement
update_summary env id summary = statement env (summary_query id summary)
