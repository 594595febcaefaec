-- ===== src/Ingest.antt =====
-- internal/app/ingest/service.go: taking the files of a project into the database.
pub mod Current
pub mod Swap
pub mod Single
pub mod Written
pub mod Effect
pub mod Appended
pub mod Newest
pub mod Through
pub mod Keyed
pub mod Watched
pub mod Lookup
pub mod Stays
pub mod Taken
pub mod Complete
pub mod Walked
pub mod Returns
pub mod Whole
use prowiki.Base.{
  ℕ, zero, Bool, true, false, String, str_eq, List, [], ◌∷◌, ◌==◌, if◌then◌else◌, Option, none,
  some, Bytes,
}
use prowiki.Domain.Errors.{Error, Result, ok, err, panicked, is_not_found}
use prowiki.Domain.Enums.{pending, Stage, stage_level1_overview}
use prowiki.Domain.Entities.{Job, File, FileVersion}
use prowiki.Domain.Language.{Language, language_from_path}
use prowiki.Db.Io.{Env, World, Io, pure, raise, lift, ◌>>=◌, ◌>>◌}
use prowiki.Txn.{TxFunc, immediate}
use prowiki.Store.Files
use prowiki.Store.Versions
use prowiki.Store.Jobs

pub record Tree : Type 0 where
  pub hash : String

-- What the service is given: the interface `Parser`, the file system, `filepath.Rel` from the
-- project's root, and its project.
pub record Service : Type 0 where
  pub parse : Language → Bytes → Result Tree
  pub structural_hash : Tree → Result String
  pub read_file : Bytes → Result Bytes
  pub rel_path : Bytes → Result Bytes
  pub project_id : ℕ

-- `latestHash` and `latestID`, with their zero values if the file has no version.
pub record Latest : Type 0 where
  pub hash : String
  pub id : ℕ

abbrev pub no_latest : Latest
no_latest = record { hash = ""; id = 0 }

abbrev pub or_no_latest : Result FileVersion × World → Result Latest × World
or_no_latest (ok v, w) = (ok (record { hash = v.ast_hash; id = v.id }), w)
or_no_latest (err e, w) = if is_not_found e then (ok no_latest, w) else (err e, w)
or_no_latest (panicked p, w) = (panicked p, w)

unfoldable pub find_latest : Env → ℕ → Io Latest
unfolding Versions.latest_by_file_id
find_latest env file w = or_no_latest (Versions.latest_by_file_id env file w)

-- The job that is enqueued for a new structure; EnqueueMany writes the fields that it sets.
abbrev pub extraction_job : ℕ → ℕ → Job
extraction_job project version = record {
  id = 0;
  project_id = project;
  target_id = version;
  target_type = "File";
  stage = stage_level1_overview;
  status = pending;
  priority = 1;
  retry_count = 0;
  payload = "";
  created_at = 0;
  updated_at = 0;
}

-- The transaction where the hash is that of the latest version.
unfoldable pub bypass : Env → ℕ → Bytes → String → Latest → TxFunc
bypass env file content hash latest = do
  new ← Versions.insert_version env file content hash true
  Versions.clone_junctions env latest.id new
  Versions.set_latest env new latest.id

abbrev pub invalidate : Env → ℕ → TxFunc
invalidate env old = if old == 0 then pure tt else Jobs.reset_completed_for_target env old

-- The transaction where the structure is new.
unfoldable pub restructure : Env → ℕ → ℕ → Bytes → String → Latest → TxFunc
restructure env project file content hash latest = do
  new ← Versions.insert_version env file content hash true
  Versions.set_latest env new latest.id
  invalidate env latest.id
  Jobs.enqueue_many env (extraction_job project new ∷ [])

unfoldable pub ingest_version : Env → ℕ → ℕ → Bytes → String → Latest → TxFunc
unfolding bypass restructure
ingest_version env project file content hash latest =
    if str_eq latest.hash hash
    then bypass env file content hash latest
    else restructure env project file content hash latest

-- `ProcessFile`, of the path of a scanned file.
unfoldable pub process_file : Env → Service → Bytes → Io (Unit {0})
unfolding ingest_version find_latest
process_file env s path = do
  content ← lift (s.read_file path)
  tree ← lift (s.parse (language_from_path path) content)
  hash ← lift (s.structural_hash tree)
  relative ← lift (s.rel_path path)
  file ← Files.get_or_create env s.project_id relative
  latest ← find_latest env file.id
  immediate env (ingest_version env s.project_id file.id content hash latest)

-- An error is dropped; a panic is not.
abbrev pub skipped : Result (Unit {0}) × World → Result (Unit {0}) × World
skipped (ok u, w) = (ok tt, w)
skipped (err e, w) = (ok tt, w)
skipped (panicked p, w) = (panicked p, w)

-- `Run`, of the paths that the walker sends and the error that it ends with.
unfoldable pub run : Env → Service → List Bytes → Option Error → Io (Unit {0})
unfolding process_file
run env s [] none = pure tt
run env s [] (some e) = raise e
run env s (path ∷ paths) end = (λ w. skipped (process_file env s path w)) >> run env s paths end
