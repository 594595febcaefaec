-- ===== src/Ingest/Whole.antt =====
-- internal/app/ingest/service.go: `ProcessFile` of a file that can be read, where the database works.
use prowiki.Base.{
  ℕ, ◌+◌, suc, ◌≡◌, refl, ap, ◌∙◌, Bool, true, String, List, [], ◌∷◌, ◌++◌, first_where,
  exists_where, Option, none, some, Bytes, ◌==◌, arith,
}
use prowiki.Domain.Errors.{Result, ok, err, panicked}
use prowiki.Domain.Entities.{Job, File}
use prowiki.Db.Schema.{Tables, VersionRow}
use prowiki.Db.Io.{World, statement, reliable, settle, later, ◌>>=◌}
use prowiki.Db.Succeeds.{Succeeds, Value, Succeeds-bind}
use prowiki.Txn.Succeeds.{Succeeds-immediate}
use prowiki.Store.Files
use prowiki.Store.Files.{select_file, insert_file, or_create, file_row}
use prowiki.Store.Files.Stable.{is_at}
use prowiki.Store.Versions.{latest_query, is_latest_of, or_not_found}
use prowiki.Ingest.{Service, find_latest, process_file, or_no_latest}
use prowiki.Ingest.Current.{IsCurrent}
use prowiki.Ingest.Taken.{
  IsKeyed, IsRead, IsTaken, row-IsTaken, taking, process_file_read, process_file-IsSettled,
}
use prowiki.Ingest.Returns.{HasProject, Starts, HasOpened, ingest_version_succeeds}

found_exists :
    (p : File → Bool) (fs : List File) (f : File)
    → first_where p fs ≡ some f
    → exists_where (λ (g : File). g.id == f.id) fs ≡ true
found_exists p [] f e = absurd (cc)
found_exists p (g ∷ fs) f e = ground (arith, found_exists p fs f)

file_added :
    (fs : List File) (f : File) → exists_where (λ (g : File). g.id == f.id) (fs ++ f ∷ []) ≡ true
file_added [] f = ground arith
file_added (g ∷ fs) f = ground (arith, file_added fs f)

module _ (clock : ℕ → ℕ) (arrange : List Job → List Job) (project : ℕ) where
  module _ (path : Bytes) where
    opened :
        (w : World) (y : Option File)
        → first_where (is_at project path) w.tables.files.rows ≡ y
        → Starts project w.tables
        → Value
            (λ f. HasOpened project f.id)
            (or_create
              (reliable clock arrange)
              project
              path
              (settle (later w) (select_file project path (clock w.tick) w.tables)))
    unfolding statement select_file insert_file
    opened w (some f) e h =
        rw (e, select_file) (found_exists (is_at project path) w.tables.files.rows f e, h)
    opened w none e h =
        let new = file_row (clock (w.tick + 1)) project none path (suc w.tables.files.seq) in
        rw (e, select_file, h.0, insert_file)
          (
            file_added w.tables.files.rows new,
            (h.0, record { issued = h.1.issued; known = h.1.known; single = h.1.single }),
          )

    get_or_create_succeeds :
        Succeeds
          (Starts project)
          (Files.get_or_create (reliable clock arrange) project path)
          (λ f. HasOpened project f.id)
    unfolding Files.get_or_create statement
    get_or_create_succeeds = record {
      at = λ w h. opened w (first_where (is_at project path) w.tables.files.rows) refl h;
    }

  find_latest_succeeds :
      (file : ℕ)
      → Succeeds
          (HasOpened project file)
          (find_latest (reliable clock arrange) file)
          (λ _. HasOpened project file)
  unfolding find_latest latest_query
  find_latest_succeeds file = record {
    at = λ w h. latest_found w (first_where (is_latest_of file) w.tables.versions.rows) refl h;
  }
    where
      latest_found :
          (w : World) (y : Option VersionRow)
          → first_where (is_latest_of file) w.tables.versions.rows ≡ y
          → HasOpened project file w.tables
          → Value
              (λ _. HasOpened project file)
              (or_no_latest
                (or_not_found (settle (later w) (latest_query file (clock w.tick) w.tables))))
      latest_found w none e h = rw (e, latest_query) h
      latest_found w (some v) e h = rw (e, latest_query) h

  taking_succeeds :
      (relative content : Bytes) (hash : String)
      → Succeeds
          (Starts project)
          (Files.get_or_create (reliable clock arrange) project relative
            >>= taking (reliable clock arrange) project relative content hash)
          (λ _. HasProject project)
  taking_succeeds relative content hash =
      Succeeds-bind (λ f. HasOpened project f.id) (λ _. HasProject project) _ _
        (get_or_create_succeeds relative)
        λ f.
          Succeeds-bind (λ _. HasOpened project f.id) (λ _. HasProject project) _ _
            (find_latest_succeeds f.id)
            λ latest.
              Succeeds-immediate (λ _. HasProject project) clock arrange _
                (ingest_version_succeeds clock arrange project f.id content hash latest)

value_ok :
    (x : Result (Unit {0}) × World) (Q : Unit {0} → Tables → Type 0) → Value Q x → x.0 ≡ ok tt
value_ok (ok u, w) Q h = refl
value_ok (err e, w) Q h = absurd h
value_ok (panicked p, w) Q h = absurd h

-- `ProcessFile`, where no call of the database fails, of a file that can be read and parsed and whose
-- path filepath.Rel takes: it returns nil, and then the file of the path is found and its latest version
-- has the content and its structural hash. Before, the project is there, the links of versions and
-- features obey their foreign and primary keys, each file's path and each version's file are determined
-- by their ids, each id was issued and each file has at most one latest version.
pub process_file_lem :
    (clock : ℕ → ℕ) (arrange : List Job → List Job) (s : Service) (path relative content : Bytes)
    (hash : String) (w : World)
    → Starts s.project_id w.tables
    → IsKeyed s.project_id w.tables
    → IsCurrent w.tables
    → IsRead s path relative content hash
    → ((process_file (reliable clock arrange) s path w).0 ≡ ok tt)
      × IsTaken s.project_id relative content hash
          (process_file (reliable clock arrange) s path w).1.tables
process_file_lem clock arrange s path relative content hash w h k c read =
    let env = reliable clock arrange in
    let goes = process_file_read env s path relative content hash read w in
    let returns : (process_file env s path w).0 ≡ ok tt =
      ap (λ (x : Result (Unit {0}) × World). x.0) goes
      ∙ value_ok _ (λ _. HasProject s.project_id)
          ((taking_succeeds clock arrange s.project_id relative content hash).at w h) in
    let settled = process_file-IsSettled env s path relative content hash read w c k returns in
    (
      returns,
      row-IsTaken s.project_id relative content hash _ settled (process_file env s path w).1.tables
          settled.stays,
    )
