-- ===== src/Ingest/Taken.antt =====
-- internal/app/ingest/service.go: at the end of a run, the files that it took in are there.
use prowiki.Base.{
  ℕ, ◌∙◌, ◌≡◌, refl, sym, ap, subst, true, String, first_where, Option, none, some, Bytes,
}
use prowiki.Domain.Errors.{Error, Result, ok, err, panicked}
use prowiki.Domain.Entities.{File, FileVersion}
use prowiki.Domain.Language.{language_from_path}
use prowiki.Db.Schema.{Tables, VersionRow}
use prowiki.Db.Io.{Env, World, Io, continue, ◌>>=◌}
use prowiki.Txn.{immediate}
use prowiki.Txn.Atomic.{AllOrNothing}
use prowiki.Store.Files
use prowiki.Store.Files.{select_file}
use prowiki.Store.Files.Stable.{is_at, IsFound, get_or_create-IsFound}
use prowiki.Store.Versions
use prowiki.Store.Versions.{latest_query, is_latest_of}
use prowiki.Ingest.{Service, Tree, find_latest, ingest_version, process_file}
use prowiki.Ingest.Current.{IsCurrent}
use prowiki.Ingest.Single.{get_or_create-IsCurrent}
use prowiki.Ingest.Newest.{Finds, ingested_version-Finds}
use prowiki.Ingest.Watched.{idle, seated, resting, Rests}
use prowiki.Ingest.Lookup.{Keyed, found_file, get_or_create-Keyed}
use prowiki.Ingest.Stays.{stored-Keyed}

-- The paths of the files and the files of the versions are determined by their ids, which were issued.
abbrev pub IsKeyed : ℕ → Tables → Type 0
IsKeyed project = Keyed project (idle project)

-- The file of a path is found, and its latest version has the content and the hash.
abbrev pub IsTaken : ℕ → Bytes → Bytes → String → Tables → Type 0
IsTaken project relative content hash t =
    (f : File) × IsFound project relative f t × Finds f.id content hash t

-- What the parser, the file system and `filepath.Rel` give for a path.
pub record IsRead (s : Service) (path relative content : Bytes) (hash : String) : Type 0 where
  pub tree : Tree
  pub content_read : s.read_file path ≡ ok content
  pub parsed : s.parse (language_from_path path) content ≡ ok tree
  pub hashed : s.structural_hash tree ≡ ok hash
  pub related : s.rel_path path ≡ ok relative

module _ (project : ℕ) (relative : Bytes) (t : Tables) where
  latest_row :
      (file : ℕ) (v : FileVersion)
      → Versions.latest_query file 0 t ≡ ok (v, t)
      → (r : VersionRow) × (first_where (is_latest_of file) t.versions.rows ≡ some r)
        × (v ≡ Versions.scanned r "")
  unfolding Versions.latest_query
  latest_row file v e = by_row (first_where (is_latest_of file) t.versions.rows) refl
    where
      by_row :
          (y : Option VersionRow)
          → first_where (is_latest_of file) t.versions.rows ≡ y
          → (r : VersionRow) × (first_where (is_latest_of file) t.versions.rows ≡ some r)
            × (v ≡ Versions.scanned r "")
      by_row none h =
          let goes : Versions.latest_query file 0 t ≡ err Error.no_rows =
            rw (h, Versions.latest_query) refl in
          let same = sym goes ∙ e in absurd (cc)
      by_row (some r) h =
          let goes : Versions.latest_query file 0 t ≡ ok (Versions.scanned r "", t) =
            rw (h, Versions.latest_query) refl in
          let same = sym goes ∙ e in (r, h, cc)

  Rests-IsTaken :
      (f : File) (r : VersionRow)
      → is_at project relative f ≡ true
      → r.file_id ≡ f.id
      → Rests project relative f r t.files.rows t.versions.rows
      → IsTaken project relative r.content r.ast_hash t
  unfolding Versions.latest_query select_file
  Rests-IsTaken f r here mine (at_path, latest) = (
    f,
    (here, λ now. rw (at_path, select_file) refl),
    (Versions.scanned r "", (λ now. rw (latest, Versions.latest_query) refl), mine, refl, refl),
  )

-- The file `file` of the path has the latest version `row`, with the content and the hash.
pub record IsSettled (project : ℕ) (relative content : Bytes) (hash : String) (t : Tables)
    : Type 0 where
  pub file : File
  pub row : VersionRow
  pub here : is_at project relative file ≡ true
  pub mine : row.file_id ≡ file.id
  pub same_content : row.content ≡ content
  pub same_hash : row.ast_hash ≡ hash
  pub stays : Keyed project (resting project relative file row) t

-- Where the file rests, it is taken.
pub row-IsTaken :
    (project : ℕ) (relative content : Bytes) (hash : String) (t : Tables)
    (h : IsSettled project relative content hash t) (u : Tables)
    → Keyed project (resting project relative h.file h.row) u
    → IsTaken project relative content hash u
row-IsTaken project relative content hash t h u k =
    subst (λ c. IsTaken project relative c hash u) h.same_content
      (subst (λ a. IsTaken project relative h.row.content a u) h.same_hash
        (Rests-IsTaken project relative u h.file h.row h.here h.mine k.kept))

Finds-IsSettled :
    (project : ℕ) (relative content : Bytes) (hash : String) (f : File) (t : Tables)
    → is_at project relative f ≡ true
    → Keyed project (seated project relative f) t
    → Finds f.id content hash t
    → IsSettled project relative content hash t
Finds-IsSettled project relative content hash f t here k
      (v, found, of_file, same_content, same_hash) =
    let (r, latest, scan) = latest_row project relative t f.id v (found 0) in
    record {
      file = f;
      row = r;
      here = here;
      mine = sym (ap (λ (u : FileVersion). u.file_id) scan) ∙ of_file;
      same_content = sym (ap (λ (u : FileVersion). u.content) scan) ∙ same_content;
      same_hash = sym (ap (λ (u : FileVersion). u.ast_hash) scan) ∙ same_hash;
      stays = record {
        place = k.place;
        owner = k.owner;
        placed = k.placed;
        owned = k.owned;
        kept = (k.kept, latest);
        more = tt;
      };
    }

returned :
    {A : Type 0} (w : World) (x : Result A × World) (a : A) (P : A → World → Type 0)
    → AllOrNothing w x P
    → x.0 ≡ ok a
    → P a x.1
returned w (ok b, w') a P h e = let same : b ≡ a = cc in subst (λ c. P c w') same h
returned w (err b, w') a P h e = absurd (cc)
returned w (panicked p, w') a P h e = absurd (cc)

module _ (env : Env) (project : ℕ) (relative content : Bytes) (hash : String) where
  abbrev pub taking : File → Io (Unit {0})
  taking f = find_latest env f.id >>= λ latest.
      immediate env (ingest_version env project f.id content hash latest)

  looked_up :
      (v : World) (y : Result File × World)
      → AllOrNothing v y (λ f w'. IsFound project relative f w'.tables)
      → IsCurrent y.1.tables
      → IsKeyed project y.1.tables
      → (continue y.0 taking y.1).0 ≡ ok tt
      → IsSettled project relative content hash (continue y.0 taking y.1).1.tables
  looked_up v (ok f, w) h c k e =
      let at_path = found_file project (idle project) env relative f w.tables h in
      let seat : Keyed project (seated project relative f) w.tables = record {
        place = k.place;
        owner = k.owner;
        placed = k.placed;
        owned = k.owned;
        kept = at_path;
        more = tt;
      } in
      Finds-IsSettled project relative content hash f (taking f w).1.tables h.0
        ((stored-Keyed project (seated project relative f) env f.id content hash).at w (tt, seat))
        (returned w (taking f w) tt (λ _ w'. Finds f.id content hash w'.tables)
          (ingested_version-Finds env project f.id content hash w c) e)
  looked_up v (err b, w) h c k e = absurd (cc)
  looked_up v (panicked p, w) h c k e = absurd (cc)

module _ (env : Env) (s : Service) (path relative content : Bytes) (hash : String)
    (read : IsRead s path relative content hash) where
  pub process_file_read :
      (w : World)
      → process_file env s path w
        ≡ (Files.get_or_create env s.project_id relative
              >>= taking env s.project_id relative content hash)
            w
  unfolding process_file
  process_file_read w = rw (read.content_read, read.parsed, read.hashed, read.related) refl

  pub process_file-IsSettled :
      (w : World)
      → IsCurrent w.tables
      → IsKeyed s.project_id w.tables
      → (process_file env s path w).0 ≡ ok tt
      → IsSettled s.project_id relative content hash (process_file env s path w).1.tables
  process_file-IsSettled w c k e =
      let opened = process_file_read w in
      let looked = Files.get_or_create env s.project_id relative w in
      let goes = sym (ap (λ (x : Result (Unit {0}) × World). x.0) opened) ∙ e in
      subst
        (λ (x : Result (Unit {0}) × World). IsSettled s.project_id relative content hash x.1.tables)
        (sym opened)
        (looked_up env s.project_id relative content hash w looked
          (get_or_create-IsFound env s.project_id relative w)
          ((get_or_create-IsCurrent env s relative).at w c)
          ((get_or_create-Keyed s.project_id (idle s.project_id) env relative).at w k) goes)
