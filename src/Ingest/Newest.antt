-- ===== src/Ingest/Newest.antt =====
-- internal/app/ingest/service.go: after a file was taken in, its latest version is the one that was
-- stored.
use prowiki.Base.{
  ℕ, ◌≤◌, ◌≡◌, ap, ◌∙◌, subst, true, String, List, [], ◌∷◌, ◌++◌, first_where, some, Bytes, arith,
}
use prowiki.Domain.Errors.{Result, ok, err, panicked}
use prowiki.Domain.Entities.{FileVersion}
use prowiki.Db.Schema.{Tables, VersionRow}
use prowiki.Db.Io.{Env, World, later, continue, ◌>>=◌}
use prowiki.Db.Ensures.{Post}
use prowiki.Txn.{immediate}
use prowiki.Txn.Atomic.{AllOrNothing, immediate-AllOrNothing}
use prowiki.Store.Versions
use prowiki.Store.Versions.{is_latest_of, mark_latest, mark_rows, mark_query, insert_version_query}
use prowiki.Store.Versions.Latest.{latest_count, latest_count-append}
use prowiki.Ingest.{Latest, ingest_version, find_latest}
use prowiki.Ingest.Current.{IsCurrent, IsReady, find_latest-IsReady, find_latest_reads}
use prowiki.Ingest.Single.{ingest_version-IsCurrent}
use prowiki.Ingest.Appended.{EndsInLatest, ingest_version-EndsInLatest}

counted_last :
    (file : ℕ) (before : List VersionRow) (last : VersionRow)
    → is_latest_of file last ≡ true
    → 1 ≤ latest_count file (before ++ last ∷ [])
counted_last file before last e =
    rw (latest_count-append file before (last ∷ [])) (ground (arith, e))

-- The last row is the one latest version of its file, so that it is the one that is found.
found_last :
    (file : ℕ) (before : List VersionRow) (last : VersionRow)
    → is_latest_of file last ≡ true
    → latest_count file (before ++ last ∷ []) ≤ 1
    → first_where (is_latest_of file) (before ++ last ∷ []) ≡ some last
found_last file [] last e h = ground (arith, e)
found_last file (v ∷ before) last e h =
    ground (arith, counted_last file before last e, found_last file before last e)

-- `LatestByFileID` finds a version of the file with the content and the hash.
abbrev pub Finds : ℕ → Bytes → String → Tables → Type 0
Finds file content hash t =
    (v : FileVersion) × ((now : ℕ) → Versions.latest_query file now t ≡ ok (v, t))
    × (v.file_id ≡ file)
    × (v.content ≡ content)
    × (v.ast_hash ≡ hash)

EndsInLatest-Finds :
    (file : ℕ) (content : Bytes) (hash : String) (t : Tables)
    → IsCurrent t
    → EndsInLatest file content hash t
    → Finds file content hash t
unfolding Versions.latest_query
EndsInLatest-Finds file content hash t c e =
    let (named, of_file, same_content, same_hash) = e.stored in
    let marked = e.marked in
    let is_last : is_latest_of file e.last ≡ true = ground arith in
    let one = subst (λ (r : List VersionRow). latest_count file r ≤ 1) e.split (c.single file) in
    let found =
      ap (first_where (is_latest_of file)) e.split ∙ found_last file e.before e.last is_last one in
    (Versions.scanned e.last "", λ now. ground (arith, found), of_file, same_content, same_hash)

both-Post :
    {A : Type 0} (x : Result A × World) (P Q R : Tables → Type 0)
    → ((t : Tables) → P t → Q t → R t)
    → Post (λ _. P) x
    → Post (λ _. Q) x
    → Post (λ _. R) x
both-Post (ok a, w) P Q R f p q = f w.tables p q
both-Post (err e, w) P Q R f p q = tt
both-Post (panicked p, w) P Q R f p' q = tt

nothing_before :
    {A : Type 0} (w v : World) (x : Result A × World) (P : World → Type 0)
    → v.tables ≡ w.tables
    → AllOrNothing v x (λ _. P)
    → AllOrNothing w x (λ _. P)
nothing_before w v (ok a, w') P same h = h
nothing_before w v (err e, w') P same h = h ∙ same
nothing_before w v (panicked p, w') P same h = h ∙ same

-- The search for the latest version of a file and the transaction that follows it, whichever calls fail,
-- where each version's id was issued and each file has at most one latest version: either no table
-- changes, or the latest version of the file is now one with the given content and hash.
pub ingested_version-Finds :
    (env : Env) (project file : ℕ) (content : Bytes) (hash : String) (w : World)
    → IsCurrent w.tables
    → AllOrNothing w
        ((find_latest env file >>= λ latest.
            immediate env (ingest_version env project file content hash latest))
          w)
        (λ _ w'. Finds file content hash w'.tables)
ingested_version-Finds env project file content hash w c =
    went_on (find_latest env file w).0 (find_latest env file w).1 (find_latest_reads env file w)
      ((find_latest-IsReady env file).at w c)
  where
    went_on :
        (r : Result Latest) (v : World)
        → v.tables ≡ w.tables
        → Post (IsReady file) (r, v)
        → AllOrNothing w
            (continue r
              (λ latest. immediate env (ingest_version env project file content hash latest))
              v)
            (λ _ w'. Finds file content hash w'.tables)
    went_on (err e) v same ready = same
    went_on (panicked p) v same ready = same
    went_on (ok latest) v same ready =
        let body = ingest_version env project file content hash latest in
        nothing_before w v (immediate env body v) (λ w'. Finds file content hash w'.tables) same
          (immediate-AllOrNothing env body v (λ _. Finds file content hash)
            (both-Post (body (later v)) IsCurrent (EndsInLatest file content hash)
              (Finds file content hash) (EndsInLatest-Finds file content hash)
              ((ingest_version-IsCurrent env file content hash latest project).at (later v) ready)
              ((ingest_version-EndsInLatest file content hash env latest project).at (later v) tt)))
