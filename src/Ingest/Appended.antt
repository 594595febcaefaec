-- ===== src/Ingest/Appended.antt =====
-- internal/app/ingest/service.go: the version that a file's transaction stores is the last row.
use prowiki.Base.{
  ℕ, suc, ◌≡◌, refl, ap, ◌∙◌, Bool, true, false, String, str_eq, List, [], ◌∷◌, ◌++◌, Bool-cases,
  inl, inr, ◌==◌, if◌then◌else◌, Bytes, arith,
}
use prowiki.Domain.Entities.{Job}
use prowiki.Db.Schema.{Table, Tables, VersionRow, has_file, has_project}
use prowiki.Db.Io.{Env, pure, statement}
use prowiki.Db.Ensures.{Ensures, Yields, Ensures-bind, Ensures-pure, Ensures-if, Ensures-statement}
use prowiki.Store.Versions
use prowiki.Store.Versions.{is_latest_of, mark_latest, mark_rows, mark_query, insert_version_query}
use prowiki.Store.Versions.Latest.{mark_rows-append}
use prowiki.Store.Jobs
use prowiki.Ingest.{Latest, bypass, restructure, invalidate, ingest_version, extraction_job}
use prowiki.Ingest.Single.{clone_junctions-keeps}

module _ (file : ℕ) (content : Bytes) (hash : String) where
  -- The row is the version `new` of the file, with the content and the hash.
  abbrev pub IsStored : ℕ → VersionRow → Type 0
  IsStored new v = (v.id ≡ new) × (v.file_id ≡ file) × (v.content ≡ content) × (v.ast_hash ≡ hash)

  -- The version `new` is the last row.
  record EndsIn (new : ℕ) (t : Tables) : Type 0 where
    pub before : List VersionRow
    pub last : VersionRow
    pub split : t.versions.rows ≡ before ++ last ∷ []
    pub stored : IsStored new last

  pub record EndsInLatest (t : Tables) : Type 0 where
    pub before : List VersionRow
    pub last : VersionRow
    pub new : ℕ
    pub split : t.versions.rows ≡ before ++ last ∷ []
    pub stored : IsStored new last
    pub marked : last.is_latest ≡ true

  abbrev marked_if : Bool → ℕ → VersionRow → VersionRow
  marked_if b id v = if v.id == id then mark_latest b v else v

  marked_if-IsStored :
      (b : Bool) (id new : ℕ) (v : VersionRow) → IsStored new v → IsStored new (marked_if b id v)
  marked_if-IsStored b id new v s = elim (Bool-cases (v.id == id)) [
    | inl e ↦ rw e s
    | inr e ↦ rw e s
  ]

  last_marked :
      (b : Bool) (id : ℕ) (before rows : List VersionRow) (last : VersionRow)
      → rows ≡ before ++ last ∷ []
      → mark_rows b id rows ≡ mark_rows b id before ++ marked_if b id last ∷ []
  last_marked b id before rows last e =
      ap (mark_rows b id) e
      ∙ mark_rows-append b id before (last ∷ [])
      ∙ ap (λ (r : List VersionRow). mark_rows b id before ++ r) (unfold mark_rows in refl)

  mark-EndsIn :
      (b : Bool) (id new now : ℕ) (t : Tables)
      → EndsIn new t
      → Yields (λ _. EndsIn new) (mark_query b id now t)
  unfolding mark_query
  mark-EndsIn b id new now t e = record {
    before = mark_rows b id e.before;
    last = marked_if b id e.last;
    split = last_marked b id e.before t.versions.rows e.last e.split;
    stored = marked_if-IsStored b id new e.last e.stored;
  }

  mark-EndsInLatest :
      (new now : ℕ) (t : Tables)
      → EndsIn new t
      → Yields (λ _. EndsInLatest) (mark_query true new now t)
  unfolding mark_query
  mark-EndsInLatest new now t e = record {
    before = mark_rows true new e.before;
    last = marked_if true new e.last;
    new = new;
    split = last_marked true new e.before t.versions.rows e.last e.split;
    stored = marked_if-IsStored true new new e.last e.stored;
    marked =
        let this : (e.last.id == new) ≡ true = let named = e.stored.0 in ground arith in
        rw this refl;
  }

  module _ (env : Env) (latest : Latest) where
    insert-EndsIn :
        Ensures
          (λ t. Unit {0})
          (Versions.insert_version env file content hash true)
          (λ new. EndsIn new)
    unfolding Versions.insert_version
    insert-EndsIn =
        Ensures-statement (λ new. EndsIn new) env (insert_version_query file content hash true)
          (λ now t h. inserted now t)
      where
        inserted :
            (now : ℕ) (t : Tables)
            → Yields (λ new. EndsIn new) (insert_version_query file content hash true now t)
        inserted now t = elim (Bool-cases (has_file t file)) [
          | inl e ↦
              rw (e, insert_version_query)
                (record {
                  before = t.versions.rows;
                  last = Versions.version_row now file content hash true (suc t.versions.seq);
                  split = refl;
                  stored = (refl, refl, refl, refl);
                })
          | inr e ↦ rw (e, insert_version_query) tt
        ]

    set_latest-EndsInLatest :
        (new : ℕ) → Ensures (EndsIn new) (Versions.set_latest env new latest.id) (λ _. EndsInLatest)
    unfolding Versions.set_latest
    set_latest-EndsInLatest new =
        Ensures-bind (λ _. EndsIn new) (λ _. EndsInLatest) (Versions.demote env latest.id) _
          (Ensures-if (λ _. EndsIn new) (latest.id == 0) (pure tt)
            (statement env (mark_query false latest.id))
            (λ _. Ensures-pure (λ _. EndsIn new) tt (λ t h. h))
            (λ _.
              Ensures-statement (λ _. EndsIn new) env (mark_query false latest.id)
                (mark-EndsIn false latest.id new)))
          (λ _.
            Ensures-statement (λ _. EndsInLatest) env (mark_query true new) (mark-EndsInLatest new))

    bypass-EndsInLatest :
        Ensures (λ t. Unit {0}) (bypass env file content hash latest) (λ _. EndsInLatest)
    unfolding bypass
    bypass-EndsInLatest =
        Ensures-bind (λ new. EndsIn new) (λ _. EndsInLatest) _ _ insert-EndsIn
          λ new.
            Ensures-bind (λ _. EndsIn new) (λ _. EndsInLatest)
              (Versions.clone_junctions env latest.id new) _
              (clone_junctions-keeps (EndsIn new)
                (λ t v f e. record {
                  before = e.before;
                  last = e.last;
                  split = e.split;
                  stored = e.stored;
                })
                env latest.id new)
              (λ _. set_latest-EndsInLatest new)

    with_jobs : (t u : Tables) → u.versions ≡ t.versions → EndsInLatest t → EndsInLatest u
    with_jobs t u same e = record {
      before = e.before;
      last = e.last;
      new = e.new;
      split = ap (λ (vs : Table VersionRow). vs.rows) same ∙ e.split;
      stored = e.stored;
      marked = e.marked;
    }

    insert_jobs-EndsInLatest :
        (js : List Job) (now : ℕ) (t : Tables)
        → EndsInLatest t
        → Yields (λ _. EndsInLatest) (Jobs.insert_jobs js now t)
    unfolding Jobs.insert_jobs
    insert_jobs-EndsInLatest [] now t h = h
    insert_jobs-EndsInLatest (j ∷ js) now t h = elim (Bool-cases (has_project t j.project_id)) [
      | inl e ↦ rw (e, Jobs.insert_jobs) (insert_jobs-EndsInLatest js now _ (with_jobs t _ refl h))
      | inr e ↦ rw (e, Jobs.insert_jobs) tt
    ]

    invalidate-EndsInLatest : Ensures EndsInLatest (invalidate env latest.id) (λ _. EndsInLatest)
    unfolding Jobs.reset_completed_for_target Jobs.reset_query
    invalidate-EndsInLatest =
        Ensures-if (λ _. EndsInLatest) (latest.id == 0) (pure tt)
          (Jobs.reset_completed_for_target env latest.id)
          (λ _. Ensures-pure (λ _. EndsInLatest) tt (λ t h. h))
          (λ _.
            Ensures-statement (λ _. EndsInLatest) env (Jobs.reset_query latest.id)
              (λ now t h. with_jobs t _ refl h))

    restructure-EndsInLatest :
        (project : ℕ)
        → Ensures
            (λ t. Unit {0})
            (restructure env project file content hash latest)
            (λ _. EndsInLatest)
    unfolding restructure Jobs.enqueue_many
    restructure-EndsInLatest project =
        Ensures-bind (λ new. EndsIn new) (λ _. EndsInLatest) _ _ insert-EndsIn
          λ new.
            Ensures-bind (λ _. EndsInLatest) (λ _. EndsInLatest)
              (Versions.set_latest env new latest.id) _ (set_latest-EndsInLatest new)
              λ _.
                Ensures-bind (λ _. EndsInLatest) (λ _. EndsInLatest) (invalidate env latest.id) _
                  invalidate-EndsInLatest
                  λ _.
                    Ensures-statement (λ _. EndsInLatest) env
                      (Jobs.insert_jobs (extraction_job project new ∷ []))
                      (insert_jobs-EndsInLatest (extraction_job project new ∷ []))

    pub ingest_version-EndsInLatest :
        (project : ℕ)
        → Ensures
            (λ t. Unit {0})
            (ingest_version env project file content hash latest)
            (λ _. EndsInLatest)
    unfolding ingest_version
    ingest_version-EndsInLatest project =
        Ensures-if (λ _. EndsInLatest) (str_eq latest.hash hash) _ _ (λ _. bypass-EndsInLatest)
          (λ _. restructure-EndsInLatest project)
