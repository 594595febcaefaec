-- ===== src/Ingest/Returns.antt =====
-- internal/app/ingest/service.go: where the database works, a file that can be read is taken in.
use prowiki.Base.{ℕ, ◌≡◌, refl, true, false, String, str_eq, List, [], ◌∷◌, Bytes, ◌==◌}
use prowiki.Domain.Errors.{Result, ok, err, panicked}
use prowiki.Domain.Entities.{Job}
use prowiki.Db.Schema.{Tables, has_file, has_project}
use prowiki.Db.Io.{pure, reliable}
use prowiki.Db.Succeeds.{
  Succeeds, Gives, Succeeds-pure, Succeeds-statement, Succeeds-if, Succeeds-bind,
}
use prowiki.Store.Versions
use prowiki.Store.Versions.{
  mark_query, insert_version_query, latest_query, is_latest_of, or_not_found, version_row,
}
use prowiki.Store.Versions.Cloned.{IsLinked, IsUnlinked, insert-IsUnlinked, clone_query_succeeds}
use prowiki.Store.Jobs
use prowiki.Ingest.{Latest, bypass, restructure, invalidate, ingest_version, extraction_job}

-- The project is there.
abbrev pub HasProject : ℕ → Tables → Type 0
HasProject project t = has_project t project ≡ true

abbrev pub Starts : ℕ → Tables → Type 0
Starts project t = HasProject project t × IsLinked t

abbrev pub HasOpened : ℕ → ℕ → Tables → Type 0
HasOpened project file t = (has_file t file ≡ true) × Starts project t

abbrev HasInserted : ℕ → ℕ → Tables → Type 0
HasInserted project new t = HasProject project t × IsUnlinked new t

module _ (clock : ℕ → ℕ) (arrange : List Job → List Job) (project : ℕ) where
  module _ (file : ℕ) (content : Bytes) (hash : String) (latest : Latest) where
    insert_succeeds :
        Succeeds
          (HasOpened project file)
          (Versions.insert_version (reliable clock arrange) file content hash true)
          (λ new. HasInserted project new)
    unfolding Versions.insert_version
    insert_succeeds =
        Succeeds-statement (λ new. HasInserted project new) clock arrange
          (insert_version_query file content hash true)
          λ now t (there, (has, links)).
            rw (there, insert_version_query)
              (has, insert-IsUnlinked t (version_row now file content hash true) (λ id. refl) links)

    set_latest_succeeds :
        (new : ℕ)
        → Succeeds
            (HasProject project)
            (Versions.set_latest (reliable clock arrange) new latest.id)
            (λ _. HasProject project)
    unfolding Versions.set_latest mark_query
    set_latest_succeeds new =
        Succeeds-bind (λ _. HasProject project) (λ _. HasProject project) _ _
          (Succeeds-if (λ _. HasProject project) (latest.id == 0) (pure tt) _
            (λ _. Succeeds-pure (λ _. HasProject project) tt (λ t h. h))
            (λ _.
              Succeeds-statement (λ _. HasProject project) clock arrange
                (mark_query false latest.id) (λ now t h. h)))
          (λ _.
            Succeeds-statement (λ _. HasProject project) clock arrange (mark_query true new)
              (λ now t h. h))

    bypass_succeeds :
        Succeeds
          (HasOpened project file)
          (bypass (reliable clock arrange) file content hash latest)
          (λ _. HasProject project)
    unfolding bypass Versions.clone_junctions
    bypass_succeeds =
        Succeeds-bind (λ new. HasInserted project new) (λ _. HasProject project) _ _ insert_succeeds
          λ new.
            Succeeds-bind (λ _. HasProject project) (λ _. HasProject project) _ _
              (Succeeds-statement (λ _. HasProject project) clock arrange
                (Versions.clone_query latest.id new)
                (λ now t (has, links).
                  with_project t has (Versions.clone_query latest.id new now t)
                    (clone_query_succeeds latest.id new now t links)))
              (λ _. set_latest_succeeds new)
      where
        with_project :
            (t : Tables)
            → HasProject project t
            → (r : Result (Unit {0} × Tables))
            → Gives
                (λ _ u. (u.files ≡ t.files) × (u.versions ≡ t.versions) × (u.projects ≡ t.projects))
                r
            → Gives (λ _. HasProject project) r
        with_project t has (ok (a, u)) (fs, vs, ps) = rw ps has
        with_project t has (err e) h = h
        with_project t has (panicked p) h = h

    invalidate_succeeds :
        Succeeds
          (HasProject project)
          (invalidate (reliable clock arrange) latest.id)
          (λ _. HasProject project)
    unfolding Jobs.reset_completed_for_target
    invalidate_succeeds =
        Succeeds-if (λ _. HasProject project) (latest.id == 0) (pure tt) _
          (λ _. Succeeds-pure (λ _. HasProject project) tt (λ t h. h))
          (λ _.
            Succeeds-statement (λ _. HasProject project) clock arrange (Jobs.reset_query latest.id)
              (λ now t h. h))

    job_inserted :
        (new now : ℕ) (t : Tables)
        → HasProject project t
        → Gives (λ _. HasProject project) (Jobs.insert_jobs (extraction_job project new ∷ []) now t)
    unfolding Jobs.insert_jobs
    job_inserted new now t has = rw (has, Jobs.insert_jobs) has

    restructure_succeeds :
        Succeeds
          (HasOpened project file)
          (restructure (reliable clock arrange) project file content hash latest)
          (λ _. HasProject project)
    unfolding restructure Jobs.enqueue_many
    restructure_succeeds =
        Succeeds-bind (λ new. HasInserted project new) (λ _. HasProject project) _ _ insert_succeeds
          λ new.
            Succeeds-bind (λ _. HasProject project) (λ _. HasProject project) _ _
              (record { at = λ w h. (set_latest_succeeds new).at w h.0 })
              λ _.
                Succeeds-bind (λ _. HasProject project) (λ _. HasProject project) _ _
                  invalidate_succeeds
                  λ _.
                    Succeeds-statement (λ _. HasProject project) clock arrange
                      (Jobs.insert_jobs (extraction_job project new ∷ []))
                      (λ now t has. job_inserted new now t has)

    pub ingest_version_succeeds :
        Succeeds
          (HasOpened project file)
          (ingest_version (reliable clock arrange) project file content hash latest)
          (λ _. HasProject project)
    unfolding ingest_version
    ingest_version_succeeds =
        Succeeds-if (λ _. HasProject project) (str_eq latest.hash hash) _ _ (λ _. bypass_succeeds)
          (λ _. restructure_succeeds)
