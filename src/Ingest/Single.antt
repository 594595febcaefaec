-- ===== src/Ingest/Single.antt =====
-- internal/app/ingest/service.go: every run of the ingestion keeps one latest version per file.
use prowiki.Base.{
  ℕ, ◌≡◌, sym, subst, String, str_eq, List, [], ◌∷◌, Bool-cases, inl, inr, exists_where, Option,
  none, some, Bytes, ◌==◌, arith,
}
use prowiki.Domain.Errors.{Error, Result, ok, err, panicked}
use prowiki.Domain.Entities.{Job, FileFeature}
use prowiki.Domain.Language.{language_from_path}
use prowiki.Db.Schema.{Tables, has_project}
use prowiki.Db.Io.{Env, World, pure, ◌>>=◌}
use prowiki.Db.Keeps.{Keeps, Keeps-lift, Keeps-pure, Keeps-raise, Keeps-bind}
use prowiki.Db.Ensures.{
  Ensures, Yields, Leads, Ensures-bind, Ensures-pure, Ensures-if, Ensures-statement, Leads-bind,
}
use prowiki.Txn.{immediate}
use prowiki.Txn.Keeps.{Leads-immediate}
use prowiki.Store.Files
use prowiki.Store.Versions
use prowiki.Store.Jobs
use prowiki.Ingest.{
  Service, Latest, bypass, restructure, invalidate, ingest_version, find_latest, process_file, run,
  extraction_job, skipped,
}
use prowiki.Ingest.Current.{
  IsCurrent, IsCurrentTable, IsReady, find_latest-IsReady, find_latest_reads,
}
use prowiki.Ingest.Swap.{IsAppended, Undemoted, insert-IsAppended, set_latest-IsCurrent}

module _ (P : Tables → Type 0)
    (unlinked : (t : Tables) (version feature : ℕ)
      → P t
      → P (Versions.link version feature t)) where
  clone_rows-keeps :
      (new : ℕ) (rs : List FileFeature) (now : ℕ) (t : Tables)
      → P t
      → Yields (λ _. P) (Versions.clone_rows new rs now t)
  unfolding Versions.clone_rows
  clone_rows-keeps new [] now t h = h
  clone_rows-keeps new (r ∷ rs) now t h =
      elim (Bool-cases (exists_where (Versions.is_junction new r.feature_id) t.file_features)) [
        | inl e ↦ rw (e, Versions.clone_rows) tt
        | inr e ↦ elim (Bool-cases (Versions.is_linkable t new r.feature_id)) [
          | inl f ↦
              rw (e, f, Versions.clone_rows)
                (clone_rows-keeps new rs now _ (unlinked t new r.feature_id h))
          | inr f ↦ rw (e, f, Versions.clone_rows) tt
        ]
      ]

  pub clone_junctions-keeps :
      (env : Env) (old new : ℕ) → Ensures P (Versions.clone_junctions env old new) (λ _. P)
  unfolding Versions.clone_junctions
  clone_junctions-keeps env old new =
      Ensures-statement (λ _. P) env (Versions.clone_query old new)
        (λ now t h. clone_rows-keeps new (Versions.junctions_of old t.file_features) now t h)

insert_jobs-IsCurrent :
    (js : List Job) (now : ℕ) (t : Tables)
    → IsCurrent t
    → Yields (λ _. IsCurrent) (Jobs.insert_jobs js now t)
unfolding Jobs.insert_jobs
insert_jobs-IsCurrent [] now t h = h
insert_jobs-IsCurrent (j ∷ js) now t h = elim (Bool-cases (has_project t j.project_id)) [
  | inl e ↦ rw (e, Jobs.insert_jobs) (insert_jobs-IsCurrent js now _ h)
  | inr e ↦ rw (e, Jobs.insert_jobs) tt
]

module _ (env : Env) (file : ℕ) (content : Bytes) (hash : String) (latest : Latest) where
  bypass-IsCurrent :
      Ensures (IsReady file latest) (bypass env file content hash latest) (λ _. IsCurrent)
  unfolding bypass
  bypass-IsCurrent =
      Ensures-bind (λ new. IsAppended file new (Undemoted file latest.id new)) (λ _. IsCurrent) _ _
        (insert-IsAppended env file content hash latest)
        λ new.
          Ensures-bind (λ _. IsAppended file new (Undemoted file latest.id new)) (λ _. IsCurrent) _
            _ (clone_junctions-keeps _ (λ t v f h. h) env latest.id new)
            (λ _. set_latest-IsCurrent file new env latest.id)

  invalidate-IsCurrent : Ensures IsCurrent (invalidate env latest.id) (λ _. IsCurrent)
  unfolding Jobs.reset_completed_for_target
  invalidate-IsCurrent =
      Ensures-if (λ _. IsCurrent) (latest.id == 0) (pure tt)
        (Jobs.reset_completed_for_target env latest.id)
        (λ _. Ensures-pure (λ _. IsCurrent) tt (λ t h. h))
        (λ _. Ensures-statement (λ _. IsCurrent) env (Jobs.reset_query latest.id) (λ now t h. h))

  restructure-IsCurrent :
      (project : ℕ)
      → Ensures
          (IsReady file latest)
          (restructure env project file content hash latest)
          (λ _. IsCurrent)
  unfolding restructure Jobs.enqueue_many
  restructure-IsCurrent project =
      Ensures-bind (λ new. IsAppended file new (Undemoted file latest.id new)) (λ _. IsCurrent) _ _
        (insert-IsAppended env file content hash latest)
        λ new.
          Ensures-bind (λ _. IsCurrent) (λ _. IsCurrent) (Versions.set_latest env new latest.id) _
            (set_latest-IsCurrent file new env latest.id)
            λ _.
              Ensures-bind (λ _. IsCurrent) (λ _. IsCurrent) (invalidate env latest.id) _
                invalidate-IsCurrent
                λ _.
                  Ensures-statement (λ _. IsCurrent) env
                    (Jobs.insert_jobs (extraction_job project new ∷ []))
                    (insert_jobs-IsCurrent (extraction_job project new ∷ []))

  pub ingest_version-IsCurrent :
      (project : ℕ)
      → Ensures
          (IsReady file latest)
          (ingest_version env project file content hash latest)
          (λ _. IsCurrent)
  unfolding ingest_version
  ingest_version-IsCurrent project =
      Ensures-if (λ _. IsCurrent) (str_eq latest.hash hash) _ _ (λ _. bypass-IsCurrent)
        (λ _. restructure-IsCurrent project)

module _ (env : Env) (s : Service) where
  stored-IsCurrent :
      (file : ℕ) (content : Bytes) (hash : String)
      → Leads IsCurrent
          (find_latest env file >>= λ latest.
            immediate env (ingest_version env s.project_id file content hash latest))
          IsCurrent
  stored-IsCurrent file content hash =
      Leads-bind (IsReady file) IsCurrent (find_latest env file) _
        (record { at = λ w h. subst IsCurrent (sym (find_latest_reads env file w)) h })
        (find_latest-IsReady env file)
        (λ latest.
          Leads-immediate env _ (λ t r. r.current)
            (ingest_version-IsCurrent env file content hash latest s.project_id))

  get_or_create_versions :
      (relative : Bytes) (w : World)
      → (Files.get_or_create env s.project_id relative w).1.tables.versions ≡ w.tables.versions
  unfolding Files.get_or_create Files.select_file Files.insert_file
  get_or_create_versions relative w = ground arith

  pub get_or_create-IsCurrent :
      (relative : Bytes) → Keeps IsCurrent (Files.get_or_create env s.project_id relative)
  get_or_create-IsCurrent relative = record {
    at = λ w h. subst IsCurrentTable (sym (get_or_create_versions relative w)) h;
  }

  process_file-IsCurrent : (path : Bytes) → Keeps IsCurrent (process_file env s path)
  unfolding process_file
  process_file-IsCurrent path = Keeps-bind _ _ (Keeps-lift (s.read_file path)) λ content.
      Keeps-bind _ _ (Keeps-lift (s.parse (language_from_path path) content)) λ tree.
        Keeps-bind _ _ (Keeps-lift (s.structural_hash tree)) λ hash.
          Keeps-bind _ _ (Keeps-lift (s.rel_path path)) λ relative.
            Keeps-bind _ _ (get_or_create-IsCurrent relative)
              λ file. record { at = (stored-IsCurrent file.id content hash).at }

  skipped-IsCurrent :
      (x : Result (Unit {0}) × World) → IsCurrent x.1.tables → IsCurrent (skipped x).1.tables
  skipped-IsCurrent (ok u, w) h = h
  skipped-IsCurrent (err e, w) h = h
  skipped-IsCurrent (panicked p, w) h = h

  pub run-Keeps : (paths : List Bytes) (end : Option Error) → Keeps IsCurrent (run env s paths end)
  unfolding run
  run-Keeps [] none = Keeps-pure tt
  run-Keeps [] (some e) = Keeps-raise e
  run-Keeps (path ∷ paths) end =
      Keeps-bind (λ w. skipped (process_file env s path w)) _
        (record { at = λ w h. skipped-IsCurrent _ ((process_file-IsCurrent path).at w h) })
        (λ _. run-Keeps paths end)

  -- A run over any files, whichever reads, parses and calls of the database fail: if each version's id
  -- was issued and each file has at most one latest version before, that is so afterwards.
  pub run-IsCurrent :
      (paths : List Bytes) (end : Option Error) (w : World)
      → IsCurrent w.tables
      → IsCurrent (run env s paths end w).1.tables
  run-IsCurrent paths end w h = (run-Keeps paths end).at w h
