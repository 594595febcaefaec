-- ===== src/Ingest/Through.antt =====
-- internal/app/ingest/service.go: a property of the files and their versions, followed through the
-- transaction of a file.
use prowiki.Base.{ℕ, true, false, String, str_eq, List, [], ◌∷◌, Bool-cases, inl, inr, ◌==◌, Bytes}
use prowiki.Domain.Entities.{Job, File}
use prowiki.Db.Schema.{Table, Tables, VersionRow, has_project}
use prowiki.Db.Io.{Env, pure, statement}
use prowiki.Db.Ensures.{Ensures, Yields, Ensures-bind, Ensures-pure, Ensures-if, Ensures-statement}
use prowiki.Store.Versions
use prowiki.Store.Versions.{mark_query, insert_version_query}
use prowiki.Store.Jobs
use prowiki.Ingest.{Latest, bypass, restructure, invalidate, ingest_version, extraction_job}
use prowiki.Ingest.Single.{clone_junctions-keeps}

-- A property of the tables that looks at the files and their versions alone.
abbrev pub OfFiles : Type 1
OfFiles = Table File → Table VersionRow → Type 0

abbrev pub On : OfFiles → Tables → Type 0
On P t = P t.files t.versions

insert_jobs-keeps :
    (P : OfFiles) (js : List Job) (now : ℕ) (t : Tables)
    → On P t
    → Yields (λ _. On P) (Jobs.insert_jobs js now t)
unfolding Jobs.insert_jobs
insert_jobs-keeps P [] now t h = h
insert_jobs-keeps P (j ∷ js) now t h = elim (Bool-cases (has_project t j.project_id)) [
  | inl e ↦ rw (e, Jobs.insert_jobs) (insert_jobs-keeps P js now _ h)
  | inr e ↦ rw (e, Jobs.insert_jobs) tt
]

-- What holds at the start, with the new version, and at the end.
module _ (A : OfFiles) (B : ℕ → OfFiles) (P : OfFiles) (file : ℕ) (content : Bytes) (hash : String)
    (latest : Latest)
    (inserted : (now : ℕ) (t : Tables)
      → On A t
      → Yields (λ new. On (B new)) (insert_version_query file content hash true now t))
    (demoted : (new now : ℕ) (t : Tables)
      → On (B new) t
      → Yields (λ _. On (B new)) (mark_query false latest.id now t))
    (promoted : (new now : ℕ) (t : Tables)
      → On (B new) t
      → Yields (λ _. On P) (mark_query true new now t))
    (env : Env) where
  through-insert :
      Ensures (On A) (Versions.insert_version env file content hash true) (λ new. On (B new))
  unfolding Versions.insert_version
  through-insert =
      Ensures-statement (λ new. On (B new)) env (insert_version_query file content hash true)
        inserted

  through-set_latest :
      (new : ℕ) → Ensures (On (B new)) (Versions.set_latest env new latest.id) (λ _. On P)
  unfolding Versions.set_latest
  through-set_latest new =
      Ensures-bind (λ _. On (B new)) (λ _. On P) (Versions.demote env latest.id) _
        (Ensures-if (λ _. On (B new)) (latest.id == 0) (pure tt)
          (statement env (mark_query false latest.id))
          (λ _. Ensures-pure (λ _. On (B new)) tt (λ t h. h))
          (λ _. Ensures-statement (λ _. On (B new)) env (mark_query false latest.id) (demoted new)))
        (λ _. Ensures-statement (λ _. On P) env (mark_query true new) (promoted new))

  through-bypass : Ensures (On A) (bypass env file content hash latest) (λ _. On P)
  unfolding bypass
  through-bypass =
      Ensures-bind (λ new. On (B new)) (λ _. On P) _ _ through-insert
        λ new.
          Ensures-bind (λ _. On (B new)) (λ _. On P) _ _
            (clone_junctions-keeps (On (B new)) (λ t v f h. h) env latest.id new)
            (λ _. through-set_latest new)

  through-invalidate : Ensures (On P) (invalidate env latest.id) (λ _. On P)
  unfolding Jobs.reset_completed_for_target
  through-invalidate =
      Ensures-if (λ _. On P) (latest.id == 0) (pure tt)
        (Jobs.reset_completed_for_target env latest.id)
        (λ _. Ensures-pure (λ _. On P) tt (λ t h. h))
        (λ _. Ensures-statement (λ _. On P) env (Jobs.reset_query latest.id) (λ now t h. h))

  through-restructure :
      (project : ℕ) → Ensures (On A) (restructure env project file content hash latest) (λ _. On P)
  unfolding restructure Jobs.enqueue_many
  through-restructure project =
      Ensures-bind (λ new. On (B new)) (λ _. On P) _ _ through-insert
        λ new.
          Ensures-bind (λ _. On P) (λ _. On P) (Versions.set_latest env new latest.id) _
            (through-set_latest new)
            λ _.
              Ensures-bind (λ _. On P) (λ _. On P) (invalidate env latest.id) _ through-invalidate
                λ _.
                  Ensures-statement (λ _. On P) env
                    (Jobs.insert_jobs (extraction_job project new ∷ []))
                    (insert_jobs-keeps P (extraction_job project new ∷ []))

  pub through-ingest_version :
      (project : ℕ)
      → Ensures (On A) (ingest_version env project file content hash latest) (λ _. On P)
  unfolding ingest_version
  through-ingest_version project =
      Ensures-if (λ _. On P) (str_eq latest.hash hash) _ _ (λ _. through-bypass)
        (λ _. through-restructure project)
