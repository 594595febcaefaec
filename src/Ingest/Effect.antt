-- ===== src/Ingest/Effect.antt =====
-- internal/app/ingest/service.go: what the transaction of a file writes.
use prowiki.Base.{
  map, ℕ, suc, ◌≡◌, refl, ap, Bool, true, false, String, str_eq, [], ◌∷◌, Bool-cases, inl, inr, ◌⊎◌,
  ◌==◌, if◌then◌else◌, Bytes,
}
use prowiki.Db.Schema.{Tables, has_file}
use prowiki.Db.Io.{Env, World, pure, later}
use prowiki.Db.Ensures.{
  Ensures, Post, Post-imp, Yields, Ensures-bind, Ensures-pure, Ensures-if, Ensures-statement,
}
use prowiki.Txn.{immediate}
use prowiki.Txn.Atomic.{AllOrNothing, immediate-AllOrNothing}
use prowiki.Store.Versions
use prowiki.Store.Jobs
use prowiki.Ingest.{Latest, bypass, restructure, invalidate, ingest_version, extraction_job}
use prowiki.Ingest.Written.{
  unmarked, mark_rows-IsAdded, IsInserted, IsBypassed, IsRestructured, IsReset, cloned-IsBypassed,
  not-IsReset, reset_query-IsReset, enqueued-IsRestructured,
}

module _ (env : Env) (file : ℕ) (content : Bytes) (hash : String) (latest : Latest)
    (before : Tables) where
  insert-IsInserted :
      Ensures
        (λ t. t ≡ before)
        (Versions.insert_version env file content hash true)
        (λ new. IsInserted before file content hash new)
  unfolding Versions.insert_version Versions.insert_version_query
  insert-IsInserted =
      Ensures-statement (λ new. IsInserted before file content hash new) env
        (Versions.insert_version_query file content hash true) (λ now t same. inserted now t same)
    where
      inserted :
          (now : ℕ) (t : Tables)
          → t ≡ before
          → Yields
              (λ new. IsInserted before file content hash new)
              (Versions.insert_version_query file content hash true now t)
      inserted now t same = elim (Bool-cases (has_file t file)) [
        | inl e ↦
            rw (e, Versions.insert_version_query)
              (record {
                added = record {
                  older = t.versions.rows;
                  last = Versions.version_row now file content hash true (suc t.versions.seq);
                  split = refl;
                  same_older = ap (λ (u : Tables). map unmarked u.versions.rows) same;
                  id = ap (λ (u : Tables). suc u.versions.seq) same;
                  of_file = refl;
                  same_content = refl;
                  same_hash = refl;
                };
                id = ap (λ (u : Tables). suc u.versions.seq) same;
                seq = refl;
                jobs = ap (λ (u : Tables). u.jobs) same;
                junctions = ap (λ (u : Tables). u.file_features) same;
              })
        | inr e ↦ rw (e, Versions.insert_version_query) tt
      ]

  set_latest-keeps :
      (P : Tables → Type 0)
      → ((b : Bool) (id now : ℕ) (t : Tables)
          → P t
          → Yields (λ _. P) (Versions.mark_query b id now t))
      → (new : ℕ) → Ensures P (Versions.set_latest env new latest.id) (λ _. P)
  unfolding Versions.set_latest
  set_latest-keeps P marked new =
      Ensures-bind (λ _. P) (λ _. P) (Versions.demote env latest.id) _
        (Ensures-if (λ _. P) (latest.id == 0) _ _ (λ _. Ensures-pure (λ _. P) tt (λ t h. h))
          (λ _.
            Ensures-statement (λ _. P) env (Versions.mark_query false latest.id)
              (marked false latest.id)))
        (λ _. Ensures-statement (λ _. P) env (Versions.mark_query true new) (marked true new))

  bypass-IsBypassed :
      Ensures
        (λ t. t ≡ before)
        (bypass env file content hash latest)
        (λ _. IsBypassed before file content hash latest.id)
  unfolding bypass Versions.clone_junctions Versions.mark_query
  bypass-IsBypassed =
      Ensures-bind (λ new. IsInserted before file content hash new)
        (λ _. IsBypassed before file content hash latest.id) _ _ insert-IsInserted
        λ new.
          Ensures-bind (λ _. IsBypassed before file content hash latest.id)
            (λ _. IsBypassed before file content hash latest.id)
            (Versions.clone_junctions env latest.id new) _
            (Ensures-statement (λ _. IsBypassed before file content hash latest.id) env
              (Versions.clone_query latest.id new)
              (cloned-IsBypassed before file content hash latest.id new))
            (λ _.
              set_latest-keeps (IsBypassed before file content hash latest.id)
                (λ b id now t i. record {
                  added = mark_rows-IsAdded before file content hash b id t.versions.rows i.added;
                  seq = i.seq;
                  jobs = i.jobs;
                  junctions = i.junctions;
                })
                new)

  invalidate-IsReset :
      (new : ℕ)
      → Ensures
          (IsInserted before file content hash new)
          (invalidate env latest.id)
          (λ _. IsReset before file content hash latest.id new)
  unfolding Jobs.reset_completed_for_target
  invalidate-IsReset new =
      Ensures-if (λ _. IsReset before file content hash latest.id new) (latest.id == 0) (pure tt)
        (Jobs.reset_completed_for_target env latest.id)
        (λ none_before.
          Ensures-pure (λ _. IsReset before file content hash latest.id new) tt
            (λ t i. not-IsReset before file content hash latest.id new t none_before i))
        (λ some_before.
          Ensures-statement (λ _. IsReset before file content hash latest.id new) env
            (Jobs.reset_query latest.id)
            (λ now t i.
              reset_query-IsReset before file content hash latest.id new now t some_before i))

  restructure-IsRestructured :
      (project : ℕ)
      → Ensures
          (λ t. t ≡ before)
          (restructure env project file content hash latest)
          (λ _. IsRestructured before file content hash project latest.id)
  unfolding restructure Jobs.enqueue_many Versions.mark_query
  restructure-IsRestructured project =
      Ensures-bind (λ new. IsInserted before file content hash new)
        (λ _. IsRestructured before file content hash project latest.id) _ _ insert-IsInserted
        λ new.
          Ensures-bind (λ _. IsInserted before file content hash new)
            (λ _. IsRestructured before file content hash project latest.id)
            (Versions.set_latest env new latest.id) _
            (set_latest-keeps (IsInserted before file content hash new)
              (λ b id now t i. record {
                added = mark_rows-IsAdded before file content hash b id t.versions.rows i.added;
                id = i.id;
                seq = i.seq;
                jobs = i.jobs;
                junctions = i.junctions;
              })
              new)
            λ _.
              Ensures-bind (λ _. IsReset before file content hash latest.id new)
                (λ _. IsRestructured before file content hash project latest.id)
                (invalidate env latest.id) _ (invalidate-IsReset new)
                λ _.
                  Ensures-statement (λ _. IsRestructured before file content hash project latest.id)
                    env (Jobs.insert_jobs (extraction_job project new ∷ []))
                    (enqueued-IsRestructured before file content hash project latest.id new)

-- The writes that a file's hash asks for.
abbrev pub Ingested : Tables → ℕ → ℕ → Bytes → String → Latest → Tables → Type 0
Ingested before project file content hash latest t =
    ((str_eq latest.hash hash ≡ true) × IsBypassed before file content hash latest.id t)
    ⊎ ((str_eq latest.hash hash ≡ false)
        × IsRestructured before file content hash project latest.id t)

-- The transaction of a file, whichever calls fail: it changes nothing, or a version of the file with the
-- content and the hash was added behind the others, of which at most the marks changed, and either the
-- hash is that of the latest version, the new version got its junctions, and the queue is as
-- it was; or the hash is another, the completed jobs of the latest version are pending again with ten
-- more of priority, one pending job of the stage level_1_overview was enqueued for the new version and
-- its project, and the junctions are as they were.
pub ingest_version_lem :
    (env : Env) (project file : ℕ) (content : Bytes) (hash : String) (latest : Latest) (w : World)
    → AllOrNothing w
        (immediate env (ingest_version env project file content hash latest) w)
        (λ _ w'. Ingested w.tables project file content hash latest w'.tables)
unfolding ingest_version
ingest_version_lem env project file content hash latest w =
    immediate-AllOrNothing env (ingest_version env project file content hash latest) w
      (λ _. Ingested w.tables project file content hash latest)
      (ingested (str_eq latest.hash hash) refl)
  where
    ingested :
        (b : Bool)
        → str_eq latest.hash hash ≡ b
        → Post
            (λ _. Ingested w.tables project file content hash latest)
            ((if b
                then bypass env file content hash latest
                else restructure env project file content hash latest)
              (later w))
    ingested true e =
        Post-imp (bypass env file content hash latest (later w))
          {Q = λ _. IsBypassed w.tables file content hash latest.id}
          {R = λ _. Ingested w.tables project file content hash latest} (λ _ t p. inl (e, p))
          ((bypass-IsBypassed env file content hash latest w.tables).at (later w) refl)
    ingested false e =
        Post-imp (restructure env project file content hash latest (later w))
          {Q = λ _. IsRestructured w.tables file content hash project latest.id}
          {R = λ _. Ingested w.tables project file content hash latest} (λ _ t p. inr (e, p))
          ((restructure-IsRestructured env file content hash latest w.tables project).at (later w)
            refl)
