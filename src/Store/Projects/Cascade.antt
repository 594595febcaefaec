-- ===== src/Store/Projects/Cascade.antt =====
-- internal/store/project_store.go: the deletion of a project.
use prowiki.Base.{
  ℕ, ◌≡◌, refl, Bool, true, false, not, ◌&&◌, List, [], ◌∷◌, All, All-imp, All-select, ◌==◌, arith,
  select, delete_where, exists_where, if◌then◌else◌, String, Option, none, some,
}
use prowiki.Domain.Errors.{Error, Result, ok, err}
use prowiki.Domain.Entities.{
  Project, File, Feature, FileFeature, Job, FeatureInteraction, StyleAnomaly, CodeStyle, Entity,
  LlmConfig, ApiEndpoint,
}
use prowiki.Db.Schema.{
  Tables, VersionRow, has_project, has_file, has_version, has_feature, has_code_style,
}
use prowiki.Db.Io.{Env, World, attempt, later, statement}
use prowiki.Txn.Atomic.{AllOrNothing}
use prowiki.Store.Projects.{
  is_project, is_file_of, is_feature_of, is_style_of, is_version_of, loses_version, loses_feature,
  loses_style, loses_link, loses_interaction, loses_anomaly, cascade, delete, delete_query,
  affected,
}
use prowiki.Store.Projects.References.{HasReferences}

module _ {R : Type 0} where
  -- A row that is there and is not deleted is there afterwards.
  survives :
      (p q : R → Bool) (rows : List R)
      → exists_where p rows ≡ true
      → exists_where (λ x. q x && p x) rows ≡ false
      → exists_where p (delete_where q rows) ≡ true
  survives p q [] h k = absurd (cc)
  survives p q (x ∷ rows) h k = ground (arith, survives p q rows)

  -- What holds of each row that stays.
  kept_rows :
      (P : R → Type 0) (p : R → Bool) (rows : List R)
      → All (λ x. not (p x) ≡ true → P x) rows
      → All P (delete_where p rows)
  kept_rows P p rows h = All-select P (λ x. not (p x)) rows h

other_project :
    (id project : ℕ) (rows : List Project)
    → (project == id) ≡ false
    → exists_where (λ (p : Project). is_project id p && (p.id == project)) rows ≡ false
other_project id project [] h = refl
other_project id project (p ∷ rows) h = ground (arith, other_project id project rows h)

module _ (id : ℕ) (t : Tables) where
  project_stays :
      (project : ℕ)
      → has_project t project ≡ true
      → not (project == id) ≡ true
      → has_project (cascade id t) project ≡ true
  unfolding cascade
  project_stays project h k =
      survives (λ (p : Project). p.id == project) (is_project id) t.projects.rows h
        (other_project id project t.projects.rows (ground arith))

  file_stays :
      (v : VersionRow)
      → has_file t v.file_id ≡ true
      → not (is_version_of t id v) ≡ true
      → has_file (cascade id t) v.file_id ≡ true
  unfolding cascade
  file_stays v h k =
      survives (λ (f : File). f.id == v.file_id) (is_file_of id) t.files.rows h (ground arith)

  version_stays :
      (version : ℕ)
      → has_version t version ≡ true
      → not (loses_version t id version) ≡ true
      → has_version (cascade id t) version ≡ true
  unfolding cascade
  version_stays version h k =
      survives (λ (v : VersionRow). v.id == version) (is_version_of t id) t.versions.rows h
        (ground arith)

  feature_stays :
      (feature : ℕ)
      → has_feature t feature ≡ true
      → not (loses_feature t id feature) ≡ true
      → has_feature (cascade id t) feature ≡ true
  unfolding cascade
  feature_stays feature h k =
      survives (λ (f : Feature). f.id == feature) (is_feature_of id) t.features.rows h
        (ground arith)

  style_stays :
      (style : ℕ)
      → has_code_style t style ≡ true
      → not (loses_style t id style) ≡ true
      → has_code_style (cascade id t) style ≡ true
  unfolding cascade
  style_stays style h k =
      survives (λ (c : CodeStyle). c.id == style) (is_style_of id) t.code_styles.rows h
        (ground arith)

module _ (id : ℕ) (t : Tables) (r : HasReferences t) where
  -- The rows that name a project and stay name one that stays.
  owned_rows :
      {R : Type 0} (project : R → ℕ) (rows : List R)
      → All (λ x. has_project t (project x) ≡ true) rows
      → All
          (λ x. has_project (cascade id t) (project x) ≡ true)
          (delete_where (λ x. project x == id) rows)
  owned_rows project rows h =
      kept_rows (λ x. has_project (cascade id t) (project x) ≡ true) (λ x. project x == id) rows
        (All-imp (λ x k e. project_stays id t (project x) k e) rows h)

  cascade-HasReferences : HasReferences (cascade id t)
  unfolding cascade
  cascade-HasReferences = record {
    files = owned_rows (λ (f : File). f.project_id) t.files.rows r.files;
    versions =
        kept_rows (λ (v : VersionRow). has_file (cascade id t) v.file_id ≡ true)
          (is_version_of t id) t.versions.rows
          (All-imp (λ v k e. file_stays id t v k e) t.versions.rows r.versions);
    features = owned_rows (λ (f : Feature). f.project_id) t.features.rows r.features;
    links =
        kept_rows
          (λ (l : FileFeature).
            (has_version (cascade id t) l.file_version_id ≡ true)
            × (has_feature (cascade id t) l.feature_id ≡ true))
          (loses_link t id) t.file_features
          (All-imp
            (λ l k e. (
              version_stays id t l.file_version_id k.0 (ground arith),
              feature_stays id t l.feature_id k.1 (ground arith),
            ))
            t.file_features r.links);
    jobs = owned_rows (λ (j : Job). j.project_id) t.jobs.rows r.jobs;
    interactions =
        kept_rows
          (λ (i : FeatureInteraction).
            (has_feature (cascade id t) i.from_feature_id ≡ true)
            × (has_feature (cascade id t) i.to_feature_id ≡ true))
          (loses_interaction t id) t.interactions.rows
          (All-imp
            (λ i k e. (
              feature_stays id t i.from_feature_id k.0 (ground arith),
              feature_stays id t i.to_feature_id k.1 (ground arith),
            ))
            t.interactions.rows r.interactions);
    code_styles = owned_rows (λ (c : CodeStyle). c.project_id) t.code_styles.rows r.code_styles;
    anomalies =
        kept_rows
          (λ (a : StyleAnomaly).
            (has_version (cascade id t) a.file_version_id ≡ true)
            × (has_code_style (cascade id t) a.code_style_id ≡ true))
          (loses_anomaly t id) t.anomalies.rows
          (All-imp
            (λ a k e. (
              version_stays id t a.file_version_id k.0 (ground arith),
              style_stays id t a.code_style_id k.1 (ground arith),
            ))
            t.anomalies.rows r.anomalies);
    entities = owned_rows (λ (e : Entity). e.project_id) t.entities.rows r.entities;
    configs = owned_rows (λ (c : LlmConfig). c.project_id) t.configs.rows r.configs;
    endpoints = owned_rows (λ (e : ApiEndpoint). e.project_id) t.endpoints.rows r.endpoints;
  }

no_row_left :
    (id : ℕ) (rows : List Project)
    → exists_where (is_project id) (delete_where (is_project id) rows) ≡ false
no_row_left id [] = refl
no_row_left id (p ∷ rows) = ground (arith, no_row_left id rows)

module _ {R : Type 0} (project : R → ℕ) where
  -- The rows of another project are the same, in the same order.
  others_rows :
      (id other : ℕ) (rows : List R)
      → (other == id) ≡ false
      → select (λ x. project x == other) (delete_where (λ x. project x == id) rows)
        ≡ select (λ x. project x == other) rows
  others_rows id other [] ne = refl
  others_rows id other (x ∷ rows) ne = ground (arith, others_rows id other rows ne)

-- What the deletion of a project leaves of another.
pub record Spares (other : ℕ) (t t' : Tables) : Type 0 where
  pub projects :
      select (λ (p : Project). p.id == other) t'.projects.rows
      ≡ select (λ (p : Project). p.id == other) t.projects.rows
  pub files :
      select (λ (f : File). f.project_id == other) t'.files.rows
      ≡ select (λ (f : File). f.project_id == other) t.files.rows
  pub features :
      select (λ (f : Feature). f.project_id == other) t'.features.rows
      ≡ select (λ (f : Feature). f.project_id == other) t.features.rows
  pub jobs :
      select (λ (j : Job). j.project_id == other) t'.jobs.rows
      ≡ select (λ (j : Job). j.project_id == other) t.jobs.rows

cascade-Spares : (id other : ℕ) (t : Tables) → (other == id) ≡ false → Spares other t (cascade id t)
unfolding cascade
cascade-Spares id other t ne = record {
  projects = others_rows (λ (p : Project). p.id) id other t.projects.rows ne;
  files = others_rows (λ (f : File). f.project_id) id other t.files.rows ne;
  features = others_rows (λ (f : Feature). f.project_id) id other t.features.rows ne;
  jobs = others_rows (λ (j : Job). j.project_id) id other t.jobs.rows ne;
}

-- The tables after a deletion that returned no error.
pub record IsDeleted (id : ℕ) (t t' : Tables) : Type 0 where
  pub there : has_project t id ≡ true
  pub gone : has_project t' id ≡ false
  pub references : HasReferences t'
  pub spares : (other : ℕ) → (other == id) ≡ false → Spares other t t'

-- What `Delete` returns, where no call of the database fails.
abbrev pub delete_result : Bool → Result (Unit {0})
delete_result b = if b then ok tt else err Error.not_found

module _ (env : Env) (id : ℕ) (w : World) where
  abbrev pub Deletes : Result (Unit {0}) × World → Type 0
  Deletes x = AllOrNothing w x (λ _ w'. IsDeleted id w.tables w'.tables)

  missing : has_project (cascade id w.tables) id ≡ false
  unfolding cascade
  missing = no_row_left id w.tables.projects.rows

  deleted :
      (o : Option String) (b : Bool)
      → has_project w.tables id ≡ b
      → HasReferences w.tables
      → Deletes (affected (attempt o (delete_query id (env.clock w.tick) w.tables) (later w)))
  unfolding delete_query
  deleted (some e) b h r = refl
  deleted none false h r = rw (h, delete_query) refl
  deleted none true h r =
      rw (h, delete_query)
        (record {
          there = h;
          gone = missing;
          references = cascade-HasReferences id w.tables r;
          spares = λ other ne. cascade-Spares id other w.tables ne;
        })

  -- `Delete`, if every foreign key names a row: where it returns an error no table changes. Otherwise
  -- the project was there and is there no more, every foreign key still names a row, so that no row
  -- of the project is left, and the project row, the files, the features and the jobs of each other
  -- project are as they were. Where no call fails it returns `ErrNotFound` if there is no such
  -- project, and no error if there is one.
  pub delete_lem :
      HasReferences w.tables
      → Deletes (delete env id w)
        × (env.fault w.tick ≡ none → (delete env id w).0 ≡ delete_result (has_project w.tables id))
  unfolding delete delete_query statement
  delete_lem r =
      (deleted (env.fault w.tick) (has_project w.tables id) refl r, λ calm. ground (arith, calm))
