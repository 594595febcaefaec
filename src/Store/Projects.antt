-- ===== src/Store/Projects.antt =====
-- internal/store/project_store.go: the rows of `projects`, and what goes with them: every table of
-- migrations/000001_init.up.sql that refers to a project does so by ON DELETE CASCADE.
pub mod References
pub mod Cascade
use prowiki.Base.{
  ℕ, Bool, true, false, ◌&&◌, ◌||◌, String, str_eq, List, [], ◌==◌, if◌then◌else◌, Option, none,
  some, delete_where, update_where, first_where, exists_where,
}
use prowiki.Domain.Errors.{Error, Result, ok, err, panicked}
use prowiki.Domain.Entities.{
  Project, File, Feature, FileFeature, Job, FeatureInteraction, StyleAnomaly, CodeStyle, Entity,
  LlmConfig, ApiEndpoint,
}
use prowiki.Db.Schema.{Table, Tables, VersionRow, insert, next_id, has_project}
use prowiki.Db.Io.{Env, World, Io, Query, statement}
use prowiki.Store.Versions.{or_not_found}

abbrev pub project_row : ℕ → String → ℕ → Project
project_row now name id = record {
  id = id;
  name = name;
  fs_location = "";
  created_at = now;
  updated_at = now;
}

unfoldable pub insert_project : String → Query ℕ
insert_project name now t =
    ok (next_id t.projects, record t { projects = insert (project_row now name) t.projects })

-- `Create`, which sets `project.ID`: the result is that id.
unfoldable pub create : Env → String → Io ℕ
unfolding insert_project statement
create env name = statement env (insert_project name)

abbrev pub is_project : ℕ → Project → Bool
is_project id p = p.id == id

-- The SELECT does not name `fs_location`, which keeps the zero value.
unfoldable pub project_query : ℕ → Query Project
project_query id now t = elim (first_where (is_project id) t.projects.rows) [
  | none ↦ err Error.no_rows
  | some p ↦ ok (record p { fs_location = "" }, t)
]

-- `GetByID`
unfoldable pub get_by_id : Env → ℕ → Io Project
unfolding project_query statement
get_by_id env id w = or_not_found (statement env (project_query id) w)

abbrev rename : String → ℕ → Project → Project
rename name now p = record p { name = name; updated_at = now }

unfoldable pub rename_query : ℕ → String → Query ℕ
rename_query id name now t =
    if has_project t id
    then ok (
      now,
      record t {
        projects = record {
          rows = update_where (is_project id) (rename name now) t.projects.rows;
          seq = t.projects.seq;
        };
      },
    )
    else err Error.no_rows

-- `Update`, which sets `project.UpdatedAt`: the result is that time.
unfoldable pub update : Env → ℕ → String → Io ℕ
unfolding rename_query statement
update env id name w = or_not_found (statement env (rename_query id name) w)

-- The rows that a deletion of the project takes along, and those that these take along.
abbrev pub is_file_of : ℕ → File → Bool
is_file_of id f = f.project_id == id

abbrev pub is_feature_of : ℕ → Feature → Bool
is_feature_of id f = f.project_id == id

abbrev pub is_style_of : ℕ → CodeStyle → Bool
is_style_of id c = c.project_id == id

abbrev pub is_version_of : Tables → ℕ → VersionRow → Bool
is_version_of t id v =
    exists_where (λ (f : File). is_file_of id f && (f.id == v.file_id)) t.files.rows

abbrev pub loses_version : Tables → ℕ → ℕ → Bool
loses_version t id version =
    exists_where (λ (v : VersionRow). is_version_of t id v && (v.id == version)) t.versions.rows

abbrev pub loses_feature : Tables → ℕ → ℕ → Bool
loses_feature t id feature =
    exists_where (λ (f : Feature). is_feature_of id f && (f.id == feature)) t.features.rows

abbrev pub loses_style : Tables → ℕ → ℕ → Bool
loses_style t id style =
    exists_where (λ (c : CodeStyle). is_style_of id c && (c.id == style)) t.code_styles.rows

abbrev pub loses_link : Tables → ℕ → FileFeature → Bool
loses_link t id r = loses_version t id r.file_version_id || loses_feature t id r.feature_id

abbrev pub loses_interaction : Tables → ℕ → FeatureInteraction → Bool
loses_interaction t id i =
    loses_feature t id i.from_feature_id || loses_feature t id i.to_feature_id

abbrev pub loses_anomaly : Tables → ℕ → StyleAnomaly → Bool
loses_anomaly t id a = loses_version t id a.file_version_id || loses_style t id a.code_style_id

abbrev pub without : {R : Type 0} → (R → Bool) → Table R → Table R
without p t = record { rows = delete_where p t.rows; seq = t.seq }

-- The deletion with its cascades.
unfoldable pub cascade : ℕ → Tables → Tables
cascade id t = record t {
  projects = without (is_project id) t.projects;
  files = without (is_file_of id) t.files;
  versions = without (is_version_of t id) t.versions;
  features = without (is_feature_of id) t.features;
  file_features = delete_where (loses_link t id) t.file_features;
  jobs = without (λ (j : Job). j.project_id == id) t.jobs;
  interactions = without (loses_interaction t id) t.interactions;
  code_styles = without (is_style_of id) t.code_styles;
  anomalies = without (loses_anomaly t id) t.anomalies;
  entities = without (λ (e : Entity). e.project_id == id) t.entities;
  configs = without (λ (c : LlmConfig). c.project_id == id) t.configs;
  endpoints = without (λ (e : ApiEndpoint). e.project_id == id) t.endpoints;
}

-- Whether a row of `projects` was affected: without one nothing cascades.
unfoldable pub delete_query : ℕ → Query Bool
unfolding cascade
delete_query id now t = if has_project t id then ok (true, cascade id t) else ok (false, t)

abbrev pub affected : Result Bool × World → Result (Unit {0}) × World
affected (ok b, w) = (if b then ok tt else err Error.not_found, w)
affected (err e, w) = (err e, w)
affected (panicked p, w) = (panicked p, w)

-- `Delete`
unfoldable pub delete : Env → ℕ → Io (Unit {0})
unfolding delete_query statement
delete env id w = affected (statement env (delete_query id) w)
