-- ===== src/Db/Schema.antt =====
-- migrations/*.up.sql: the tables that the modelled stores use, with the constraints that an
-- INSERT meets (FOREIGN KEY, UNIQUE, PRIMARY KEY), as internal/db/db.go opens the database, with
-- `foreign_keys=ON`. Rows stand in the order of their ids, and AUTOINCREMENT never reuses an id.
use prowiki.Base.{ℕ, suc, Bool, String, Option, List, [], ◌∷◌, ◌++◌, Bytes, exists_where, ◌==◌}
use prowiki.Domain.Entities.{
  Project, File, Feature, FileFeature, Job, DeadLetterItem, PromptTemplate, FeatureInteraction,
  StyleAnomaly, CodeStyle, Entity, LlmConfig, ApiEndpoint,
}

-- A table with an AUTOINCREMENT key; `seq` is its row of `sqlite_sequence`.
pub record Table {ℓ} (R : Type ℓ) : Type ℓ where
  pub rows : List R
  pub seq : ℕ

module _ {ℓ} {R : Type ℓ} where
  abbrev pub next_id : Table R → ℕ
  next_id t = suc t.seq

  -- INSERT of one row; `row` is given the new id.
  abbrev pub insert : (ℕ → R) → Table R → Table R
  insert row t = record { rows = t.rows ++ row (next_id t) ∷ []; seq = next_id t }

-- A row of `file_versions`: the column `summary` may be NULL.
pub record VersionRow : Type 0 where
  pub id : ℕ
  pub file_id : ℕ
  pub content : Bytes
  pub ast_hash : String
  pub summary : Option String
  pub is_latest : Bool
  pub created_at : ℕ

pub record Tables : Type 0 where
  pub projects : Table Project
  pub files : Table File
  pub versions : Table VersionRow
  pub features : Table Feature
  pub file_features : List FileFeature
  pub jobs : Table Job
  pub dead_letters : Table DeadLetterItem
  pub prompts : Table PromptTemplate
  pub interactions : Table FeatureInteraction
  pub code_styles : Table CodeStyle
  pub anomalies : Table StyleAnomaly
  pub entities : Table Entity
  pub configs : Table LlmConfig
  pub endpoints : Table ApiEndpoint

-- The FOREIGN KEY tests.
abbrev pub has_project : Tables → ℕ → Bool
has_project t id = exists_where (λ (p : Project). p.id == id) t.projects.rows

abbrev pub has_file : Tables → ℕ → Bool
has_file t id = exists_where (λ (f : File). f.id == id) t.files.rows

abbrev pub has_version : Tables → ℕ → Bool
has_version t id = exists_where (λ (v : VersionRow). v.id == id) t.versions.rows

abbrev pub has_feature : Tables → ℕ → Bool
has_feature t id = exists_where (λ (f : Feature). f.id == id) t.features.rows

abbrev pub has_code_style : Tables → ℕ → Bool
has_code_style t id = exists_where (λ (c : CodeStyle). c.id == id) t.code_styles.rows

abbrev pub no_tables : Tables
no_tables = record {
  projects = record { rows = []; seq = 0 };
  files = record { rows = []; seq = 0 };
  versions = record { rows = []; seq = 0 };
  features = record { rows = []; seq = 0 };
  file_features = [];
  jobs = record { rows = []; seq = 0 };
  dead_letters = record { rows = []; seq = 0 };
  prompts = record { rows = []; seq = 0 };
  interactions = record { rows = []; seq = 0 };
  code_styles = record { rows = []; seq = 0 };
  anomalies = record { rows = []; seq = 0 };
  entities = record { rows = []; seq = 0 };
  configs = record { rows = []; seq = 0 };
  endpoints = record { rows = []; seq = 0 };
}
