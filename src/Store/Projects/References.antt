-- ===== src/Store/Projects/References.antt =====
-- migrations/000001_init.up.sql: the foreign keys of the tables.
use prowiki.Base.{◌≡◌, true, All}
use prowiki.Domain.Entities.{
  File, Feature, FileFeature, Job, FeatureInteraction, StyleAnomaly, CodeStyle, Entity, LlmConfig,
  ApiEndpoint,
}
use prowiki.Db.Schema.{
  Tables, VersionRow, has_project, has_file, has_version, has_feature, has_code_style,
}

-- Each foreign key names a row that is there.
pub record HasReferences (t : Tables) : Type 0 where
  pub files : All (λ (f : File). has_project t f.project_id ≡ true) t.files.rows
  pub versions : All (λ (v : VersionRow). has_file t v.file_id ≡ true) t.versions.rows
  pub features : All (λ (f : Feature). has_project t f.project_id ≡ true) t.features.rows
  pub links :
      All
        (λ (r : FileFeature).
          (has_version t r.file_version_id ≡ true) × (has_feature t r.feature_id ≡ true))
        t.file_features
  pub jobs : All (λ (j : Job). has_project t j.project_id ≡ true) t.jobs.rows
  pub interactions :
      All
        (λ (i : FeatureInteraction).
          (has_feature t i.from_feature_id ≡ true) × (has_feature t i.to_feature_id ≡ true))
        t.interactions.rows
  pub code_styles : All (λ (c : CodeStyle). has_project t c.project_id ≡ true) t.code_styles.rows
  pub anomalies :
      All
        (λ (a : StyleAnomaly).
          (has_version t a.file_version_id ≡ true) × (has_code_style t a.code_style_id ≡ true))
        t.anomalies.rows
  pub entities : All (λ (e : Entity). has_project t e.project_id ≡ true) t.entities.rows
  pub configs : All (λ (c : LlmConfig). has_project t c.project_id ≡ true) t.configs.rows
  pub endpoints : All (λ (e : ApiEndpoint). has_project t e.project_id ≡ true) t.endpoints.rows
