-- ===== src/Tests/Domain.antt =====
-- The theorems on the enumerations, on one text.
use prowiki.Base.{◌≡◌, ◌↔◌}
use prowiki.Domain.Errors.{ok}
use prowiki.Domain.Enums.{
  JobStatus, job_status_text, parse_job_status, EntityType, entity_type_text, parse_entity_type,
  ModelTier, model_tier_text, parse_model_tier,
}
use prowiki.Domain.Enums.RoundTrip.{parse_iff_text}

parse_iff_text_example :
    ((s : JobStatus) → (parse_job_status "failed" ≡ ok s) ↔ ("failed" ≡ job_status_text s))
    × ((s : EntityType) → (parse_entity_type "failed" ≡ ok s) ↔ ("failed" ≡ entity_type_text s))
    × ((s : ModelTier) → (parse_model_tier "failed" ≡ ok s) ↔ ("failed" ≡ model_tier_text s))
parse_iff_text_example = parse_iff_text "failed"
