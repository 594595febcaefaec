-- ===== src/Domain/Enums/RoundTrip.antt =====
-- internal/domain/enums.go: parsing a text and printing a constant are inverse to one another.
use prowiki.Base.{String, ◌≡◌, ◌↔◌, eq_iff, arith, refl}
use prowiki.Domain.Errors.{ok}
use prowiki.Domain.Enums.{
  JobStatus, pending, processing, completed, failed, dead_lettered, job_status_text,
  parse_job_status, EntityType, file, feature, entity, intersection, macro_pipeline, style,
  entity_type_text, parse_entity_type, ModelTier, tier1, tier2, model_tier_text, parse_model_tier,
}

parse_job_status-text : (s : JobStatus) → parse_job_status (job_status_text s) ≡ ok s
unfolding parse_job_status job_status_text
parse_job_status-text pending = refl
parse_job_status-text processing = refl
parse_job_status-text completed = refl
parse_job_status-text failed = refl
parse_job_status-text dead_lettered = refl

text_of_job_status :
    (t : String) (s : JobStatus) → parse_job_status t ≡ ok s → t ≡ job_status_text s
unfolding parse_job_status job_status_text
text_of_job_status t s h = ground (
  arith,
  eq_iff t "pending",
  eq_iff t "processing",
  eq_iff t "completed",
  eq_iff t "failed",
  eq_iff t "dead_lettered",
)

parse_entity_type-text : (s : EntityType) → parse_entity_type (entity_type_text s) ≡ ok s
unfolding parse_entity_type entity_type_text
parse_entity_type-text file = refl
parse_entity_type-text feature = refl
parse_entity_type-text entity = refl
parse_entity_type-text intersection = refl
parse_entity_type-text macro_pipeline = refl
parse_entity_type-text style = refl

text_of_entity_type :
    (t : String) (s : EntityType) → parse_entity_type t ≡ ok s → t ≡ entity_type_text s
unfolding parse_entity_type entity_type_text
text_of_entity_type t s h = ground (
  arith,
  eq_iff t "file",
  eq_iff t "feature",
  eq_iff t "entity",
  eq_iff t "intersection",
  eq_iff t "macro_pipeline",
  eq_iff t "style",
)

parse_model_tier-text : (s : ModelTier) → parse_model_tier (model_tier_text s) ≡ ok s
unfolding parse_model_tier model_tier_text
parse_model_tier-text tier1 = refl
parse_model_tier-text tier2 = refl

text_of_model_tier :
    (t : String) (s : ModelTier) → parse_model_tier t ≡ ok s → t ≡ model_tier_text s
unfolding parse_model_tier model_tier_text
text_of_model_tier t s h = ground (arith, eq_iff t "tier_1", eq_iff t "tier_2")

-- For job statuses, entity types and model tiers, a text parses to a constant exactly when it is the
-- text of that constant.
pub parse_iff_text :
    (t : String)
    → ((s : JobStatus) → (parse_job_status t ≡ ok s) ↔ (t ≡ job_status_text s))
      × ((s : EntityType) → (parse_entity_type t ≡ ok s) ↔ (t ≡ entity_type_text s))
      × ((s : ModelTier) → (parse_model_tier t ≡ ok s) ↔ (t ≡ model_tier_text s))
parse_iff_text t = (
  λ s. (text_of_job_status t s, λ e. rw e (parse_job_status-text s)),
  λ s. (text_of_entity_type t s, λ e. rw e (parse_entity_type-text s)),
  λ s. (text_of_model_tier t s, λ e. rw e (parse_model_tier-text s)),
)
