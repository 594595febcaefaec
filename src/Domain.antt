-- ===== src/Domain.antt =====
-- internal/domain: errors, enumerations and entities.
pub mod Errors
pub mod Enums
pub mod Entities
pub mod Language
