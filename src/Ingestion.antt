-- ===== src/Ingestion.antt =====
-- app/ingestion: from a normalized record to the stored opportunity.
pub mod Record
pub mod Reference
pub mod Dedup
pub mod Versioning
pub mod Persist
pub mod Validator
pub mod Parser
pub mod Run
