-- ===== src/Documents.antt =====
-- app/documents: where a document's bytes are stored, what they are, and the versions of a document.
pub mod Storage
pub mod Segments
pub mod Paths
pub mod Format
pub mod Download
pub mod Versions
pub mod Numbered
