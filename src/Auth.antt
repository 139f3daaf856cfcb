-- ===== src/Auth.antt =====
-- app/api/auth.py: the admission of a request to the protected endpoints.
pub mod Scope
pub mod Request
pub mod Admission
pub mod Refusal
