-- ===== src/Witnesses.antt =====
-- Concrete inputs of the modelled code, and what the theorems say of them.
mod Fixtures
mod Sources
mod Tenders
mod Runs
mod Limits
mod Keys
mod Network
mod Verification
mod Requests
mod Tasks
mod Files
mod Items
