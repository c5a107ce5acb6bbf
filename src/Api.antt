-- ===== src/Api.antt =====
-- app/api.
pub mod Routes
pub mod Reads
pub mod Auth
pub mod Listing
pub mod Guard
pub mod Scopes
