-- ===== src/Api.antt =====
-- server/internal/api: the in-memory guards of the HTTP layer.
pub mod TtlStore
pub mod Auth
pub mod Users
pub mod Social
pub mod FailTracker
