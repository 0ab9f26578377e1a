-- ===== src/Api.antt =====
-- apps/api/src: the service behind the HTTP API, which writes through the repository.
pub mod Retry
pub mod Mark
pub mod Attach
