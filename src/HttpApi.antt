-- ===== src/HttpApi.antt =====
-- internal/httpapi: who may call the API, from where, and what of the estate a caller sees.
pub mod Config
pub mod Auth
pub mod Guarded
pub mod Admission
pub mod Exposed
pub mod Tenancy
pub mod Handlers
pub mod Isolation
mod Examples
