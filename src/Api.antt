-- ===== src/Api.antt =====
-- pkg/api: the REST handlers, as functions of the store and of what they read from the request.
pub mod Types
pub mod Query
pub mod Entry
pub mod Cors
pub mod Sessions
pub mod Statements
pub mod Router
mod Examples
