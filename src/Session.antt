-- ===== src/Session.antt =====
-- pkg/session/session.go: one interactive session and its statements.
pub mod Types
pub mod Lifecycle
pub mod Statements
pub mod Page
pub mod Run
mod Examples
