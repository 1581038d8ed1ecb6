-- ===== src/Spark.antt =====
-- pkg/spark/client.go: what it does without Spark Connect.
pub mod Format
pub mod Mock
pub mod Table
pub mod Client
pub mod Sanitize
pub mod Extract
pub mod Remote
pub mod Duration
mod Examples
