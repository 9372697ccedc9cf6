-- ===== src/Telemetry.antt =====
-- The push of the metrics (zk-verifier/src/otel_split.rs and otel_push.rs).
pub mod Split
pub mod Rows
pub mod Shells
pub mod Parts
pub mod Loop
pub mod Laws
pub mod Push
pub mod Sending
mod Sample
mod Tests
