-- ===== src/Runner.antt =====
-- crates/rust-browser-proofs/src/bin/rust-browser-proofs.rs: the command runner.
pub mod Paths
pub mod Invocation
pub mod Os
pub mod Workspace
pub mod Report
pub mod Probes
pub mod Cache
pub mod Run
mod Samples
mod Tests
