-- ===== src/Harness/IdbDriver/Protocol.antt =====
-- The crash tests of harness/src/idb_driver.rs as their parent runs them: one worker seeds the
-- store, a second is killed at its beacon, and a third verifies. What pagedb's back end for
-- IndexedDB promises of each call is a record of hypotheses.
pub mod Files
pub mod Seeded
pub mod Verifies
pub mod Passes
mod Tests
