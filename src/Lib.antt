-- ===== src/Lib.antt =====
-- Verification of rust-browser-proofs.
--
-- The repository has a command runner that starts a browser test under Rustup's toolchain and
-- reports what it found, helpers that such a test calls to exercise the browser's storage, and a
-- harness that cuts a storage engine's commits at chosen operations and hashes what it has stored.
-- They share no state: the runner is a process of its own, and the helpers and the harness run in
-- workers.
--
-- Base holds what they use: Boolean tests, lists, text, association lists, decimals, the casts of
-- integers and fallible steps on a state.
--
-- Runner models crates/rust-browser-proofs/src/bin/rust-browser-proofs.rs, one module per part:
--   Runner/Invocation  `Invocation::parse`, its loop and the checks behind it; Spelling is the grammar
--   Runner/Paths       `report_cache_path`, `default_report_path`, and std's `parent` and `join`
--   Runner/Workspace   `reject_virtual_workspace_wasm_pack` and what it calls
--   Runner/Probes      `EnvironmentSnapshot::collect`, the probes and `find_executable`
--   Runner/Report      `CommandResult`, the evidence columns, `markdown_cell`, `render_report`;
--                      Cell/Reading is what Markdown makes of a cell
--   Runner/Cache       `write_report` and `mirror_report_in_cache`
--   Runner/Run         `run` and `main`, which compose the others; Outcomes is their specification
--   Runner/Os          the surroundings: the state (files and printed lines) and, as parameters,
--                      the environment, the places that paths lead to, the file system's refusals,
--                      processes, SQLite
-- A step of the runner takes the state and gives a result or a message with the state it leaves, so
-- that an early return is an error value. The probes ask the host, not the state. A file is kept by
-- its place on the disk, where a path leads from the directory of the process, and holds a text or a
-- database: a cache is such a file, and a report may be written over it. `fs::write` may fail before
-- it opens the file, or when the file is truncated and a first part of the text is in it.
--
-- Harness models harness/src: fault.rs, driver.rs, idb_driver.rs and receipt.rs:
--   Harness/Vfs        the trait that the wrapper is built on and implements, as a parameter
--   Harness/Fault      `FaultVfs` and `FaultFile`; the trigger, which the code shares between all
--                      clones and files by an `Arc`, is one part of one state
--   Harness/Fault/Trigger  `TriggerState`, `key` and the counting half of `tick`
--   Harness/Fault/Client   any client of the file system, as a tree of calls and answers; Faults is
--                      the specification that the wrapper implements, Ticks the operations of a run
--                      that is not cut
--   Harness/Engine     pagedb's database, as a parameter; Clients are databases that reach their files
--                      by the file system's calls, over the wrapper or what it wraps
--   Harness/Driver     `parse_kind`, `oracle_seed` and `oracle_commit`; the order of a commit's
--                      operations is a hypothesis, taken from the documentation of `parse_kind`
--   Harness/IdbDriver  the seeds, crashes and verifications over IndexedDB; pagedb's store and
--                      back end for it are parameters; Protocol runs a whole crash test, where
--                      the promises of that back end are a record of hypotheses. What the code
--                      drops is released where it does so; the deletion of a store waits until
--                      nothing has it open
--   Harness/Receipt    `run_script` and `compute_receipt`; the database and the hash are parameters,
--                      and an `unwrap` that fails is a panic; Ordered says what is expected of the
--                      database, and Parity compares two databases call by call
-- A call is done, failed or parked; a parked call is a future that never resolves, and nothing
-- behind it runs. The wrapper is taken to run in a dedicated worker, where a beacon is posted.
--
-- Opfs models crates/rust-browser-proofs/src/opfs.rs and lib.rs:
--   Opfs/Browser       the directory, file and sync access handles, the random number and the clock,
--                      as a parameter
--   Opfs               the round trip, the benchmark and the baseline; an `await` is a step, and the
--                      loops recurse on the number of rounds
--   Opfs/Battery       the two tests that `opfs_worker_battery!` emits
-- What the theorems need of the storage are two records of hypotheses: Opfs/Stored says what a call
-- that succeeds has done, Opfs/Battery/Healthy that calls succeed as the standard describes.
--
-- Numbers: `u8`, `u64` and `i64` keep their wrap-around; the counts of a trigger and its firings
-- are modulo 2 ^ 64, and the theorems about them bound the number of operations by it; `usize` has
-- 32 bits, as in WebAssembly. Every loop is structural recursion and needs no fuel.
--
-- Assumed: paths and arguments are Unix and valid Unicode, a process started by the runner ends,
-- the clock does not move within a run, the host answers a run's probes alike whenever they are
-- asked, a dropped SQLite transaction rolls back, SQLite takes an empty file for an empty database
-- and refuses another text with "file is not a database", a database file is not valid UTF-8, and a
-- text is cut off between two characters.
-- Not modelled: the table of expected receipts, whether SQLite creates an empty database file at a
-- failed step, the worker's JavaScript, the shell recipes, the containers, and the test suites that
-- run in browsers.
pub mod Base
pub mod Runner
pub mod Harness
pub mod Opfs
