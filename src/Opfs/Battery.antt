-- ===== src/Opfs/Battery.antt =====
-- crates/rust-browser-proofs/src/lib.rs: the tests that `opfs_worker_battery!` puts into the crate
-- that calls it.
pub mod Healthy
pub mod Rounds
pub mod Persists
pub mod Passes
use rust_browser_proofs.Base.{String, Result, ok, err}
use rust_browser_proofs.Base.Step.{Step}
use rust_browser_proofs.Opfs.{assert_sync_access_handle_round_trip, assert_raw_sync_baseline}
use rust_browser_proofs.Opfs.Browser.{Platform}

-- How a test ends: it returns, or `expect` panics with its text and the error.
pub data Verdict (E : Type 0) : Type 0 where
  passed : Verdict E
  panicked : String → E → Verdict E

unfoldable pub expect : {E : Type 0} → String → Result E (Unit {0}) → Verdict E
expect text (ok a) = passed
expect text (err e) = panicked text e

module _ (P : Platform) where
  -- A helper run to its end, under `expect`.
  abbrev pub expecting :
      String → Step P.World P.Error (Unit {0}) → P.World → Verdict P.Error × P.World
  expecting text helper w = let (result, w') = helper w in (expect text result, w')

  unfoldable pub rust_browser_proofs_sync_access_handle_round_trip :
      P.World → Verdict P.Error × P.World
  unfolding expect
  rust_browser_proofs_sync_access_handle_round_trip =
      expecting "generic OPFS sync-access-handle round trip failed"
        (assert_sync_access_handle_round_trip P)

  unfoldable pub rust_browser_proofs_raw_sync_baseline : P.World → Verdict P.Error × P.World
  unfolding expect
  rust_browser_proofs_raw_sync_baseline =
      expecting "generic OPFS raw sync baseline failed" (assert_raw_sync_baseline P)
