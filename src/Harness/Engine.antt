-- ===== src/Harness/Engine.antt =====
-- The database of the pagedb crate, as far as the drivers call it: a parameter, over the state and
-- the errors of the file system that it is opened on. A call that changes a transaction or a segment
-- gives it anew.
pub mod Clients
pub mod Doomed
mod Tests
use rust_browser_proofs.Base.{ℕ, String, Option, List}
use rust_browser_proofs.Harness.Vfs.{Async, done, failed, parked}

pub record Engine (World Error : Type 0) : Type 1 where
  pub Db : Type 0
  pub WriteTxn : Type 0
  pub ReadTxn : Type 0
  pub SegmentWriter : Type 0
  pub SegmentMeta : Type 0
  -- `Db::open_internal` and `Db::open_existing`, under the key, page size and realm of the drivers
  pub open_internal : Async World Error Db
  pub open_existing : Async World Error Db
  pub begin_write : Db → Async World Error WriteTxn
  pub put : WriteTxn → String → String → Async World Error WriteTxn
  pub link_segment : WriteTxn → String → SegmentMeta → Async World Error WriteTxn
  pub commit : WriteTxn → Async World Error (Unit {0})
  pub begin_read : Db → Async World Error ReadTxn
  pub get : ReadTxn → String → Async World Error (Option (List ℕ))
  pub create_segment : Db → Async World Error SegmentWriter
  pub append_page : SegmentWriter → String → Async World Error SegmentWriter
  pub seal : SegmentWriter → Async World Error SegmentMeta

-- `map_err`
abbrev pub map_err : {W E F A : Type 0} → (E → F) → Async W E A → Async W F A
map_err f m w =
    let (p, w') = m w in
    elim p [ done a ↦ (done a, w') | failed e ↦ (failed (f e), w') | parked ↦ (parked, w') ]
