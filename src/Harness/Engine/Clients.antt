-- ===== src/Harness/Engine/Clients.antt =====
-- A database of the pagedb crate that reaches the file system by its calls alone: over the wrapper of
-- harness/src/fault.rs, and over the back end that is wrapped, it is the same client.
use rust_browser_proofs.Base.{ℕ, String, Option, List}
use rust_browser_proofs.Harness.Vfs.{Async, Vfs}
use rust_browser_proofs.Harness.Engine.{Engine}
use rust_browser_proofs.Harness.Fault.Client.{Call, Answer, Client, run}

pub record EngineClient (V : Vfs) : Type 1 where
  pub Db : Type 0
  pub WriteTxn : Type 0
  pub ReadTxn : Type 0
  pub SegmentWriter : Type 0
  pub SegmentMeta : Type 0
  pub open_internal : Client V Db
  pub open_existing : Client V Db
  pub begin_write : Db → Client V WriteTxn
  pub put : WriteTxn → String → String → Client V WriteTxn
  pub link_segment : WriteTxn → String → SegmentMeta → Client V WriteTxn
  pub commit : WriteTxn → Client V (Unit {0})
  pub begin_read : Db → Client V ReadTxn
  pub get : ReadTxn → String → Client V (Option (List ℕ))
  pub create_segment : Db → Client V SegmentWriter
  pub append_page : SegmentWriter → String → Client V SegmentWriter
  pub seal : SegmentWriter → Client V SegmentMeta

module _ (V : Vfs) (C : EngineClient V) where
  -- The database over calls that are done in this way.
  abbrev pub over : {W : Type 0} → ((c : Call V) → Async W V.Error (Answer V c)) → Engine W V.Error
  over answer = record {
    Db = C.Db;
    WriteTxn = C.WriteTxn;
    ReadTxn = C.ReadTxn;
    SegmentWriter = C.SegmentWriter;
    SegmentMeta = C.SegmentMeta;
    open_internal = run V answer C.open_internal;
    open_existing = run V answer C.open_existing;
    begin_write = λ db. run V answer (C.begin_write db);
    put = λ w key value. run V answer (C.put w key value);
    link_segment = λ w name meta. run V answer (C.link_segment w name meta);
    commit = λ w. run V answer (C.commit w);
    begin_read = λ db. run V answer (C.begin_read db);
    get = λ r key. run V answer (C.get r key);
    create_segment = λ db. run V answer (C.create_segment db);
    append_page = λ sw page. run V answer (C.append_page sw page);
    seal = λ sw. run V answer (C.seal sw);
  }
