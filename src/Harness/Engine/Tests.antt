-- ===== src/Harness/Engine/Tests.antt =====
-- The crash drivers over a database that is a client of a file in memory.
use rust_browser_proofs.Base.{String, List, arith, refl, none, [], ◌∷◌, Result, string_eq}
use rust_browser_proofs.Harness.Vfs.{pure, Request}
use rust_browser_proofs.Harness.Memory.{memory}
use rust_browser_proofs.Harness.Engine.Clients.{EngineClient, over}
use rust_browser_proofs.Harness.Engine.Doomed.{EndsAs}
use rust_browser_proofs.Harness.Fault.{OpKind}
use rust_browser_proofs.Harness.Fault.Client.{
  Client, plain, wrapped, run, ends, asks, rename, write_at, write_at_vectored, sync, sync_dir,
}
use rust_browser_proofs.Harness.Driver.{parse_kind, oracle_commit}
use rust_browser_proofs.Harness.Fault.{beacon, sync_dir_before, max_end, op_kind_eq}
use rust_browser_proofs.Harness.Fault.Trigger.Counting.{occurrences}
use rust_browser_proofs.Harness.Fault.Transparency.{plain_write_at_vectored, write_each}
use rust_browser_proofs.Harness.Fault.Client.Ticks.{client_ticks, sub_ticks}
use rust_browser_proofs.Harness.Driver.Reached.{Stands, oracle_commit-Stands}
use rust_browser_proofs.Harness.Driver.Crash
use rust_browser_proofs.Harness.Driver.Crash.{oracle_commit-EndsAs}
use rust_browser_proofs.Harness.IdbDriver.{Idb, idb_crash_after_header_write}
use rust_browser_proofs.Harness.IdbDriver.HeaderWrite
use rust_browser_proofs.Harness.IdbDriver.HeaderWrite.{idb_crash_after_header_write-EndsAs}

abbrev stop : {A : Type 0} → Result String A → Client memory (Unit {0})
stop r = ends tt

-- A commit is one write and two syncs, whatever their outcome.
abbrev synced_write : EngineClient memory
synced_write = record {
  Db = Unit;
  WriteTxn = Unit;
  ReadTxn = Unit;
  SegmentWriter = Unit;
  SegmentMeta = Unit;
  open_internal = ends tt;
  open_existing = ends tt;
  begin_write = λ db. ends tt;
  put = λ w key value. ends tt;
  link_segment = λ w name meta. ends tt;
  commit = λ w. asks (sync tt) λ r. asks (write_at tt 0 (8 ∷ [])) λ r'. asks (sync tt) stop;
  begin_read = λ db. ends tt;
  get = λ r key. ends none;
  create_segment = λ db. ends tt;
  append_page = λ sw page. ends tt;
  seal = λ sw. ends tt;
}

oracle_commit-EndsAs_example :
    EndsAs memory
      (Crash.telling_commit memory (λ e. e))
      synced_write.commit
      OpKind.sync
      2
      []
      (Crash.prepare memory (λ e. e) (over memory synced_write (plain memory)) (9 ∷ []))
      (oracle_commit memory
        (λ e. e)
        (λ root. pure tt)
        (over memory synced_write (wrapped memory))
        "root"
        "header-written-pre-sync"
        (9 ∷ [], []))
unfolding parse_kind string_eq
oracle_commit-EndsAs_example =
    oracle_commit-EndsAs memory (λ e. e) synced_write (λ root. pure tt) "root"
      "header-written-pre-sync" [] OpKind.sync 2 (9 ∷ []) (9 ∷ []) refl refl

-- A store over the memory.
abbrev idb : Idb memory
idb = record {
  Store = Unit;
  create_new = tt;
  read_mode = tt;
  debug = λ e. e;
  with_root = λ root. pure tt;
  store_open = λ name. pure tt;
  load_file = λ store id. pure none;
  store_close = λ store w. w;
  delete = λ name. pure tt;
  drop_file = λ file w. w;
  drop_vfs = λ w. w;
  pause = λ w. w;
  post_message = λ text. pure tt;
}

idb_crash_after_header_write-EndsAs_example :
    EndsAs memory
      (HeaderWrite.telling_commit memory idb)
      synced_write.commit
      OpKind.sync
      2
      []
      (HeaderWrite.prepare memory idb (over memory synced_write (plain memory)) (9 ∷ []))
      (idb_crash_after_header_write memory idb
        (over memory synced_write (wrapped memory))
        "root"
        (9 ∷ [], []))
idb_crash_after_header_write-EndsAs_example =
    idb_crash_after_header_write-EndsAs memory idb synced_write "root" [] (9 ∷ []) (9 ∷ []) refl

abbrev reqs : List Request
reqs = record { offset = 0; buf = 7 ∷ [] } ∷ []

-- One page, and then the operations of a commit in the documented order, whatever their outcome.
abbrev full_commit : Client memory (Unit {0})
full_commit = asks (write_at_vectored tt reqs) λ r. asks (sync tt) λ r.
    asks (write_at tt 0 (8 ∷ [])) λ r. asks (sync tt) λ r. asks (sync_dir "seg") λ r.
      asks (sync_dir ".tombstone")
        λ r. asks (rename "a" "b") λ r. asks (sync_dir "seg") λ r. asks (sync_dir ".tombstone") stop

abbrev full : EngineClient memory
full = record synced_write { commit = λ w. full_commit }

oracle_commit-Stands_example :
    Stands memory
      (λ e. e)
      full
      tt
      (9 ∷ [])
      (beacon memory sync_dir_before 3 ∷ [])
      (oracle_commit memory
        (λ e. e)
        (λ root. pure tt)
        (over memory full (wrapped memory))
        "root"
        "during-sync-dir"
        (9 ∷ [], []))
unfolding parse_kind string_eq run client_ticks sub_ticks plain plain_write_at_vectored write_each
    max_end occurrences op_kind_eq
oracle_commit-Stands_example =
    oracle_commit-Stands memory (λ e. e) full (λ root. pure tt) "root" "during-sync-dir" []
      sync_dir_before 3 (9 ∷ []) (9 ∷ []) (9 ∷ []) tt 0 [] refl refl refl refl (omega arith)
