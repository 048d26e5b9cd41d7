-- ===== src/Harness/IdbDriver/Tests.antt =====
-- The crash drivers and a verification over memory, and their theorems there.
use rust_browser_proofs.Base.{
  ℕ, String, refl, none, some, List, [], nat_beq, if◌then◌else◌, ◌==◌, string_eq,
}
use rust_browser_proofs.Base.Bytes.{bytes, bytes_eq}
use rust_browser_proofs.Harness.Vfs.{Async, done, failed, pure, Vfs}
use rust_browser_proofs.Harness.Memory.{memory}
use rust_browser_proofs.Harness.Engine.{Engine}
use rust_browser_proofs.Harness.IdbDriver.Kept.{Kept, idb_verify_header_write-Kept}
use rust_browser_proofs.Harness.IdbDriver.{Idb, Drops, idb_verify_header_write, require, image_is}

-- The memory, with an `open` of its own.
abbrev opening : (String → Unit {0} → Async (List ℕ) String (Unit {0})) → Vfs
opening open_file = record memory { open_file = open_file }

-- A store over it, whose second file is never there.
abbrev idb : (o : String → Unit {0} → Async (List ℕ) String (Unit {0})) → Idb (opening o)
idb o = record {
  Store = Unit;
  create_new = tt;
  read_mode = tt;
  debug = λ e. e;
  with_root = λ root. pure tt;
  store_open = λ name. pure tt;
  load_file = λ store id w. (done (if nat_beq id 0 then some w else none), w);
  store_close = λ store w. w;
  delete = λ name w. (done tt, []);
  pause = λ w. w;
  drop_file = λ file w. w;
  drop_vfs = λ w. w;
  post_message = λ text. pure tt;
}

abbrev open_any : String → Unit {0} → Async (List ℕ) String (Unit {0})
open_any path mode = pure tt

abbrev open_baseline : String → Unit {0} → Async (List ℕ) String (Unit {0})
open_baseline path mode w = (if path == "doomed" then failed "no such file" else done tt, w)

-- A database that holds the baseline's value alone.
abbrev one_key : Engine (List ℕ) String
one_key = record {
  Db = Unit;
  WriteTxn = Unit;
  ReadTxn = Unit;
  SegmentWriter = Unit;
  SegmentMeta = Unit;
  open_internal = pure tt;
  open_existing = pure tt;
  begin_write = λ db. pure tt;
  put = λ w key value. pure tt;
  link_segment = λ w name meta. pure tt;
  commit = λ w. pure tt;
  begin_read = λ db. pure tt;
  get = λ r key. pure (if key == "baseline" then some (bytes "committed-gen-1") else none);
  create_segment = λ db. pure tt;
  append_page = λ sw page. pure tt;
  seal = λ sw. pure tt;
}

abbrev one_key_drops : Drops (opening open_any) one_key
one_key_drops = record { drop_read = λ r w. w; drop_db = λ db w. w }

idb_verify_header_write-Kept_example :
    Kept (opening open_any) (idb open_any) one_key one_key_drops "db" (bytes "durable") []
unfolding idb_verify_header_write require image_is bytes_eq string_eq
idb_verify_header_write-Kept_example =
    idb_verify_header_write-Kept (opening open_any) (idb open_any) one_key one_key_drops "db"
      (bytes "durable") [] refl
