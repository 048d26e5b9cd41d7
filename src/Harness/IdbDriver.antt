-- ===== src/Harness/IdbDriver.antt =====
-- harness/src/idb_driver.rs: the drivers of the crash tests over IndexedDB. One worker seeds a file
-- image and is killed at a chosen point; another verifies what the reopened store holds.
pub mod Chain
pub mod Verified
pub mod Kept
pub mod HeaderWrite
pub mod Crash
pub mod Completes
pub mod Protocol
mod Tests
use rust_browser_proofs.Base.{
  ℕ, String, ◌<>◌, Bool, true, false, not, ◌&&◌, Option, none, some, List, nat_beq, is_some,
  if◌then◌else◌,
}
use rust_browser_proofs.Base.Bytes.{bytes, bytes_eq, zeros}
use rust_browser_proofs.Harness.Vfs.{
  Poll, done, failed, parked, Async, ◌>>=◌, ◌>>◌, pure, throw, Vfs,
}
use rust_browser_proofs.Harness.Engine.{Engine, map_err}
use rust_browser_proofs.Harness.Fault.{FaultState, OpKind, Action, new_unarmed, arm}

-- `IdbVfs`, `IdbStore` and the worker's scope: parameters.
pub record Idb (V : Vfs) : Type 1 where
  pub Store : Type 0
  pub create_new : V.OpenMode
  pub read_mode : V.OpenMode
  pub debug : V.Error → String
  pub with_root : String → Async V.World V.Error (Unit {0})
  pub store_open : String → Async V.World V.Error Store
  pub load_file : Store → ℕ → Async V.World V.Error (Option (List ℕ))
  pub store_close : Store → V.World → V.World
  pub delete : String → Async V.World V.Error (Unit {0})
  -- the ends of a file's handle and of the `IdbVfs`
  pub drop_file : V.File → V.World → V.World
  pub drop_vfs : V.World → V.World
  -- `pause_after_next_namespace_put_for_crash_test`
  pub pause : V.World → V.World
  pub post_message : String → Async V.World V.Error (Unit {0})

-- The ends of a read and of a database.
pub record Drops (V : Vfs) (E : Engine V.World V.Error) : Type 0 where
  pub drop_read : E.ReadTxn → V.World → V.World
  pub drop_db : E.Db → V.World → V.World

-- `drop`, of what the code releases before it goes on. What a driver holds at its end is released
-- behind it.
abbrev pub release : {W E : Type 0} → (W → W) → Async W E (Unit {0})
release f w = (done tt, f w)

-- `as_deref() == Some(bytes)`
unfoldable pub image_is : Option (List ℕ) → String → Bool
image_is none text = false
image_is (some image) text = bytes_eq image (bytes text)

unfoldable pub require : {W : Type 0} → Bool → String → Async W String (Unit {0})
require condition message = if condition then pure tt else throw message

-- `is_err()` on a call's outcome
abbrev pub fails : {W E F A : Type 0} → Async W E A → Async W F Bool
fails m w =
    let (p, w') = m w in
    elim p [ done a ↦ (done false, w') | failed e ↦ (done true, w') | parked ↦ (parked, w') ]

abbrev pub database_of : String → String
database_of root = "pagedb-idb-vfs:" <> root

module _ (V : Vfs) (I : Idb V) where
  abbrev pub Io : Type 0 → Type 0
  Io = Async V.World String

  -- `map_err(|error| driver_error(context, error))`
  abbrev pub driver_error : {W A : Type 0} → String → Async W V.Error A → Async W String A
  driver_error context = map_err (λ error. context <> (": " <> I.debug error))

  unfoldable pub idb_seed_baseline : String → Io (Unit {0})
  idb_seed_baseline root = do
    driver_error "open IDB VFS" (I.with_root root)
    baseline ← driver_error "create baseline" (V.open_file "baseline" I.create_new)
    count ← driver_error "write baseline" (V.write_at baseline 0 (bytes "durable"))
    driver_error "sync baseline" (V.sync baseline)
    driver_error "publish baseline" (V.sync_dir "/")

  unfoldable pub idb_seed_database : Engine V.World V.Error → String → Io (Unit {0})
  idb_seed_database E root = do
    driver_error "open IDB VFS" (I.with_root root)
    db ← driver_error "create baseline database" E.open_internal
    write ← driver_error "begin baseline write" (E.begin_write db)
    write' ← driver_error "write baseline value" (E.put write "baseline" "committed-gen-1")
    driver_error "commit baseline value" (E.commit write')

  -- The file images behind the namespace: the baseline's is there, and the doomed one's is gone.
  unfoldable pub verify_images : String → Io (Unit {0})
  verify_images database = do
    store ← driver_error "open IDB store" (I.store_open database)
    baseline_image ← driver_error "load baseline image" (I.load_file store 0)
    doomed_image ← driver_error "load doomed image" (I.load_file store 1)
    require (image_is baseline_image "durable") "baseline image changed"
    require (not (is_some doomed_image)) "orphaned doomed image survived sweep"
    λ w. (done tt, I.store_close store w)

  unfoldable pub verify_unpublished_path : String → Bool → Io (Unit {0})
  verify_unpublished_path root require_orphan_cleanup = do
    driver_error "reopen IDB VFS" (I.with_root root)
    baseline ← driver_error "open baseline" (V.open_file "baseline" I.read_mode)
    read ← driver_error "read baseline" (V.read_at baseline 0 (zeros 7))
    require (nat_beq read.0 7 && bytes_eq read.1 (bytes "durable")) "baseline file changed"
    absent ← fails (V.open_file "doomed" I.read_mode)
    require absent "doomed path was published"
    driver_error "sweep unpublished path" (V.sync_dir "/")
    if require_orphan_cleanup then verify_images (database_of root) else pure tt
    release (I.drop_file baseline)
    release I.drop_vfs
    driver_error "delete IDB store" (I.delete (database_of root))

  unfoldable pub idb_verify_file_sync : String → Io (Unit {0})
  idb_verify_file_sync root = verify_unpublished_path root true

  unfoldable pub idb_verify_namespace_put : String → Io (Unit {0})
  idb_verify_namespace_put root = verify_unpublished_path root true

  unfoldable pub idb_verify_namespace_sync : String → Io (Unit {0})
  idb_verify_namespace_sync root = do
    driver_error "reopen IDB VFS" (I.with_root root)
    baseline ← driver_error "open baseline" (V.open_file "baseline" I.read_mode)
    doomed ← driver_error "open published path" (V.open_file "doomed" I.read_mode)
    baseline_read ← driver_error "read baseline" (V.read_at baseline 0 (zeros 7))
    doomed_read ← driver_error "read published path" (V.read_at doomed 0 (zeros 11))
    require (nat_beq baseline_read.0 7 && bytes_eq baseline_read.1 (bytes "durable"))
        "baseline file changed"
    require (nat_beq doomed_read.0 11 && bytes_eq doomed_read.1 (bytes "unpublished"))
        "published file image changed"
    release (I.drop_file doomed)
    release (I.drop_file baseline)
    release I.drop_vfs
    driver_error "delete IDB store" (I.delete (database_of root))

  unfoldable pub idb_verify_header_write :
      (E : Engine V.World V.Error) → Drops V E → String → Io (Unit {0})
  idb_verify_header_write E R root = do
    driver_error "reopen IDB VFS" (I.with_root root)
    db ← driver_error "reopen baseline database" E.open_existing
    read ← driver_error "begin verification read" (E.begin_read db)
    baseline ← driver_error "read baseline value" (E.get read "baseline")
    victim ← driver_error "read victim value" (E.get read "victim")
    require (image_is baseline "committed-gen-1") "baseline commit changed"
    require (not (is_some victim)) "doomed commit became visible"
    release (R.drop_read read)
    release (R.drop_db db)
    release I.drop_vfs
    driver_error "delete IDB store" (I.delete (database_of root))

  -- A promise that never resolves.
  abbrev pub park_forever : {A : Type 0} → Io A
  park_forever w = (parked, w)

  -- The file `doomed` with its image synced, and not yet in the namespace.
  unfoldable pub sync_doomed_file : String → Io (Unit {0})
  sync_doomed_file root = do
    driver_error "open IDB VFS" (I.with_root root)
    file ← driver_error "create doomed file" (V.open_file "doomed" I.create_new)
    count ← driver_error "write doomed file" (V.write_at file 0 (bytes "unpublished"))
    driver_error "sync doomed file" (V.sync file)

  unfoldable pub crash_after_file_sync : String → Bool → Io (Unit {0})
  crash_after_file_sync root publish_namespace = do
    sync_doomed_file root
    if publish_namespace then driver_error "publish doomed path" (V.sync_dir "/") else pure tt
    driver_error "post crash beacon"
        (I.post_message (if publish_namespace then "idb-namespace-synced" else "idb-file-synced"))
    park_forever

  unfoldable pub idb_crash_after_file_sync : String → Io (Unit {0})
  idb_crash_after_file_sync root = crash_after_file_sync root false

  unfoldable pub idb_crash_after_namespace_sync : String → Io (Unit {0})
  idb_crash_after_namespace_sync root = crash_after_file_sync root true

  -- The commit that is to be lost, on a wrapper that parks at the second sync once it is armed.
  unfoldable pub doomed_header_write :
      Engine (FaultState V) V.Error → Async (FaultState V) String (Unit {0})
  doomed_header_write E = do
    db ← driver_error "open baseline database" E.open_existing
    write ← driver_error "begin doomed write" (E.begin_write db)
    write' ← driver_error "write doomed value" (E.put write "victim" "uncommitted-gen-2")
    (λ s. (done tt, arm V s))
    driver_error "doomed commit returned" (E.commit write')

  -- The state is the worker's storage, and the beacons that its wrapper has posted.
  unfoldable pub idb_crash_after_header_write :
      Engine (FaultState V) V.Error → String → Async (V.World × List String) String (Unit {0})
  idb_crash_after_header_write E root (world, posted) =
      let (p, opened) = driver_error "open IDB VFS" (I.with_root root) world in
      elim p [
        | failed e ↦ (failed e, (opened, posted))
        | parked ↦ (parked, (opened, posted))
        | done _ ↦
            let s = new_unarmed V opened OpKind.sync 2 Action.park in
            let (q, s') = doomed_header_write E (record s { beacons = posted }) in
            (q, (s'.inner, s'.beacons))
      ]

  unfoldable pub idb_crash_during_namespace_put : String → Io (Unit {0})
  idb_crash_during_namespace_put root = do
    sync_doomed_file root
    (λ w. (done tt, I.pause w))
    driver_error "namespace sync returned" (V.sync_dir "/")
