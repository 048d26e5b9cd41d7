-- ===== src/Harness/Driver.antt =====
-- harness/src/driver.rs: the driver in the worker that the crash oracle kills. It runs one commit
-- through a fault wrapper that parks at a phase of the commit.
pub mod Phases
pub mod Arming
pub mod Crash
pub mod Reached
use rust_browser_proofs.Base.{
  ℕ, String, ◌<>◌, Option, none, some, List, [], ◌∷◌, ◌==◌, string_eq, if◌then◌else◌,
}
use rust_browser_proofs.Harness.Vfs.{
  Poll, done, failed, parked, Async, ◌>>=◌, ◌>>◌, pure, throw, Vfs,
}
use rust_browser_proofs.Harness.Engine.{Engine, map_err}
use rust_browser_proofs.Harness.Fault.{
  FaultState, OpKind, Action, vectored_sub_write, sync_dir_before, sync_dir_after, new_unarmed, arm,
}

-- A phase as the operation to park at, and its occurrence.
unfoldable pub parse_kind : String → Option (OpKind × ℕ)
parse_kind phase =
    if phase == "mid-vectored-write"
    then some (vectored_sub_write, 1)
    else if phase == "pages-written-pre-sync"
    then some (OpKind.sync, 1)
    else if phase == "pages-synced-pre-header-write"
    then some (OpKind.write, 1)
    else if phase == "header-written-pre-sync"
    then some (OpKind.sync, 2)
    else if phase == "header-synced-pre-rename"
    then some (OpKind.rename, 1)
    else if phase == "during-sync-dir"
    then some (sync_dir_before, 3)
    else if phase == "after-sync-dir-pre-gc"
    then some (sync_dir_after, 4)
    else none

module _ (V : Vfs) (debug : V.Error → String) where
  -- `.map_err(|e| JsValue::from_str(&format!("{context}{e:?}")))`
  abbrev pub tell : {W A : Type 0} → String → Async W V.Error A → Async W String A
  tell context = map_err (λ e. context <> debug e)

  abbrev arm_trigger : Async (FaultState V) String (Unit {0})
  arm_trigger s = (done tt, arm V s)

  -- The commit that is to be lost, on a wrapper that is not armed yet.
  unfoldable pub doomed_commit :
      Engine (FaultState V) V.Error → Async (FaultState V) String (Unit {0})
  doomed_commit E = do
    db ← tell "seed-open: " E.open_existing
    sw ← tell "" (E.create_segment db)
    sw' ← tell "" (E.append_page sw "doomed-segment-page")
    meta ← tell "" (E.seal sw')
    w ← tell "" (E.begin_write db)
    w' ← tell "" (E.put w "victim" "uncertain-gen-2")
    linked ← tell "" (E.link_segment w' "doomed.seg" meta)
    arm_trigger
    tell "commit: " (E.commit linked)

  -- `OpfsVfs::with_root`
  module _ (with_root : String → Async V.World V.Error (Unit {0})) where
    unfoldable pub oracle_seed : Engine V.World V.Error → String → Async V.World String (Unit {0})
    oracle_seed E root = do
      tell "" (with_root root)
      db ← tell "" E.open_internal
      w ← tell "" (E.begin_write db)
      w' ← tell "" (E.put w "baseline" "committed-gen-1")
      tell "" (E.commit w')

    -- The state is the worker's storage, and the messages that it has posted.
    unfoldable pub oracle_commit :
        Engine (FaultState V) V.Error
        → String
        → String
        → Async (V.World × List String) String (Unit {0})
    oracle_commit E root phase (world, posted) = elim (parse_kind phase) [
      | none ↦ (failed ("unknown phase: " <> phase), (world, posted))
      | some kind_at ↦
          let (p, opened) = tell "" (with_root root) world in
          elim p [
            | failed e ↦ (failed e, (opened, posted))
            | parked ↦ (parked, (opened, posted))
            | done _ ↦
                let s = new_unarmed V opened kind_at.0 kind_at.1 Action.park in
                let (q, s') = doomed_commit E (record s { beacons = posted }) in
                (q, (s'.inner, s'.beacons))
          ]
    ]
