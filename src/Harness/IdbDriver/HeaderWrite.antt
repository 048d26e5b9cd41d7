-- ===== src/Harness/IdbDriver/HeaderWrite.antt =====
-- What `idb_crash_after_header_write` comes to, for a database that reaches its files by the file
-- system's calls.
use rust_browser_proofs.Base.{String, ◌<>◌, ◌≡◌, refl, ap, subst, sym, List}
use rust_browser_proofs.Harness.Vfs.{Poll, done, failed, parked, Async, ◌>>=◌, pure, Vfs}
use rust_browser_proofs.Harness.Engine.{Engine}
use rust_browser_proofs.Harness.Engine.Clients.{EngineClient, over}
use rust_browser_proofs.Harness.Engine.Doomed.{
  Continues, client-Continues, finish, EndsAs, observed, fresh, driver-EndsAs,
}
use rust_browser_proofs.Harness.Fault.{OpKind, new_unarmed, build}
use rust_browser_proofs.Harness.Fault.Client.{plain, wrapped}
use rust_browser_proofs.Harness.IdbDriver.{
  Idb, driver_error, doomed_header_write, idb_crash_after_header_write,
}

module _ (V : Vfs) (I : Idb V) where
  -- The doomed transaction, as the driver prepares it.
  abbrev pub prepare : {W : Type 0} (E : Engine W V.Error) → Async W String E.WriteTxn
  prepare E = do
    db ← driver_error V I "open baseline database" E.open_existing
    write ← driver_error V I "begin doomed write" (E.begin_write db)
    write' ← driver_error V I "write doomed value" (E.put write "victim" "uncommitted-gen-2")
    pure write'

  abbrev pub telling_commit : V.Error → String
  telling_commit error = "doomed commit returned" <> (": " <> I.debug error)

  module _ (C : EngineClient V) where
    doomed_header_write-Continues :
        Continues V
          (doomed_header_write V I (over V C (wrapped V)))
          (prepare (over V C (plain V)))
          (finish V telling_commit C.commit)
    unfolding doomed_header_write
    doomed_header_write-Continues =
        let next = finish V telling_commit C.commit in
        client-Continues V _ C.open_existing _ _ next λ db.
          client-Continues V _ (C.begin_write db) _ _ next λ write.
            client-Continues V _ (C.put write "victim" "uncommitted-gen-2") _ pure next
              λ write' s h. refl

    -- On a root that opens, the driver fails or parks as the preparation of its write does over the
    -- back end. If that comes to a transaction, its commit is a run that the specification of a
    -- faulty file system allows: the undisturbed one, with nothing posted, which is so only if it
    -- makes no second sync or more syncs than a count holds; or one that parks behind the message of
    -- the second sync.
    pub idb_crash_after_header_write-EndsAs :
        (root : String) (posted : List String) (w opened : V.World)
        → I.with_root root w ≡ (done tt, opened)
        → EndsAs V telling_commit C.commit OpKind.sync 2 posted
            (prepare (over V C (plain V)) opened)
            (idb_crash_after_header_write V I (over V C (wrapped V)) root (w, posted))
    unfolding idb_crash_after_header_write new_unarmed build
    idb_crash_after_header_write-EndsAs root posted w opened rooted =
        let E = over V C (wrapped V) in
        let start = fresh V telling_commit C.commit OpKind.sync 2 posted opened in
        let behind : Poll V.Error (Unit {0}) × V.World
            → Poll String (Unit {0}) × (V.World × List String) =
          λ q.
            let (p, v) = driver_error V I "open IDB VFS" (λ (x : V.World). q) w in
            elim p [
              | failed e ↦ (failed e, (v, posted))
              | parked ↦ (parked, (v, posted))
              | done _ ↦
                  observed V telling_commit C.commit
                    (doomed_header_write V I E (record start { inner = v }))
            ] in
        subst
          (EndsAs V telling_commit C.commit OpKind.sync 2 posted
            (prepare (over V C (plain V)) opened))
          (sym (ap behind rooted))
          (driver-EndsAs V telling_commit C.commit (doomed_header_write V I E)
            (prepare (over V C (plain V))) OpKind.sync 2 posted opened
            doomed_header_write-Continues)
