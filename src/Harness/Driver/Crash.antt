-- ===== src/Harness/Driver/Crash.antt =====
-- What `oracle_commit` comes to, for a database that reaches its files by the file system's calls.
use rust_browser_proofs.Base.{ℕ, String, ◌<>◌, ◌≡◌, refl, ap, subst, sym, some, List}
use rust_browser_proofs.Harness.Vfs.{Poll, done, failed, parked, Async, ◌>>=◌, pure, Vfs}
use rust_browser_proofs.Harness.Engine.{Engine}
use rust_browser_proofs.Harness.Engine.Clients.{EngineClient, over}
use rust_browser_proofs.Harness.Engine.Doomed.{
  Continues, client-Continues, finish, EndsAs, observed, fresh, driver-EndsAs,
}
use rust_browser_proofs.Harness.Fault.{OpKind, new_unarmed, build}
use rust_browser_proofs.Harness.Fault.Client.{plain, wrapped}
use rust_browser_proofs.Harness.Driver.{parse_kind, tell, doomed_commit, oracle_commit}

module _ (V : Vfs) (debug : V.Error → String) where
  -- The doomed transaction, as the driver prepares it.
  abbrev pub prepare : {W : Type 0} (E : Engine W V.Error) → Async W String E.WriteTxn
  prepare E = do
    db ← tell V debug "seed-open: " E.open_existing
    sw ← tell V debug "" (E.create_segment db)
    sw' ← tell V debug "" (E.append_page sw "doomed-segment-page")
    meta ← tell V debug "" (E.seal sw')
    w ← tell V debug "" (E.begin_write db)
    w' ← tell V debug "" (E.put w "victim" "uncertain-gen-2")
    linked ← tell V debug "" (E.link_segment w' "doomed.seg" meta)
    pure linked

  abbrev pub telling_commit : V.Error → String
  telling_commit e = "commit: " <> debug e

  module _ (C : EngineClient V) where
    doomed_commit-Continues :
        Continues V
          (doomed_commit V debug (over V C (wrapped V)))
          (prepare (over V C (plain V)))
          (finish V telling_commit C.commit)
    unfolding doomed_commit
    doomed_commit-Continues =
        let next = finish V telling_commit C.commit in
        client-Continues V _ C.open_existing _ _ next λ db.
          client-Continues V _ (C.create_segment db) _ _ next λ sw.
            client-Continues V _ (C.append_page sw "doomed-segment-page") _ _ next λ sw'.
              client-Continues V _ (C.seal sw') _ _ next λ meta.
                client-Continues V _ (C.begin_write db) _ _ next λ w.
                  client-Continues V _ (C.put w "victim" "uncertain-gen-2") _ _ next λ w'.
                    client-Continues V _ (C.link_segment w' "doomed.seg" meta) _ pure next
                      λ linked s h. refl

    module _ (with_root : String → Async V.World V.Error (Unit {0})) where
      -- On a root that opens, the driver of a phase fails or parks as the preparation of its commit
      -- does over the back end. If that comes to a transaction, the commit is a run that the
      -- specification of a faulty file system allows: the undisturbed one, with nothing posted, which
      -- is so only if its operations do not reach the phase's occurrence or are more of its kind than
      -- a count holds; or one that parks behind the message of the phase's operation and occurrence.
      pub oracle_commit-EndsAs :
          (root phase : String) (posted : List String) (kind : OpKind) (at : ℕ) (w opened : V.World)
          → parse_kind phase ≡ some (kind, at)
          → with_root root w ≡ (done tt, opened)
          → EndsAs V telling_commit C.commit kind at posted
              (prepare (over V C (plain V)) opened)
              (oracle_commit V debug with_root (over V C (wrapped V)) root phase (w, posted))
      unfolding oracle_commit new_unarmed build
      oracle_commit-EndsAs root phase posted kind at w opened phased rooted =
          let E = over V C (wrapped V) in
          let start = fresh V telling_commit C.commit kind at posted opened in
          let behind : Poll V.Error (Unit {0}) × V.World
              → Poll String (Unit {0}) × (V.World × List String) =
            λ q.
              let (p, v) = tell V debug "" (λ (x : V.World). q) w in
              elim p [
                | failed e ↦ (failed e, (v, posted))
                | parked ↦ (parked, (v, posted))
                | done _ ↦
                    observed V telling_commit C.commit
                      (doomed_commit V debug E (record start { inner = v }))
              ] in
          let reached : oracle_commit V debug with_root E root phase (w, posted)
              ≡ observed V telling_commit C.commit (doomed_commit V debug E start) =
            rw (phased, oracle_commit) (ap behind rooted) in
          subst
            (EndsAs V telling_commit C.commit kind at posted (prepare (over V C (plain V)) opened))
            (sym reached)
            (driver-EndsAs V telling_commit C.commit (doomed_commit V debug E)
              (prepare (over V C (plain V))) kind at posted opened doomed_commit-Continues)
