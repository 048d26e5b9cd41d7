-- ===== src/Harness/IdbDriver/Kept.antt =====
-- What the verification behind a header write that was cut off has shown.
use rust_browser_proofs.Base.{String, ◌<>◌, ◌≡◌, ap, ◌∙◌, not, Option, none, some, List, ℕ, is_some}
use rust_browser_proofs.Base.Bytes.{bytes}
use rust_browser_proofs.Harness.Vfs.{done, ◌>>=◌, ◌>>◌, Vfs}
use rust_browser_proofs.Harness.Engine.{Engine}
use rust_browser_proofs.Harness.IdbDriver.{
  Idb, Drops, release, driver_error, require, image_is, database_of, idb_verify_header_write,
}
use rust_browser_proofs.Harness.IdbDriver.Chain.{from_told, from_require, from_last}
use rust_browser_proofs.Harness.IdbDriver.Verified.{image_is-some, is_some-none}

module _ (V : Vfs) (I : Idb V) (E : Engine V.World V.Error) (R : Drops V E) where
  abbrev told : String → V.Error → String
  told context error = context <> (": " <> I.debug error)

  -- In the database of the reopened store a read finds the committed value and not the victim, and
  -- once the read, the database and the back end are released the store is deleted.
  abbrev pub Kept : String → V.World → V.World → Type 0
  Kept root w w' =
      (db : E.Db) × (read : E.ReadTxn) × (v0 v1 v2 v3 v4 : V.World) × (I.with_root root w
        ≡ (done tt, v0))
      × (E.open_existing v0 ≡ (done db, v1))
      × (E.begin_read db v1 ≡ (done read, v2))
      × (E.get read "baseline" v2 ≡ (done (some (bytes "committed-gen-1")), v3))
      × (E.get read "victim" v3 ≡ (done none, v4))
      × (I.delete (database_of root) (I.drop_vfs (R.drop_db db (R.drop_read read v4)))
          ≡ (done tt, w'))

  -- The verification behind a crash between a header write and its sync completes only if the
  -- database that it reopened has kept the earlier commit's value and does not show the value of the
  -- commit that was cut off.
  pub idb_verify_header_write-Kept :
      (root : String) (w w' : V.World)
      → idb_verify_header_write V I E R root w ≡ (done tt, w')
      → Kept root w w'
  unfolding idb_verify_header_write
  idb_verify_header_write-Kept root w w' h =
      let last = driver_error V I "delete IDB store" (I.delete (database_of root)) in
      let delete = λ (db : E.Db) (read : E.ReadTxn).
        release (R.drop_read read) >> (release (R.drop_db db) >> (release I.drop_vfs >> last)) in
      let judge_victim = λ (db : E.Db) (read : E.ReadTxn) (victim : Option (List ℕ)).
        require (not (is_some victim)) "doomed commit became visible" >> delete db read in
      let judge = λ (db : E.Db) (read : E.ReadTxn) (baseline victim : Option (List ℕ)).
        require (image_is baseline "committed-gen-1") "baseline commit changed"
        >> judge_victim db read victim in
      let get_victim = λ (db : E.Db) (read : E.ReadTxn) (baseline : Option (List ℕ)).
        driver_error V I "read victim value" (E.get read "victim") >>= judge db read baseline in
      let get = λ (db : E.Db) (read : E.ReadTxn).
        driver_error V I "read baseline value" (E.get read "baseline") >>= get_victim db read in
      let begin =
        λ (db : E.Db). driver_error V I "begin verification read" (E.begin_read db) >>= get db in
      from_told (told "reopen IDB VFS") (I.with_root root)
        (λ _. driver_error V I "reopen baseline database" E.open_existing >>= begin) w h
        λ _ v0 opened h0.
          from_told (told "reopen baseline database") E.open_existing begin v0 h0
            λ db v1 reopened h1.
              from_told (told "begin verification read") (E.begin_read db) (get db) v1 h1
                λ read v2 begun h2.
                  from_told (told "read baseline value") (E.get read "baseline")
                    (get_victim db read) v2 h2
                    λ baseline v3 got h3.
                      from_told (told "read victim value") (E.get read "victim")
                        (judge db read baseline) v3 h3
                        λ victim v4 got' h4.
                          from_require (image_is baseline "committed-gen-1")
                            "baseline commit changed" (judge_victim db read victim) v4 h4
                            λ kept h5.
                              from_require (not (is_some victim)) "doomed commit became visible"
                                (delete db read) v4 h5
                                λ unseen h6. (
                                  db,
                                  read,
                                  v0,
                                  v1,
                                  v2,
                                  v3,
                                  v4,
                                  opened,
                                  reopened,
                                  begun,
                                  got
                                      ∙ ap (λ o. (done o, v3))
                                          (image_is-some baseline "committed-gen-1" kept),
                                  got' ∙ ap (λ o. (done o, v4)) (is_some-none victim unseen),
                                  from_last (told "delete IDB store") (I.delete (database_of root))
                                      (I.drop_vfs (R.drop_db db (R.drop_read read v4))) h6,
                                )
