-- ===== src/Harness/IdbDriver/Protocol/Verifies.antt =====
-- The worker that verifies.
use rust_browser_proofs.Base.{
  ℕ, suc, String, ◌<>◌, ◌≡◌, refl, ap, sym, subst, true, not, ◌&&◌, Option, some, List, [], ◌∷◌,
  nat_beq, is_some, string_eq,
}
use rust_browser_proofs.Base.Bytes.{bytes, bytes_eq, zeros}
use rust_browser_proofs.Harness.Vfs.{done, Async, ◌>>=◌, ◌>>◌, Vfs}
use rust_browser_proofs.Harness.IdbDriver.{
  Idb, release, driver_error, require, fails, image_is, database_of, verify_images,
  verify_unpublished_path, idb_verify_namespace_sync,
}
use rust_browser_proofs.Harness.IdbDriver.Completes.{
  Completes, bind-Completes, call-Completes, map_err-Completes, check-Completes, fails-Completes,
  require-Completes, Refuses, bind-Refuses, call-Refuses, check-Refuses, fails-found,
}
use rust_browser_proofs.Harness.IdbDriver.Protocol.Files.{
  pending, published, orphaned, swept, Image, Durable,
}
use rust_browser_proofs.Harness.IdbDriver.Protocol.Seeded.{baseline, doomed}

module _ (V : Vfs) (I : Idb V) (D : Durable V I) where
  abbrev told : String → V.Error → String
  told context error = context <> (": " <> I.debug error)

  -- A read of the whole content passes the check of its count and bytes.
  durable_read :
      (read : ℕ × List ℕ)
      → read ≡ (7, bytes "durable")
      → (nat_beq read.0 7 && bytes_eq read.1 (bytes "durable")) ≡ true
  unfolding bytes_eq
  durable_read read e = ap (λ (r : ℕ × List ℕ). nat_beq r.0 7 && bytes_eq r.1 (bytes "durable")) e

  unpublished_read :
      (read : ℕ × List ℕ)
      → read ≡ (11, bytes "unpublished")
      → (nat_beq read.0 11 && bytes_eq read.1 (bytes "unpublished")) ≡ true
  unfolding bytes_eq
  unpublished_read read e =
      ap (λ (r : ℕ × List ℕ). nat_beq r.0 11 && bytes_eq r.1 (bytes "unpublished")) e

  durable_image :
      (image : Option (List ℕ)) → image ≡ some (bytes "durable") → image_is image "durable" ≡ true
  unfolding image_is bytes_eq
  durable_image image e = ap (λ o. image_is o "durable") e

  abbrev swept_files : List Image
  swept_files = baseline ∷ doomed swept ∷ []

  verify_images-Completes :
      (root : String) (n : ℕ) (w : V.World)
      → D.IsOpen root swept_files n w
      → Completes (verify_images V I (database_of root)) w (λ _ v. D.IsOpen root swept_files n v)
  unfolding verify_images
  verify_images-Completes root n w opened =
      let close : I.Store → Async V.World String (Unit {0}) =
        λ store w. (done tt, I.store_close store w) in
      let judge = λ (store : I.Store) (base lost : Option (List ℕ)).
        require (image_is base "durable") "baseline image changed"
        >> (require (not (is_some lost)) "orphaned doomed image survived sweep" >> close store) in
      let load_doomed = λ (store : I.Store) (base : Option (List ℕ)).
        driver_error V I "load doomed image" (I.load_file store 1) >>= judge store base in
      let load = λ (store : I.Store).
        driver_error V I "load baseline image" (I.load_file store 0) >>= load_doomed store in
      call-Completes (told "open IDB store") (I.store_open (database_of root)) load w
        (D.store_open root swept_files n w opened)
        λ store u found.
          call-Completes (told "load baseline image") (I.load_file store 0) (load_doomed store) u
            (D.load_file root swept_files (suc n) store 0 u found.1 found.0)
            λ base v loaded.
              call-Completes (told "load doomed image") (I.load_file store 1) (judge store base) v
                (D.load_file root swept_files (suc n) store 1 v loaded.1 found.0)
                λ lost x loaded'.
                  check-Completes (image_is base "durable") "baseline image changed"
                    (require (not (is_some lost)) "orphaned doomed image survived sweep"
                      >> close store)
                    x (durable_image base loaded.0)
                    (check-Completes (not (is_some lost)) "orphaned doomed image survived sweep"
                      (close store) x (ap (λ o. not (is_some o)) loaded'.0)
                      (
                        tt,
                        I.store_close store x,
                        refl,
                        D.store_close root swept_files n store x loaded'.1,
                      ))

  -- The verification of an unpublished path completes on what the killed worker left, and deletes
  -- the store.
  pub verify_unpublished_path-Completes :
      (root : String) (w : V.World)
      → D.IsStored root (baseline ∷ doomed pending ∷ []) w
      → Completes (verify_unpublished_path V I root true) w (λ _ v. D.IsStored root [] v)
  unfolding verify_unpublished_path zeros string_eq
  verify_unpublished_path-Completes root w stored =
      let files : List Image = baseline ∷ doomed orphaned ∷ [] in
      let last = driver_error V I "delete IDB store" (I.delete (database_of root)) in
      let delete = λ (file : V.File). release (I.drop_file file) >> (release I.drop_vfs >> last) in
      let images = λ (file : V.File). verify_images V I (database_of root) >> delete file in
      let sweep = λ (file : V.File).
        driver_error V I "sweep unpublished path" (V.sync_dir "/") >> images file in
      let refuse = λ (file : V.File). fails (V.open_file "doomed" I.read_mode) >>= λ absent.
      require absent "doomed path was published" >> sweep file in
      let judge = λ (file : V.File) (read : ℕ × List ℕ).
        require (nat_beq read.0 7 && bytes_eq read.1 (bytes "durable")) "baseline file changed"
        >> refuse file in
      let inspect = λ (file : V.File).
        driver_error V I "read baseline" (V.read_at file 0 (zeros 7)) >>= judge file in
      call-Completes (told "reopen IDB VFS") (I.with_root root)
        (λ _. driver_error V I "open baseline" (V.open_file "baseline" I.read_mode) >>= inspect) w
        (D.with_root root (baseline ∷ doomed pending ∷ []) w stored)
        λ _ u opened.
          call-Completes (told "open baseline") (V.open_file "baseline" I.read_mode) inspect u
            (D.open_read root "baseline" files 0 (bytes "durable") u opened refl)
            λ file v found.
              call-Completes (told "read baseline") (V.read_at file 0 (zeros 7)) (judge file) v
                (D.read_at root "baseline" files 1 file (bytes "durable") v found.1 found.0 refl)
                λ read x got.
                  check-Completes (nat_beq read.0 7 && bytes_eq read.1 (bytes "durable"))
                    "baseline file changed" (refuse file) x (durable_read read got.0)
                    (bind-Completes (fails (V.open_file "doomed" I.read_mode))
                      (λ absent. require absent "doomed path was published" >> sweep file) x
                      (fails-Completes (V.open_file "doomed" I.read_mode) x
                        (D.open_absent root "doomed" files 1 x got.1 refl))
                      λ absent y gone.
                        check-Completes absent "doomed path was published" (sweep file) y gone.0 (
                          call-Completes (told "sweep unpublished path") (V.sync_dir "/")
                            (λ _. images file) y (D.sync_dir root files 1 y gone.1)
                            λ _ z settled_.
                              bind-Completes (verify_images V I (database_of root))
                                (λ _. delete file) z (verify_images-Completes root 1 z settled_)
                                λ _ a kept.
                                  map_err-Completes (told "delete IDB store")
                                    (I.delete (database_of root)) (I.drop_vfs (I.drop_file file a))
                                    (D.delete root swept_files (I.drop_vfs (I.drop_file file a)) (
                                      D.drop_vfs root swept_files (I.drop_file file a) (
                                        D.drop_file root "baseline" swept_files 0 file a kept
                                          found.0)))))

  -- The verification of a published path does so too.
  pub idb_verify_namespace_sync-Completes :
      (root : String) (w : V.World)
      → D.IsStored root (baseline ∷ doomed published ∷ []) w
      → Completes (idb_verify_namespace_sync V I root) w (λ _ v. D.IsStored root [] v)
  unfolding idb_verify_namespace_sync zeros string_eq
  idb_verify_namespace_sync-Completes root w stored =
      let files : List Image = baseline ∷ doomed published ∷ [] in
      let last = driver_error V I "delete IDB store" (I.delete (database_of root)) in
      let delete = λ (file file' : V.File).
        release (I.drop_file file')
        >> (release (I.drop_file file) >> (release I.drop_vfs >> last)) in
      let judge_doomed = λ (file file' : V.File) (read : ℕ × List ℕ).
        require (nat_beq read.0 11 && bytes_eq read.1 (bytes "unpublished"))
          "published file image changed"
        >> delete file file' in
      let judge = λ (file file' : V.File) (read read' : ℕ × List ℕ).
        require (nat_beq read.0 7 && bytes_eq read.1 (bytes "durable")) "baseline file changed"
        >> judge_doomed file file' read' in
      let read_doomed = λ (file file' : V.File) (read : ℕ × List ℕ).
        driver_error V I "read published path" (V.read_at file' 0 (zeros 11))
        >>= judge file file' read in
      let read_both = λ (file file' : V.File).
        driver_error V I "read baseline" (V.read_at file 0 (zeros 7)) >>= read_doomed file file' in
      let open_doomed = λ (file : V.File).
        driver_error V I "open published path" (V.open_file "doomed" I.read_mode)
        >>= read_both file in
      call-Completes (told "reopen IDB VFS") (I.with_root root)
        (λ _. driver_error V I "open baseline" (V.open_file "baseline" I.read_mode) >>= open_doomed)
        w (D.with_root root files w stored)
        λ _ u opened.
          call-Completes (told "open baseline") (V.open_file "baseline" I.read_mode) open_doomed u
            (D.open_read root "baseline" files 0 (bytes "durable") u opened refl)
            λ file v found.
              call-Completes (told "open published path") (V.open_file "doomed" I.read_mode)
                (read_both file) v
                (D.open_read root "doomed" files 1 (bytes "unpublished") v found.1 refl)
                λ file' x found'.
                  call-Completes (told "read baseline") (V.read_at file 0 (zeros 7))
                    (read_doomed file file') x
                    (D.read_at root "baseline" files 2 file (bytes "durable") x found'.1 found.0
                      refl)
                    λ read y got.
                      call-Completes (told "read published path") (V.read_at file' 0 (zeros 11))
                        (judge file file' read) y
                        (D.read_at root "doomed" files 2 file' (bytes "unpublished") y got.1
                          found'.0 refl)
                        λ read' z got'.
                          check-Completes (nat_beq read.0 7 && bytes_eq read.1 (bytes "durable"))
                            "baseline file changed" (judge_doomed file file' read') z
                            (durable_read read got.0)
                            (check-Completes
                              (nat_beq read'.0 11 && bytes_eq read'.1 (bytes "unpublished"))
                              "published file image changed" (delete file file') z
                              (unpublished_read read' got'.0)
                              (map_err-Completes (told "delete IDB store")
                                (I.delete (database_of root))
                                (I.drop_vfs (I.drop_file file (I.drop_file file' z)))
                                (D.delete root files
                                  (I.drop_vfs (I.drop_file file (I.drop_file file' z)))
                                  (D.drop_vfs root files (I.drop_file file (I.drop_file file' z)) (
                                    D.drop_file root "baseline" files 0 file (I.drop_file file' z)
                                      (D.drop_file root "doomed" files 1 file' z got'.1 found'.0)
                                      found.0)))))

  -- The verification of an unpublished path refuses a path that is published.
  pub verify_unpublished_path-Refuses :
      (root : String) (w : V.World)
      → D.IsStored root (baseline ∷ doomed published ∷ []) w
      → Refuses (verify_unpublished_path V I root true) w "doomed path was published"
  unfolding verify_unpublished_path zeros string_eq
  verify_unpublished_path-Refuses root w stored =
      let files : List Image = baseline ∷ doomed published ∷ [] in
      let text : String = "doomed path was published" in
      let last = driver_error V I "delete IDB store" (I.delete (database_of root)) in
      let delete = λ (file : V.File). release (I.drop_file file) >> (release I.drop_vfs >> last) in
      let images = λ (file : V.File). verify_images V I (database_of root) >> delete file in
      let sweep = λ (file : V.File).
        driver_error V I "sweep unpublished path" (V.sync_dir "/") >> images file in
      let refuse = λ (file : V.File).
        fails (V.open_file "doomed" I.read_mode) >>= λ absent. require absent text >> sweep file in
      let judge = λ (file : V.File) (read : ℕ × List ℕ).
        require (nat_beq read.0 7 && bytes_eq read.1 (bytes "durable")) "baseline file changed"
        >> refuse file in
      let inspect = λ (file : V.File).
        driver_error V I "read baseline" (V.read_at file 0 (zeros 7)) >>= judge file in
      call-Refuses (told "reopen IDB VFS") (I.with_root root)
        (λ _. driver_error V I "open baseline" (V.open_file "baseline" I.read_mode) >>= inspect) w
        text (D.with_root root files w stored)
        λ _ u opened.
          call-Refuses (told "open baseline") (V.open_file "baseline" I.read_mode) inspect u text
            (D.open_read root "baseline" files 0 (bytes "durable") u opened refl)
            λ file v found.
              call-Refuses (told "read baseline") (V.read_at file 0 (zeros 7)) (judge file) v text
                (D.read_at root "baseline" files 1 file (bytes "durable") v found.1 found.0 refl)
                λ read x got.
                  bind-Refuses
                    (require (nat_beq read.0 7 && bytes_eq read.1 (bytes "durable"))
                      "baseline file changed")
                    (λ _. refuse file) x text
                    (require-Completes (nat_beq read.0 7 && bytes_eq read.1 (bytes "durable"))
                      "baseline file changed" x (durable_read read got.0))
                    λ _ y same.
                      bind-Refuses (fails (V.open_file "doomed" I.read_mode))
                        (λ absent. require absent text >> sweep file) y text
                        (fails-found (V.open_file "doomed" I.read_mode) y (
                          D.open_read root "doomed" files 1 (bytes "unpublished") y
                            (subst (D.IsOpen root files 1) (sym same) got.1) refl))
                        λ absent z present. check-Refuses absent text (sweep file) z present
