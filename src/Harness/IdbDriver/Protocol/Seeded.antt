-- ===== src/Harness/IdbDriver/Protocol/Seeded.antt =====
-- The worker that seeds, and the ones that are killed.
use rust_browser_proofs.Base.{
  String, ◌<>◌, refl, Bool, true, false, [], ◌∷◌, string_eq, if◌then◌else◌,
}
use rust_browser_proofs.Base.Bytes.{bytes}
use rust_browser_proofs.Harness.Vfs.{done, Async, ◌>>=◌, ◌>>◌, pure, Vfs}
use rust_browser_proofs.Harness.IdbDriver.{
  Idb, driver_error, park_forever, idb_seed_baseline, sync_doomed_file, crash_after_file_sync,
  idb_crash_during_namespace_put,
}
use rust_browser_proofs.Harness.IdbDriver.Completes.{
  Completes, call-Completes, map_err-Completes, Parks, bind-Parks, call-Parks, map_err-Parks,
}
use rust_browser_proofs.Harness.IdbDriver.Protocol.Files.{
  Link, pending, published, Image, synced, Durable,
}

-- The baseline's file, once it is published.
abbrev pub baseline : Image
baseline = record { path = "baseline"; content = bytes "durable"; link = published }

-- The doomed file, as the worker that is killed leaves it.
abbrev pub doomed : Link → Image
doomed link = record { path = "doomed"; content = bytes "unpublished"; link = link }

abbrev pub link_of : Bool → Link
link_of publish = if publish then published else pending

module _ (V : Vfs) (I : Idb V) (D : Durable V I) where
  abbrev told : String → V.Error → String
  told context error = context <> (": " <> I.debug error)

  pub idb_seed_baseline-Completes :
      (root : String) (w : V.World)
      → D.IsStored root [] w
      → Completes (idb_seed_baseline V I root) w (λ _ v. D.IsOpen root (baseline ∷ []) 1 v)
  unfolding idb_seed_baseline
  idb_seed_baseline-Completes root w stored =
      let publish = driver_error V I "publish baseline" (V.sync_dir "/") in
      let sync = λ (file : V.File). driver_error V I "sync baseline" (V.sync file) >> publish in
      let fill = λ (file : V.File).
        driver_error V I "write baseline" (V.write_at file 0 (bytes "durable")) >>= λ _.
        sync file in
      call-Completes (told "open IDB VFS") (I.with_root root)
        (λ _. driver_error V I "create baseline" (V.open_file "baseline" I.create_new) >>= fill) w
        (D.with_root root [] w stored)
        λ _ v opened.
          call-Completes (told "create baseline") (V.open_file "baseline" I.create_new) fill v
            (D.create root "baseline" [] 0 v opened refl)
            λ file u created.
              call-Completes (told "write baseline") (V.write_at file 0 (bytes "durable"))
                (λ _. sync file) u
                (D.write_at root "baseline" [] 0 file (bytes "durable") u created)
                λ _ x wrote.
                  call-Completes (told "sync baseline") (V.sync file) (λ _. publish) x
                    (D.sync root "baseline" [] 0 file (bytes "durable") x wrote)
                    λ _ y saved.
                      map_err-Completes (told "publish baseline") (V.sync_dir "/") y
                        (D.sync_dir root (synced "baseline" (bytes "durable") ∷ []) 1 y saved)

  -- The doomed file's image is durable behind the worker's sync, and its path is not published.
  sync_doomed_file-Completes :
      (root : String) (w : V.World)
      → D.IsStored root (baseline ∷ []) w
      → Completes
          (sync_doomed_file V I root)
          w
          (λ _ v. D.IsOpen root (baseline ∷ doomed pending ∷ []) 1 v)
  unfolding sync_doomed_file string_eq
  sync_doomed_file-Completes root w stored =
      let sync = λ (file : V.File). driver_error V I "sync doomed file" (V.sync file) in
      let fill = λ (file : V.File).
        driver_error V I "write doomed file" (V.write_at file 0 (bytes "unpublished")) >>= λ _.
        sync file in
      call-Completes (told "open IDB VFS") (I.with_root root)
        (λ _. driver_error V I "create doomed file" (V.open_file "doomed" I.create_new) >>= fill) w
        (D.with_root root (baseline ∷ []) w stored)
        λ _ v opened.
          call-Completes (told "create doomed file") (V.open_file "doomed" I.create_new) fill v
            (D.create root "doomed" (baseline ∷ []) 0 v opened refl)
            λ file u created.
              call-Completes (told "write doomed file") (V.write_at file 0 (bytes "unpublished"))
                (λ _. sync file) u
                (D.write_at root "doomed" (baseline ∷ []) 0 file (bytes "unpublished") u created)
                λ _ x wrote.
                  map_err-Completes (told "sync doomed file") (V.sync file) x
                    (D.sync root "doomed" (baseline ∷ []) 0 file (bytes "unpublished") x wrote)

  abbrev publication : Bool → Async V.World String (Unit {0})
  publication publish =
      if publish then driver_error V I "publish doomed path" (V.sync_dir "/") else pure tt

  publication-Completes :
      (root : String) (publish : Bool) (w : V.World)
      → D.IsOpen root (baseline ∷ doomed pending ∷ []) 1 w
      → Completes
          (publication publish)
          w
          (λ _ v. D.IsOpen root (baseline ∷ doomed (link_of publish) ∷ []) 1 v)
  publication-Completes root true w opened =
      map_err-Completes (told "publish doomed path") (V.sync_dir "/") w
        (D.sync_dir root (baseline ∷ doomed pending ∷ []) 1 w opened)
  publication-Completes root false w opened = (tt, w, refl, opened)

  -- The crash driver comes to its beacon and stands there.
  pub crash_after_file_sync-Parks :
      (root : String) (publish : Bool) (w : V.World)
      → D.IsStored root (baseline ∷ []) w
      → Parks
          (crash_after_file_sync V I root publish)
          w
          (λ v. D.IsOpen root (baseline ∷ doomed (link_of publish) ∷ []) 1 v)
  unfolding crash_after_file_sync
  crash_after_file_sync-Parks root publish w stored =
      let text : String = if publish then "idb-namespace-synced" else "idb-file-synced" in
      let post = driver_error V I "post crash beacon" (I.post_message text) in
      bind-Parks (sync_doomed_file V I root)
        (λ _. publication publish >> (post >> park_forever V I)) w
        (sync_doomed_file-Completes root w stored)
        λ _ v saved.
          bind-Parks (publication publish) (λ _. post >> park_forever V I) v
            (publication-Completes root publish v saved)
            λ _ u settled_.
              call-Parks (told "post crash beacon") (I.post_message text) (λ _. park_forever V I) u
                (D.post_message root text (baseline ∷ doomed (link_of publish) ∷ []) 1 u settled_)
                λ _ x posted. (x, refl, posted)

  -- The driver that is to be killed inside the namespace's transaction stands there.
  pub idb_crash_during_namespace_put-Parks :
      (root : String) (w : V.World)
      → D.IsStored root (baseline ∷ []) w
      → Parks
          (idb_crash_during_namespace_put V I root)
          w
          (λ v. D.IsOpen root (baseline ∷ doomed pending ∷ []) 1 v)
  unfolding idb_crash_during_namespace_put
  idb_crash_during_namespace_put-Parks root w stored =
      let pause : Async V.World String (Unit {0}) = λ v. (done tt, I.pause v) in
      bind-Parks (sync_doomed_file V I root)
        (λ _. pause >> driver_error V I "namespace sync returned" (V.sync_dir "/")) w
        (sync_doomed_file-Completes root w stored)
        λ _ v saved.
          map_err-Parks (told "namespace sync returned") (V.sync_dir "/") (I.pause v)
            (D.paused root (baseline ∷ doomed pending ∷ []) 1 v saved)
