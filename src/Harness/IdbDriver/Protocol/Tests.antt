-- ===== src/Harness/IdbDriver/Protocol/Tests.antt =====
-- The crash tests over a store in memory that keeps its promises.
use rust_browser_proofs.Base.{
  ℕ, suc, zero, String, ◌≡◌, ◌≢◌, arith, refl, ap, ◌∙◌, Bool, true, false, Option, none, some, List,
  [], ◌∷◌, ◌++◌, length,
}
use rust_browser_proofs.Harness.Vfs.{Poll, Async, done, failed, parked, pure, Vfs}
use rust_browser_proofs.Harness.IdbDriver.{
  Idb, crash_after_file_sync, idb_crash_after_file_sync, idb_crash_after_namespace_sync,
  idb_crash_during_namespace_put, idb_verify_file_sync, idb_verify_namespace_sync,
  idb_verify_namespace_put,
}
use rust_browser_proofs.Harness.IdbDriver.Protocol.Files.{
  Image, reopened, settled, relink, content_of, image_at, synced, Durable,
}
use rust_browser_proofs.Harness.IdbDriver.Crash.{Responsive, Crashed, crash_after_file_sync-Crashed}
use rust_browser_proofs.Harness.IdbDriver.Protocol.Passes.{Survives, Detects, crash_tests-Survives}

-- The durable images, how many files are open besides, if the store is, the file that is being created, and whether the next sync of the namespace is
-- to stand still.
record Disk : Type 0 where
  images : List Image
  holders : Option ℕ
  draft : String × List ℕ
  paused : Bool

abbrev more : Option ℕ → Option ℕ
more none = none
more (some n) = some (suc n)

abbrev fewer : Option ℕ → Option ℕ
fewer (some (suc n)) = some n
fewer o = o

-- The store is closed when nothing else is open.
abbrev closed : Option ℕ → Option ℕ
closed (some zero) = none
closed o = o

-- `deleteDatabase` waits while the store is open.
abbrev delete_disk : Option ℕ → Async Disk String (Unit {0})
delete_disk none w = (done tt, record w { images = [] })
delete_disk (some n) w = (parked, w)

abbrev found : String → Option (List ℕ) → Disk → Poll String String × Disk
found path none w = (failed "no such file", w)
found path (some content) w = (done path, record w { holders = more w.holders })

abbrev contents : Option (List ℕ) → Disk → Poll String (ℕ × List ℕ) × Disk
contents none w = (failed "no such file", w)
contents (some content) w = (done (length content, content), w)

abbrev open_disk_file : String → Bool → Async Disk String String
open_disk_file path true w = (done path, record w { holders = more w.holders; draft = (path, []) })
open_disk_file path false w = found path (content_of path w.images) w

abbrev sync_disk_dir : Bool → Async Disk String (Unit {0})
sync_disk_dir true w = (parked, record w { paused = false })
sync_disk_dir false w = (done tt, record w { images = relink settled w.images })

abbrev disk : Vfs
disk = record {
  World = Disk;
  File = String;
  LockHandle = Unit;
  OpenMode = Bool;
  Error = String;
  other = λ text. text;
  invalid_input = λ text. text;
  open_file = open_disk_file;
  remove = λ path. pure tt;
  rename = λ from to. pure tt;
  list_dir = λ path. pure [];
  mkdir_all = λ path. pure tt;
  sync_dir = λ path w. sync_disk_dir w.paused w;
  lock_exclusive = λ path. pure tt;
  lock_shared = λ path. pure tt;
  read_at = λ file offset buf w. contents (content_of file w.images) w;
  read_at_vectored = λ file reqs. pure reqs;
  write_at = λ file offset buf w. (done (length buf), record w { draft = (file, buf) });
  write_at_vectored = λ file reqs. pure tt;
  sync = λ file w. (done tt, record w { images = w.images ++ (synced w.draft.0 w.draft.1 ∷ []) });
  truncate = λ file size. pure tt;
  len = λ file. pure 0;
  is_empty = λ file. pure false;
  supports_direct_io = λ file. false;
}

abbrev disk_store : Idb disk
disk_store = record {
  Store = Unit;
  create_new = true;
  read_mode = false;
  debug = λ e. e;
  with_root = λ root w. (done tt, record w { images = relink reopened w.images; holders = some 0 });
  store_open = λ name w. (done tt, record w { holders = more w.holders });
  load_file = λ store n w. (done (image_at n w.images), w);
  store_close = λ store w. record w { holders = fewer w.holders };
  delete = λ name w. delete_disk w.holders w;
  drop_file = λ file w. record w { holders = fewer w.holders };
  drop_vfs = λ w. record w { holders = closed w.holders };
  pause = λ w. record w { paused = true };
  post_message = λ text. pure tt;
}

abbrev Holds : List Image → Option ℕ → Disk → Type 0
Holds d holders w = (w.images ≡ d) × (w.paused ≡ false) × (w.holders ≡ holders)

abbrev disk_store-Durable : Durable disk disk_store
disk_store-Durable = record {
  IsStored = λ root d w. Holds d none w;
  IsOpen = λ root d n w. Holds d (some n) w;
  IsCreated = λ root d n file path content w.
      Holds d (some (suc n)) w × (w.draft ≡ (path, content)) × (file ≡ path);
  IsHandle = λ root path file. file ≡ path;
  IsStore = λ root store. Unit {0};
  kill = λ w. record w { holders = none };
  killed = λ root d n w h. (h.0, h.1, refl);
  with_root = λ root d w h. (
    tt,
    record w { images = relink reopened w.images; holders = some 0 },
    refl,
    (ap (relink reopened) h.0, h.1, refl),
  );
  create = λ root path d n w h absent. (
    path,
    record w { holders = more w.holders; draft = (path, []) },
    refl,
    ((h.0, h.1, ap more h.2), refl, refl),
  );
  write_at = λ root path d n file content w h. (
    length content,
    record w { draft = (file, content) },
    refl,
    (h.0, ap (λ p. (p, content)) h.2, h.2),
  );
  sync = λ root path d n file content w h. (
    tt,
    record w { images = w.images ++ (synced w.draft.0 w.draft.1 ∷ []) },
    refl,
    ((λ i. h.0.0 i ++ (synced (h.1 i).0 (h.1 i).1 ∷ [])), h.0.1, h.0.2),
  );
  sync_dir = λ root d n w h. (
    tt,
    record w { images = relink settled w.images },
    ap (λ p. sync_disk_dir p w) h.1,
    (ap (relink settled) h.0, h.1, h.2),
  );
  paused = λ root d n w h. (record w { paused = false }, refl, (h.0, refl, h.2));
  open_read = λ root path d n content w h here. (
    path,
    record w { holders = more w.holders },
    ap (λ o. found path o w) (ap (content_of path) h.0 ∙ here),
    (refl, (h.0, h.1, ap more h.2)),
  );
  open_absent = λ root path d n w h absent.
      ("no such file", w, ap (λ o. found path o w) (ap (content_of path) h.0 ∙ absent), h);
  read_at = λ root path d n file content w h handle here. (
    (length content, content),
    w,
    ap (λ o. contents o w)
        (ap (λ p. content_of p w.images) handle ∙ ap (content_of path) h.0 ∙ here),
    (refl, h),
  );
  store_open = λ root d n w h.
      (tt, record w { holders = more w.holders }, refl, (tt, (h.0, h.1, ap more h.2)));
  load_file = λ root d n store id w h s. (image_at id w.images, w, refl, (ap (image_at id) h.0, h));
  store_close = λ root d n store w h. (h.0, h.1, ap fewer h.2);
  drop_file = λ root path d n file w h handle. (h.0, h.1, ap fewer h.2);
  drop_vfs = λ root d w h. (h.0, h.1, ap closed h.2);
  delete =
      λ root d w h. (tt, record w { images = [] }, ap (λ o. delete_disk o w) h.2, (refl, h.1, h.2));
  post_message = λ root text d n w h. (tt, w, refl, h);
}

abbrev blank : Disk
blank = record { images = []; holders = none; draft = ("", []); paused = false }

crash_tests-Survives_example :
    let pass = Survives disk disk_store disk_store-Durable in
    let detect = Detects disk disk_store disk_store-Durable in
    pass
      (idb_crash_after_file_sync disk disk_store)
      (idb_verify_file_sync disk disk_store)
      "db"
      blank
    × pass
        (idb_crash_after_namespace_sync disk disk_store)
        (idb_verify_namespace_sync disk disk_store)
        "db"
        blank
    × pass
        (idb_crash_during_namespace_put disk disk_store)
        (idb_verify_namespace_put disk disk_store)
        "db"
        blank
    × detect
        (idb_crash_after_namespace_sync disk disk_store)
        (idb_verify_file_sync disk disk_store)
        "doomed path was published"
        "db"
        blank
crash_tests-Survives_example =
    crash_tests-Survives disk disk_store disk_store-Durable "db" blank (refl, refl, refl)

abbrev Settled : {A : Type 0} → Poll String A × Disk → Type 0
Settled q = (q.0 ≢ parked) × (q.1.paused ≡ false)

found-Settled :
    (path : String) (o : Option (List ℕ)) (w : Disk) → w.paused ≡ false → Settled (found path o w)
found-Settled path none w h = ((λ e. absurd (ground arith)), h)
found-Settled path (some content) w h = ((λ e. absurd (ground arith)), h)

open-Settled :
    (path : String) (mode : Bool) (w : Disk)
    → w.paused ≡ false
    → Settled (open_disk_file path mode w)
open-Settled path true w h = ((λ e. absurd (ground arith)), h)
open-Settled path false w h = found-Settled path (content_of path w.images) w h

sync_dir-Settled :
    (paused : Bool) (w : Disk)
    → paused ≡ false
    → w.paused ≡ false
    → Settled (sync_disk_dir paused w)
sync_dir-Settled true w e h = absurd (ground arith)
sync_dir-Settled false w e h = ((λ e'. absurd (ground arith)), h)

abbrev disk_store-Responsive : Responsive disk disk_store
disk_store-Responsive = record {
  IsCalm = λ w. w.paused ≡ false;
  with_root = λ root w h. ((λ e. absurd (ground arith)), h);
  open_file = open-Settled;
  write_at = λ file at buf w h. ((λ e. absurd (ground arith)), h);
  sync = λ file w h. ((λ e. absurd (ground arith)), h);
  sync_dir = λ path w h. sync_dir-Settled w.paused w h h;
  post_message = λ text w h. ((λ e. absurd (ground arith)), h);
}

crash_after_file_sync-Crashed_example :
    Crashed disk disk_store "db" true blank (crash_after_file_sync disk disk_store "db" true blank)
crash_after_file_sync-Crashed_example =
    crash_after_file_sync-Crashed disk disk_store "db" true blank disk_store-Responsive refl
