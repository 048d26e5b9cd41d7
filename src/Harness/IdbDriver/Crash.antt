-- ===== src/Harness/IdbDriver/Crash.antt =====
-- What the crash drivers have done when they park for their worker to be killed.
use rust_browser_proofs.Base.{
  ℕ, String, ◌<>◌, ◌≡◌, ◌≢◌, refl, ap, ◌∙◌, Bool, true, false, arith, List, if◌then◌else◌,
}
use rust_browser_proofs.Base.Bytes.{bytes}
use rust_browser_proofs.Harness.Vfs.{Poll, done, failed, parked, Async, ◌>>=◌, ◌>>◌, pure, Vfs}
use rust_browser_proofs.Harness.Engine.{map_err}
use rust_browser_proofs.Harness.IdbDriver.{
  Idb, driver_error, park_forever, sync_doomed_file, crash_after_file_sync,
}
use rust_browser_proofs.Harness.IdbDriver.Chain.{from_told, from_first, from_last}

-- From such states a call never parks, and it leaves such a state.
abbrev pub Answers : {W E A : Type 0} → (W → Type 0) → Async W E A → Type 0
Answers P m = (w : _) → P w → ((m w).0 ≢ parked) × P (m w).1

told-Answers :
    {W E F A : Type 0} (P : W → Type 0) (context : E → F) (q : Poll E A × W) (w : W)
    → (q.0 ≢ parked) × P q.1
    → ((map_err context (λ _. q) w).0 ≢ parked) × P (map_err context (λ _. q) w).1
told-Answers P context (done a, t) w h = ((λ e. absurd (ground arith)), h.1)
told-Answers P context (failed x, t) w h = ((λ e. absurd (ground arith)), h.1)
told-Answers P context (parked, t) w h = absurd (h.0 refl)

map_err-Answers :
    {W E F A : Type 0} (P : W → Type 0) (context : E → F) (m : Async W E A)
    → Answers P m
    → Answers P (map_err context m)
map_err-Answers P context m h w p = told-Answers P context (m w) w (h w p)

then-Answers :
    {W E A B : Type 0} (P : W → Type 0) (q : Poll E A × W) (f : A → Async W E B) (w : W)
    → (q.0 ≢ parked) × P q.1
    → ((a : A) → Answers P (f a))
    → ((((λ _. q) >>= f) w).0 ≢ parked) × P (((λ _. q) >>= f) w).1
then-Answers P (done a, t) f w h k = k a t h.1
then-Answers P (failed x, t) f w h k = ((λ e. absurd (ground arith)), h.1)
then-Answers P (parked, t) f w h k = absurd (h.0 refl)

bind-Answers :
    {W E A B : Type 0} (P : W → Type 0) (m : Async W E A) (f : A → Async W E B)
    → Answers P m
    → ((a : A) → Answers P (f a))
    → Answers P (m >>= f)
bind-Answers P m f h k w p = then-Answers P (m w) f w (h w p) k

parked_first :
    {W E A B C : Type 0} (P : W → Type 0) (q : Poll E A × W) (f : A → Async W E B) (w : W) {w' : W}
    → ((λ _. q) >>= f) w ≡ (parked, w')
    → (q.0 ≢ parked) × P q.1
    → ((a : A) (t : W) → q ≡ (done a, t) → P t → f a t ≡ (parked, w') → C)
    → C
parked_first P (done a, t) f w h n k = k a t refl n.1 h
parked_first P (failed x, t) f w h n k = absurd (ground arith)
parked_first P (parked, t) f w h n k = absurd (n.0 refl)

-- A chain that parks behind a call that does not has completed the call.
from_answer :
    {W E A B C : Type 0} (P : W → Type 0) (m : Async W E A) (f : A → Async W E B) (w : W) {w' : W}
    → (m >>= f) w ≡ (parked, w')
    → Answers P m
    → P w
    → ((a : A) (t : W) → m w ≡ (done a, t) → P t → f a t ≡ (parked, w') → C)
    → C
from_answer P m f w h answers p k = parked_first P (m w) f w h (answers w p) k

-- While no transaction is to be paused, the browser settles each call of the drivers.
pub record Responsive (V : Vfs) (I : Idb V) : Type 1 where
  -- nothing is to be paused
  pub IsCalm : V.World → Type 0
  pub with_root : (root : String) → Answers IsCalm (I.with_root root)
  pub open_file : (path : String) (mode : V.OpenMode) → Answers IsCalm (V.open_file path mode)
  pub write_at : (file : V.File) (at : ℕ) (buf : List ℕ) → Answers IsCalm (V.write_at file at buf)
  pub sync : (file : V.File) → Answers IsCalm (V.sync file)
  pub sync_dir : (path : String) → Answers IsCalm (V.sync_dir path)
  pub post_message : (text : String) → Answers IsCalm (I.post_message text)

module _ (V : Vfs) (I : Idb V) where
  abbrev told : String → V.Error → String
  told context error = context <> (": " <> I.debug error)

  -- The doomed file was created, its image was written and the file was synced.
  abbrev pub Synced : String → V.World → V.World → Type 0
  Synced root w w' =
      (file : V.File) × (v0 v1 v2 : V.World) × (count : ℕ) × (I.with_root root w ≡ (done tt, v0))
      × (V.open_file "doomed" I.create_new v0 ≡ (done file, v1))
      × (V.write_at file 0 (bytes "unpublished") v1 ≡ (done count, v2))
      × (V.sync file v2 ≡ (done tt, w'))

  sync_doomed_file-Synced :
      (root : String) (w w' : V.World)
      → sync_doomed_file V I root w ≡ (done tt, w')
      → Synced root w w'
  unfolding sync_doomed_file
  sync_doomed_file-Synced root w w' h =
      let finish =
        λ (file : V.File) (count : ℕ). driver_error V I "sync doomed file" (V.sync file) in
      let fill = λ (file : V.File).
        driver_error V I "write doomed file" (V.write_at file 0 (bytes "unpublished"))
        >>= finish file in
      from_told (told "open IDB VFS") (I.with_root root)
        (λ _. driver_error V I "create doomed file" (V.open_file "doomed" I.create_new) >>= fill) w
        h
        λ _ v0 opened h0.
          from_told (told "create doomed file") (V.open_file "doomed" I.create_new) fill v0 h0
            λ file v1 created h1.
              from_told (told "write doomed file") (V.write_at file 0 (bytes "unpublished"))
                (finish file) v1 h1
                λ count v2 wrote h2. (
                  file,
                  v0,
                  v1,
                  v2,
                  count,
                  opened,
                  created,
                  wrote,
                  from_last (told "sync doomed file") (V.sync file) v2 h2,
                )

  sync_doomed_file-Answers :
      (root : String) (r : Responsive V I) → Answers r.IsCalm (sync_doomed_file V I root)
  unfolding sync_doomed_file
  sync_doomed_file-Answers root r =
      let open_root = driver_error V I "open IDB VFS" (I.with_root root) in
      let create = driver_error V I "create doomed file" (V.open_file "doomed" I.create_new) in
      let write = λ (file : V.File).
        driver_error V I "write doomed file" (V.write_at file 0 (bytes "unpublished")) in
      let finish =
        λ (file : V.File) (count : ℕ). driver_error V I "sync doomed file" (V.sync file) in
      let fill = λ (file : V.File). write file >>= finish file in
      bind-Answers r.IsCalm open_root (λ _. create >>= fill)
        (map_err-Answers r.IsCalm (told "open IDB VFS") (I.with_root root) (r.with_root root))
        λ _.
          bind-Answers r.IsCalm create fill
            (map_err-Answers r.IsCalm (told "create doomed file")
              (V.open_file "doomed" I.create_new) (r.open_file "doomed" I.create_new))
            λ file.
              bind-Answers r.IsCalm (write file) (finish file)
                (map_err-Answers r.IsCalm (told "write doomed file")
                  (V.write_at file 0 (bytes "unpublished"))
                  (r.write_at file 0 (bytes "unpublished")))
                λ count.
                  map_err-Answers r.IsCalm (told "sync doomed file") (V.sync file) (r.sync file)

  -- The namespace was synced, if that was asked for.
  abbrev pub Published : Bool → V.World → V.World → Type 0
  Published true w w' = V.sync_dir "/" w ≡ (done tt, w')
  Published false w w' = w' ≡ w

  abbrev beacon_of : Bool → String
  beacon_of publish = if publish then "idb-namespace-synced" else "idb-file-synced"

  -- An end of a crash driver: a failure, or parked, with the file synced first, then the namespace
  -- if that was asked for, and then the matching beacon posted.
  abbrev pub Crashed : String → Bool → V.World → Poll String (Unit {0}) × V.World → Type 0
  Crashed root publish w (done _, w') = ⊥
  Crashed root publish w (failed _, w') = Unit
  Crashed root publish w (parked, w') =
      (u v : V.World) × Synced root w u
      × Published publish u v
      × (I.post_message (beacon_of publish) v ≡ (done tt, w'))

  abbrev publication : Bool → Async V.World String (Unit {0})
  publication publish =
      if publish then driver_error V I "publish doomed path" (V.sync_dir "/") else pure tt

  publication-Published :
      (publish : Bool) (w w' : V.World)
      → publication publish w ≡ (done tt, w')
      → Published publish w w'
  publication-Published true w w' h = from_last (told "publish doomed path") (V.sync_dir "/") w h
  publication-Published false w w' h = ground arith

  publication-Answers :
      (publish : Bool) (r : Responsive V I) → Answers r.IsCalm (publication publish)
  publication-Answers true r w p =
      map_err-Answers r.IsCalm (told "publish doomed path") (V.sync_dir "/") (r.sync_dir "/") w p
  publication-Answers false r w p = ((λ e. absurd (ground arith)), p)

  abbrev posting : Bool → Async V.World String (Unit {0})
  posting publish = driver_error V I "post crash beacon" (I.post_message (beacon_of publish))

  ended-Crashed :
      (root : String) (publish : Bool) (w : V.World) (q : Poll String (Unit {0}) × V.World)
      → (r : Responsive V I) → r.IsCalm w
      → crash_after_file_sync V I root publish w ≡ q
      → Crashed root publish w q
  unfolding crash_after_file_sync
  ended-Crashed root publish w (failed e, w') r calm h = tt
  ended-Crashed root publish w (done _, w') r calm h =
      from_first (sync_doomed_file V I root)
        (λ _. publication publish >> (posting publish >> park_forever V I)) w h
        λ _ u synced h1.
          from_first (publication publish) (λ _. posting publish >> park_forever V I) u h1
            λ _ v published h2.
              from_first (posting publish) (λ _. park_forever V I) v h2
                λ _ t posted h3. absurd (ground arith)
  ended-Crashed root publish w (parked, w') r calm h =
      from_answer r.IsCalm (sync_doomed_file V I root)
        (λ _. publication publish >> (posting publish >> park_forever V I)) w h
        (sync_doomed_file-Answers root r) calm
        λ _ u synced calm₁ h1.
          from_answer r.IsCalm (publication publish) (λ _. posting publish >> park_forever V I) u h1
            (publication-Answers publish r) calm₁
            λ _ v published calm₂ h2.
              from_answer r.IsCalm (posting publish) (λ _. park_forever V I) v h2
                (map_err-Answers r.IsCalm (told "post crash beacon")
                  (I.post_message (beacon_of publish)) (r.post_message (beacon_of publish)))
                calm₂
                λ _ t posted calm₃ h3.
                  let here : t ≡ w' = ground arith in
                  (
                    u,
                    v,
                    sync_doomed_file-Synced root w u synced,
                    publication-Published publish u v published,
                    from_last (told "post crash beacon") (I.post_message (beacon_of publish)) v
                          posted
                        ∙ ap (λ x. (done tt, x)) here,
                  )

  -- In a browser that settles every call while no transaction is to be paused, and from such a state,
  -- a crash driver never completes. It may fail; if it parks,
  -- the doomed file's image was written and synced before, then the namespace was synced if and only
  -- if that was asked for, and the beacon that says which was posted last.
  pub crash_after_file_sync-Crashed :
      (root : String) (publish : Bool) (w : V.World)
      → (r : Responsive V I) → r.IsCalm w
      → Crashed root publish w (crash_after_file_sync V I root publish w)
  crash_after_file_sync-Crashed root publish w r calm = ended-Crashed root publish w _ r calm refl
