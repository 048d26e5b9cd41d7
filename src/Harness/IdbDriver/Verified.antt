-- ===== src/Harness/IdbDriver/Verified.antt =====
-- What a verification that completes has shown of the reopened store.
use rust_browser_proofs.Base.{
  ℕ, String, ◌<>◌, ◌≡◌, refl, ap, not, true, arith, Option, none, some, List, is_some,
}
use rust_browser_proofs.Base.Bytes.{bytes, bytes_eq_sound, zeros}
use rust_browser_proofs.Harness.Vfs.{done, failed, Vfs}
use rust_browser_proofs.Harness.IdbDriver.{Idb, image_is, database_of}

pub image_is-some :
    (image : Option (List ℕ)) (text : String)
    → image_is image text ≡ true
    → image ≡ some (bytes text)
unfolding image_is
image_is-some none text h = absurd (ground arith)
image_is-some (some image) text h = ap some (bytes_eq_sound image (bytes text) h)

pub is_some-none : {A : Type 0} (o : Option A) → not (is_some o) ≡ true → o ≡ none
is_some-none none h = refl
is_some-none (some a) h = absurd (ground arith)

module _ (V : Vfs) (I : Idb V) where
  abbrev told : String → V.Error → String
  told context error = context <> (": " <> I.debug error)

  -- The store, opened from this state, holds the baseline's image and no second one, and is closed.
  abbrev pub Swept : String → V.World → V.World → Type 0
  Swept database w w' =
      (store : I.Store) × (u1 u2 u3 : V.World) × (I.store_open database w ≡ (done store, u1))
      × (I.load_file store 0 u1 ≡ (done (some (bytes "durable")), u2))
      × (I.load_file store 1 u2 ≡ (done none, u3))
      × (w' ≡ I.store_close store u3)

  -- In the store reopened from its root: the baseline's file reads back whole, the doomed path does
  -- not open, and behind the sweep of the namespace the store holds the baseline's image alone.
  abbrev pub Unpublished : String → V.World → Type 0
  Unpublished root w =
      (baseline : V.File) × (v0 v1 v2 v3 v4 v5 : V.World) × (e : V.Error) × (I.with_root root w
        ≡ (done tt, v0))
      × (V.open_file "baseline" I.read_mode v0 ≡ (done baseline, v1))
      × (V.read_at baseline 0 (zeros 7) v1 ≡ (done (7, bytes "durable"), v2))
      × (V.open_file "doomed" I.read_mode v2 ≡ (failed e, v3))
      × (V.sync_dir "/" v3 ≡ (done tt, v4))
      × Swept (database_of root) v4 v5
