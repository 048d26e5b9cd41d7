-- ===== src/Opfs/RoundTrip.antt =====
-- What a round trip that passes has shown.
use rust_browser_proofs.Base.{true, ◌≡◌, ok, String, ◌<>◌}
use rust_browser_proofs.Base.Bytes.{zeros}
use rust_browser_proofs.Opfs.{round_trip_bytes}
use rust_browser_proofs.Opfs.Browser.{Platform}

module _ (P : Platform) where
  -- The handle was flushed and closed, and a second handle of the file read back the whole payload,
  -- in a file of its size, and was closed; this led to the last state.
  abbrev pub Reopened : P.File → P.Handle → P.World → P.World → Type 0
  Reopened file handle u2 v =
      (u3 u4 u5 u6 : P.World) × (reopened : P.Handle) × (P.flush handle u2 ≡ (ok tt, u3))
      × (P.create_sync_access_handle file (P.close handle u3) ≡ (ok reopened, u4))
      × (P.read_at reopened (zeros 4) 0 u4 ≡ (ok (4, round_trip_bytes), u5))
      × (P.get_size reopened u5 ≡ (ok 4, u6))
      × (P.close reopened u6 ≡ v)

  -- The payload was written whole to a handle of the file and read back from a second one.
  abbrev pub Written : P.File → P.World → P.World → Type 0
  Written file u0 v =
      (handle : P.Handle) × (u1 u2 : P.World) × (P.create_sync_access_handle file u0
        ≡ (ok handle, u1))
      × (P.write handle round_trip_bytes u1 ≡ (ok 4, u2))
      × Reopened file handle u2 v

  -- The name that a fresh directory gets for a random number.
  abbrev pub directory_name : String → String → String
  directory_name prefix random = ".rust-browser-proofs-" <> (prefix <> ("-" <> random))

  -- The browser created the directory, of this name, in its root.
  abbrev pub Created : String → P.World → P.Directory → String → P.Directory → P.World → Type 0
  Created prefix w root random directory u =
      (w1 w2 : P.World) × (P.get_directory w ≡ (ok root, w1))
      × (P.random w1 ≡ (ok random, w2))
      × (P.get_directory_handle root (directory_name prefix random) true w2 ≡ (ok directory, u))

  -- In the directory that was created, the file was created, written and read back, and the
  -- directory removed with what is in it.
  abbrev pub Ran : P.Directory → String → P.Directory → P.World → P.World → Type 0
  Ran root name directory u w' =
      (file : P.File) × (u0 v : P.World) × (P.get_file_handle directory "payload.bin" true u
        ≡ (ok file, u0))
      × Written file u0 v
      × ((P.remove_entry root name true v).1 ≡ w')
