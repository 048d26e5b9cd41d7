-- ===== src/Opfs/Battery/Healthy.antt =====
-- A browser whose storage works: what the File System standard says of the calls that
-- crates/rust-browser-proofs/src/opfs.rs makes, as long as the storage is there, the name drawn for
-- a directory is not taken, and the quota admits a buffer of some size.
use rust_browser_proofs.Base.{ℕ, ◌≤◌, ◌≡◌, String, ◌<>◌, true, List, [], ◌++◌, length, take, drop}
use rust_browser_proofs.Base.Step.{Returns}
use rust_browser_proofs.Opfs.Browser.{Platform}

-- The file behind a write at its front.
abbrev pub overwritten : List ℕ → List ℕ → List ℕ
overwritten buffer bytes = buffer ++ drop (length buffer) bytes

-- The buffer behind a read of the file's front.
abbrev pub filled : List ℕ → List ℕ → List ℕ
filled buffer bytes = let front = take (length buffer) bytes in front ++ drop (length front) buffer

pub record Healthy (P : Platform) : Type 1 where
  -- the size of a buffer that the quota admits
  pub capacity : ℕ
  -- the storage is there and no handle is open
  pub IsReady : P.World → Type 0
  -- a name that the directory does not hold
  pub IsUnused : P.Directory → String → P.World → Type 0
  pub IsEmpty : P.Directory → P.World → Type 0
  -- a file with these bytes and no handle
  pub IsClosed : P.File → List ℕ → P.World → Type 0
  -- a file with these bytes, whose only handle has its cursor there
  pub IsOpen : P.Handle → P.File → ℕ → List ℕ → P.World → Type 0
  pub get_directory : (w : P.World) → IsReady w → Returns P.get_directory w (λ root v. IsReady v)
  pub random :
      (prefix : String) (root : P.Directory) (w : P.World)
      → IsReady w
      → Returns P.random w
          (λ text v. IsUnused root (".rust-browser-proofs-" <> (prefix <> ("-" <> text))) v)
  pub get_directory_handle :
      (root : P.Directory) (name : String) (w : P.World)
      → IsUnused root name w
      → Returns (P.get_directory_handle root name true) w IsEmpty
  pub get_file_handle :
      (directory : P.Directory) (name : String) (w : P.World)
      → IsEmpty directory w
      → Returns (P.get_file_handle directory name true) w (λ file v. IsClosed file [] v)
  pub create_sync_access_handle :
      (file : P.File) (bytes : List ℕ) (w : P.World)
      → IsClosed file bytes w
      → Returns (P.create_sync_access_handle file) w (λ handle v. IsOpen handle file 0 bytes v)
  pub write :
      (handle : P.Handle) (file : P.File) (buffer bytes : List ℕ) (w : P.World)
      → IsOpen handle file 0 bytes w
      → length buffer ≤ capacity
      → Returns (P.write handle buffer) w (λ count v.
        (count ≡ length buffer) × IsOpen handle file count (overwritten buffer bytes) v)
  pub write_at :
      (handle : P.Handle) (file : P.File) (cursor : ℕ) (buffer bytes : List ℕ) (w : P.World)
      → IsOpen handle file cursor bytes w
      → length buffer ≤ capacity
      → Returns (P.write_at handle buffer 0) w (λ count v.
        (count ≡ length buffer) × IsOpen handle file count (overwritten buffer bytes) v)
  pub read_at :
      (handle : P.Handle) (file : P.File) (cursor : ℕ) (buffer bytes : List ℕ) (w : P.World)
      → IsOpen handle file cursor bytes w
      → Returns (P.read_at handle buffer 0) w (λ read v.
        (read ≡ (length (take (length buffer) bytes), filled buffer bytes))
        × IsOpen handle file read.0 bytes v)
  pub flush :
      (handle : P.Handle) (file : P.File) (cursor : ℕ) (bytes : List ℕ) (w : P.World)
      → IsOpen handle file cursor bytes w
      → Returns (P.flush handle) w (λ _ v. IsOpen handle file cursor bytes v)
  pub get_size :
      (handle : P.Handle) (file : P.File) (cursor : ℕ) (bytes : List ℕ) (w : P.World)
      → IsOpen handle file cursor bytes w
      → Returns
          (P.get_size handle)
          w
          (λ size v. (size ≡ length bytes) × IsOpen handle file cursor bytes v)
  pub close :
      (handle : P.Handle) (file : P.File) (cursor : ℕ) (bytes : List ℕ) (w : P.World)
      → IsOpen handle file cursor bytes w
      → IsClosed file bytes (P.close handle w)
  pub date_now :
      (handle : P.Handle) (file : P.File) (cursor : ℕ) (bytes : List ℕ) (w : P.World)
      → IsOpen handle file cursor bytes w
      → IsOpen handle file cursor bytes (P.date_now w).1
  -- whether or not the removal succeeds
  pub remove_entry :
      (root : P.Directory) (name : String) (file : P.File) (bytes : List ℕ) (w : P.World)
      → IsClosed file bytes w
      → IsReady (P.remove_entry root name true w).1
  pub is_finite : (later earlier : P.Time) → P.is_finite (P.elapsed later earlier) ≡ true
