-- ===== src/Opfs/Browser.antt =====
-- The browser's storage and clock, as far as the helpers use them: the file system directory,
-- file and sync access handles of `web_sys`, `Math.random` and `Date.now`. A call is a step on the
-- browser's state; a rejected promise and a thrown exception are its error. Counts and sizes are
-- the integers that the browser reports, below 2 ^ 53, where `f64` holds them exactly.
use rust_browser_proofs.Base.{ℕ, String, Bool, List}
use rust_browser_proofs.Base.Step.{Step}

pub record Platform : Type 1 where
  pub World : Type 0
  pub Directory : Type 0
  pub File : Type 0
  pub Handle : Type 0
  pub Error : Type 0
  -- a moment or a span of milliseconds
  pub Time : Type 0
  pub from_str : String → Error
  -- `navigator.storage.getDirectory()`
  pub get_directory : Step World Error Directory
  -- `Math.random()`, shown
  pub random : Step World Error String
  -- the entry of that name; if there is none it is created, or the call fails, by the option
  -- `create`
  pub get_directory_handle : Directory → String → Bool → Step World Error Directory
  pub get_file_handle : Directory → String → Bool → Step World Error File
  -- with what is in it, by the option `recursive`
  pub remove_entry : Directory → String → Bool → Step World Error (Unit {0})
  pub create_sync_access_handle : File → Step World Error Handle
  -- a write at the handle's cursor, and one at a place
  pub write : Handle → List ℕ → Step World Error ℕ
  pub write_at : Handle → List ℕ → ℕ → Step World Error ℕ
  -- the count, and the buffer as the read leaves it
  pub read_at : Handle → List ℕ → ℕ → Step World Error (ℕ × List ℕ)
  pub flush : Handle → Step World Error (Unit {0})
  pub get_size : Handle → Step World Error ℕ
  pub close : Handle → World → World
  pub date_now : World → Time × World
  pub elapsed : Time → Time → Time
  pub is_finite : Time → Bool
