-- ===== src/Harness/Vfs.antt =====
-- The traits `Vfs` and `VfsFile` of the pagedb crate, which the harness wraps and implements anew.
-- An asynchronous call is a function of the back end's state: it completes with a value, fails, or
-- parks, which it does for good.
use rust_browser_proofs.Base.{ℕ, String, Bool, List}

pub data Poll (E A : Type 0) : Type 0 where
  done : A → Poll E A
  failed : E → Poll E A
  parked : Poll E A

abbrev pub Async : Type 0 → Type 0 → Type 0 → Type 0
Async W E A = W → Poll E A × W

infixl 5 ◌>>=◌ ◌>>◌
abbrev pub ◌>>=◌ : {W E A B : Type 0} → Async W E A → (A → Async W E B) → Async W E B
◌>>=◌ m f w =
    let (p, w') = m w in
    elim p [ done a ↦ f a w' | failed e ↦ (failed e, w') | parked ↦ (parked, w') ]

abbrev pub ◌>>◌ : {W E B : Type 0} → Async W E (Unit {0}) → Async W E B → Async W E B
m >> k = m >>= λ _. k

abbrev pub pure : {W E A : Type 0} → A → Async W E A
pure a w = (done a, w)

abbrev pub throw : {W E A : Type 0} → E → Async W E A
throw e w = (failed e, w)

-- A request of a vectored call: a place in the file, and the bytes there.
pub record Request : Type 0 where
  pub offset : ℕ
  pub buf : List ℕ

pub record Vfs : Type 1 where
  pub World : Type 0
  pub File : Type 0
  pub LockHandle : Type 0
  pub OpenMode : Type 0
  pub Error : Type 0
  -- `PagedbError::Io` of an error of kind `Other`, and of kind `InvalidInput`
  pub other : String → Error
  pub invalid_input : String → Error
  pub open_file : String → OpenMode → Async World Error File
  pub remove : String → Async World Error (Unit {0})
  pub rename : String → String → Async World Error (Unit {0})
  pub list_dir : String → Async World Error (List String)
  pub mkdir_all : String → Async World Error (Unit {0})
  pub sync_dir : String → Async World Error (Unit {0})
  pub lock_exclusive : String → Async World Error LockHandle
  pub lock_shared : String → Async World Error LockHandle
  -- a read gives the count and the buffer that it filled
  pub read_at : File → ℕ → List ℕ → Async World Error (ℕ × List ℕ)
  pub read_at_vectored : File → List Request → Async World Error (List Request)
  pub write_at : File → ℕ → List ℕ → Async World Error ℕ
  pub write_at_vectored : File → List Request → Async World Error (Unit {0})
  pub sync : File → Async World Error (Unit {0})
  pub truncate : File → ℕ → Async World Error (Unit {0})
  pub len : File → Async World Error ℕ
  pub is_empty : File → Async World Error Bool
  pub supports_direct_io : File → Bool
