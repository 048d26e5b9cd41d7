-- ===== src/Harness/Fault/Client.antt =====
-- Any client of the file system, such as a database engine: it makes one call after the other and
-- chooses the next by the answers it got, errors included. It runs over the wrapper of
-- harness/src/fault.rs or over the back end that is wrapped.
pub mod Faults
pub mod Ticks
pub mod Unarmed
pub mod Cutting
pub mod Vectored
pub mod Refinement
pub mod Parking
use rust_browser_proofs.Base.{ℕ, String, Bool, List, Result, ok, err}
use rust_browser_proofs.Harness.Vfs.{Poll, done, failed, parked, Async, Request, Vfs}
use rust_browser_proofs.Harness.Fault.{FaultCall, fault_vfs}
use rust_browser_proofs.Harness.Fault.Transparency.{plain_write_at_vectored}

module _ (V : Vfs) where
  -- The asynchronous methods of `Vfs` and `VfsFile`, with their arguments.
  pub data Call : Type 0 where
    open_file : String → V.OpenMode → Call
    remove : String → Call
    rename : String → String → Call
    list_dir : String → Call
    mkdir_all : String → Call
    sync_dir : String → Call
    lock_exclusive : String → Call
    lock_shared : String → Call
    read_at : V.File → ℕ → List ℕ → Call
    read_at_vectored : V.File → List Request → Call
    write_at : V.File → ℕ → List ℕ → Call
    write_at_vectored : V.File → List Request → Call
    sync : V.File → Call
    truncate : V.File → ℕ → Call
    len : V.File → Call
    is_empty : V.File → Call

  abbrev pub Answer : Call → Type 0
  Answer (open_file path mode) = V.File
  Answer (remove path) = Unit
  Answer (rename from to) = Unit
  Answer (list_dir path) = List String
  Answer (mkdir_all path) = Unit
  Answer (sync_dir path) = Unit
  Answer (lock_exclusive path) = V.LockHandle
  Answer (lock_shared path) = V.LockHandle
  Answer (read_at file offset buf) = ℕ × List ℕ
  Answer (read_at_vectored file reqs) = List Request
  Answer (write_at file offset buf) = ℕ
  Answer (write_at_vectored file reqs) = Unit
  Answer (sync file) = Unit
  Answer (truncate file size) = Unit
  Answer (len file) = ℕ
  Answer (is_empty file) = Bool

  -- A call of the back end, where a vectored write is the plain sequence of its steps.
  unfoldable pub plain : (c : Call) → Async V.World V.Error (Answer c)
  plain (open_file path mode) = V.open_file path mode
  plain (remove path) = V.remove path
  plain (rename from to) = V.rename from to
  plain (list_dir path) = V.list_dir path
  plain (mkdir_all path) = V.mkdir_all path
  plain (sync_dir path) = V.sync_dir path
  plain (lock_exclusive path) = V.lock_exclusive path
  plain (lock_shared path) = V.lock_shared path
  plain (read_at file offset buf) = V.read_at file offset buf
  plain (read_at_vectored file reqs) = V.read_at_vectored file reqs
  plain (write_at file offset buf) = V.write_at file offset buf
  plain (write_at_vectored file reqs) = plain_write_at_vectored V file reqs
  plain (sync file) = V.sync file
  plain (truncate file size) = V.truncate file size
  plain (len file) = V.len file
  plain (is_empty file) = V.is_empty file

  -- The same call of the wrapper.
  unfoldable pub wrapped : (c : Call) → FaultCall V (Answer c)
  unfolding fault_vfs
  wrapped (open_file path mode) = (fault_vfs V).open_file path mode
  wrapped (remove path) = (fault_vfs V).remove path
  wrapped (rename from to) = (fault_vfs V).rename from to
  wrapped (list_dir path) = (fault_vfs V).list_dir path
  wrapped (mkdir_all path) = (fault_vfs V).mkdir_all path
  wrapped (sync_dir path) = (fault_vfs V).sync_dir path
  wrapped (lock_exclusive path) = (fault_vfs V).lock_exclusive path
  wrapped (lock_shared path) = (fault_vfs V).lock_shared path
  wrapped (read_at file offset buf) = (fault_vfs V).read_at file offset buf
  wrapped (read_at_vectored file reqs) = (fault_vfs V).read_at_vectored file reqs
  wrapped (write_at file offset buf) = (fault_vfs V).write_at file offset buf
  wrapped (write_at_vectored file reqs) = (fault_vfs V).write_at_vectored file reqs
  wrapped (sync file) = (fault_vfs V).sync file
  wrapped (truncate file size) = (fault_vfs V).truncate file size
  wrapped (len file) = (fault_vfs V).len file
  wrapped (is_empty file) = (fault_vfs V).is_empty file

  -- A client that ends with a value.
  pub data Client (A : Type 0) : Type 0 where
    ends : A → Client A
    asks : (c : Call) → (Result V.Error (Answer c) → Client A) → Client A

  -- What follows a call: an error is an answer too, and a call that parks is never answered.
  abbrev pub resume :
      {W A B : Type 0}
      → (Result V.Error A → Async W V.Error B)
      → Poll V.Error A × W
      → Poll V.Error B × W
  resume f (done a, w) = f (ok a) w
  resume f (failed e, w) = f (err e) w
  resume f (parked, w) = (parked, w)

  -- The client over calls that are done in this way.
  unfoldable pub run :
      {W A : Type 0} → ((c : Call) → Async W V.Error (Answer c)) → Client A → Async W V.Error A
  run answer (ends a) w = (done a, w)
  run answer (asks c k) w = resume (λ r. run answer (k r)) (answer c w)
