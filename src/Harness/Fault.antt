-- ===== src/Harness/Fault.antt =====
-- harness/src/fault.rs: a file system that fails or parks at a chosen occurrence of an operation.
pub mod Trigger
pub mod Transparency
pub mod Cut
pub mod Behind
pub mod Requests
pub mod Client
mod Tests
unfoldable pub use Trigger.*
use rust_browser_proofs.Base.{
  ℕ, ◌+◌, ◌<◌, ◌^◌, max, String, ◌<>◌, Bool, true, false, List, [], ◌∷◌, ◌++◌, Option, none, some,
  ltb, length, if◌then◌else◌,
}
use rust_browser_proofs.Base.Decimal.{decimal}
use rust_browser_proofs.Harness.Vfs.{
  Poll, done, failed, parked, Async, ◌>>=◌, ◌>>◌, pure, throw, Request, Vfs,
}

-- The wrapped back end, the trigger that all clones and open files share, and the messages posted
-- to the worker's owner.
pub record FaultState (V : Vfs) : Type 0 where
  pub inner : V.World
  pub trigger : TriggerState
  pub beacons : List String

-- The requests are valid if no end overflows `u64`: the furthest end then, and at least `end`.
unfoldable pub max_end : List Request → ℕ → Option ℕ
max_end [] end = some end
max_end (r ∷ rs) end =
    let more = max_end rs (max end (r.offset + length r.buf)) in
    if ltb (r.offset + length r.buf) (2 ^ 64) then more else none

module _ (V : Vfs) where
  abbrev pub FaultCall : Type 0 → Type 0
  FaultCall = Async (FaultState V) V.Error

  unfoldable pub build : V.World → OpKind → ℕ → Action → Bool → FaultState V
  build inner kind at action armed = record {
    inner = inner;
    trigger = unfired kind at action armed;
    beacons = [];
  }

  unfoldable pub new : V.World → OpKind → ℕ → Action → FaultState V
  unfolding build
  new inner kind at action = build inner kind at action true

  unfoldable pub new_unarmed : V.World → OpKind → ℕ → Action → FaultState V
  unfolding build
  new_unarmed inner kind at action = build inner kind at action false

  unfoldable pub arm : FaultState V → FaultState V
  arm s = record s { trigger = record s.trigger { armed = true } }

  unfoldable pub fired : FaultState V → Bool
  fired s = ltb 0 s.trigger.fired

  -- A call of the wrapped back end.
  abbrev pub inner_call : {A : Type 0} → Async V.World V.Error A → FaultCall A
  inner_call m s = let (p, w) = m s.inner in (p, record s { inner = w })

  -- `{kind:?} #{n}`, with or without the space
  abbrev pub injected : OpKind → ℕ → String
  injected kind n = "fault injected at " <> (kind_name kind <> (" #" <> decimal n))

  abbrev pub beacon : OpKind → ℕ → String
  beacon kind n = "phase-reached:" <> (kind_name kind <> ("#" <> decimal n))

  -- In a dedicated worker, where the oracle runs the wrapper.
  abbrev post_beacon : String → FaultState V → FaultState V
  post_beacon text s = record s { beacons = s.beacons ++ (text ∷ []) }

  abbrev park_forever : FaultCall (Unit {0})
  park_forever s = (parked, s)

  abbrev respond : OpKind → Fire → FaultCall (Unit {0})
  respond kind pass s = (done tt, s)
  respond kind (inject n) s = (failed (V.other (injected kind n)), s)
  respond kind (park n) s = park_forever (post_beacon (beacon kind n) s)

  -- `TriggerState::tick`
  unfoldable pub tick : OpKind → FaultCall (Unit {0})
  tick kind s =
      let (fire, trigger) = count_tick kind s.trigger in
      respond kind fire (record s { trigger = trigger })

  -- The writes of a vectored write one by one, with a tick behind each.
  unfoldable pub sub_writes : V.File → List Request → FaultCall (Unit {0})
  unfolding tick
  sub_writes file [] = pure tt
  sub_writes file (r ∷ rs) = do
    written ← inner_call (V.write_at file r.offset r.buf)
    tick vectored_sub_write
    sub_writes file rs

  abbrev extend : V.File → ℕ → ℕ → FaultCall (Unit {0})
  extend file len end = if ltb len end then inner_call (V.truncate file end) else pure tt

  unfoldable pub write_at_vectored : V.File → List Request → FaultCall (Unit {0})
  unfolding tick
  write_at_vectored file reqs = elim (max_end reqs 0) [
    | none ↦ throw (V.invalid_input "vectored write offset overflow")
    | some end ↦ do
      len ← inner_call (V.len file)
      extend file len end
      sub_writes file reqs
      tick vectored_write
  ]

  unfoldable pub rename : String → String → FaultCall (Unit {0})
  rename from to = do tick OpKind.rename; inner_call (V.rename from to)

  unfoldable pub sync_dir : String → FaultCall (Unit {0})
  sync_dir path = do tick sync_dir_before; inner_call (V.sync_dir path); tick sync_dir_after

  unfoldable pub write_at : V.File → ℕ → List ℕ → FaultCall ℕ
  write_at file offset buf = do tick write; inner_call (V.write_at file offset buf)

  unfoldable pub sync : V.File → FaultCall (Unit {0})
  sync file = do tick OpKind.sync; inner_call (V.sync file)

-- `FaultVfs` is a `Vfs` again: its files are those of the wrapped back end.
unfoldable pub fault_vfs : Vfs → Vfs
unfolding rename sync_dir write_at write_at_vectored sync
fault_vfs V = record {
  World = FaultState V;
  File = V.File;
  LockHandle = V.LockHandle;
  OpenMode = V.OpenMode;
  Error = V.Error;
  other = V.other;
  invalid_input = V.invalid_input;
  open_file = λ path mode. inner_call V (V.open_file path mode);
  remove = λ path. inner_call V (V.remove path);
  rename = rename V;
  list_dir = λ path. inner_call V (V.list_dir path);
  mkdir_all = λ path. inner_call V (V.mkdir_all path);
  sync_dir = sync_dir V;
  lock_exclusive = λ path. inner_call V (V.lock_exclusive path);
  lock_shared = λ path. inner_call V (V.lock_shared path);
  read_at = λ file offset buf. inner_call V (V.read_at file offset buf);
  read_at_vectored = λ file reqs. inner_call V (V.read_at_vectored file reqs);
  write_at = write_at V;
  write_at_vectored = write_at_vectored V;
  sync = sync V;
  truncate = λ file len. inner_call V (V.truncate file len);
  len = λ file. inner_call V (V.len file);
  is_empty = λ file. inner_call V (V.is_empty file);
  supports_direct_io = V.supports_direct_io;
}
