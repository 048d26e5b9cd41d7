-- ===== src/Harness/Memory.antt =====
-- A back end for the tests: one file, in memory.
use rust_browser_proofs.Base.{
  ℕ, suc, zero, ◌+◌, String, false, List, [], ◌∷◌, ◌++◌, ltb, take, drop, length,
}
use rust_browser_proofs.Harness.Vfs.{done, pure, Vfs}

-- The first `n` bytes, with zeros past the end.
abbrev extended : ℕ → List ℕ → List ℕ
extended zero bytes = []
extended (suc n) [] = 0 ∷ extended n []
extended (suc n) (b ∷ bytes) = b ∷ extended n bytes

-- One file, whose bytes are the world.
abbrev pub memory : Vfs
memory = record {
  World = List ℕ;
  File = Unit;
  LockHandle = Unit;
  OpenMode = Unit;
  Error = String;
  other = λ text. text;
  invalid_input = λ text. text;
  open_file = λ path mode. pure tt;
  remove = λ path. pure tt;
  rename = λ from to w. (done tt, []);
  list_dir = λ path. pure [];
  mkdir_all = λ path. pure tt;
  sync_dir = λ path. pure tt;
  lock_exclusive = λ path. pure tt;
  lock_shared = λ path. pure tt;
  read_at = λ file offset buf w. (done (length buf, take (length buf) (drop offset w)), w);
  read_at_vectored = λ file reqs. pure reqs;
  write_at = λ file offset buf w.
      (done (length buf), extended offset w ++ (buf ++ drop (offset + length buf) w));
  write_at_vectored = λ file reqs. pure tt;
  sync = λ file. pure tt;
  truncate = λ file len w. (done tt, extended len w);
  len = λ file w. (done (length w), w);
  is_empty = λ file w. (done (ltb (length w) 1), w);
  supports_direct_io = λ file. false;
}
