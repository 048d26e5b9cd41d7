-- ===== src/Opfs.antt =====
-- crates/rust-browser-proofs/src/opfs.rs: the helpers that exercise OPFS sync access handles.
pub mod Browser
pub mod Battery
pub mod Checksum
pub mod Completed
pub mod RoundTrip
pub mod Stored
mod Tests
use rust_browser_proofs.Base.{
  ℕ, zero, suc, ◌+◌, ◌-◌, ◌*◌, ◌/◌, ◌%◌, ◌^◌, String, ◌<>◌, Bool, true, false, not, ◌||◌, ◌&&◌,
  List, [], ◌∷◌, Result, ok, err, length, nat_beq, ltb, if◌then◌else◌,
}
use rust_browser_proofs.Base.Bytes.{bytes_eq, zeros}
use rust_browser_proofs.Base.Step.{Step, ◌>>=◌, ◌>>◌, pure, throw, lift, modify}
use rust_browser_proofs.Opfs.Browser.{Platform}

-- `^` on numbers of so many bits
unfoldable pub xor : ℕ → ℕ → ℕ → ℕ
xor zero a b = 0
xor (suc bits) a b = (a + b) % 2 + 2 * xor bits (a / 2) (b / 2)

-- `bytes[index]`, at places that the code keeps in range; 0 elsewhere
unfoldable pub byte_at : List ℕ → ℕ → ℕ
byte_at [] index = 0
byte_at (b ∷ bytes) zero = b
byte_at (b ∷ bytes) (suc index) = byte_at bytes index

-- The bytes `index % 251` from a place on.
unfoldable pub pattern_from : ℕ → ℕ → List ℕ
pattern_from index zero = []
pattern_from index (suc n) = index % 251 ∷ pattern_from (1 + index) n

abbrev pub round_trip_bytes : List ℕ
round_trip_bytes = 7 ∷ 1 ∷ 2 ∷ 3 ∷ []

abbrev pub default_benchmark_bytes : ℕ
default_benchmark_bytes = 4096

abbrev pub default_benchmark_iterations : ℕ
default_benchmark_iterations = 3

pub record RawSyncBenchmark (Time : Type 0) : Type 0 where
  pub written_bytes : ℕ
  pub read_bytes : ℕ
  pub checksum : ℕ
  pub write_elapsed_ms : Time
  pub read_elapsed_ms : Time

module _ (P : Platform) where
  abbrev pub Io : Type 0 → Type 0
  Io = Step P.World P.Error

  abbrev pub contract_error : String → P.Error
  contract_error = P.from_str

  -- `usize` has 32 bits in WebAssembly.
  unfoldable pub validate_workload : ℕ → ℕ → Result P.Error (Unit {0})
  validate_workload byte_length iterations =
      if nat_beq byte_length 0
      then err (contract_error "byte_length must be positive")
      else if nat_beq iterations 0
      then err (contract_error "iterations must be positive")
      else if not (ltb (byte_length * iterations) (2 ^ 32))
      then err (contract_error "byte_length * iterations overflowed usize")
      else ok tt

  abbrev pub now : Io P.Time
  now w = let (time, w') = P.date_now w in (ok time, w')

  -- The root, the name of the new directory, and the directory.
  unfoldable pub fresh_test_directory : String → Io (P.Directory × String × P.Directory)
  fresh_test_directory prefix = do
    root ← P.get_directory
    random ← P.random
    let name = ".rust-browser-proofs-" <> (prefix <> ("-" <> random))
    directory ← P.get_directory_handle root name true
    pure (root, name, directory)

  abbrev pub create_file : P.Directory → String → Io P.File
  create_file directory name = P.get_file_handle directory name true

  abbrev pub create_sync_access_handle : P.File → Io P.Handle
  create_sync_access_handle file = P.create_sync_access_handle file

  -- The outcome of the removal is ignored.
  abbrev pub cleanup_test_directory : P.Directory → String → P.World → P.World
  cleanup_test_directory root name w = (P.remove_entry root name true w).1

  -- The body in a fresh directory, which is removed however the body ends.
  abbrev pub in_test_directory : {A : Type 0} → String → (P.Directory → Io A) → Io A
  in_test_directory prefix body = do
    fresh ← fresh_test_directory prefix
    λ w. let (result, w') = body fresh.2 w in (result, cleanup_test_directory fresh.0 fresh.1 w')

  -- A count that is not the expected one closes the handle and ends the helper with this message.
  unfoldable pub complete : P.Handle → ℕ → ℕ → String → Io (Unit {0})
  complete handle count expected text =
      if not (nat_beq count expected)
      then modify (P.close handle) >> throw (contract_error text)
      else pure tt

  -- The checks behind the read of the reopened file.
  unfoldable pub judge_reopened : ℕ → List ℕ → ℕ → Result P.Error (Unit {0})
  judge_reopened read bytes size =
      if not (nat_beq read (length round_trip_bytes))
      then err (contract_error "sync-handle reopen read was shorter than the payload")
      else if not (bytes_eq bytes round_trip_bytes)
      then err (contract_error "sync-handle reopen returned different bytes")
      else if not (nat_beq size (length round_trip_bytes))
      then err (contract_error "sync-handle size did not survive reopen")
      else ok tt

  -- The part of the round trip behind a complete write.
  unfoldable pub reopen : P.File → P.Handle → Io (Unit {0})
  reopen file handle = do
    P.flush handle
    modify (P.close handle)
    reopened ← create_sync_access_handle file
    read ← P.read_at reopened (zeros (length round_trip_bytes)) 0
    size ← P.get_size reopened
    modify (P.close reopened)
    lift (judge_reopened read.0 read.1 size)

  unfoldable pub round_trip : P.Directory → Io (Unit {0})
  round_trip directory = do
    file ← create_file directory "payload.bin"
    handle ← create_sync_access_handle file
    write ← P.write handle round_trip_bytes
    complete handle write (length round_trip_bytes) "sync-handle write was shorter than the payload"
    reopen file handle

  unfoldable pub assert_sync_access_handle_round_trip : Io (Unit {0})
  assert_sync_access_handle_round_trip = in_test_directory "round-trip" round_trip

  -- The loop of writes, with the bytes written so far.
  unfoldable pub write_rounds : P.Handle → List ℕ → ℕ → ℕ → ℕ → Io ℕ
  write_rounds handle buffer byte_length zero total = pure total
  write_rounds handle buffer byte_length (suc n) total = do
    written ← P.write_at handle buffer 0
    complete handle written byte_length "sync-handle benchmark write was shorter than the payload"
    P.flush handle
    write_rounds handle buffer byte_length n ((total + written) % 2 ^ 64)

  -- The loop of reads, with the bytes read so far and the checksum.
  unfoldable pub read_rounds : P.Handle → List ℕ → ℕ → ℕ → ℕ → ℕ → Io (ℕ × ℕ)
  read_rounds handle buffer byte_length zero total checksum = pure (total, checksum)
  read_rounds handle buffer byte_length (suc n) total checksum = do
    read ← P.read_at handle buffer 0
    complete handle read.0 byte_length "sync-handle benchmark read was shorter than the payload"
    read_rounds handle read.1 byte_length n ((total + read.0) % 2 ^ 64)
        (xor 8 checksum (xor 8 (byte_at read.1 0) (byte_at read.1 (byte_length - 1))))

  -- A loop, with the time that it took by the clock.
  unfoldable pub timed : {A : Type 0} → Io A → Io (A × P.Time)
  timed loop = do started ← now; a ← loop; ended ← now; pure (a, P.elapsed ended started)

  -- The loops of the benchmark on an open handle.
  unfoldable pub exercise : ℕ → ℕ → P.Handle → Io (RawSyncBenchmark P.Time)
  exercise byte_length iterations handle = do
    write ← timed (write_rounds handle (pattern_from 0 byte_length) byte_length iterations 0)
    read ← timed (read_rounds handle (zeros byte_length) byte_length iterations 0 0)
    modify (P.close handle)
    pure (record {
      written_bytes = write.0;
      read_bytes = read.0.0;
      checksum = read.0.1;
      write_elapsed_ms = write.1;
      read_elapsed_ms = read.1;
    })

  unfoldable pub benchmark : ℕ → ℕ → P.Directory → Io (RawSyncBenchmark P.Time)
  benchmark byte_length iterations directory = do
    file ← create_file directory "payload.bin"
    handle ← create_sync_access_handle file
    exercise byte_length iterations handle

  unfoldable pub benchmark_raw_sync_access_handle : ℕ → ℕ → Io (RawSyncBenchmark P.Time)
  benchmark_raw_sync_access_handle byte_length iterations = do
    lift (validate_workload byte_length iterations)
    in_test_directory "benchmark" (benchmark byte_length iterations)

  -- The checks of the baseline.
  unfoldable pub judge_baseline : RawSyncBenchmark P.Time → Result P.Error (Unit {0})
  judge_baseline result =
      let expected_bytes = default_benchmark_bytes * default_benchmark_iterations in
      if not (nat_beq result.written_bytes expected_bytes)
        || not (nat_beq result.read_bytes expected_bytes)
      then err (contract_error "raw sync baseline did not complete the requested I/O")
      else if not (nat_beq result.checksum 79)
      then err (contract_error "raw sync baseline read back an unexpected payload")
      else if not (P.is_finite result.write_elapsed_ms) || not (P.is_finite result.read_elapsed_ms)
      then err (contract_error "raw sync baseline did not report finite elapsed time")
      else ok tt

  unfoldable pub assert_raw_sync_baseline : Io (Unit {0})
  assert_raw_sync_baseline = do
    result ← benchmark_raw_sync_access_handle default_benchmark_bytes default_benchmark_iterations
    lift (judge_baseline result)
