-- ===== src/Opfs/Tests.antt =====
-- The OPFS helpers over one file in memory, and their theorems there.
use rust_browser_proofs.Base.{
  ℕ, ◌+◌, ◌*◌, ◌^◌, ◌%◌, ◌<◌, ◌≡◌, refl, ap, sym, String, true, List, [], ◌++◌, ◌∙◌, Result, ok,
  arith, length, take, drop, take-append, drop_all,
}
use mathlib.Core.List.{append-nil}
use native.Mathlib.Nat.{zero-add}
use rust_browser_proofs.Base.Bytes.{zeros}
use rust_browser_proofs.Base.Step.{pure, Returns}
use rust_browser_proofs.Opfs.{
  RawSyncBenchmark, xor, byte_at, pattern_from, validate_workload, fresh_test_directory, complete,
  write_rounds, read_rounds, timed, exercise, benchmark, benchmark_raw_sync_access_handle,
}
use rust_browser_proofs.Opfs.Browser.{Platform}
use rust_browser_proofs.Opfs.Completed.{benchmark_completed}
use rust_browser_proofs.Opfs.Checksum.{if_odd}
use rust_browser_proofs.Opfs.Battery.{
  rust_browser_proofs_sync_access_handle_round_trip, rust_browser_proofs_raw_sync_baseline,
}
use rust_browser_proofs.Opfs.Battery.Healthy.{Healthy, overwritten, filled}
use rust_browser_proofs.Opfs.Battery.Passes.{
  Measured, Passes, battery-Passes, benchmark_raw_sync_access_handle-Returns,
}
use rust_browser_proofs.Opfs.Stored.{Storage, benchmark-checksum}

-- One file, whose bytes are the state, and a clock that stands still.
abbrev memory : Platform
memory = record {
  World = List ℕ;
  Directory = Unit;
  File = Unit;
  Handle = Unit;
  Error = String;
  Time = ℕ;
  from_str = λ text. text;
  get_directory = pure tt;
  random = pure "0.5";
  get_directory_handle = λ directory name create. pure tt;
  get_file_handle = λ directory name create. pure tt;
  remove_entry = λ directory name recursive w. (ok tt, []);
  create_sync_access_handle = λ file. pure tt;
  write = λ handle buffer w. (ok (length buffer), buffer ++ drop (length buffer) w);
  write_at = λ handle buffer offset w.
      (ok (length buffer), take offset w ++ (buffer ++ drop (offset + length buffer) w));
  read_at = λ handle buffer offset w.
      (let front = take (length buffer) (drop offset w) in
        (ok (length front, front ++ drop (length front) buffer), w));
  flush = λ handle. pure tt;
  get_size = λ handle w. (ok (length w), w);
  close = λ handle w. w;
  date_now = λ w. (0, w);
  elapsed = λ later earlier. 0;
  is_finite = λ time. true;
}

-- A read that fills the buffer leaves nothing else in it.
whole_read :
    (buffer w : List ℕ)
    → length (take (length buffer) w) ≡ length buffer
    → take (length buffer) w ++ drop (length (take (length buffer) w)) buffer
      ≡ take (length buffer) w
whole_read buffer w e = rw e (rw (drop_all buffer) (append-nil _))

memory-Storage : Storage memory
memory-Storage = record {
  contents = λ handle w. w;
  written = λ handle buffer count w v h e.
      ground (arith, take-append buffer (drop (0 + length buffer) w));
  flushed = λ handle w v h. ap (λ (q : Result String (Unit {0}) × List ℕ). q.1) (sym h);
  got = λ handle buffer bytes count w v h e.
      let front : List ℕ = take (length buffer) w in
      let read : (length front ≡ count) × (front ++ drop (length front) buffer ≡ bytes) × (w ≡ v) =
        ground arith in
      (sym read.1 ∙ whole_read buffer w (read.0 ∙ e) ∙ ap (λ n. take n w) (sym e), sym read.2);
  clocked = λ handle w. refl;
}

abbrev small : RawSyncBenchmark ℕ
small = record {
  written_bytes = 9;
  read_bytes = 9;
  checksum = 2;
  write_elapsed_ms = 0;
  read_elapsed_ms = 0;
}

benchmark_completed_example :
    (0 < 3)
    × (0 < 3)
    × (3 * 3 < 2 ^ 32)
    × (small.written_bytes ≡ 3 * 3)
    × (small.read_bytes ≡ 3 * 3)
unfolding benchmark_raw_sync_access_handle benchmark exercise timed write_rounds read_rounds
    complete fresh_test_directory validate_workload zeros pattern_from xor byte_at
benchmark_completed_example = benchmark_completed memory 3 3 [] {r = small} {w' = []} refl

benchmark-checksum_example : small.checksum ≡ if_odd 3 (2 % 251) 0
unfolding benchmark_raw_sync_access_handle benchmark exercise timed write_rounds read_rounds
    complete fresh_test_directory validate_workload zeros pattern_from xor byte_at
benchmark-checksum_example =
    benchmark-checksum memory memory-Storage 3 3 [] {r = small} {w' = []} refl

-- The file in memory works: it is empty between the tests, and admits any buffer.
abbrev memory-Healthy : Healthy memory
memory-Healthy = record {
  capacity = 4096;
  IsReady = λ w. w ≡ [];
  IsUnused = λ directory name w. w ≡ [];
  IsEmpty = λ directory w. w ≡ [];
  IsClosed = λ file bytes w. w ≡ bytes;
  IsOpen = λ handle file cursor bytes w. w ≡ bytes;
  get_directory = λ w h. (tt, w, refl, h);
  random = λ prefix root w h. ("0.5", w, refl, h);
  get_directory_handle = λ root name w h. (tt, w, refl, h);
  get_file_handle = λ directory name w h. (tt, w, refl, h);
  create_sync_access_handle = λ file bytes w h. (tt, w, refl, h);
  write = λ handle file buffer bytes w h fits.
      (length buffer, overwritten buffer w, refl, (refl, ap (overwritten buffer) h));
  write_at = λ handle file cursor buffer bytes w h fits. (
    length buffer,
    overwritten buffer w,
    ap (λ n. (ok (length buffer), buffer ++ drop n w)) (zero-add _),
    (refl, ap (overwritten buffer) h),
  );
  read_at = λ handle file cursor buffer bytes w h. (
    (length (take (length buffer) w), filled buffer w),
    w,
    refl,
    (ap (λ b. (length (take (length buffer) b), filled buffer b)) h, h),
  );
  flush = λ handle file cursor bytes w h. (tt, w, refl, h);
  get_size = λ handle file cursor bytes w h. (length w, w, refl, (ap length h, h));
  close = λ handle file cursor bytes w h. h;
  date_now = λ handle file cursor bytes w h. h;
  remove_entry = λ root name file bytes w h. refl;
  is_finite = λ later earlier. refl;
}

battery-Passes_example :
    Passes memory memory-Healthy (rust_browser_proofs_sync_access_handle_round_trip memory) []
    × Passes memory memory-Healthy (rust_browser_proofs_raw_sync_baseline memory) []
battery-Passes_example = battery-Passes memory memory-Healthy [] (omega arith) refl

benchmark_raw_sync_access_handle-Returns_example :
    Returns
      (benchmark_raw_sync_access_handle memory 3 3)
      []
      (λ r v. Measured memory memory-Healthy 3 3 r × (v ≡ []))
benchmark_raw_sync_access_handle-Returns_example =
    benchmark_raw_sync_access_handle-Returns memory memory-Healthy 3 3 [] (omega arith)
      (omega arith) (omega arith) (omega arith) refl
