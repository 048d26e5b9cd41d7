-- ===== src/Opfs/Battery/Passes.antt =====
-- The battery of crates/rust-browser-proofs/src/lib.rs in a browser whose storage works.
use rust_browser_proofs.Base.{
  ℕ, ◌+◌, ◌-◌, ◌*◌, ◌^◌, ◌%◌, ◌<◌, ◌≤◌, ◌≡◌, refl, ap, sym, ◌∙◌, subst, String, true, List, [],
  Result, ok, arith,
}
use rust_browser_proofs.Base.Bytes.{zeros}
use rust_browser_proofs.Base.Step.{◌>>=◌, ◌>>◌, pure, lift, modify, Returns, bind-Returns}
use rust_browser_proofs.Opfs.{
  in_test_directory, RawSyncBenchmark, pattern_from, timed, exercise, write_rounds, read_rounds,
  benchmark, validate_workload, benchmark_raw_sync_access_handle, judge_baseline,
  assert_raw_sync_baseline,
}
use rust_browser_proofs.Opfs.Browser.{Platform}
use rust_browser_proofs.Opfs.Checksum.{
  toggled, toggled-pattern, ends, if_odd, length-pattern, length-zeros,
}
use rust_browser_proofs.Opfs.Battery.{
  Verdict, passed, expect, rust_browser_proofs_sync_access_handle_round_trip,
  rust_browser_proofs_raw_sync_baseline,
}
use rust_browser_proofs.Opfs.Battery.Healthy.{Healthy}
use rust_browser_proofs.Opfs.Battery.Rounds.{
  OpenWith, Closed, write_rounds-Returns, read_rounds-Returns, timed-Returns,
  in_test_directory-Returns,
}
use rust_browser_proofs.Opfs.Battery.Persists.{assert_sync_access_handle_round_trip-Returns}

module _ (P : Platform) (H : Healthy P) where
  -- What the benchmark reports of `iterations` rounds with `byte_length` bytes.
  abbrev pub Measured : ℕ → ℕ → RawSyncBenchmark P.Time → Type 0
  Measured byte_length iterations r =
      (r.written_bytes ≡ byte_length * iterations)
      × (r.read_bytes ≡ byte_length * iterations)
      × (r.checksum ≡ if_odd iterations ((byte_length - 1) % 251) 0)
      × (P.is_finite r.write_elapsed_ms ≡ true)
      × (P.is_finite r.read_elapsed_ms ≡ true)

  clocked :
      (handle : P.Handle) (file : P.File) (buffer : List ℕ) (w : P.World)
      → OpenWith P H handle file buffer w
      → OpenWith P H handle file buffer (P.date_now w).1
  clocked handle file buffer w (cursor, bytes, open_, held) =
      (cursor, bytes, H.date_now handle file cursor bytes w open_, held)

  write_loop-Returns :
      (b n : ℕ) (handle : P.Handle) (file : P.File) (w : P.World)
      → 0 < n
      → b * n < 2 ^ 32
      → b ≤ H.capacity
      → H.IsOpen handle file 0 [] w
      → Returns (timed P (write_rounds P handle (pattern_from 0 b) b n 0)) w (λ q v.
        ((q.0 ≡ 0 + n * b) × OpenWith P H handle file (pattern_from 0 b) v)
        × (P.is_finite q.1 ≡ true))
  write_loop-Returns b n handle file w some_rounds small fits open_ =
      let payload = pattern_from 0 b in
      let total : 0 + n * b < 2 ^ 64 = omega arith in
      let (t, v, ran, (sum, kept)) =
        write_rounds-Returns P H handle file payload [] b n 0 0 (P.date_now w).1
          (H.date_now handle file 0 [] w open_) (sym (length-pattern 0 b)) fits total
          (λ e. absurd (omega (arith, e, some_rounds))) in
      timed-Returns P H (write_rounds P handle payload b n 0) w
        (λ t v. (t ≡ 0 + n * b) × OpenWith P H handle file payload v)
        (t, v, ran, (sum, clocked handle file payload v kept))

  read_loop-Returns :
      (b n : ℕ) (handle : P.Handle) (file : P.File) (w : P.World)
      → b * n < 2 ^ 32
      → OpenWith P H handle file (pattern_from 0 b) w
      → Returns (timed P (read_rounds P handle (zeros b) b n 0 0)) w (λ q v.
        ((q.0 ≡ (0 + n * b, toggled (ends b (pattern_from 0 b)) n 0))
          × OpenWith P H handle file (pattern_from 0 b) v)
        × (P.is_finite q.1 ≡ true))
  read_loop-Returns b n handle file w small open_ =
      let payload = pattern_from 0 b in
      let total : 0 + n * b < 2 ^ 64 = omega arith in
      let (t, v, ran, (sum, kept)) =
        read_rounds-Returns P H handle file (zeros b) payload b n 0 0 (P.date_now w).1
          (clocked handle file payload w open_) (length-zeros b) (sym (length-pattern 0 b)) total in
      timed-Returns P H (read_rounds P handle (zeros b) b n 0 0) w
        (λ t v.
          (t ≡ (0 + n * b, toggled (ends b payload) n 0)) × OpenWith P H handle file payload v)
        (t, v, ran, (sum, clocked handle file payload v kept))

  exercise-Returns :
      (b n : ℕ) (handle : P.Handle) (file : P.File) (w : P.World)
      → 0 < b
      → 0 < n
      → b * n < 2 ^ 32
      → b ≤ H.capacity
      → H.IsOpen handle file 0 [] w
      → Returns (exercise P b n handle) w (λ r v. Measured b n r × Closed P H v)
  unfolding exercise
  exercise-Returns b n handle file w some_bytes some_rounds small fits open_ =
      let writes = timed P (write_rounds P handle (pattern_from 0 b) b n 0) in
      let reads = timed P (read_rounds P handle (zeros b) b n 0 0) in
      let report : ℕ × P.Time → (ℕ × ℕ) × P.Time → RawSyncBenchmark P.Time = λ write read. record {
        written_bytes = write.0;
        read_bytes = read.0.0;
        checksum = read.0.1;
        write_elapsed_ms = write.1;
        read_elapsed_ms = read.1;
      } in
      let finish = λ (write : ℕ × P.Time) (read : (ℕ × ℕ) × P.Time).
        modify (P.close handle) >> pure (report write read) in
      bind-Returns writes (λ write. reads >>= finish write) w
        (write_loop-Returns b n handle file w some_rounds small fits open_)
        (λ write u wrote.
          bind-Returns reads (finish write) u (read_loop-Returns b n handle file u small wrote.0.1)
            (λ read v got.
              let (cursor, bytes, opened, held) = got.0.1 in
              let total : 0 + n * b ≡ b * n = omega arith in
              (
                report write read,
                P.close handle v,
                refl,
                (
                  (
                    wrote.0.0 ∙ total,
                    ap (λ (t : ℕ × ℕ). t.0) got.0.0 ∙ total,
                    ap (λ (t : ℕ × ℕ). t.1) got.0.0 ∙ toggled-pattern b n some_bytes,
                    wrote.1,
                    got.1,
                  ),
                  (file, bytes, H.close handle file cursor bytes v opened),
                ),
              )))

  benchmark-Returns :
      (b n : ℕ) (directory : P.Directory) (w : P.World)
      → 0 < b
      → 0 < n
      → b * n < 2 ^ 32
      → b ≤ H.capacity
      → H.IsEmpty directory w
      → Returns (benchmark P b n directory) w (λ r v. Measured b n r × Closed P H v)
  unfolding benchmark
  benchmark-Returns b n directory w some_bytes some_rounds small fits empty =
      bind-Returns (P.get_file_handle directory "payload.bin" true)
        (λ file. P.create_sync_access_handle file >>= exercise P b n) w
        (H.get_file_handle directory "payload.bin" w empty)
        (λ file u made.
          bind-Returns (P.create_sync_access_handle file) (exercise P b n) u
            (H.create_sync_access_handle file [] u made)
            (λ handle v opened.
              exercise-Returns b n handle file v some_bytes some_rounds small fits opened))

  -- In a browser whose storage works and admits the buffer, every benchmark of a valid workload
  -- ends well. It reports the whole workload as written and as read, the checksum of the payload,
  -- and finite times, and leaves the browser ready for the next.
  pub benchmark_raw_sync_access_handle-Returns :
      (byte_length iterations : ℕ) (w : P.World)
      → 0 < byte_length
      → 0 < iterations
      → byte_length * iterations < 2 ^ 32
      → byte_length ≤ H.capacity
      → H.IsReady w
      → Returns
          (benchmark_raw_sync_access_handle P byte_length iterations)
          w
          (λ r v. Measured byte_length iterations r × H.IsReady v)
  unfolding benchmark_raw_sync_access_handle validate_workload
  benchmark_raw_sync_access_handle-Returns b n w some_bytes some_rounds small fits ready =
      bind-Returns (lift (validate_workload P b n))
        (λ _. in_test_directory P "benchmark" (benchmark P b n)) w {Q = λ _ u. u ≡ w}
        (tt, w, ground arith, refl)
        (λ _ u same.
          in_test_directory-Returns P H "benchmark" (benchmark P b n) u (Measured b n)
            (λ directory v empty.
              benchmark-Returns b n directory v some_bytes some_rounds small fits empty)
            (subst H.IsReady (sym same) ready))

  judge_baseline-Measured :
      (r : RawSyncBenchmark P.Time) → Measured 4096 3 r → judge_baseline P r ≡ ok tt
  unfolding judge_baseline
  judge_baseline-Measured r m = ground arith

  assert_raw_sync_baseline-Returns :
      (w : P.World)
      → 4096 ≤ H.capacity
      → H.IsReady w
      → Returns (assert_raw_sync_baseline P) w (λ _ v. H.IsReady v)
  unfolding assert_raw_sync_baseline
  assert_raw_sync_baseline-Returns w fits ready =
      bind-Returns (benchmark_raw_sync_access_handle P 4096 3) (λ r. lift (judge_baseline P r)) w
        (benchmark_raw_sync_access_handle-Returns 4096 3 w (omega arith) (omega arith) (omega arith)
          fits ready)
        (λ r v measured.
          (tt, v, ap (λ q. (q, v)) (judge_baseline-Measured r measured.0), measured.1))

  -- A test that passes and leaves the browser ready.
  abbrev pub Passes : (P.World → Verdict P.Error × P.World) → P.World → Type 0
  Passes test w = (v : P.World) × (test w ≡ (passed, v)) × H.IsReady v

  -- The battery raises no false alarm: in a browser whose storage works and admits a buffer of 4096
  -- bytes, each of its two tests passes from every state in which the storage is ready, and leaves
  -- such a state, so that they pass in any order and any number of times.
  pub battery-Passes :
      (w : P.World)
      → 4096 ≤ H.capacity
      → H.IsReady w
      → Passes (rust_browser_proofs_sync_access_handle_round_trip P) w
        × Passes (rust_browser_proofs_raw_sync_baseline P) w
  unfolding rust_browser_proofs_sync_access_handle_round_trip rust_browser_proofs_raw_sync_baseline
  battery-Passes w fits ready =
      let (a, v, ran, (_, ready')) =
        assert_sync_access_handle_round_trip-Returns P H w (omega arith) ready in
      let (b, u, ran', ready'') = assert_raw_sync_baseline-Returns w fits ready in
      let ended : String → Result P.Error (Unit {0}) × P.World → Verdict P.Error × P.World =
        λ text q. (expect text q.0, q.1) in
      (
        (v, ap (ended "generic OPFS sync-access-handle round trip failed") ran, ready'),
        (u, ap (ended "generic OPFS raw sync baseline failed") ran', ready''),
      )
