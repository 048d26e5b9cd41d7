-- ===== src/Opfs/Completed.antt =====
-- The benchmark reports the work that was asked for, or fails.
use rust_browser_proofs.Base.{
  true, ℕ, zero, suc, ◌+◌, ◌-◌, ◌*◌, ◌^◌, ◌%◌, ◌<◌, ◌≡◌, ap, subst, ◌∙◌, inl, inr, String, List, ok,
  arith, nat_beq, Bool-cases,
}
use rust_browser_proofs.Base.Bytes.{zeros}
use rust_browser_proofs.Base.Step.{◌>>=◌, ◌>>◌, pure, lift, modify, bind-ok, from_first}
use rust_browser_proofs.Opfs.{
  Io, xor, byte_at, RawSyncBenchmark, pattern_from, timed, exercise, now, validate_workload,
  complete, write_rounds, read_rounds, benchmark, benchmark_raw_sync_access_handle,
  in_test_directory, fresh_test_directory, cleanup_test_directory,
}
use rust_browser_proofs.Opfs.Browser.{Platform}

module _ (P : Platform) where
  -- What follows a check that goes through, from the same state.
  pub complete-ok :
      {A : Type 0} (handle : P.Handle) (count expected : ℕ) (text : String) (k : Io P A)
      (w : P.World) {a : A} {w' : P.World}
      → (complete P handle count expected text >> k) w ≡ (ok a, w')
      → (count ≡ expected) × (k w ≡ (ok a, w'))
  unfolding complete
  complete-ok handle count expected text k w h = elim (Bool-cases (nat_beq count expected)) [
    | inl same ↦ (ground arith, ground arith)
    | inr differ ↦ absurd (ground arith)
  ]

  -- A round of writes that goes through: the whole buffer is written, and the rest follows.
  pub write_round-ok :
      (handle : P.Handle) (buffer : List ℕ) (byte_length n total : ℕ) (w : P.World) {t : ℕ}
      {w' : P.World}
      → write_rounds P handle buffer byte_length (suc n) total w ≡ (ok t, w')
      → (v u : P.World) × (P.write_at handle buffer 0 w ≡ (ok byte_length, v))
        × (P.flush handle v ≡ (ok tt, u))
        × (write_rounds P handle buffer byte_length n ((total + byte_length) % 2 ^ 64) u
            ≡ (ok t, w'))
  unfolding write_rounds
  write_round-ok handle buffer b n total w {t} {w'} h =
      let text : String = "sync-handle benchmark write was shorter than the payload" in
      let rest = λ (written : ℕ).
        P.flush handle >> write_rounds P handle buffer b n ((total + written) % 2 ^ 64) in
      from_first (P.write_at handle buffer 0)
        (λ written. complete P handle written b text >> rest written) w h
        (λ written v wrote h1.
          let (same, h2) = complete-ok handle written b text (rest written) v h1 in
          let (_, u, flushed, h3) =
            bind-ok (P.flush handle)
              (λ _. write_rounds P handle buffer b n ((total + written) % 2 ^ 64)) v h2 in
          (v, u, rw same at wrote, flushed, rw same at h3))

  write_rounds-total :
      (handle : P.Handle) (buffer : List ℕ) (byte_length n total : ℕ) (w : P.World) {t : ℕ}
      {w' : P.World}
      → write_rounds P handle buffer byte_length n total w ≡ (ok t, w')
      → total + n * byte_length < 2 ^ 64
      → t ≡ total + n * byte_length
  unfolding write_rounds
  write_rounds-total handle buffer b zero total w h l = ground arith
  write_rounds-total handle buffer b (suc n) total w h l =
      let (v, u, wrote, flushed, rest) = write_round-ok handle buffer b n total w h in
      let ih = write_rounds-total handle buffer b n ((total + b) % 2 ^ 64) u rest in
      omega (arith, ih (omega arith))

  abbrev pub mixed : ℕ → ℕ → List ℕ → ℕ
  mixed byte_length checksum bytes =
      xor 8 checksum (xor 8 (byte_at bytes 0) (byte_at bytes (byte_length - 1)))

  pub read_round-ok :
      (handle : P.Handle) (buffer : List ℕ) (byte_length n total checksum : ℕ) (w : P.World)
      {t : ℕ × ℕ} {w' : P.World}
      → read_rounds P handle buffer byte_length (suc n) total checksum w ≡ (ok t, w')
      → (bytes : List ℕ) × (v : P.World) × (P.read_at handle buffer 0 w
          ≡ (ok (byte_length, bytes), v))
        × (read_rounds P handle bytes byte_length n
              ((total + byte_length) % 2 ^ 64)
              (mixed byte_length checksum bytes)
              v
            ≡ (ok t, w'))
  unfolding read_rounds
  read_round-ok handle buffer b n total checksum w {t} {w'} h =
      let text : String = "sync-handle benchmark read was shorter than the payload" in
      let rest = λ (read : ℕ × List ℕ).
        read_rounds P handle read.1 b n ((total + read.0) % 2 ^ 64) (mixed b checksum read.1) in
      from_first (P.read_at handle buffer 0) (λ read. complete P handle read.0 b text >> rest read)
        w h
        (λ read v got h1.
          let (same, h2) = complete-ok handle read.0 b text (rest read) v h1 in
          let exact : read ≡ (b, read.1) = ap (λ k. (k, read.1)) same in
          (read.1, v, got ∙ ap (λ q. (ok q, v)) exact, rw same at h2))

  read_rounds-total :
      (handle : P.Handle) (buffer : List ℕ) (byte_length n total checksum : ℕ) (w : P.World)
      {t : ℕ × ℕ} {w' : P.World}
      → read_rounds P handle buffer byte_length n total checksum w ≡ (ok t, w')
      → total + n * byte_length < 2 ^ 64
      → t.0 ≡ total + n * byte_length
  unfolding read_rounds
  read_rounds-total handle buffer b zero total checksum w h l = ground arith
  read_rounds-total handle buffer b (suc n) total checksum w h l =
      let (bytes, v, got, rest) = read_round-ok handle buffer b n total checksum w h in
      let ih =
        read_rounds-total handle bytes b n ((total + b) % 2 ^ 64) (mixed b checksum bytes) v rest in
      omega (arith, ih (omega arith))

  timed-ok :
      {A : Type 0} (loop : Io P A) (w : P.World) {q : A × P.Time} {w' : P.World}
      → timed P loop w ≡ (ok q, w')
      → (u : P.World) × (loop (P.date_now w).1 ≡ (ok q.0, u)) × (w' ≡ (P.date_now u).1)
  unfolding timed
  timed-ok {A} loop w {q} {w'} h =
      let started = (P.date_now w).0 in
      let finish : A → Io P (A × P.Time) =
        λ a. now P >>= λ ended. pure (a, P.elapsed ended started) in
      from_first loop finish (P.date_now w).1 h (λ a u ran rest.
        let same : (a, P.elapsed (P.date_now u).0 started) ≡ q = ground arith in
        (u, ran ∙ ap (λ (p : A × P.Time). (ok p.0, u)) same, ground arith))

  -- The two loops of a benchmark that ends well, on one handle, with the clock read between them.
  abbrev pub Work : ℕ → ℕ → RawSyncBenchmark P.Time → Type 0
  Work byte_length iterations r =
      (handle : P.Handle) × (w1 w2 w3 : P.World) × (write_rounds P handle
          (pattern_from 0 byte_length) byte_length iterations 0 w1
        ≡ (ok r.written_bytes, w2))
      × (read_rounds P handle (zeros byte_length) byte_length iterations 0 0
            (P.date_now (P.date_now w2).1).1
          ≡ (ok (r.read_bytes, r.checksum), w3))

  exercise-Work :
      (byte_length iterations : ℕ) (handle : P.Handle) (w : P.World) {r : RawSyncBenchmark P.Time}
      {w' : P.World}
      → exercise P byte_length iterations handle w ≡ (ok r, w')
      → Work byte_length iterations r
  unfolding exercise
  exercise-Work b n handle w {r} {w'} h =
      let report : ℕ × P.Time → (ℕ × ℕ) × P.Time → RawSyncBenchmark P.Time = λ write read. record {
        written_bytes = write.0;
        read_bytes = read.0.0;
        checksum = read.0.1;
        write_elapsed_ms = write.1;
        read_elapsed_ms = read.1;
      } in
      let writes = write_rounds P handle (pattern_from 0 b) b n 0 in
      let reads = read_rounds P handle (zeros b) b n 0 0 in
      let finish = λ (write : ℕ × P.Time) (read : (ℕ × ℕ) × P.Time).
        modify (P.close handle) >> pure (report write read) in
      from_first (timed P writes) (λ write. timed P reads >>= finish write) w h
        (λ write u wrote h1. from_first (timed P reads) (finish write) u h1 (λ read v got h2.
          let (w2, w_ran, u_is) = timed-ok writes w wrote in
          let (w3, r_ran, v_is) = timed-ok reads u got in
          let same : report write read ≡ r = ground (arith, h2) in
          subst (λ x. Work b n x) same (handle, (P.date_now w).1, w2, w3, w_ran, rw u_is at r_ran)))

  -- The body of a test that ends well ran in the fresh directory and ended well.
  pub in_test_directory-ok :
      {A : Type 0} (prefix : String) (body : P.Directory → Io P A) (w : P.World) {a : A}
      {w' : P.World}
      → in_test_directory P prefix body w ≡ (ok a, w')
      → (directory : P.Directory) × (u v : P.World) × (body directory u ≡ (ok a, v))
  in_test_directory-ok prefix body w h =
      from_first (fresh_test_directory P prefix)
        (λ fresh u.
          let (result, v) = body fresh.2 u in (result, cleanup_test_directory P fresh.0 fresh.1 v))
        w h (λ fresh u made ran. (fresh.2, u, (body fresh.2 u).1, ground arith))

  pub validate_workload-ok :
      (byte_length iterations : ℕ)
      → validate_workload P byte_length iterations ≡ ok tt
      → (0 < byte_length) × (0 < iterations) × (byte_length * iterations < 2 ^ 32)
  unfolding validate_workload
  validate_workload-ok byte_length iterations h = (ground arith, ground arith, ground arith)

  pub benchmark-Work :
      (byte_length iterations : ℕ) (w : P.World) {r : RawSyncBenchmark P.Time} {w' : P.World}
      → benchmark_raw_sync_access_handle P byte_length iterations w ≡ (ok r, w')
      → (validate_workload P byte_length iterations ≡ ok tt) × Work byte_length iterations r
  unfolding benchmark_raw_sync_access_handle benchmark
  benchmark-Work b n w h =
      from_first (lift (validate_workload P b n))
        (λ _. in_test_directory P "benchmark" (benchmark P b n)) w h
        (λ _ u valid ran.
          let (directory, v, v', worked) =
            in_test_directory-ok "benchmark" (benchmark P b n) u ran in
          from_first (P.get_file_handle directory "payload.bin" true)
            (λ file. P.create_sync_access_handle file >>= exercise P b n) v worked
            (λ file v1 made h1.
              from_first (P.create_sync_access_handle file) (exercise P b n) v1 h1
                (λ handle v2 opened h2. (ground arith, exercise-Work b n handle v2 h2))))

  -- A benchmark that ends well has checked its workload, which is positive and below 2 ^ 32 bytes in
  -- total, and reports exactly that total as written and as read, without overflow.
  pub benchmark_completed :
      (byte_length iterations : ℕ) (w : P.World) {r : RawSyncBenchmark P.Time} {w' : P.World}
      → benchmark_raw_sync_access_handle P byte_length iterations w ≡ (ok r, w')
      → (0 < byte_length)
        × (0 < iterations)
        × (byte_length * iterations < 2 ^ 32)
        × (r.written_bytes ≡ byte_length * iterations)
        × (r.read_bytes ≡ byte_length * iterations)
  benchmark_completed b n w {r} h =
      let (valid, work) = benchmark-Work b n w h in
      let (handle, w1, w2, w3, wrote, got) : Work b n r = work in
      let (some_bytes, some_rounds, fits) = validate_workload-ok b n valid in
      (
        some_bytes,
        some_rounds,
        fits,
        omega (arith, write_rounds-total handle _ b n 0 w1 wrote (omega arith)),
        omega (arith, read_rounds-total handle _ b n 0 0 _ got (omega arith)),
      )
