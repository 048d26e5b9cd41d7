-- ===== src/Opfs/Stored.antt =====
-- The checksum, on storage that keeps what was written.
use rust_browser_proofs.Base.{
  ℕ, zero, suc, ◌+◌, ◌-◌, ◌^◌, ◌%◌, ◌<◌, ◌≡◌, ap, subst, ◌∙◌, sym, List, Result, ok, arith, length,
  take, true,
}
use rust_browser_proofs.Base.Bytes.{zeros}
use rust_browser_proofs.Opfs.{
  pattern_from, RawSyncBenchmark, write_rounds, read_rounds, benchmark_raw_sync_access_handle,
  judge_baseline, assert_raw_sync_baseline,
}
use rust_browser_proofs.Opfs.Browser.{Platform}
use rust_browser_proofs.Opfs.Checksum.{
  length-pattern, toggled, toggled-pattern, if_odd, ends, length-zeros,
}
use rust_browser_proofs.Opfs.Completed.{
  write_round-ok, read_round-ok, mixed, Work, benchmark-Work, benchmark_completed,
  validate_workload-ok,
}

-- What the standard says of handles: a write of the whole buffer puts it at the front of the file,
-- a read of a whole buffer gives the front of the file, and neither a flush, a read nor a look at
-- the clock changes the file.
pub record Storage (P : Platform) : Type 0 where
  pub contents : P.Handle → P.World → List ℕ
  pub written :
      (handle : P.Handle) (buffer : List ℕ) (count : ℕ) (w v : P.World)
      → P.write_at handle buffer 0 w ≡ (ok count, v)
      → count ≡ length buffer
      → take count (contents handle v) ≡ buffer
  pub flushed :
      (handle : P.Handle) (w v : P.World)
      → P.flush handle w ≡ (ok tt, v)
      → contents handle v ≡ contents handle w
  pub got :
      (handle : P.Handle) (buffer bytes : List ℕ) (count : ℕ) (w v : P.World)
      → P.read_at handle buffer 0 w ≡ (ok (count, bytes), v)
      → count ≡ length buffer
      → (bytes ≡ take count (contents handle w)) × (contents handle v ≡ contents handle w)
  pub clocked :
      (handle : P.Handle) (w : P.World) → contents handle (P.date_now w).1 ≡ contents handle w

module _ (P : Platform) (S : Storage P) where
  write_rounds-kept :
      (handle : P.Handle) (buffer : List ℕ) (b n total : ℕ) (w : P.World) {t : ℕ} {w' : P.World}
      → write_rounds P handle buffer b n total w ≡ (ok t, w')
      → b ≡ length buffer
      → take b (S.contents handle w) ≡ buffer
      → take b (S.contents handle w') ≡ buffer
  unfolding write_rounds
  write_rounds-kept handle buffer b zero total w {t} {w'} h l e =
      subst (λ x. take b (S.contents handle x) ≡ buffer)
        (ap (λ (q : Result P.Error ℕ × P.World). q.1) h) e
  write_rounds-kept handle buffer b (suc n) total w h l e =
      let (v, u, wrote, flushed, rest) = write_round-ok P handle buffer b n total w h in
      write_rounds-kept handle buffer b n _ u rest l
        (ap (take b) (S.flushed handle v u flushed) ∙ S.written handle buffer b w v wrote l)

  -- One round is enough.
  write_rounds-stored :
      (handle : P.Handle) (buffer : List ℕ) (b n total : ℕ) (w : P.World) {t : ℕ} {w' : P.World}
      → write_rounds P handle buffer b n total w ≡ (ok t, w')
      → b ≡ length buffer
      → 0 < n
      → take b (S.contents handle w') ≡ buffer
  write_rounds-stored handle buffer b zero total w h l p = absurd (omega arith)
  write_rounds-stored handle buffer b (suc n) total w h l p =
      let (v, u, wrote, flushed, rest) = write_round-ok P handle buffer b n total w h in
      write_rounds-kept handle buffer b n _ u rest l
        (ap (take b) (S.flushed handle v u flushed) ∙ S.written handle buffer b w v wrote l)

  read_rounds-toggled :
      (handle : P.Handle) (buffer bytes : List ℕ) (b n total c : ℕ) (w : P.World) {t : ℕ × ℕ}
      {w' : P.World}
      → read_rounds P handle buffer b n total c w ≡ (ok t, w')
      → b ≡ length buffer
      → b ≡ length bytes
      → take b (S.contents handle w) ≡ bytes
      → t.1 ≡ toggled (ends b bytes) n c
  unfolding read_rounds toggled
  read_rounds-toggled handle buffer bytes b zero total c w h l l' e = ground arith
  read_rounds-toggled handle buffer bytes b (suc n) total c w {t} {w'} h l l' e =
      let (read, v, got, rest) = read_round-ok P handle buffer b n total c w h in
      let (front, kept) = S.got handle buffer read b w v got l in
      let same : read ≡ bytes = front ∙ e in
      let here : take b (S.contents handle v) ≡ bytes = ap (take b) kept ∙ e in
      let again =
        subst
          (λ x. read_rounds P handle x b n ((total + b) % 2 ^ 64) (mixed P b c x) v ≡ (ok t, w'))
          same rest in
      read_rounds-toggled handle bytes bytes b n ((total + b) % 2 ^ 64) (mixed P b c bytes) v again
        l' l' here

  -- On storage that keeps what was written, a benchmark that ends well has the checksum of the
  -- payload: the last byte, as the first is 0, for an odd number of rounds, and 0 for an even one.
  pub benchmark-checksum :
      (b n : ℕ) (w : P.World) {r : RawSyncBenchmark P.Time} {w' : P.World}
      → benchmark_raw_sync_access_handle P b n w ≡ (ok r, w')
      → r.checksum ≡ if_odd n ((b - 1) % 251) 0
  benchmark-checksum b n w {r} h =
      let (valid, work) = benchmark-Work P b n w h in
      let (some_bytes, some_rounds, fits) = validate_workload-ok P b n valid in
      let (handle, w1, w2, w3, wrote, got) : Work P b n r = work in
      let l : b ≡ length (pattern_from 0 b) = sym (length-pattern 0 b) in
      let stored = write_rounds-stored handle (pattern_from 0 b) b n 0 w1 wrote l some_rounds in
      let here = ap (take b) (S.clocked handle (P.date_now w2).1 ∙ S.clocked handle w2) ∙ stored in
      let made =
        read_rounds-toggled handle (zeros b) (pattern_from 0 b) b n 0 0 _ got (length-zeros b) l
          here in
      made ∙ toggled-pattern b n some_bytes

  -- The baseline raises no false alarm: on storage that keeps what was written, if the benchmark of
  -- the default workload ends well and the clock gives finite times, the baseline passes, in the
  -- state that the benchmark left.
  assert_raw_sync_baseline_passes :
      (w : P.World) {r : RawSyncBenchmark P.Time} {w' : P.World}
      → benchmark_raw_sync_access_handle P 4096 3 w ≡ (ok r, w')
      → P.is_finite r.write_elapsed_ms ≡ true
      → P.is_finite r.read_elapsed_ms ≡ true
      → assert_raw_sync_baseline P w ≡ (ok tt, w')
  unfolding assert_raw_sync_baseline judge_baseline
  assert_raw_sync_baseline_passes w {r} {w'} h f g =
      let done = benchmark_completed P 4096 3 w h in
      let sum : r.checksum ≡ 79 = benchmark-checksum 4096 3 w h in ground (arith, done, sum)
