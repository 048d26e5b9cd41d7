-- ===== src/Opfs/Battery/Persists.antt =====
-- The round trip of crates/rust-browser-proofs/src/opfs.rs in a browser whose storage works.
use rust_browser_proofs.Base.{true, ℕ, ◌≤◌, ◌≡◌, refl, ap, ◌∙◌, String, List, [], ok}
use rust_browser_proofs.Base.Bytes.{zeros, bytes_eq}
use rust_browser_proofs.Base.Step.{◌>>=◌, ◌>>◌, lift, modify, Returns, bind-Returns, Returns-eq}
use rust_browser_proofs.Opfs.{
  complete, round_trip, reopen, judge_reopened, round_trip_bytes,
  assert_sync_access_handle_round_trip,
}
use rust_browser_proofs.Opfs.Browser.{Platform}
use rust_browser_proofs.Opfs.Battery.Healthy.{Healthy, filled}
use rust_browser_proofs.Opfs.Battery.Rounds.{Closed, complete-then, in_test_directory-Returns}

module _ (P : Platform) (H : Healthy P) where
  filled_payload : filled (zeros 4) round_trip_bytes ≡ round_trip_bytes
  unfolding zeros
  filled_payload = refl

  judged : judge_reopened P 4 round_trip_bytes 4 ≡ ok tt
  unfolding judge_reopened bytes_eq
  judged = refl

  reopen-Returns :
      (file : P.File) (handle : P.Handle) (cursor : ℕ) (w : P.World)
      → H.IsOpen handle file cursor round_trip_bytes w
      → Returns (reopen P file handle) w (λ _ v. Unit {0} × Closed P H v)
  unfolding reopen zeros
  reopen-Returns file handle cursor w open_ =
      let judge = λ (reopened : P.Handle) (read : ℕ × List ℕ) (size : ℕ).
        modify (P.close reopened) >> lift (judge_reopened P read.0 read.1 size) in
      let measure =
        λ (reopened : P.Handle) (read : ℕ × List ℕ). P.get_size reopened >>= judge reopened read in
      let inspect = λ (reopened : P.Handle). P.read_at reopened (zeros 4) 0 >>= measure reopened in
      bind-Returns (P.flush handle)
        (λ _. modify (P.close handle) >> (P.create_sync_access_handle file >>= inspect)) w
        (H.flush handle file cursor round_trip_bytes w open_)
        (λ _ u flushed.
          bind-Returns (P.create_sync_access_handle file) inspect (P.close handle u)
            (H.create_sync_access_handle file round_trip_bytes (P.close handle u)
              (H.close handle file cursor round_trip_bytes u flushed))
            (λ reopened v opened.
              bind-Returns (P.read_at reopened (zeros 4) 0) (measure reopened) v
                (H.read_at reopened file 0 (zeros 4) round_trip_bytes v opened)
                (λ read x got.
                  bind-Returns (P.get_size reopened) (judge reopened read) x
                    (H.get_size reopened file read.0 round_trip_bytes x got.1)
                    (λ size y sized. (
                      tt,
                      P.close reopened y,
                      ap (λ r. (r, P.close reopened y))
                          ((λ i. judge_reopened P (got.0 i).0 (got.0 i).1 (sized.0 i)) ∙ judged),
                      (
                        tt,
                        (
                          file,
                          round_trip_bytes,
                          H.close reopened file read.0 round_trip_bytes y sized.1,
                        ),
                      ),
                    )))))

  round_trip-Returns :
      (directory : P.Directory) (w : P.World)
      → 4 ≤ H.capacity
      → H.IsEmpty directory w
      → Returns (round_trip P directory) w (λ _ v. Unit {0} × Closed P H v)
  unfolding round_trip
  round_trip-Returns directory w fits empty =
      let text : String = "sync-handle write was shorter than the payload" in
      let check = λ (file : P.File) (handle : P.Handle) (write : ℕ).
        complete P handle write 4 text >> reopen P file handle in
      let use_ = λ (file : P.File) (handle : P.Handle).
        P.write handle round_trip_bytes >>= check file handle in
      bind-Returns (P.get_file_handle directory "payload.bin" true)
        (λ file. P.create_sync_access_handle file >>= use_ file) w
        (H.get_file_handle directory "payload.bin" w empty)
        (λ file u made.
          bind-Returns (P.create_sync_access_handle file) (use_ file) u
            (H.create_sync_access_handle file [] u made)
            (λ handle v opened.
              bind-Returns (P.write handle round_trip_bytes) (check file handle) v
                (H.write handle file round_trip_bytes [] v opened fits)
                (λ write x wrote.
                  Returns-eq (check file handle write) (reopen P file handle) x
                    (λ _ v. Unit {0} × Closed P H v)
                    (complete-then P H handle write 4 text (reopen P file handle) x wrote.0)
                    (reopen-Returns file handle write x wrote.1))))

  -- In a browser whose storage works and admits four bytes, the round trip ends well and leaves the
  -- browser ready for the next helper.
  pub assert_sync_access_handle_round_trip-Returns :
      (w : P.World)
      → 4 ≤ H.capacity
      → H.IsReady w
      → Returns (assert_sync_access_handle_round_trip P) w (λ _ v. Unit {0} × H.IsReady v)
  unfolding assert_sync_access_handle_round_trip
  assert_sync_access_handle_round_trip-Returns w fits ready =
      in_test_directory-Returns P H "round-trip" (round_trip P) w (λ _. Unit {0})
        (λ directory u empty. round_trip-Returns directory u fits empty) ready
