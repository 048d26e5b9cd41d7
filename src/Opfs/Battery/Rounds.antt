-- ===== src/Opfs/Battery/Rounds.antt =====
-- The steps of crates/rust-browser-proofs/src/opfs.rs in a browser whose storage works.
use rust_browser_proofs.Base.{
  ℕ, zero, suc, ◌+◌, ◌-◌, ◌*◌, ◌^◌, ◌%◌, ◌<◌, ◌≤◌, ◌≡◌, refl, ap, sym, ◌∙◌, subst, String, ◌<>◌,
  true, List, ◌++◌, Result, arith, length, take, drop, take-append, drop_all,
}
use mathlib.Core.List.{append-nil}
use rust_browser_proofs.Base.Step.{◌>>=◌, ◌>>◌, pure, Returns, bind-Returns, Returns-eq}
use rust_browser_proofs.Opfs.{
  Io, xor, byte_at, timed, now, complete, write_rounds, read_rounds, in_test_directory,
  fresh_test_directory, cleanup_test_directory,
}
use rust_browser_proofs.Opfs.Browser.{Platform}
use rust_browser_proofs.Opfs.Checksum.{toggled, ends}
use rust_browser_proofs.Opfs.Battery.Healthy.{Healthy, overwritten, filled}

-- A read that fills the buffer leaves nothing else in it.
filled_whole :
    (buffer payload rest : List ℕ)
    → length buffer ≡ length payload
    → filled buffer (payload ++ rest) ≡ payload
filled_whole buffer payload rest e =
    let front : take (length buffer) (payload ++ rest) ≡ payload =
      ap (λ n. take n (payload ++ rest)) e ∙ take-append payload rest in
    rw front (
      ap (λ n. payload ++ drop n buffer) (sym e)
      ∙ ap (◌++◌ payload) (drop_all buffer)
      ∙ append-nil payload)

module _ (P : Platform) (H : Healthy P) where
  -- What follows a check that goes through.
  pub complete-then :
      {A : Type 0} (handle : P.Handle) (count expected : ℕ) (text : String) (k : Io P A)
      (w : P.World)
      → count ≡ expected
      → (complete P handle count expected text >> k) w ≡ k w
  unfolding complete
  complete-then handle count expected text k w e = ground arith

  -- The file begins with the buffer.
  abbrev pub Holds : List ℕ → List ℕ → Type 0
  Holds buffer bytes = (rest : List ℕ) × (bytes ≡ buffer ++ rest)

  abbrev pub OpenWith : P.Handle → P.File → List ℕ → P.World → Type 0
  OpenWith handle file buffer v =
      (cursor : ℕ) × (bytes : List ℕ) × H.IsOpen handle file cursor bytes v × Holds buffer bytes

  abbrev write_rest : P.Handle → List ℕ → ℕ → ℕ → ℕ → ℕ → Io P ℕ
  write_rest handle buffer b n total written =
      P.flush handle >> write_rounds P handle buffer b n ((total + written) % 2 ^ 64)

  pub write_rounds-Returns :
      (handle : P.Handle) (file : P.File) (buffer bytes : List ℕ) (b n total cursor : ℕ)
      (w : P.World)
      → H.IsOpen handle file cursor bytes w
      → b ≡ length buffer
      → b ≤ H.capacity
      → total + n * b < 2 ^ 64
      → (n ≡ 0 → Holds buffer bytes)
      → Returns
          (write_rounds P handle buffer b n total)
          w
          (λ t v. (t ≡ total + n * b) × OpenWith handle file buffer v)
  unfolding write_rounds
  write_rounds-Returns handle file buffer bytes b zero total cursor w open_ l fits small holds =
      (total, w, refl, (omega arith, (cursor, bytes, open_, holds refl)))
  write_rounds-Returns handle file buffer bytes b (suc n) total cursor w open_ l fits small holds =
      let text : String = "sync-handle benchmark write was shorter than the payload" in
      let rest = write_rest handle buffer b n total in
      let Q : ℕ → P.World → Type 0 =
        λ t v. (t ≡ total + suc n * b) × OpenWith handle file buffer v in
      bind-Returns (P.write_at handle buffer 0)
        (λ written. complete P handle written b text >> rest written) w
        (H.write_at handle file cursor buffer bytes w open_ (omega arith))
        (λ written v wrote.
          let whole : written ≡ b = wrote.0 ∙ sym l in
          Returns-eq (complete P handle written b text >> rest written) (rest written) v Q
            (complete-then handle written b text (rest written) v whole)
            (bind-Returns (P.flush handle)
              (λ _. write_rounds P handle buffer b n ((total + written) % 2 ^ 64)) v
              (H.flush handle file written (overwritten buffer bytes) v wrote.1)
              (λ _ u flushed.
                let (t, end, ran, (sum, kept)) =
                  write_rounds-Returns handle file buffer (overwritten buffer bytes) b n
                    ((total + written) % 2 ^ 64) written u flushed l fits (omega arith)
                    (λ _. (drop (length buffer) bytes, refl)) in
                (t, end, ran, (omega arith, kept)))))

  abbrev read_rest : P.Handle → ℕ → ℕ → ℕ → ℕ → ℕ × List ℕ → Io P (ℕ × ℕ)
  read_rest handle b n total checksum read =
      read_rounds P handle read.1 b n ((total + read.0) % 2 ^ 64)
        (xor 8 checksum (xor 8 (byte_at read.1 0) (byte_at read.1 (b - 1))))

  pub read_rounds-Returns :
      (handle : P.Handle) (file : P.File) (buffer payload : List ℕ) (b n total checksum : ℕ)
      (w : P.World)
      → OpenWith handle file payload w
      → b ≡ length buffer
      → b ≡ length payload
      → total + n * b < 2 ^ 64
      → Returns (read_rounds P handle buffer b n total checksum) w (λ t v.
        (t ≡ (total + n * b, toggled (ends b payload) n checksum)) × OpenWith handle file payload v)
  unfolding read_rounds toggled
  read_rounds-Returns handle file buffer payload b zero total checksum w open_ l l' small =
      ((total, checksum), w, refl, (ground arith, open_))
  read_rounds-Returns handle file buffer payload b (suc n) total checksum w open_ l l' small =
      let text : String = "sync-handle benchmark read was shorter than the payload" in
      let rest = read_rest handle b n total checksum in
      let (cursor, bytes, opened, (tail, holds)) = open_ in
      let Q : ℕ × ℕ → P.World → Type 0 = λ t v.
        (t ≡ (total + suc n * b, toggled (ends b payload) (suc n) checksum))
        × OpenWith handle file payload v in
      bind-Returns (P.read_at handle buffer 0)
        (λ read. complete P handle read.0 b text >> rest read) w
        (H.read_at handle file cursor buffer bytes w opened)
        (λ read v got.
          let front : take (length buffer) bytes ≡ payload =
            rw holds (ap (λ k. take k (payload ++ tail)) (sym l ∙ l') ∙ take-append payload tail) in
          let whole : read.0 ≡ b = ap (λ (q : ℕ × List ℕ). q.0) got.0 ∙ ap length front ∙ sym l' in
          let same : read.1 ≡ payload =
            ap (λ (q : ℕ × List ℕ). q.1) got.0
            ∙ ap (filled buffer) holds
            ∙ filled_whole buffer payload tail (sym l ∙ l') in
          let (t, end, ran, (sum, kept)) =
            read_rounds-Returns handle file payload payload b n ((total + b) % 2 ^ 64)
              (xor 8 checksum (ends b payload)) v (read.0, bytes, got.1, (tail, holds)) l' l'
              (omega arith) in
          Returns-eq (complete P handle read.0 b text >> rest read) (rest (b, payload)) v Q
            (complete-then handle read.0 b text (rest read) v whole
              ∙ ap (λ q. rest q v) (λ i. (whole i, same i)))
            (
              t,
              end,
              ran,
              (
                sum
                    ∙ ap (λ k. (k, toggled (ends b payload) n (xor 8 checksum (ends b payload))))
                        (omega arith),
                kept,
              ),
            ))

  -- A timed loop ends well if the loop does, and its time is finite.
  pub timed-Returns :
      {A : Type 0} (loop : Io P A) (w : P.World) (Q : A → P.World → Type 0)
      → Returns loop (P.date_now w).1 (λ a v. Q a (P.date_now v).1)
      → Returns (timed P loop) w (λ q v. Q q.0 v × (P.is_finite q.1 ≡ true))
  unfolding timed
  timed-Returns {A} loop w Q (a, v, ran, q) =
      let started = (P.date_now w).0 in
      let finish : A → Io P (A × P.Time) =
        λ x. now P >>= λ ended. pure (x, P.elapsed ended started) in
      bind-Returns loop finish (P.date_now w).1 {Q = λ x u. (x ≡ a) × (u ≡ v)}
        (a, v, ran, (refl, refl))
        (λ x u same. (
          (x, P.elapsed (P.date_now u).0 started),
          (P.date_now u).1,
          refl,
          (
            subst (λ y. Q y (P.date_now u).1) (sym same.0)
                (subst (λ y. Q a (P.date_now y).1) (sym same.1) q),
            H.is_finite _ _,
          ),
        ))

  -- The file is closed again.
  abbrev pub Closed : P.World → Type 0
  Closed v = (file : P.File) × (bytes : List ℕ) × H.IsClosed file bytes v

  fresh_test_directory-Returns :
      (prefix : String) (w : P.World)
      → H.IsReady w
      → Returns (fresh_test_directory P prefix) w (λ fresh v. H.IsEmpty fresh.2 v)
  unfolding fresh_test_directory
  fresh_test_directory-Returns prefix w ready =
      let name : String → String = λ text. ".rust-browser-proofs-" <> (prefix <> ("-" <> text)) in
      let make : P.Directory → String → Io P (P.Directory × String × P.Directory) = λ root text.
        P.get_directory_handle root (name text) true >>= λ directory.
        pure (root, name text, directory) in
      bind-Returns P.get_directory (λ root. P.random >>= make root) w (H.get_directory w ready)
        (λ root u ready'.
          bind-Returns P.random (make root) u (H.random prefix root u ready') (λ text v unused.
            bind-Returns (P.get_directory_handle root (name text) true)
              (λ directory. pure (root, name text, directory)) v
              (H.get_directory_handle root (name text) v unused)
              (λ directory z empty. ((root, name text, directory), z, refl, empty))))

  -- A test that ends well in an empty directory, and closes its file, ends well in a fresh one, and
  -- leaves the browser ready for the next.
  pub in_test_directory-Returns :
      {A : Type 0} (prefix : String) (body : P.Directory → Io P A) (w : P.World) (Q : A → Type 0)
      → ((directory : P.Directory) (u : P.World)
          → H.IsEmpty directory u
          → Returns (body directory) u (λ a v. Q a × Closed v))
      → H.IsReady w
      → Returns (in_test_directory P prefix body) w (λ a v. Q a × H.IsReady v)
  in_test_directory-Returns {A} prefix body w Q works ready =
      bind-Returns (fresh_test_directory P prefix)
        (λ fresh u.
          let (result, v) = body fresh.2 u in (result, cleanup_test_directory P fresh.0 fresh.1 v))
        w (fresh_test_directory-Returns prefix w ready)
        (λ fresh u empty.
          let (a, v, ran, (q, (file, bytes, closed))) = works fresh.2 u empty in
          (
            a,
            cleanup_test_directory P fresh.0 fresh.1 v,
            ap
                (λ (r : Result P.Error A × P.World).
                  (r.0, cleanup_test_directory P fresh.0 fresh.1 r.1))
                ran,
            (q, H.remove_entry fresh.0 fresh.1 file bytes v closed),
          ))
