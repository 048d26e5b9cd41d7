-- ===== src/Harness/Receipt/Parity.antt =====
-- Two databases that answer alike, call by call.
use rust_browser_proofs.Base.{
  ℕ, zero, suc, ◌+◌, String, ◌<>◌, ◌≡◌, refl, subst, Option, none, some, List, Result, ok, err,
  length,
}
use rust_browser_proofs.Base.Bytes.{bytes}
use rust_browser_proofs.Base.Decimal.{decimal}
use rust_browser_proofs.Base.Step.{◌>>=◌, ◌>>◌, pure, throw}
use rust_browser_proofs.Harness.Receipt.{
  Call, Database, Blake3, script_key, for_each, le_bytes, run_script, hash_pairs, probe_absent,
  hash_pages, compute_receipt, receipt,
}

module _ {V W : Type 0} (R : V → W → Type 0) where
  -- Both calls panic, or both give the same value and leave related states.
  abbrev pub Same : {A : Type 0} → Result (Unit {0}) A × V → Result (Unit {0}) A × W → Type 0
  Same (ok a, v) (ok b, w) = (a ≡ b) × R v w
  Same (err _, v) (err _, w) = Unit
  Same _ _ = ⊥

  -- The calls answer alike from related states.
  abbrev pub Alike : {A : Type 0} → Call V A → Call W A → Type 0
  Alike m n = (v : V) (w : W) → R v w → Same (m v) (n w)

  after-Same :
      {A B : Type 0} (p : Result (Unit {0}) A × V) (q : Result (Unit {0}) A × W) (f : A → Call V B)
      (g : A → Call W B) (v : V) (w : W)
      → Same p q
      → ((a : A) → Alike (f a) (g a))
      → Same (((λ _. p) >>= f) v) (((λ _. q) >>= g) w)
  after-Same (ok a, v') (ok b, w') f g v w (same, r) k =
      subst (λ x. Same (f a v') (g x w')) same (k a v' w' r)
  after-Same (err _, v') (err _, w') f g v w h k = tt
  after-Same (ok a, v') (err _, w') f g v w h k = absurd h
  after-Same (err _, v') (ok b, w') f g v w h k = absurd h

  then-Alike :
      {A B : Type 0} (m : Call V A) (n : Call W A) (f : A → Call V B) (g : A → Call W B)
      → Alike m n
      → ((a : A) → Alike (f a) (g a))
      → Alike (m >>= f) (n >>= g)
  then-Alike m n f g h k v w r = after-Same (m v) (n w) f g v w (h v w r) k

  pure-Alike : {A : Type 0} (a : A) → Alike (pure a) (pure a)
  pure-Alike a v w r = (refl, r)

  for_each-Alike :
      (f : ℕ → Call V (Unit {0})) (g : ℕ → Call W (Unit {0})) (from count : ℕ)
      → ((i : ℕ) → Alike (f i) (g i))
      → Alike (for_each f from count) (for_each g from count)
  unfolding for_each
  for_each-Alike f g from zero h = pure-Alike tt
  for_each-Alike f g from (suc count) h =
      then-Alike (f from) (g from) (λ _. for_each f (1 + from) count)
        (λ _. for_each g (1 + from) count) (h from) λ _. for_each-Alike f g (1 + from) count h

-- Two databases whose calls answer alike, by a relation of their states.
pub record Agree (C D : Database) (R : C.World → D.World → Type 0) : Type 0 where
  pub begin_write : Alike R C.begin_write D.begin_write
  pub put : (key value : String) → Alike R (C.put key value) (D.put key value)
  pub delete : (key : String) → Alike R (C.delete key) (D.delete key)
  pub link_segment : (name : String) → Alike R (C.link_segment name) (D.link_segment name)
  pub commit : Alike R C.commit D.commit
  pub create_segment : Alike R C.create_segment D.create_segment
  pub append_page : (page : String) → Alike R (C.append_page page) (D.append_page page)
  pub set_manifest : (text : String) → Alike R (C.set_manifest text) (D.set_manifest text)
  pub seal : Alike R C.seal D.seal
  pub begin_read : Alike R C.begin_read D.begin_read
  pub scan : (low high : String) → Alike R (C.scan low high) (D.scan low high)
  pub get : (key : String) → Alike R (C.get key) (D.get key)
  pub drop_read : Alike R C.drop_read D.drop_read
  pub open_segment : (name : String) → Alike R (C.open_segment name) (D.open_segment name)
  pub page_count : Alike R C.page_count D.page_count
  pub read_page : (p : ℕ) → Alike R (C.read_page p) (D.read_page p)

module _ (C D : Database) (R : C.World → D.World → Type 0) (S : Agree C D R) where
  -- A call of each database, which answer alike.
  abbrev Pair : Type 0 → Type 0
  Pair A = (m : Call C.World A) × (n : Call D.World A) × Alike R m n

  infixr 4 ◌>>>◌
  abbrev ◌>>>◌ : {B : Type 0} → Pair (Unit {0}) → Pair B → Pair B
  ◌>>>◌ p q = (p.0 >> q.0, p.1 >> q.1, then-Alike R p.0 p.1 (λ _. q.0) (λ _. q.1) p.2 (λ _. q.2))

  abbrev bind : {A B : Type 0} → Pair A → (A → Pair B) → Pair B
  bind p q = (
    p.0 >>= (λ a. (q a).0),
    p.1 >>= (λ a. (q a).1),
    then-Alike R p.0 p.1 (λ a. (q a).0) (λ a. (q a).1) p.2 (λ a. (q a).2),
  )

  abbrev looped : (ℕ → Pair (Unit {0})) → ℕ → ℕ → Pair (Unit {0})
  looped p from count = (
    for_each (λ i. (p i).0) from count,
    for_each (λ i. (p i).1) from count,
    for_each-Alike R (λ i. (p i).0) (λ i. (p i).1) from count (λ i. (p i).2),
  )

  abbrev put : String → ℕ → Pair (Unit {0})
  put prefix i = (
    C.put (script_key i) (prefix <> decimal i),
    D.put (script_key i) (prefix <> decimal i),
    S.put (script_key i) (prefix <> decimal i),
  )

  abbrev delete : ℕ → Pair (Unit {0})
  delete i = (C.delete (script_key i), D.delete (script_key i), S.delete (script_key i))

  abbrev append_page : ℕ → Pair (Unit {0})
  append_page p = (
    C.append_page ("segment-page-" <> decimal p),
    D.append_page ("segment-page-" <> decimal p),
    S.append_page ("segment-page-" <> decimal p),
  )

  abbrev begin_write : Pair (Unit {0})
  begin_write = (C.begin_write, D.begin_write, S.begin_write)

  abbrev commit : Pair (Unit {0})
  commit = (C.commit, D.commit, S.commit)

  abbrev commits : Pair (Unit {0})
  commits =
      (begin_write >>> looped (put "value-alpha-") 0 25 >>> commit)
      >>> (begin_write
          >>> looped (put "value-beta-") 25 15
          >>> looped (put "value-overwrite-") 0 10
          >>> looped delete 20 5
          >>> commit)
      >>> ((C.create_segment, D.create_segment, S.create_segment)
          >>> looped append_page 0 3
          >>> (
            C.set_manifest "receipt-manifest",
            D.set_manifest "receipt-manifest",
            S.set_manifest "receipt-manifest",
          )
          >>> (C.seal, D.seal, S.seal)
          >>> begin_write
          >>> (
            C.link_segment "receipt.seg",
            D.link_segment "receipt.seg",
            S.link_segment "receipt.seg",
          )
          >>> commit)

  run_script-Alike : Alike R (run_script C) (run_script D)
  unfolding run_script
  run_script-Alike = commits.2

  abbrev expect_none : {V A : Type 0} → Call V A → Option (List ℕ) → Call V A
  expect_none k (some _) = throw tt
  expect_none k none = k

  expect_none-Alike :
      {A : Type 0} (k : Call C.World A) (l : Call D.World A)
      → Alike R k l
      → (o : Option (List ℕ)) → Alike R (expect_none k o) (expect_none l o)
  expect_none-Alike k l h (some _) v w r = tt
  expect_none-Alike k l h none v w r = h v w r

  module _ (H : Blake3) where
    probe_absent-Alike :
        (h : H.Hasher) (from count : ℕ)
        → Alike R (probe_absent C H h from count) (probe_absent D H h from count)
    unfolding probe_absent
    probe_absent-Alike h from zero = pure-Alike R h
    probe_absent-Alike h from (suc count) =
        let rest =
          λ (E : Database). probe_absent E H (H.update h (bytes "absent\n")) (1 + from) count in
        then-Alike R (C.get (script_key from)) (D.get (script_key from)) (expect_none (rest C))
          (expect_none (rest D)) (S.get (script_key from))
          (expect_none-Alike (rest C) (rest D)
            (probe_absent-Alike (H.update h (bytes "absent\n")) (1 + from) count))

    hash_pages-Alike :
        (h : H.Hasher) (from count : ℕ)
        → Alike R (hash_pages C H h from count) (hash_pages D H h from count)
    unfolding hash_pages
    hash_pages-Alike h from zero = pure-Alike R h
    hash_pages-Alike h from (suc count) =
        then-Alike R (C.read_page from) (D.read_page from)
          (λ page. hash_pages C H (H.update h page) (1 + from) count)
          (λ page. hash_pages D H (H.update h page) (1 + from) count) (S.read_page from)
          λ page. hash_pages-Alike (H.update h page) (1 + from) count

    abbrev hashed : Pair String
    hashed =
        (C.begin_read, D.begin_read, S.begin_read)
        >>> bind
            (
              C.scan "script-key-" "script-key-\u{7f}",
              D.scan "script-key-" "script-key-\u{7f}",
              S.scan "script-key-" "script-key-\u{7f}",
            )
            λ pairs.
              let h = H.update H.new (le_bytes 8 (length pairs)) in
              bind
                (
                  probe_absent C H (hash_pairs H h pairs) 20 5,
                  probe_absent D H (hash_pairs H h pairs) 20 5,
                  probe_absent-Alike (hash_pairs H h pairs) 20 5,
                )
                λ h'.
                  (C.drop_read, D.drop_read, S.drop_read)
                  >>> (
                    C.open_segment "receipt.seg",
                    D.open_segment "receipt.seg",
                    S.open_segment "receipt.seg",
                  )
                  >>> bind (C.page_count, D.page_count, S.page_count)
                      λ pages.
                        bind
                          (
                            hash_pages C H (H.update h' pages) 1 3,
                            hash_pages D H (H.update h' pages) 1 3,
                            hash_pages-Alike (H.update h' pages) 1 3,
                          )
                          λ h''. (pure (H.hex h''), pure (H.hex h''), pure-Alike R (H.hex h''))

    -- The script and its receipt answer alike.
    pub receipt-Alike : Alike R (receipt C H) (receipt D H)
    unfolding receipt run_script compute_receipt
    receipt-Alike v w r = (commits >>> hashed).2 v w r
