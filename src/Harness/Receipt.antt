-- ===== src/Harness/Receipt.antt =====
-- harness/src/receipt.rs: the script that is run over two back ends, and the receipt of what it has
-- committed. `unwrap` on an error and a failed `assert!` are a panic.
pub mod Parity
pub mod Ordered
pub mod Expected
mod Tests
use rust_browser_proofs.Base.{
  ℕ, zero, suc, ◌+◌, ◌/◌, ◌%◌, ◌^◌, String, ◌<>◌, Option, none, some, List, [], ◌∷◌, ◌++◌, length,
  ltb, if◌then◌else◌,
}
use rust_browser_proofs.Base.Bytes.{bytes}
use rust_browser_proofs.Base.Decimal.{decimal}
use rust_browser_proofs.Base.Step.{Step, ◌>>=◌, ◌>>◌, pure, throw}

-- A call that gives its value or panics.
abbrev pub Call : Type 0 → Type 0 → Type 0
Call World = Step World (Unit {0})

-- A database of the pagedb crate: a parameter. The transaction, the segment writer and the segment
-- reader that the script holds open, one of each at a time, are part of its state.
pub record Database : Type 1 where
  pub World : Type 0
  pub begin_write : Call World (Unit {0})
  pub put : String → String → Call World (Unit {0})
  pub delete : String → Call World (Unit {0})
  pub link_segment : String → Call World (Unit {0})
  pub commit : Call World (Unit {0})
  pub create_segment : Call World (Unit {0})
  pub append_page : String → Call World (Unit {0})
  pub set_manifest : String → Call World (Unit {0})
  pub seal : Call World (Unit {0})
  pub begin_read : Call World (Unit {0})
  pub scan : String → String → Call World (List (List ℕ × List ℕ))
  pub get : String → Call World (Option (List ℕ))
  pub drop_read : Call World (Unit {0})
  pub open_segment : String → Call World (Unit {0})
  -- `meta().page_count.to_le_bytes()`
  pub page_count : Call World (List ℕ)
  pub read_page : ℕ → Call World (List ℕ)

-- The `blake3` crate: a parameter.
pub record Blake3 : Type 1 where
  pub Hasher : Type 0
  pub new : Hasher
  pub update : Hasher → List ℕ → Hasher
  pub hex : Hasher → String

-- `{i:03}`
unfoldable pub padded : ℕ → String
padded i = if ltb i 10 then "00" <> decimal i else if ltb i 100 then "0" <> decimal i else decimal i

unfoldable pub script_key : ℕ → String
script_key i = "script-key-" <> padded i

-- `for i in from..from + count`
unfoldable pub for_each : {W : Type 0} → (ℕ → Call W (Unit {0})) → ℕ → ℕ → Call W (Unit {0})
for_each body from zero = pure tt
for_each body from (suc count) = do body from; for_each body (1 + from) count

-- `to_le_bytes` of so many bytes
unfoldable pub le_bytes : ℕ → ℕ → List ℕ
le_bytes zero n = []
le_bytes (suc count) n = n % 256 ∷ le_bytes count (n / 256)

module _ (H : Blake3) where
  unfoldable pub hash_pairs : H.Hasher → List (List ℕ × List ℕ) → H.Hasher
  hash_pairs h [] = h
  hash_pairs h ((k, v) ∷ pairs) =
      hash_pairs (H.update (H.update (H.update (H.update h k) (bytes "=")) v) (bytes "\n")) pairs

module _ (D : Database) where
  abbrev first_commit : Call D.World (Unit {0})
  first_commit = do
    D.begin_write
    for_each (λ i. D.put (script_key i) ("value-alpha-" <> decimal i)) 0 25
    D.commit

  abbrev second_commit : Call D.World (Unit {0})
  second_commit = do
    D.begin_write
    for_each (λ i. D.put (script_key i) ("value-beta-" <> decimal i)) 25 15
    for_each (λ i. D.put (script_key i) ("value-overwrite-" <> decimal i)) 0 10
    for_each (λ i. D.delete (script_key i)) 20 5
    D.commit

  abbrev segment_commit : Call D.World (Unit {0})
  segment_commit = do
    D.create_segment
    for_each (λ p. D.append_page ("segment-page-" <> decimal p)) 0 3
    D.set_manifest "receipt-manifest"
    D.seal
    D.begin_write
    D.link_segment "receipt.seg"
    D.commit

  unfoldable pub run_script : Call D.World (Unit {0})
  run_script = do first_commit; second_commit; segment_commit

  module _ (H : Blake3) where
    -- The probes for the deleted keys.
    unfoldable pub probe_absent : H.Hasher → ℕ → ℕ → Call D.World H.Hasher
    probe_absent h from zero = pure h
    probe_absent h from (suc count) = do
      found ← D.get (script_key from)
      elim found [
        | some _ ↦ throw tt
        | none ↦ probe_absent (H.update h (bytes "absent\n")) (1 + from) count
      ]

    unfoldable pub hash_pages : H.Hasher → ℕ → ℕ → Call D.World H.Hasher
    hash_pages h from zero = pure h
    hash_pages h from (suc count) = do
      page ← D.read_page from
      hash_pages (H.update h page) (1 + from) count

    unfoldable pub compute_receipt : Call D.World String
    compute_receipt = do
      D.begin_read
      pairs ← D.scan "script-key-" "script-key-\u{7f}"
      h ← probe_absent (hash_pairs H (H.update H.new (le_bytes 8 (length pairs))) pairs) 20 5
      D.drop_read
      D.open_segment "receipt.seg"
      pages ← D.page_count
      h' ← hash_pages (H.update h pages) 1 3
      pure (H.hex h')

    -- A fresh database, the script and its receipt.
    unfoldable pub receipt : Call D.World String
    receipt = run_script >> compute_receipt
