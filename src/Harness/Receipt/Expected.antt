-- ===== src/Harness/Receipt/Expected.antt =====
-- The receipt of the script over a database that keeps its promises.
use rust_browser_proofs.Base.{
  ℕ, zero, suc, ◌+◌, String, ◌<>◌, ◌≡◌, refl, ap, ◌∙◌, List, [], ◌∷◌, ◌++◌, Result, ok, err,
  string_eq,
}
use rust_browser_proofs.Base.Bytes.{bytes, bytes_eq}
use rust_browser_proofs.Base.Decimal.{decimal}
use rust_browser_proofs.Base.Dict.{lookup, insert}
use rust_browser_proofs.Harness.Receipt.{
  Database, Blake3, script_key, padded, for_each, le_bytes, run_script, hash_pairs, probe_absent,
  hash_pages, compute_receipt, receipt,
}
use rust_browser_proofs.Harness.Receipt.Parity.{Same, Agree, receipt-Alike}
use rust_browser_proofs.Harness.Receipt.Ordered.{
  Store, empty, Layout, ordered, before, placed, without, found, between,
}

-- The bytes that one pair adds to the hash.
abbrev entry : String → ℕ → List (List ℕ)
entry prefix i = bytes (script_key i) ∷ bytes "=" ∷ bytes (prefix <> decimal i) ∷ bytes "\n" ∷ []

entries : String → ℕ → ℕ → List (List ℕ)
entries prefix from zero = []
entries prefix from (suc count) = entry prefix from ++ entries prefix (1 + from) count

abbrev pages : List String
pages = "segment-page-0" ∷ "segment-page-1" ∷ "segment-page-2" ∷ []

-- What is hashed, in order: the number of keys that are left, 35; the first ten with the values that
-- overwrote theirs, ten with the values of the first commit and the last fifteen with those of the
-- second; five absences; and the segment's page count and its three pages.
pub expected : Layout → List (List ℕ)
expected L =
    (35 ∷ 0 ∷ 0 ∷ 0 ∷ 0 ∷ 0 ∷ 0 ∷ 0 ∷ [])
    ∷ (entries "value-overwrite-" 0 10
        ++ (entries "value-alpha-" 10 10
            ++ (entries "value-beta-" 25 15
                ++ (bytes "absent\n"
                    ∷ bytes "absent\n"
                    ∷ bytes "absent\n"
                    ∷ bytes "absent\n"
                    ∷ bytes "absent\n"
                    ∷ L.page_count pages
                    ∷ L.page pages 1
                    ∷ L.page pages 2
                    ∷ L.page pages 3
                    ∷ []))))

pub hash_all : (H : Blake3) → H.Hasher → List (List ℕ) → H.Hasher
hash_all H h [] = h
hash_all H h (b ∷ bs) = hash_all H (H.update h b) bs

ordered-receipt :
    (L : Layout) (H : Blake3)
    → (receipt (ordered L) H empty).0 ≡ ok (H.hex (hash_all H H.new (expected L)))
unfolding receipt run_script compute_receipt for_each script_key padded probe_absent hash_pages
    hash_pairs le_bytes before placed without found between expected entries hash_all bytes_eq
    decimal lookup insert string_eq
ordered-receipt L H = refl

answer :
    {V W A : Type 0} (R : V → W → Type 0) (p : Result (Unit {0}) A × V)
    (q : Result (Unit {0}) A × W) {a : A}
    → Same R p q
    → q.0 ≡ ok a
    → p.0 ≡ ok a
answer R (ok a, v) (ok b, w) (same, r) e = ap ok same ∙ e
answer R (err _, v) (err _, w) h e = e
answer R (ok a, v) (err _, w) h e = absurd h
answer R (err _, v) (ok b, w) h e = absurd h

-- Over every database that keeps its promises, those of an ordered map with transactions and linked
-- segments, the script and its receipt run to the end on a new database, and the receipt is the hash
-- of exactly what the script should have left.
pub receipt-Expected :
    (D : Database) (L : Layout) (R : D.World → Store → Type 0)
    → Agree D (ordered L) R
    → (H : Blake3) (w : D.World) → R w empty
    → (receipt D H w).0 ≡ ok (H.hex (hash_all H H.new (expected L)))
receipt-Expected D L R agree H w new =
    answer R (receipt D H w) (receipt (ordered L) H empty)
      (receipt-Alike D (ordered L) R agree H w empty new) (ordered-receipt L H)
