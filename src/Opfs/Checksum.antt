-- ===== src/Opfs/Checksum.antt =====
-- The arithmetic of the benchmark's checksum in crates/rust-browser-proofs/src/opfs.rs.
use rust_browser_proofs.Base.{
  ℕ, zero, suc, ◌+◌, ◌-◌, ◌/◌, ◌^◌, ◌%◌, ◌<◌, ◌≡◌, refl, ap, ◌∙◌, inl, inr, List, arith, nat_beq,
  if◌then◌else◌, Bool-cases, length,
}
use native.Mathlib.Nat.{two-pow-succ, zero-add}
use rust_browser_proofs.Base.Bytes.{zeros}
use rust_browser_proofs.Opfs.{xor, byte_at, pattern_from}

xor-zero : (k x : ℕ) → x < 2 ^ k → xor k 0 x ≡ x
unfolding xor
xor-zero zero x h = omega arith
xor-zero (suc k) x h = omega (arith, xor-zero k (x / 2) (omega (arith, two-pow-succ k)))

xor_self : (k x : ℕ) → xor k x x ≡ 0
unfolding xor
xor_self zero x = refl
xor_self (suc k) x = omega (arith, xor_self k (x / 2))

xor-bound : (k x y : ℕ) → xor k x y < 2 ^ k
unfolding xor
xor-bound zero x y = omega arith
xor-bound (suc k) x y = omega (arith, xor-bound k (x / 2) (y / 2), two-pow-succ k)

pub length-pattern : (i n : ℕ) → length (pattern_from i n) ≡ n
unfolding pattern_from
length-pattern i zero = refl
length-pattern i (suc n) = omega (arith, length-pattern (1 + i) n)

byte_at-pattern : (i n k : ℕ) → k < n → byte_at (pattern_from i n) k ≡ (i + k) % 251
unfolding byte_at pattern_from
byte_at-pattern i zero k h = absurd (omega arith)
byte_at-pattern i (suc n) zero h = omega arith
byte_at-pattern i (suc n) (suc k) h = omega (arith, byte_at-pattern (1 + i) n k (omega arith))

-- What the rounds make of the checksum, when each of them mixes the same byte in.
unfoldable pub toggled : ℕ → ℕ → ℕ → ℕ
toggled x zero c = c
toggled x (suc n) c = toggled x n (xor 8 c x)

abbrev pub if_odd : ℕ → ℕ → ℕ → ℕ
if_odd n x y = if nat_beq (n % 2) 1 then x else y

-- Two rounds cancel out.
toggled-parity :
    (x n : ℕ) → x < 256 → (toggled x n 0 ≡ if_odd n x 0) × (toggled x n x ≡ if_odd n 0 x)
unfolding toggled
toggled-parity x zero h = (refl, refl)
toggled-parity x (suc n) h =
    let (even, odd) = toggled-parity x n h in
    let first = xor-zero 8 x h in
    let second = xor_self 8 x in
    elim (Bool-cases (nat_beq (n % 2) 1)) [
      | inl e ↦ (ground arith, ground arith)
      | inr e ↦ (ground arith, ground arith)
    ]

-- The first byte mixed with the last.
abbrev pub ends : ℕ → List ℕ → ℕ
ends b bytes = xor 8 (byte_at bytes 0) (byte_at bytes (b - 1))

pub length-zeros : (n : ℕ) → n ≡ length (zeros n)
unfolding zeros
length-zeros zero = refl
length-zeros (suc n) = omega (arith, length-zeros n)

ends-pattern : (b : ℕ) → 0 < b → ends b (pattern_from 0 b) ≡ (b - 1) % 251
ends-pattern b p =
    rw (byte_at-pattern 0 b 0 p, byte_at-pattern 0 b (b - 1) (omega arith))
      (rw zero-add (xor-zero 8 ((b - 1) % 251) (omega arith)))

-- The checksum of the payload: its last byte, as the first is 0, for an odd number of rounds, and 0
-- for an even one.
pub toggled-pattern :
    (b n : ℕ) → 0 < b → toggled (ends b (pattern_from 0 b)) n 0 ≡ if_odd n ((b - 1) % 251) 0
toggled-pattern b n p =
    ap (λ x. toggled x n 0) (ends-pattern b p) ∙ (toggled-parity ((b - 1) % 251) n (omega arith)).0
