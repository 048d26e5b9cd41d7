-- ===== src/Base/Int.antt =====
-- Signed integers over the native numbers, as far as the code converts them.
use Prim.Native.Nat.{ℕ, ◌-◌, ◌%◌, ◌^◌, compare, Ordering}

-- `negsuc n` is -(n + 1).
pub data ℤ : Type 0 where
  pos : ℕ → ℤ
  negsuc : ℕ → ℤ

-- The cast `as u8`: the value modulo 2^8, in two's complement.
unfoldable pub as_u8 : ℤ → ℕ
as_u8 (pos n) = n % 2 ^ 8
as_u8 (negsuc n) = 2 ^ 8 - 1 - n % 2 ^ 8

-- The cast `as i64`.
unfoldable pub as_i64 : ℕ → ℤ
as_i64 n =
    let m = n % 2 ^ 64 in
    elim (compare m (2 ^ 63)) [ Ordering.lt ↦ pos m | _ ↦ negsuc (2 ^ 64 - 1 - m) ]
