-- ===== src/Base/Bytes.antt =====
-- Byte strings: their comparison, and the bytes of a text.
use Prim.Native.Char.{code}
use rust_browser_proofs.Base.{
  ℕ, zero, suc, String, ◌≡◌, Bool, true, false, ◌&&◌, List, [], ◌∷◌, map, nat_beq, arith,
}
use rust_browser_proofs.Base.Text.{chars}

-- `==` on byte arrays
unfoldable pub bytes_eq : List ℕ → List ℕ → Bool
bytes_eq [] [] = true
bytes_eq (x ∷ xs) (y ∷ ys) = nat_beq x y && bytes_eq xs ys
bytes_eq [] (y ∷ ys) = false
bytes_eq (x ∷ xs) [] = false

pub bytes_eq_sound : (xs ys : List ℕ) → bytes_eq xs ys ≡ true → xs ≡ ys
unfolding bytes_eq
bytes_eq_sound [] [] h = ground arith
bytes_eq_sound [] (y ∷ ys) h = absurd (ground arith)
bytes_eq_sound (x ∷ xs) [] h = absurd (ground arith)
bytes_eq_sound (x ∷ xs) (y ∷ ys) h = ground (arith, bytes_eq_sound xs ys)

-- The bytes of an ASCII text, as in `b"text"`.
abbrev pub bytes : String → List ℕ
bytes text = map code (chars text)

-- `vec![0_u8; n]`
unfoldable pub zeros : ℕ → List ℕ
zeros zero = []
zeros (suc n) = 0 ∷ zeros n
