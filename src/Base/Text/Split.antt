-- ===== src/Base/Text/Split.antt =====
-- Splitting a joined text gives its parts again.
use Prim.Native.Char.{Char}
use Prim.Native.String.{String, ◌++◌ as ◌<>◌}
use mathlib.Core.Path.{◌≡◌, refl, ap, ◌∙◌, sym}
use mathlib.Core.Bool.{true, false}
use mathlib.Core.Logic.{inl, inr}
use mathlib.Core.List.{List, [], ◌∷◌, ◌++◌, reverse, reverse-cons, append_assoc, append-nil}
use native.Mathlib.Omega.{arith}
use text.Mathlib.TextLemmas.{nil-append, cons-append}
use Prim.Native.Nat.{ℕ}
use rust_browser_proofs.Base.Equality.{Bool-cases}
use rust_browser_proofs.Base.Text.{
  chars, from_chars, is_char, has_char, any_has, split_loop, split, joined,
}

from_chars-chars : (s : String) → from_chars (chars s) ≡ s
from_chars-chars String.[] = refl
from_chars-chars (String.◌∷◌ c s) = ap (λ t. String.◌∷◌ c t) (from_chars-chars s)

chars-append : (s t : String) → chars (s <> t) ≡ chars s ++ chars t
chars-append String.[] t = ap chars (nil-append t)
chars-append (String.◌∷◌ c s) t =
    ap chars (cons-append c s t) ∙ ap (λ (l : List Char). c ∷ l) (chars-append s t)

shift : (part xs : List Char) (x : Char) → reverse (x ∷ part) ++ xs ≡ reverse part ++ (x ∷ xs)
shift part xs x =
    ap (λ (l : List Char). l ++ xs) (reverse-cons x part) ∙ append_assoc (reverse part) (x ∷ []) xs

split_loop-end :
    (n : ℕ) (xs part : List Char)
    → has_char n xs ≡ false
    → split_loop n xs part ≡ from_chars (reverse part ++ xs) ∷ []
unfolding split_loop has_char
split_loop-end n [] part h =
    ap (λ (l : List Char). from_chars l ∷ []) (sym (append-nil (reverse part)))
split_loop-end n (x ∷ xs) part h = elim (Bool-cases (is_char n x)) [
  | inl e ↦ absurd (ground arith)
  | inr e ↦ ground (arith, split_loop-end n xs (x ∷ part), shift part xs x)
]

split_loop-separator :
    (n : ℕ) (xs ys part : List Char) (separator : Char)
    → is_char n separator ≡ true
    → has_char n xs ≡ false
    → split_loop n (xs ++ (separator ∷ ys)) part
      ≡ from_chars (reverse part ++ xs) ∷ split_loop n ys []
unfolding split_loop has_char
split_loop-separator n [] ys part separator s h = ground (arith, append-nil (reverse part))
split_loop-separator n (x ∷ xs) ys part separator s h = elim (Bool-cases (is_char n x)) [
  | inl e ↦ absurd (ground arith)
  | inr e ↦ ground (arith, split_loop-separator n xs ys (x ∷ part) separator s, shift part xs x)
]

-- A joined text, split at a separator that none of its parts has, gives its parts again.
pub split-joined :
    (n : ℕ) (separator : Char) (text word : String) (words : List String)
    → is_char n separator ≡ true
    → chars text ≡ separator ∷ []
    → any_has n (word ∷ words) ≡ false
    → split n (joined text (word ∷ words)) ≡ word ∷ words
unfolding split any_has
split-joined n separator text word [] s t h =
    split_loop-end n (chars word) [] (ground arith) ∙ ap (λ w. w ∷ []) (from_chars-chars word)
split-joined n separator text word (next ∷ words) s t h =
    let rest = joined text (next ∷ words) in
    let parts : chars (word <> (text <> rest)) ≡ chars word ++ (separator ∷ chars rest) =
      chars-append word (text <> rest)
      ∙ ap (λ (l : List Char). chars word ++ l)
          (chars-append text rest ∙ ap (λ (l : List Char). l ++ chars rest) t) in
    ap (λ l. split_loop n l []) parts
    ∙ split_loop-separator n (chars word) (chars rest) [] separator s (ground arith)
    ∙ ap (λ w. w ∷ split n rest) (from_chars-chars word)
    ∙ ap (λ ws. word ∷ ws) (split-joined n separator text next words s t (ground arith))
