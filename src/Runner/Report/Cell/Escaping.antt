-- ===== src/Runner/Report/Cell/Escaping.antt =====
-- `markdown_cell` keeps a table's columns.
use Prim.Native.Char.{Char}
use mathlib.Core.List.{append_assoc}
use rust_browser_proofs.Base.{
  ℕ, ◌+◌, String, ◌≡◌, refl, Bool, false, ◌||◌, ◌&&◌, not, List, [], ◌∷◌, ◌++◌, arith,
  if◌then◌else◌,
}
use rust_browser_proofs.Base.Text.{chars, chars-from_chars, is_char}
use rust_browser_proofs.Runner.Report.Cell.{replace, is_newline, cell, markdown_cell}

-- What a value's character becomes.
abbrev pub escaped : Char → List Char
escaped c =
    if is_newline c
    then " " ∷ []
    else if is_char b'|' c
    then "\\" ∷ "|" ∷ []
    else if is_char b'`' c
    then "\\" ∷ "`" ∷ []
    else c ∷ []

replace-append :
    (p : Char → Bool) (by xs ys : List Char)
    → replace p by (xs ++ ys) ≡ replace p by xs ++ replace p by ys
unfolding replace
replace-append p by [] ys = refl
replace-append p by (x ∷ xs) ys = simp (replace-append p by xs ys, append_assoc)

pub cell-nil : cell [] ≡ []
unfolding cell replace
cell-nil = refl

pub cell-cons : (c : Char) (cs : List Char) → cell (c ∷ cs) ≡ escaped c ++ cell cs
unfolding cell replace is_newline
cell-cons c cs = ground arith

abbrev pub is_backslash : Char → Bool
is_backslash = is_char 92

-- The bars that separate cells: those with no backslash before them.
pub separators : Bool → List Char → ℕ
separators after_backslash [] = 0
separators after_backslash (c ∷ cs) =
    (if is_char b'|' c && not after_backslash then 1 else 0) + separators (is_backslash c) cs

pub has_newline : List Char → Bool
unfolding is_newline
has_newline [] = false
has_newline (c ∷ cs) = is_newline c || has_newline cs

separators-cell :
    (b : Bool) (cs rest : List Char) → separators b (cell cs ++ " " ∷ rest) ≡ separators false rest
unfolding separators is_newline
separators-cell b [] rest = rw cell-nil (ground arith)
separators-cell b (c ∷ cs) rest =
    rw cell-cons
      (ground (arith, separators-cell (is_backslash c) cs rest, separators-cell false cs rest))

has_newline-cell : (cs : List Char) → has_newline (cell cs) ≡ false
unfolding has_newline is_newline
has_newline-cell [] = rw cell-nil
has_newline-cell (c ∷ cs) = rw cell-cons (ground (arith, has_newline-cell cs))

-- A cell keeps its table row whole, whatever the value and whatever stands before and after it: the
-- text of the value and the space behind it hold no line break and no bar that separates cells.
pub markdown_cell-columns :
    (value : String) (before : Bool) (rest : List Char)
    → (has_newline (chars (markdown_cell value)) ≡ false)
      × (separators before (chars (markdown_cell value) ++ " " ∷ rest) ≡ separators false rest)
unfolding markdown_cell
markdown_cell-columns value before rest =
    rw (chars-from_chars (cell (chars value)))
      (has_newline-cell (chars value), separators-cell before (chars value) rest)
