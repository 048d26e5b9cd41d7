-- ===== src/Runner/Report/Cell/Reading.antt =====
-- How Markdown reads back a value that `markdown_cell` has put into a table cell.
use Prim.Native.Char.{Char, code}
use text.Mathlib.TextEquality.{Char-path}
use rust_browser_proofs.Base.{
  ℕ, ◌+◌, ◌≤◌, String, ◌≡◌, refl, ap, ◌∙◌, sym, ◌↔◌, ◌⊎◌, Bool, true, false, ◌||◌, ◌&&◌, List, [],
  ◌∷◌, ◌++◌, map, arith, if◌then◌else◌, leb, length, Bool-cases, inl, inr,
}
use rust_browser_proofs.Base.Text.{chars, from_chars, chars-from_chars, is_char}
use rust_browser_proofs.Runner.Report.Cell.{cell, is_newline, markdown_cell}
use rust_browser_proofs.Runner.Report.Cell.Escaping.{cell-nil, cell-cons, is_backslash}

-- What a reader is shown: a character, or a mark that opens or closes a code span.
pub data Piece : Type 0 where
  shown : Char → Piece
  code_mark : Piece

abbrev within : ℕ → ℕ → Char → Bool
within low high c = leb low (code c) && leb (code c) high

-- CommonMark's ASCII punctuation.
unfoldable pub is_punctuation : Char → Bool
is_punctuation c = within 33 47 c || within 58 64 c || within 91 96 c || within 123 126 c

-- The table takes a bar with a backslash before it as a bar of the cell's content.
unfoldable pub unbar : List Char → List Char
unbar [] = []
unbar (c ∷ []) = c ∷ []
unbar (c ∷ d ∷ cs) =
    let rest = unbar (d ∷ cs) in if is_backslash c && is_char b'|' d then rest else c ∷ rest

abbrev piece : Char → Piece
piece c = if is_char b'`' c then code_mark else shown c

-- The content: a backslash before punctuation shows the punctuation, any other backslash itself, and
-- a backtick with no such backslash is the mark of a code span. All else is taken as text.
unfoldable pub read : Bool → List Char → List Piece
read escape [] = if escape then shown "\\" ∷ [] else []
read escape (c ∷ cs) =
    let rest = read false cs in
    let opened = read true cs in
    if escape
    then if is_punctuation c then shown c ∷ rest else shown "\\" ∷ piece c ∷ rest
    else if is_backslash c
    then opened
    else piece c ∷ rest

-- A line break in the value is shown as a space.
abbrev pub flatten : Char → Char
flatten c = if is_newline c then " " else c

-- A backslash of the value stands directly before punctuation.
pub hides : Bool → List Char → Bool
hides behind [] = false
hides behind (c ∷ cs) = behind && is_punctuation c || hides (is_backslash c) cs

-- What the content has for a character of the value.
abbrev ticked : Char → List Char
ticked c = if is_char b'`' c then "\\" ∷ "`" ∷ [] else flatten c ∷ []

content : List Char → List Char
content [] = []
content (c ∷ cs) = ticked c ++ content cs

unbar-cons : (c : Char) (cs : List Char) → unbar (c ∷ cell cs) ≡ c ∷ unbar (cell cs)
unfolding unbar is_newline
unbar-cons c [] = rw cell-nil
unbar-cons c (d ∷ ds) = rw cell-cons (ground arith)

unbar-cell : (cs : List Char) → unbar (cell cs) ≡ content cs
unfolding unbar is_newline content
unbar-cell [] = rw cell-nil
unbar-cell (c ∷ cs) = rw cell-cons (
    ground (
      arith,
      unbar-cell cs,
      unbar-cons c cs,
      unbar-cons "|" cs,
      unbar-cons "`" cs,
      unbar-cons " " cs,
      Char-path c "|",
      Char-path c "`",
    ))

flatten-cases : (c : Char) → ((is_newline c ≡ true) × (flatten c ≡ " ")) ⊎ (flatten c ≡ c)
flatten-cases c = elim (Bool-cases (is_newline c)) [
  | inl e ↦ inl (e, ap (λ b. if b then " " else c) e)
  | inr e ↦ inr (ap (λ b. if b then " " else c) e)
]

-- The tests of the reader do not see the change.
flatten_plain :
    (c : Char)
    → (is_char b'`' (flatten c) ≡ is_char b'`' c)
      × (is_backslash (flatten c) ≡ is_backslash c)
      × (is_punctuation (flatten c) ≡ is_punctuation c)
unfolding is_newline is_punctuation
flatten_plain c = elim (flatten-cases c) [
  | inl (e, space) ↦ rw space (ground arith)
  | inr same ↦ rw same (refl, refl, refl)
]

-- A backslash that has been read and is still undecided.
abbrev held : Bool → List Piece
held behind = if behind then shown "\\" ∷ [] else []

abbrev pub faithful : Char → Piece
faithful c = shown (flatten c)

-- Where no backslash stands before punctuation, the content shows the value.
read-content :
    (behind : Bool) (cs : List Char)
    → hides behind cs ≡ false
    → read behind (content cs) ≡ held behind ++ map faithful cs
unfolding read content hides is_punctuation is_newline
read-content behind [] h = ground arith
read-content true (c ∷ cs) h =
    let rest : hides (is_backslash c) cs ≡ false = ground arith in
    let plain : is_punctuation c ≡ false = ground arith in
    ground (arith, read-content (is_backslash c) cs rest, flatten_plain c)
read-content false (c ∷ cs) h =
    ground (
      arith,
      read-content (is_backslash c) cs h,
      flatten_plain c,
      Char-path c "`",
      Char-path c "\\",
    )

-- How many characters are shown.
characters : List Piece → ℕ
characters [] = 0
characters (shown c ∷ ps) = 1 + characters ps
characters (code_mark ∷ ps) = characters ps

abbrev one_if : Bool → ℕ
one_if b = if b then 1 else 0

-- Every backslash before punctuation costs a character.
characters-content :
    (behind : Bool) (cs : List Char)
    → characters (read behind (content cs)) + one_if (hides behind cs) ≤ one_if behind + length cs
unfolding read content hides is_punctuation is_newline characters
characters-content behind [] = ground arith
characters-content true (c ∷ cs) =
    ground
      (arith, characters-content (is_backslash c) cs, characters-content false cs, flatten_plain c)
characters-content false (c ∷ cs) =
    ground
      (arith, characters-content (is_backslash c) cs, characters-content false cs, flatten_plain c)

characters-faithful : (cs : List Char) → characters (map faithful cs) ≡ length cs
unfolding characters
characters-faithful [] = refl
characters-faithful (c ∷ cs) = ground (arith, characters-faithful cs)

-- A value shown in a table cell reads back as it was, but for line breaks, each of which reads as a
-- space, exactly if no backslash of it stands directly before punctuation. The reader takes the
-- table's escaped bars, then backslash escapes and the marks of code spans, and all else as text.
pub read-markdown_cell :
    (value : String)
    → (read false (unbar (chars (markdown_cell value))) ≡ map faithful (chars value))
      ↔ (hides false (chars value) ≡ false)
unfolding markdown_cell
read-markdown_cell value =
    let cs = chars value in
    let seen : unbar (chars (from_chars (cell cs))) ≡ content cs =
      ap unbar (chars-from_chars (cell cs)) ∙ unbar-cell cs in
    (
      (λ h.
          let same : characters (read false (content cs)) ≡ length cs =
            ap (λ l. characters (read false l)) (sym seen)
            ∙ ap characters h
            ∙ characters-faithful cs in
          ground (arith, same, characters-content false cs)),
      λ h. ap (read false) seen ∙ read-content false cs h,
    )
