-- ===== src/Base/Text.antt =====
-- Text as a list of characters: the operations of `str` that the runner uses.
pub mod Split
use Prim.Native.Char.{Char, code}
use Prim.Native.String.{String, ◌++◌ as ◌<>◌}
use mathlib.Core.Path.{◌≡◌, refl, ap}
use mathlib.Core.Bool.{Bool, false, ◌||◌, ◌&&◌}
use mathlib.Core.Option.{Option, none, some}
use mathlib.Core.List.{List, [], ◌∷◌, reverse}
use Prim.Native.Nat.{ℕ}
use rust_browser_proofs.Base.Equality.{if◌then◌else◌, nat_beq, leb}

abbrev pub chars : String → List Char
chars String.[] = []
chars (String.◌∷◌ c s) = c ∷ chars s

abbrev pub from_chars : List Char → String
from_chars [] = String.[]
from_chars (c ∷ cs) = String.◌∷◌ c (from_chars cs)

abbrev pub is_char : ℕ → Char → Bool
is_char n c = nat_beq (code c) n

-- `char::is_whitespace`: the code points of Unicode's `White_Space` property.
unfoldable pub is_whitespace : Char → Bool
is_whitespace c =
    let n = code c in
    (leb 9 n && leb n 13)
    || nat_beq n 32
    || nat_beq n 0x85
    || nat_beq n 0xa0
    || nat_beq n 0x1680
    || (leb 0x2000 n && leb n 0x200a)
    || nat_beq n 0x2028
    || nat_beq n 0x2029
    || nat_beq n 0x202f
    || nat_beq n 0x205f
    || nat_beq n 0x3000

unfoldable pub trim_start : List Char → List Char
trim_start [] = []
trim_start (c ∷ cs) = if is_whitespace c then trim_start cs else c ∷ cs

-- `str::trim`
unfoldable pub trim : String → String
unfolding trim_start
trim s = from_chars (reverse (trim_start (reverse (trim_start (chars s)))))

-- A carriage return directly before a line's end belongs to the end.
strip_cr : List Char → List Char
strip_cr [] = []
strip_cr (c ∷ cs) = if is_char 13 c then cs else c ∷ cs

-- The lines of the text that is left, `line` being the current line so far, backwards. The last
-- line may lack its end, and keeps its carriage return then.
lines_loop : List Char → List Char → List String
lines_loop [] [] = []
lines_loop [] (c ∷ line) = from_chars (reverse (c ∷ line)) ∷ []
lines_loop (c ∷ cs) line =
    let next = from_chars (reverse (strip_cr line)) ∷ lines_loop cs [] in
    let more = lines_loop cs (c ∷ line) in if is_char 10 c then next else more

-- `str::lines`
unfoldable pub lines : String → List String
unfolding lines_loop strip_cr
lines s = lines_loop (chars s) []

pub chars-from_chars : (cs : List Char) → chars (from_chars cs) ≡ cs
chars-from_chars [] = refl
chars-from_chars (c ∷ cs) = ap (λ (l : List Char). c ∷ l) (chars-from_chars cs)

-- Some character is the one with this code.
unfoldable pub has_char : ℕ → List Char → Bool
has_char n [] = false
has_char n (c ∷ cs) = is_char n c || has_char n cs

-- Some text has the character.
unfoldable pub any_has : ℕ → List String → Bool
any_has n [] = false
any_has n (s ∷ ss) = has_char n (chars s) || any_has n ss

-- `str::split` at one character: a text has one more part than it has separators.
split_loop : ℕ → List Char → List Char → List String
split_loop separator [] part = from_chars (reverse part) ∷ []
split_loop separator (c ∷ cs) part =
    let next = from_chars (reverse part) ∷ split_loop separator cs [] in
    let more = split_loop separator cs (c ∷ part) in if is_char separator c then next else more

unfoldable pub split : ℕ → String → List String
unfolding split_loop
split separator s = split_loop separator (chars s) []

word_start : List Char → List Char
word_start [] = []
word_start (c ∷ cs) = if is_whitespace c then [] else c ∷ word_start cs

-- `split_whitespace().next()`
unfoldable pub first_word : String → Option String
unfolding word_start trim_start
first_word s = elim (word_start (trim_start (chars s))) [
  | [] ↦ none
  | c ∷ cs ↦ some (from_chars (c ∷ cs))
]

-- `words.join(separator)`
abbrev pub joined : String → List String → String
joined separator [] = ""
joined separator (word ∷ []) = word
joined separator (word ∷ next ∷ words) = word <> (separator <> joined separator (next ∷ words))

-- A formatted text from its pieces.
abbrev pub concat : List String → String
concat [] = ""
concat (piece ∷ pieces) = piece <> concat pieces

debug_chars : List Char → List Char
debug_chars [] = "\"" ∷ []
debug_chars (c ∷ cs) =
    let rest = debug_chars cs in
    if is_char 34 c || is_char 92 c
    then "\\" ∷ c ∷ rest
    else if is_char 10 c
    then "\\" ∷ "n" ∷ rest
    else if is_char 13 c
    then "\\" ∷ "r" ∷ rest
    else if is_char 9 c
    then "\\" ∷ "t" ∷ rest
    else c ∷ rest

-- `{:?}` of a text whose characters can be printed, but for line ends and tabs.
unfoldable pub debug : String → String
unfolding debug_chars
debug s = from_chars ("\"" ∷ debug_chars (chars s))
