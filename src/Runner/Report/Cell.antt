-- ===== src/Runner/Report/Cell.antt =====
-- `markdown_cell`: a value as the text of one table cell.
pub mod Escaping
pub mod Reading
mod Tests
use Prim.Native.Char.{Char}
use rust_browser_proofs.Base.{String, Bool, ◌||◌, List, [], ◌∷◌, ◌++◌, if◌then◌else◌}
use rust_browser_proofs.Base.Text.{chars, from_chars, is_char}

-- `str::replace` by a pattern of one character.
replace : (Char → Bool) → List Char → List Char → List Char
replace matches by [] = []
replace matches by (c ∷ cs) = (if matches c then by else c ∷ []) ++ replace matches by cs

pub is_newline : Char → Bool
is_newline c = is_char 10 c || is_char 13 c

-- The three replacements, in the code's order.
pub cell : List Char → List Char
cell value =
    replace (is_char b'`') ("\\" ∷ "`" ∷ [])
      (replace (is_char b'|') ("\\" ∷ "|" ∷ []) (replace is_newline (" " ∷ []) value))

unfoldable pub markdown_cell : String → String
unfolding cell replace is_newline
markdown_cell value = from_chars (cell (chars value))
