-- ===== src/Runner/Report/Cell/Tests.antt =====
-- Cells of `markdown_cell` that Markdown reads back as they were, and one that it does not.
use rust_browser_proofs.Base.{◌≡◌, refl, false, [], ◌∷◌}
use rust_browser_proofs.Base.Text.{chars}
use rust_browser_proofs.Runner.Report.Cell.{markdown_cell, cell, replace, is_newline}
use rust_browser_proofs.Runner.Report.Cell.Reading.{shown, code_mark, read, unbar, is_punctuation}

bar_and_tick :
    read false (unbar (chars (markdown_cell "|`\n"))) ≡ shown "|" ∷ shown "`" ∷ shown " " ∷ []
unfolding read unbar markdown_cell cell replace is_newline is_punctuation
bar_and_tick = refl

-- A backtick behind a backslash is left as the mark of a code span.
backslash_and_tick : read false (unbar (chars (markdown_cell "\\`"))) ≡ shown "\\" ∷ code_mark ∷ []
unfolding read unbar markdown_cell cell replace is_newline is_punctuation
backslash_and_tick = refl

-- A backslash before a bar is lost.
backslash_and_bar : read false (unbar (chars (markdown_cell "\\|"))) ≡ shown "|" ∷ []
unfolding read unbar markdown_cell cell replace is_newline is_punctuation
backslash_and_bar = refl
