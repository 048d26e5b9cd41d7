-- ===== src/Runner/Tests.antt =====
-- Runs of the command runner on small inputs, and its theorems at such inputs.
use text.Mathlib.TextEquality.{eq_iff}
use rust_browser_proofs.Base.{
  ◌≡◌, refl, ◌↔◌, inl, inr, false, Option, none, some, [], ◌∷◌, ◌++◌, ok, err, arith, map,
  string_eq,
}
use rust_browser_proofs.Base.Dict.{lookup, insert}
use rust_browser_proofs.Base.Int.{negsuc, as_u8}
use rust_browser_proofs.Base.Decimal.{decimal}
use rust_browser_proofs.Base.Text.{chars, lines, trim, split, is_whitespace, any_has, has_char}
use rust_browser_proofs.Runner.Cache.{mirror_report_in_cache, write_report}
use rust_browser_proofs.Runner.Report.Evidence.{
  RanIn, browser_test_status-passed_iff, IsMultiple, label-from_status,
}
use rust_browser_proofs.Runner.Report.Cell.Escaping.{separators, has_newline, markdown_cell-columns}
use rust_browser_proofs.Runner.Run.Outcomes.{Finishes}
use rust_browser_proofs.Runner.Run.Outcomes.Implemented.{main-Finishes}
use rust_browser_proofs.Runner.Run.SearchPath.{prepend_path-split}
use rust_browser_proofs.Runner.Run.Effects.{
  Ran, Reported, Mirrored, run_invocation-Ran, run_invocation-Mirrored,
}
use rust_browser_proofs.Runner.Workspace.{reject_virtual_workspace_wasm_pack}
use rust_browser_proofs.Runner.Invocation.{Invocation, message, parse}
use rust_browser_proofs.Runner.Invocation.Modes.{IsMode, parse-IsMode}
use rust_browser_proofs.Runner.Invocation.RoundTrip.{command_line, Writable, parse-command_line}
use rust_browser_proofs.Runner.Os.{System}
use rust_browser_proofs.Runner.Samples.{env, test_command, tested, os, blank}
use rust_browser_proofs.Runner.Paths.{
  parent, join, report_cache_path, report_directory, timestamped_report_path,
}
use rust_browser_proofs.Runner.Probes.{find_executable, split_paths, collect}
use rust_browser_proofs.Runner.Probes.Available.{Detects, collect-Detects}
use rust_browser_proofs.Runner.Probes.Located.{Located, find_executable-Located}
use rust_browser_proofs.Runner.Report.{CommandResult, browser_test_status, label, from_status}
use rust_browser_proofs.Runner.Report.Cell.Reading.{
  read, unbar, hides, faithful, read-markdown_cell,
}
use rust_browser_proofs.Runner.Report.Cell.{markdown_cell}
use rust_browser_proofs.Runner.Run.{
  main, run_invocation, run_command, report_run, rustup_toolchain, prepend_path, exit_code_of,
}
use rust_browser_proofs.Runner.Workspace.{virtual_workspace_wasm_pack_error, workspace_message}

parent_directory :
    map parent ("a/b.md" ∷ "a//b/./" ∷ "b.md" ∷ "/b" ∷ "/" ∷ "./b" ∷ [])
    ≡ some "a" ∷ some "a" ∷ some "" ∷ some "/" ∷ none ∷ some "." ∷ []
unfolding parent
parent_directory = refl

cache_beside_report :
    map report_cache_path ("out/status.md" ∷ "status.md" ∷ "/status.md" ∷ [])
    ≡ "out/report-cache.sqlite3" ∷ "./report-cache.sqlite3" ∷ "/report-cache.sqlite3" ∷ []
unfolding report_cache_path parent join string_eq
cache_beside_report = refl

timestamped :
    timestamped_report_path "/cache/rust-browser-proofs/browser-tests" 1724096260123
    ≡ "/cache/rust-browser-proofs/browser-tests/1724096260123-test-status.md"
unfolding timestamped_report_path join string_eq decimal
timestamped = refl

text_lines : lines "a\r\nb\n\n c " ≡ "a" ∷ "b" ∷ "" ∷ " c " ∷ []
unfolding lines
text_lines = refl

trimmed : trim "\t a b\n" ≡ "a b"
unfolding trim is_whitespace
trimmed = refl

escaped_cell : markdown_cell "a|b\n`c`" ≡ "a\\|b \\`c\\`"
unfolding markdown_cell
escaped_cell = refl

command_only :
    parse env ("--" ∷ "wasm-pack" ∷ "test" ∷ "--chrome" ∷ [])
    ≡ ok (record { report_path = none; mirror_report_path = none; command = some test_command })
unfolding parse string_eq
command_only = refl

combined_modes :
    parse env ("--report" ∷ "--mirror-report" ∷ "status.md" ∷ [])
    ≡ err (message "`--mirror-report` cannot be combined with `--report`")
unfolding parse string_eq
combined_modes = refl

virtual_workspace :
    virtual_workspace_wasm_pack_error "wasm-pack" [] "[workspace]\nmembers = [\"fixture\"]\n"
    ≡ some workspace_message
unfolding virtual_workspace_wasm_pack_error lines trim is_whitespace string_eq
virtual_workspace = refl

parse-IsMode_example : IsMode tested
unfolding parse string_eq
parse-IsMode_example =
    parse-IsMode env ("--report" ∷ "out/status.md" ∷ "wasm-pack" ∷ "test" ∷ "--chrome" ∷ []) refl

tested-Writable : Writable tested.report_path
tested-Writable = (
  ground (arith, eq_iff "out/status.md" "--"),
  ground (arith, eq_iff "out/status.md" "--mirror-report"),
)

parse-command_line_example : parse env (command_line tested) ≡ ok tested
parse-command_line_example =
    parse-command_line env tested (inr (refl, inl (λ e. cc))) tested-Writable (λ e. cc)

read-markdown_cell_example :
    (read false (unbar (chars (markdown_cell "a|`b\n"))) ≡ map faithful (chars "a|`b\n"))
    ↔ (hides false (chars "a|`b\n") ≡ false)
read-markdown_cell_example = read-markdown_cell "a|`b\n"

markdown_cell-columns_example :
    (has_newline (chars (markdown_cell "a|b\n")) ≡ false)
    × (separators false (chars (markdown_cell "a|b\n") ++ " " ∷ "|" ∷ [])
        ≡ separators false ("|" ∷ []))
markdown_cell-columns_example = markdown_cell-columns "a|b\n" false ("|" ∷ [])

browser_test_status-passed_iff_example :
    (browser_test_status tested (some (record { exit_code = 0 })) "--chrome" ≡ "passed (exit 0)")
    ↔ RanIn tested (some (record { exit_code = 0 })) "--chrome"
browser_test_status-passed_iff_example =
    browser_test_status-passed_iff tested (some (record { exit_code = 0 })) "--chrome"

label-from_status_example :
    (label (from_status (some (negsuc 255))) ≡ "passed") ↔ IsMultiple (some (negsuc 255))
label-from_status_example = label-from_status (some (negsuc 255))

abbrev finished : System
finished = (run_invocation os tested blank).1

run_invocation-Ran_example :
    (r : Option CommandResult) × (t : System) × Ran os tested blank r t
    × (0 ≡ exit_code_of r)
    × Reported os tested r tested.report_path t finished
unfolding run_invocation run_command report_run write_report mirror_report_in_cache
    report_cache_path parent join string_eq reject_virtual_workspace_wasm_pack rustup_toolchain
    prepend_path from_status as_u8 trim is_whitespace split lookup insert report_directory any_has
    has_char
run_invocation-Ran_example = run_invocation-Ran os tested blank finished refl refl

abbrev mirror_only : Invocation
mirror_only = record { report_path = none; mirror_report_path = some "old.md"; command = none }

run_invocation-Mirrored_example : Mirrored os "old.md" blank (run_invocation os mirror_only blank)
run_invocation-Mirrored_example = run_invocation-Mirrored os mirror_only blank refl

find_executable-Located_example :
    Located os
      ("cargo" ∷ [])
      ("/Applications/Firefox.app" ∷ [])
      (find_executable os ("cargo" ∷ []) ("/Applications/Firefox.app" ∷ []))
find_executable-Located_example =
    find_executable-Located os ("cargo" ∷ []) ("/Applications/Firefox.app" ∷ [])

collect-Detects_example : Detects os (collect os)
collect-Detects_example = collect-Detects os

prepend_path-split_example :
    split_paths "/toolchain/bin:/bin:/usr/bin" ≡ "/toolchain/bin" ∷ split_paths "/bin:/usr/bin"
unfolding prepend_path split any_has has_char string_eq
prepend_path-split_example = prepend_path-split os "/toolchain/bin" refl

main-Finishes_example : Finishes os tested blank (main os (command_line tested) blank)
main-Finishes_example =
    main-Finishes os tested blank (inr (refl, inl (λ e. cc))) tested-Writable (λ e. cc)
