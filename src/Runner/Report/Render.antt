-- ===== src/Runner/Report/Render.antt =====
-- `render_report`: the Markdown text of the report.
use text.Mathlib.TextLemmas.{cons-append, cons≢nil}
use rust_browser_proofs.Base.{ℕ, ◌/◌, String, ◌<>◌, ◌≢◌, sym, ◌∙◌, Option, none, some, [], ◌∷◌}
use rust_browser_proofs.Base.Decimal.{decimal}
use rust_browser_proofs.Base.Text.{concat}
use rust_browser_proofs.Runner.Invocation.{Invocation}
use rust_browser_proofs.Runner.Paths.{Env}
use rust_browser_proofs.Runner.Report.Cell.{markdown_cell}
use rust_browser_proofs.Runner.Report.{
  CommandResult, Probe, EnvironmentSnapshot, outcome, browser_test_status, just_recipe_status,
  format_command,
}

-- Whole seconds since the epoch, and 0 for a clock before it.
abbrev seconds : Option ℕ → ℕ
seconds none = 0
seconds (some millis) = millis / 1000

abbrev command_text : Invocation → String
command_text invocation = elim invocation.command [
  | none ↦ "No command requested; host capability report only."
  | some command ↦ format_command command
]

abbrev status_text : Option CommandResult → String
status_text none = "not run"
status_text (some result) = outcome result

-- `| name | status | detail |`
pub check_row : String → Probe → String
check_row name probe =
    concat ("| " ∷ name ∷ " | " ∷ probe.status ∷ " | " ∷ markdown_cell probe.detail ∷ " |\n" ∷ [])

-- `| name | status | detail | evidence |`
pub target_row : String → Probe → String → String
target_row name probe evidence = concat (
    "| "
    ∷ name
    ∷ " | "
    ∷ probe.status
    ∷ " | "
    ∷ markdown_cell probe.detail
    ∷ " | "
    ∷ evidence
    ∷ " |\n"
    ∷ [])

abbrev not_exercised : String
not_exercised = "Not exercised by this runner invocation"

pub render_report : Env → EnvironmentSnapshot → Invocation → Option CommandResult → String
unfolding check_row target_row
render_report env environment invocation command_result =
    let test = browser_test_status invocation command_result in
    concat (
      "# Rust Browser Proof Environment Report\n\n"
      ∷ "Generated at Unix timestamp `"
      ∷ decimal (seconds env.now)
      ∷ "`.\n\n"
      ∷ "## Invocation\n\n"
      ∷ "- Command: "
      ∷ command_text invocation
      ∷ "\n"
      ∷ "- Result: "
      ∷ status_text command_result
      ∷ "\n\n"
      ∷ "## Toolchain\n\n"
      ∷ "| Check | Host status | Detail |\n|---|---|---|\n"
      ∷ check_row "Rustup toolchain" environment.rustup
      ∷ check_row "wasm32 target" environment.wasm_target
      ∷ check_row "wasm-pack" environment.wasm_pack
      ∷ "\n## Browser And Device Status\n\n"
      ∷ "| Target | Host prerequisite status | Detail | Test evidence from this invocation |\n|---|---|---|---|\n"
      ∷ target_row "Desktop Chrome or Chromium" environment.chrome (test "--chrome")
      ∷ target_row "Desktop Firefox" environment.firefox (test "--firefox")
      ∷ target_row "Desktop Safari or WebKit" environment.safari (test "--safari")
      ∷ target_row "Microsoft Edge" environment.edge not_exercised
      ∷ target_row "ChromeDriver" environment.chromedriver
          "Driver presence is not a browser test result"
      ∷ target_row "Android Chrome" environment.android not_exercised
      ∷ target_row "iPhone Safari" environment.ios_simulator not_exercised
      ∷ target_row "iPhone Chrome" environment.ios_simulator
          (just_recipe_status invocation command_result "run-iphone-chromium-source")
      ∷ "\n## Interpretation\n\n"
      ∷ "- `available` means the local prerequisite probe succeeded; it does not prove storage behavior.\n"
      ∷ "- A storage battery is `passed` only when this exact invocation was an explicit `wasm-pack` run for that browser and exited successfully.\n"
      ∷ "- The iPhone Chromium source recipe reports app-shell launch and survival only; it does not claim an OPFS or PageDB test.\n"
      ∷ "- Mobile and Edge need their named runner/device workflow before they can claim execution coverage.\n"
      ∷ [])

titled : (title rest : String) → String.◌∷◌ "#" title <> rest ≢ ""
titled title rest h = cons≢nil (sym (cons-append _ title rest) ∙ h)

-- A report is not empty.
pub render_report-ne :
    (env : Env) (environment : EnvironmentSnapshot) (inv : Invocation) (r : Option CommandResult)
    → render_report env environment inv r ≢ ""
unfolding render_report
render_report-ne env environment inv r = titled " Rust Browser Proof Environment Report\n\n" _
