-- ===== src/Runner/Report.antt =====
-- The report: the outcome of the command, the evidence for each browser, and the Markdown text.
pub mod Cell
pub mod Evidence
pub mod Render
use mathlib.Core.List.{head?}
use rust_browser_proofs.Base.{
  ℕ, String, ◌<>◌, ◌++◌, ◌/◌, not, ◌||◌, Option, none, some, List, [], ◌∷◌, Bool, false, map, ◌==◌,
  contains, nat_beq, string_eq, if◌then◌else◌,
}
use rust_browser_proofs.Base.Decimal.{decimal}
use rust_browser_proofs.Base.Text.{joined}
use rust_browser_proofs.Base.Int.{ℤ, as_u8}
use rust_browser_proofs.Runner.Invocation.{CommandInvocation, Invocation}
use rust_browser_proofs.Runner.Report.Cell.{markdown_cell}

pub record CommandResult : Type 0 where
  pub exit_code : ℕ

-- `status.code()`, which is `None` for a process that a signal ended.
unfoldable pub from_status : Option ℤ → CommandResult
from_status none = record { exit_code = 1 }
from_status (some code) = record { exit_code = as_u8 code }

unfoldable pub label : CommandResult → String
label result = if nat_beq result.exit_code 0 then "passed" else "failed"

-- `format!("{} (exit {})", ..)`
unfoldable pub outcome : CommandResult → String
outcome result = label result <> (" (exit " <> (decimal result.exit_code <> ")"))

pub record Probe : Type 0 where
  pub status : String
  pub detail : String

pub record EnvironmentSnapshot : Type 0 where
  pub rustup : Probe
  pub wasm_target : Probe
  pub wasm_pack : Probe
  pub chrome : Probe
  pub firefox : Probe
  pub safari : Probe
  pub edge : Probe
  pub chromedriver : Probe
  pub android : Probe
  pub ios_simulator : Probe

-- `result.map_or_else(|| "not run".to_owned(), show)`
abbrev executed : Option CommandResult → (CommandResult → String) → String
executed none show = "not run"
executed (some result) show = show result

unfoldable pub browser_test_status : Invocation → Option CommandResult → String → String
browser_test_status invocation command_result browser_flag = elim invocation.command [
  | none ↦ "not run"
  | some command ↦
      if not (command.program == "wasm-pack") || not (contains command.arguments browser_flag)
      then "not identified by this command"
      else executed command_result outcome
]

abbrev first_is : List String → String → Bool
first_is arguments recipe = elim (head? arguments) [
  | none ↦ false
  | some argument ↦ argument == recipe
]

unfoldable pub just_recipe_status : Invocation → Option CommandResult → String → String
just_recipe_status invocation command_result recipe = elim invocation.command [
  | none ↦ "not run"
  | some command ↦
      if not (command.program == "just") || not (first_is command.arguments recipe)
      then "not identified by this command"
      else executed command_result (λ result. outcome result <> " - app shell only")
]

pub format_command : CommandInvocation → String
format_command command =
    joined " " (
      map (λ argument. "`" <> (markdown_cell argument <> "`"))
        (command.program ∷ command.arguments))
