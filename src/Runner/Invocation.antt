-- ===== src/Runner/Invocation.antt =====
-- `Invocation::parse`: the runner's own arguments.
pub mod Modes
pub mod RoundTrip
pub mod Slots
pub mod Spelling
use rust_browser_proofs.Base.{
  ℕ, String, ◌&&◌, ◌||◌, not, Option, none, some, List, [], ◌∷◌, Result, ok, err, ◌>>=◌, ◌==◌,
  string_eq, if◌then◌else◌, is_some,
}
use rust_browser_proofs.Runner.Paths.{Env, default_report_path}

pub record CommandInvocation : Type 0 where
  pub program : String
  pub arguments : List String

pub record Invocation : Type 0 where
  pub report_path : Option String
  pub mirror_report_path : Option String
  pub command : Option CommandInvocation

-- Why there is no invocation: the help was printed and the process exits, or a message.
pub data Stop : Type 0 where
  exit : ℕ → Stop
  message : String → Stop

abbrev pub Parsed : Type 0 → Type 0
Parsed = Result Stop

-- An argument as the loop's tests tell it.
pub data Flag : Type 0 where
  help report mirror_report separator other : Flag

unfoldable pub flag : String → Flag
flag argument =
    if argument == "--help" || argument == "-h"
    then help
    else if argument == "--report"
    then report
    else if argument == "--mirror-report"
    then mirror_report
    else if argument == "--"
    then separator
    else other

abbrev fail : {A : Type 0} → String → Parsed A
fail text = err (message text)

-- `?` on a result whose error is a message
abbrev pub or_fail : {A : Type 0} → Result String A → Parsed A
or_fail (ok a) = ok a
or_fail (err text) = fail text

-- `if slot.replace(path).is_some() { return Err(..) }`
abbrev replace : Option String → String → String → Parsed (Option String)
replace none path text = ok (some path)
replace (some _) path text = fail text

abbrev pub command_of : List String → Option CommandInvocation
command_of [] = none
command_of (program ∷ arguments) = some (record { program = program; arguments = arguments })

-- What follows the loop: the rest of the arguments is the command.
pub finish : List String → Option String → Option String → Parsed Invocation
finish arguments report_path mirror_report_path =
    let command = command_of arguments in
    if is_some mirror_report_path && (is_some report_path || is_some command)
    then fail "`--mirror-report` cannot be combined with `--report` or a command"
    else if not (is_some command) && (not (is_some report_path) && not (is_some mirror_report_path))
    then fail "expected a command after `--`, `--report [path]`, or `--mirror-report <path>`"
    else ok (record {
      report_path = report_path;
      mirror_report_path = mirror_report_path;
      command = command;
    })

abbrev report_twice : String
report_twice = "`--report` may only be supplied once"

abbrev mirror_twice : String
mirror_twice = "`--mirror-report` may only be supplied once"

abbrev modes_combined : String
modes_combined = "`--mirror-report` cannot be combined with `--report`"

-- The loop, over the arguments that are left and the two slots.
pub parse_loop : Env → List String → Option String → Option String → Parsed Invocation
parse_loop env [] report_path mirror_path = finish [] report_path mirror_path
parse_loop env (argument ∷ []) report_path mirror_path = elim (flag argument) [
  | help ↦ err (exit 0)
  | report ↦ do
    path ← or_fail (default_report_path env)
    report_path' ← replace report_path path report_twice
    parse_loop env [] report_path' mirror_path
  | mirror_report ↦ fail "expected a Markdown path after `--mirror-report`"
  | separator ↦ finish [] report_path mirror_path
  | other ↦ finish (argument ∷ []) report_path mirror_path
]
parse_loop env (argument ∷ next ∷ rest) report_path mirror_path = elim (flag argument) [
  | help ↦ err (exit 0)
  | report ↦ elim (flag next) [
    | separator ↦ do
      path ← or_fail (default_report_path env)
      report_path' ← replace report_path path report_twice
      parse_loop env (next ∷ rest) report_path' mirror_path
    | mirror_report ↦ fail modes_combined
    | _ ↦ do
      report_path' ← replace report_path next report_twice
      parse_loop env rest report_path' mirror_path
  ]
  | mirror_report ↦ if next == "--report" then fail modes_combined else do
    mirror_path' ← replace mirror_path next mirror_twice
    parse_loop env rest report_path mirror_path'
  | separator ↦ finish (next ∷ rest) report_path mirror_path
  | other ↦ finish (argument ∷ next ∷ rest) report_path mirror_path
]

unfoldable pub parse : Env → List String → Parsed Invocation
unfolding parse_loop finish flag
parse env arguments = parse_loop env arguments none none
