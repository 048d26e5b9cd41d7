-- ===== src/Runner/Run.antt =====
-- `run` and `main`: one invocation, from its arguments to the exit status.
pub mod Effects
pub mod Outcomes
pub mod SearchPath
use rust_browser_proofs.Base.{
  ℕ, String, ◌<>◌, Bool, false, ◌||◌, Option, none, some, List, [], ◌∷◌, ◌++◌, Result, ok, err,
  string_eq, if◌then◌else◌, is_some,
}
use rust_browser_proofs.Base.Int.{ℤ}
use rust_browser_proofs.Base.Text.{trim, joined, debug, any_has}
use rust_browser_proofs.Runner.Cache.{mirror_report_in_cache, write_report}
use rust_browser_proofs.Runner.Invocation.{CommandInvocation, Invocation, exit, message, parse}
use rust_browser_proofs.Runner.Os.{Os, System, text_at}
use rust_browser_proofs.Runner.Paths.{join, parent, report_cache_path}
use rust_browser_proofs.Runner.Probes.{split_paths, collect}
use rust_browser_proofs.Runner.Report.{CommandResult, from_status}
use rust_browser_proofs.Runner.Report.Render.{render_report}
use rust_browser_proofs.Runner.Workspace.{reject_virtual_workspace_wasm_pack}

-- A step of the run: a result or a message, and the state that it leaves in either case.
abbrev pub Io : Type 0 → Type 0
Io A = System → Result String A × System

infixl 5 ◌>>=◌ ◌>>◌
abbrev ◌>>=◌ : {A B : Type 0} → Io A → (A → Io B) → Io B
◌>>=◌ m f s = let (r, s') = m s in elim r [ ok a ↦ f a s' | err e ↦ (err e, s') ]

abbrev ◌>>◌ : {B : Type 0} → Io (Unit {0}) → Io B → Io B
m >> k = m >>= λ _. k

abbrev pure : {A : Type 0} → A → Io A
pure a s = (ok a, s)

abbrev lift : {A : Type 0} → Result String A → Io A
lift r s = (r, s)

-- The state is read, and the step may fail by it.
abbrev inspect : {A : Type 0} → (System → Result String A) → Io A
inspect f s = (f s, s)

abbrev print_line : String → Io (Unit {0})
print_line line s = (ok tt, record s { printed = s.printed ++ (line ∷ []) })

-- `rustc.parent()`, if `cargo` stands beside the compiler.
abbrev complete_toolchain : Os → Option String → Option String
complete_toolchain os none = none
complete_toolchain os (some path) = if os.is_file (join path "cargo") then some path else none

unfoldable pub rustup_toolchain : Os → Result String String
rustup_toolchain os = elim (os.output "rustup" ("which" ∷ "rustc" ∷ [])) [
  | err error ↦ err ("rustup is required to select the wasm-capable toolchain: " <> error)
  | ok output ↦
      let rustc = trim output.stdout in
      if output.success
      then elim (complete_toolchain os (parent rustc)) [
        | none ↦ err ("rustup returned an incomplete toolchain path: " <> rustc)
        | some toolchain ↦ ok toolchain
      ]
      else err ("rustup could not select rustc: " <> trim output.stderr)
]

-- `env::join_paths`
join_paths : List String → Result String String
join_paths paths =
    if any_has b':' paths then err "path segment contains separator `:`" else ok (joined ":" paths)

abbrev pub or_empty : Option String → String
or_empty none = ""
or_empty (some value) = value

unfoldable pub prepend_path : Os → String → Result String String
unfolding join_paths
prepend_path os toolchain =
    elim (join_paths (toolchain ∷ split_paths (or_empty (os.env.var_os "PATH")))) [
      | ok path ↦ ok path
      | err error ↦ err ("could not construct PATH: " <> error)
    ]

-- `Command::new(..).envs(..).status()`
abbrev start : Os → CommandInvocation → String → String → Io (Option ℤ)
start os command toolchain path s =
    let (r, s') =
      os.spawn command.program command.arguments
        (("RUSTC", join toolchain "rustc")
          ∷ ("CARGO", join toolchain "cargo")
          ∷ ("PATH", path)
          ∷ [])
        s in
    elim r [
      | ok status ↦ (ok status, s')
      | err error ↦ (err ("could not start " <> (debug command.program <> (": " <> error))), s')
    ]

unfoldable pub run_command : Os → Option CommandInvocation → Io (Option CommandResult)
run_command os none = pure none
run_command os (some command) = do
  inspect (λ s. reject_virtual_workspace_wasm_pack os s command)
  toolchain ← lift (rustup_toolchain os)
  path ← lift (prepend_path os toolchain)
  status ← start os command toolchain path
  pure (some (from_status status))

-- The code collects the environment before the command runs. The probes ask the host, which no step
-- changes, so that they are asked for here.
unfoldable pub report_run : Os → Invocation → Option CommandResult → Option String → Io (Unit {0})
report_run os invocation command_result none = pure tt
report_run os invocation command_result (some report_path) = do
  write_report os report_path (render_report os.env (collect os) invocation command_result)
  print_line ("rust-browser-proofs: wrote Markdown report to " <> report_path)

abbrev read_to_string : Os → String → System → Result String String
read_to_string os path s = elim (text_at os path s) [
  | some contents ↦ ok contents
  | none ↦ err ("could not read report " <> (path <> (": " <> os.read_error path)))
]

-- The branch of `run` for `--mirror-report`.
unfoldable pub mirror_run : Os → String → Io ℕ
mirror_run os report_path = do
  report ← inspect (read_to_string os report_path)
  mirror_report_in_cache os report_path report
  print_line ("rust-browser-proofs: mirrored Markdown report in " <> report_cache_path report_path)
  pure 0

abbrev pub exit_code_of : Option CommandResult → ℕ
exit_code_of none = 0
exit_code_of (some result) = result.exit_code

-- `run`, behind the parse.
unfoldable pub run_invocation : Os → Invocation → Io ℕ
run_invocation os invocation = elim invocation.mirror_report_path [
  | some report_path ↦ mirror_run os report_path
  | none ↦ do
    command_result ← run_command os invocation.command
    report_run os invocation command_result invocation.report_path
    pure (exit_code_of command_result)
]

-- `print_help`
abbrev help_text : String
help_text =
    "Usage: rust-browser-proofs [--report [path] | --mirror-report <path>] [--] <command> [args...]\n\nRuns the command with rustup's selected rustc and cargo first on PATH.\n\n`--report` writes the host and invocation status to the project cache; pass a path to override it.\n`--mirror-report <path>` stores an existing Markdown report in its adjacent SQLite cache.\nRun wasm-pack from a Cargo package directory.\nExample: rust-browser-proofs --report -- wasm-pack test --headless --chrome"

-- The process: its exit status, the line on standard error if there is one, and the state.
unfoldable pub main : Os → List String → System → ℕ × Option String × System
main os arguments s = elim (parse os.env arguments) [
  | err (exit status) ↦ (status, none, record s { printed = s.printed ++ (help_text ∷ []) })
  | err (message text) ↦ (2, some ("rust-browser-proofs: " <> text), s)
  | ok invocation ↦
      let (r, s') = run_invocation os invocation s in
      elim r [
        | ok status ↦ (status, none, s')
        | err text ↦ (2, some ("rust-browser-proofs: " <> text), s')
      ]
]
