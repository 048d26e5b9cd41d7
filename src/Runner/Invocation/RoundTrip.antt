-- ===== src/Runner/Invocation/RoundTrip.antt =====
-- `Invocation::parse`: every invocation can be written as arguments, and the default report path.
use rust_browser_proofs.Base.{
  String, ◌≡◌, refl, ◌≢◌, Option, none, some, List, [], ◌∷◌, ◌++◌, arith, ok, Result-cases, inl,
  inr, ◌>>=◌, string_eq,
}
use rust_browser_proofs.Runner.Paths.{Env, default_report_path}
use rust_browser_proofs.Runner.Invocation.{
  CommandInvocation, Invocation, flag, finish, parse_loop, parse, or_fail, command_of, Parsed,
  separator, mirror_report, report,
}
use rust_browser_proofs.Runner.Invocation.Modes.{IsMode}

abbrev option : String → Option String → List String
option name none = []
option name (some path) = name ∷ path ∷ []

abbrev separated : Option CommandInvocation → List String
separated none = []
separated (some command) = "--" ∷ command.program ∷ command.arguments

-- An invocation as the arguments that ask for it.
pub command_line : Invocation → List String
command_line inv =
    option "--report" inv.report_path
    ++ (option "--mirror-report" inv.mirror_report_path ++ separated inv.command)

flag-report : flag "--report" ≡ report
unfolding flag string_eq
flag-report = refl

flag-mirror : flag "--mirror-report" ≡ mirror_report
unfolding flag string_eq
flag-mirror = refl

flag-separator : flag "--" ≡ separator
unfolding flag string_eq
flag-separator = refl

-- A report path can be written unless it reads as the word that ends the option or changes the mode.
abbrev pub Writable : Option String → Type 0
Writable none = Unit
Writable (some path) = (path ≢ "--") × (path ≢ "--mirror-report")

flag-path :
    (path : String) → Writable (some path) → (flag path ≢ separator) × (flag path ≢ mirror_report)
unfolding flag
flag-path path h = ground arith

module _ (env : Env) where
  parse_loop-command_line :
      (r m : Option String) (c : Option CommandInvocation)
      → let inv : Invocation = record { report_path = r; mirror_report_path = m; command = c } in
        IsMode inv
        → Writable r
        → m ≢ some "--report"
        → parse_loop env (command_line inv) none none ≡ ok inv
  unfolding parse_loop finish command_line
  parse_loop-command_line none none none h w n = absurd (ground arith)
  parse_loop-command_line none none (some c) h w n = ground (arith, flag-separator)
  parse_loop-command_line (some p) none none h w n = ground (arith, flag-report, flag-path p w)
  parse_loop-command_line (some p) none (some c) h w n =
      ground (arith, flag-report, flag-separator, flag-path p w)
  parse_loop-command_line none (some q) none h w n = ground (arith, flag-mirror)
  parse_loop-command_line none (some q) (some c) h w n = absurd (ground arith)
  parse_loop-command_line (some p) (some q) c h w n = absurd (ground arith)

  -- Every invocation with a permitted combination of modes is parsed from the arguments that ask
  -- for it, whatever its paths and its command look like, unless the report path is `--` or
  -- `--mirror-report` or the mirrored path is `--report`.
  pub parse-command_line :
      (inv : Invocation)
      → IsMode inv
      → Writable inv.report_path
      → inv.mirror_report_path ≢ some "--report"
      → parse env (command_line inv) ≡ ok inv
  unfolding parse
  parse-command_line inv h w n =
      parse_loop-command_line inv.report_path inv.mirror_report_path inv.command h w n

  parse_loop-separator :
      (ws : List String) (r m : Option String) → parse_loop env ("--" ∷ ws) r m ≡ finish ws r m
  unfolding parse_loop
  parse_loop-separator [] r m = ground (arith, flag-separator)
  parse_loop-separator (w ∷ ws) r m = ground (arith, flag-separator)

  finish-report :
      (ws : List String) (p : String)
      → finish ws (some p) none
        ≡ ok (record { report_path = some p; mirror_report_path = none; command = command_of ws })
  unfolding finish
  finish-report [] p = refl
  finish-report (w ∷ ws) p = refl

  abbrev reported_run : List String → Parsed Invocation
  reported_run ws = or_fail (default_report_path env) >>= λ path.
      ok (record { report_path = some path; mirror_report_path = none; command = command_of ws })

  parse_loop-default_report :
      (ws : List String) → parse_loop env ("--report" ∷ "--" ∷ ws) none none ≡ reported_run ws
  unfolding parse_loop
  parse_loop-default_report ws = elim (Result-cases (default_report_path env)) [
    | inl (p, e) ↦ ground (
      arith,
      flag-report,
      flag-separator,
      parse_loop-separator ws (some p) none,
      finish-report ws p,
    )
    | inr (t, e) ↦ ground (arith, flag-report, flag-separator)
  ]

  -- `--report` before `--` takes the default path and leaves the rest to the command, empty or not.
  -- Without a default path the parse fails with the reason.
  parse-default_report :
      (ws : List String)
      → parse env ("--report" ∷ "--" ∷ ws) ≡ (
          or_fail (default_report_path env) >>= λ path.
          ok (record {
            report_path = some path;
            mirror_report_path = none;
            command = command_of ws;
          }))
  unfolding parse
  parse-default_report ws = parse_loop-default_report ws
