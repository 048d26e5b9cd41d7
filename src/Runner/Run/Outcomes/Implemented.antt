-- ===== src/Runner/Run/Outcomes/Implemented.antt =====
-- `main` ends only as its specification says.
use rust_browser_proofs.Base.{
  ℕ, String, ◌≡◌, ◌≢◌, refl, ap, sym, subst, ◌<>◌, ◌⊎◌, inl, inr, Option, none, some, List, Result,
  ok, err, arith, Option-cases, Result-cases, string_eq,
}
use rust_browser_proofs.Base.Int.{ℤ}
use rust_browser_proofs.Runner.Cache.{write_report}
use rust_browser_proofs.Runner.Cache.Written.{Written, Unwritten, write_report-Written}
use rust_browser_proofs.Runner.Invocation.{CommandInvocation, Invocation, parse}
use rust_browser_proofs.Runner.Invocation.Modes.{IsMode}
use rust_browser_proofs.Runner.Invocation.RoundTrip.{command_line, Writable, parse-command_line}
use rust_browser_proofs.Runner.Os.{Os, System}
use rust_browser_proofs.Runner.Probes.{collect}
use rust_browser_proofs.Runner.Report.{CommandResult}
use rust_browser_proofs.Runner.Report.Render.{render_report}
use rust_browser_proofs.Runner.Run.{
  rustup_toolchain, prepend_path, run_command, report_run, run_invocation, exit_code_of, main,
  print_line, Io, mirror_run, ◌>>=◌, ◌>>◌, pure,
}
use rust_browser_proofs.Runner.Run.Effects.{
  variables, Ran, Reported, Mirrored, run_command-Ran, report_run-Reported, run_invocation-Mirrored,
  bound,
}
use rust_browser_proofs.Runner.Workspace.{reject_virtual_workspace_wasm_pack}
use rust_browser_proofs.Runner.Run.Outcomes.{
  Process, Failure, Unfit, Unstarted, Finishes, ran, mirrored, unmirrored, unfit, unstarted,
  unreported,
}

-- `main`, behind the run.
abbrev concluded : Result String ℕ × System → Process
concluded (ok status, s') = (status, none, s')
concluded (err reason, s') = Failure reason s'

main-concluded :
    (os : Os) (arguments : List String) (inv : Invocation) (s : System)
    → parse os.env arguments ≡ ok inv
    → main os arguments s ≡ concluded (run_invocation os inv s)
unfolding main
main-concluded os arguments inv s parsed = rw (parsed, main) (same (run_invocation os inv s))
  where
    same :
        (q : Result String ℕ × System)
        → elim q.0 [
          | ok status ↦ (status, none, q.1)
          | err text ↦ (2, some ("rust-browser-proofs: " <> text), q.1)
        ]
          ≡ concluded q
    same (ok status, s') = refl
    same (err text, s') = refl

Mirrored-Finishes :
    (os : Os) (inv : Invocation) (s : System) (path : String) (q : Result String ℕ × System)
    → inv.mirror_report_path ≡ some path
    → Mirrored os path s q
    → Finishes os inv s (concluded q)
Mirrored-Finishes os inv s path (ok code, s') m (zero_, (report, t, found, mirrors, same)) =
    mirrored path report t s'.printed m found mirrors (λ i. (zero_ i, none, same i))
Mirrored-Finishes os inv s path (err reason, s') m same =
    unmirrored path reason m (ap (Failure reason) same)

spawned-Unstarted :
    (os : Os) (command : CommandInvocation) (s t : System) (reason toolchain path : String)
    (p : Result String (Option ℤ) × System)
    → reject_virtual_workspace_wasm_pack os s command ≡ ok tt
    → rustup_toolchain os ≡ ok toolchain
    → prepend_path os toolchain ≡ ok path
    → os.spawn command.program command.arguments (variables toolchain path) s ≡ p
    → run_command os (some command) s ≡ (err reason, t)
    → Unstarted os command s reason t
unfolding run_command
spawned-Unstarted os command s t reason toolchain path (ok status, u) accepted found built e h =
    absurd (ground arith)
spawned-Unstarted os command s t reason toolchain path (err x, u) accepted found built e h =
    (toolchain, path, x, found, built, ground arith, ground arith)

-- A command that gave no result was not started.
run_command-Unstarted :
    (os : Os) (command : CommandInvocation) (s t : System) (reason : String)
    → run_command os (some command) s ≡ (err reason, t)
    → ((t ≡ s) × Unfit os command s reason) ⊎ Unstarted os command s reason t
unfolding run_command
run_command-Unstarted os command s t reason h =
    elim (Result-cases (reject_virtual_workspace_wasm_pack os s command)) [
      | inr (x, refused) ↦ inl (ground arith, inl (ground arith))
      | inl (_, accepted) ↦ elim (Result-cases (rustup_toolchain os)) [
        | inr (x, refused) ↦ inl (ground arith, inr (inl (ground arith)))
        | inl (toolchain, found) ↦ elim (Result-cases (prepend_path os toolchain)) [
          | inr (x, refused) ↦ inl (ground arith, inr (inr (toolchain, ground arith, ground arith)))
          | inl (path, built) ↦
              inr (
                spawned-Unstarted os command s t reason toolchain path _ accepted found built refl
                  h)
        ]
      ]
    ]

command_failed :
    (os : Os) (inv : Invocation) (s t : System) (reason : String)
    → inv.mirror_report_path ≡ none
    → run_command os inv.command s ≡ (err reason, t)
    → Finishes os inv s (Failure reason t)
unfolding run_command
command_failed os inv s t reason m h = elim (Option-cases inv.command) [
  | inl e ↦ absurd (ground arith)
  | inr (command, e) ↦ elim (run_command-Unstarted os command s t reason (rw e at h)) [
    | inl (same, why) ↦ unfit command reason m e why (ap (Failure reason) same)
    | inr why ↦ unstarted command reason t m e why refl
  ]
]

-- A report that was not written, by how the write ended.
unwritten :
    (os : Os) (path report line reason : String) (t u : System)
    (q : Result String (Unit {0}) × System)
    → Written os path report t q
    → bound (λ _. print_line line) q ≡ (err reason, u)
    → Unwritten os path report t u
unwritten os path report line reason t u (ok _, v) h e = absurd (ground arith)
unwritten os path report line reason t u (err x, v) h e =
    subst (Unwritten os path report t) (ap (λ (q : Result String (Unit {0}) × System). q.1) e) h

-- The report step, by how it ended.
reported-Finishes :
    (os : Os) (inv : Invocation) (s t : System) (r : Option CommandResult) (o : Option String)
    (q : Result String (Unit {0}) × System)
    → inv.mirror_report_path ≡ none
    → inv.report_path ≡ o
    → Ran os inv s r t
    → report_run os inv r o t ≡ q
    → Finishes os inv s (concluded (bound (λ _ u. (ok (exit_code_of r), u)) q))
unfolding report_run
reported-Finishes os inv s t r o (ok _, u) m e started h =
    ran r t u m started
      (subst (λ x. Reported os inv r x t u) (sym e) (report_run-Reported os inv r o t u h)) refl
reported-Finishes os inv s t r none (err reason, u) m e started h = absurd (ground arith)
reported-Finishes os inv s t r (some path) (err reason, u) m e started h =
    let report = render_report os.env (collect os) inv r in
    unreported r path reason t u m started e
      (unwritten os path report _ reason t u (write_report os path report t)
        (write_report-Written os path report t) h)
      refl

-- The command step, by how it ended.
started-Finishes :
    (os : Os) (inv : Invocation) (s : System) (q : Result String (Option CommandResult) × System)
    → inv.mirror_report_path ≡ none
    → run_command os inv.command s ≡ q
    → Finishes os inv s
        (concluded (bound (λ r. report_run os inv r inv.report_path >> pure (exit_code_of r)) q))
started-Finishes os inv s (ok r, t) m h =
    reported-Finishes os inv s t r inv.report_path _ m refl (run_command-Ran os inv s t r h) refl
started-Finishes os inv s (err reason, t) m h = command_failed os inv s t reason m h

unmirrored_run :
    (os : Os) (inv : Invocation) (s : System)
    → inv.mirror_report_path ≡ none
    → run_invocation os inv s
      ≡ bound
          (λ r. report_run os inv r inv.report_path >> pure (exit_code_of r))
          (run_command os inv.command s)
unfolding run_invocation
unmirrored_run os inv s m =
    let chosen : Option String → Io ℕ = λ o. elim o [
      | some report_path ↦ mirror_run os report_path
      | none ↦ run_command os inv.command >>= λ r.
          report_run os inv r inv.report_path >> pure (exit_code_of r)
    ] in
    ap (λ o. chosen o s) m

run_invocation-Finishes :
    (os : Os) (inv : Invocation) (s : System)
    → Finishes os inv s (concluded (run_invocation os inv s))
run_invocation-Finishes os inv s = elim (Option-cases inv.mirror_report_path) [
  | inr (path, m) ↦ Mirrored-Finishes os inv s path _ m (run_invocation-Mirrored os inv s m)
  | inl m ↦
      subst (λ q. Finishes os inv s (concluded q)) (sym (unmirrored_run os inv s m))
        (started-Finishes os inv s _ m refl)
]

-- The process that is started with the arguments for an invocation finishes as the invocation
-- says: on success with the command's exit code, after the report is written if one was asked for,
-- or with 0 after the report is mirrored, and with nothing on standard error; on failure with
-- status 2 and the reason on standard error, and since the command at most the file of
-- the report changed: it holds the report or a first part of it. The
-- invocation has a permitted combination of modes and paths that can be written as arguments.
pub main-Finishes :
    (os : Os) (inv : Invocation) (s : System)
    → IsMode inv
    → Writable inv.report_path
    → inv.mirror_report_path ≢ some "--report"
    → Finishes os inv s (main os (command_line inv) s)
main-Finishes os inv s mode w n =
    subst (Finishes os inv s)
      (sym (main-concluded os (command_line inv) inv s (parse-command_line os.env inv mode w n)))
      (run_invocation-Finishes os inv s)
