-- ===== src/Runner/Run/Outcomes.antt =====
-- Every way in which an invocation ends: the specification of `main`.
pub mod Implemented
use rust_browser_proofs.Base.{
  string_eq, ℕ, String, ◌≡◌, ◌<>◌, ◌⊎◌, Option, none, some, List, ok, err,
}
use rust_browser_proofs.Base.Text.{debug}
use rust_browser_proofs.Base.Dict.{lookup}
use rust_browser_proofs.Runner.Cache.Mirror.{Mirrors}
use rust_browser_proofs.Runner.Cache.Written.{Unwritten}
use rust_browser_proofs.Runner.Invocation.{CommandInvocation, Invocation}
use rust_browser_proofs.Runner.Os.{Os, System, text_at}
use rust_browser_proofs.Runner.Probes.{collect}
use rust_browser_proofs.Runner.Report.{CommandResult}
use rust_browser_proofs.Runner.Report.Render.{render_report}
use rust_browser_proofs.Runner.Run.{rustup_toolchain, prepend_path, exit_code_of}
use rust_browser_proofs.Runner.Run.Effects.{variables, Ran, Reported}
use rust_browser_proofs.Runner.Workspace.{reject_virtual_workspace_wasm_pack}

-- The exit status, the line on standard error if there is one, and the state.
abbrev pub Process : Type 0
Process = ℕ × Option String × System

abbrev pub Failure : String → System → Process
Failure reason s = (2, some ("rust-browser-proofs: " <> reason), s)

-- Why a command is not started: for its directory, or for want of a toolchain or a search path.
abbrev pub Unfit : Os → CommandInvocation → System → String → Type 0
Unfit os command s reason =
    (reject_virtual_workspace_wasm_pack os s command ≡ err reason)
    ⊎ (rustup_toolchain os ≡ err reason)
    ⊎ ((toolchain : String) × (rustup_toolchain os ≡ ok toolchain)
        × (prepend_path os toolchain ≡ err reason))

-- A command that the host could not start, from the state `s`, which is `t` behind the attempt.
abbrev pub Unstarted : Os → CommandInvocation → System → String → System → Type 0
Unstarted os command s reason t =
    (toolchain path error : String) × (rustup_toolchain os ≡ ok toolchain)
    × (prepend_path os toolchain ≡ ok path)
    × (os.spawn command.program command.arguments (variables toolchain path) s ≡ (err error, t))
    × (reason ≡ "could not start " <> (debug command.program <> (": " <> error)))

-- How a process ends that was started for the invocation, in the state `s`.
pub data Finishes (os : Os) (inv : Invocation) (s : System) (process : Process) : Type 0 where
  -- the command ran if there is one, the report stands if one was asked for
  ran :
      (r : Option CommandResult) (t s' : System)
      → inv.mirror_report_path ≡ none
      → Ran os inv s r t
      → Reported os inv r inv.report_path t s'
      → process ≡ (exit_code_of r, none, s')
      → Finishes os inv s process
  -- the file's report stands in the cache beside it, and but for the printed line that is all
  mirrored :
      (path report : String) (t : System) (printed : List String)
      → inv.mirror_report_path ≡ some path
      → text_at os path s ≡ some report
      → Mirrors os path report s t
      → process ≡ (0, none, record t { printed = printed })
      → Finishes os inv s process
  -- the report was not mirrored, and nothing has changed
  unmirrored :
      (path reason : String)
      → inv.mirror_report_path ≡ some path
      → process ≡ Failure reason s
      → Finishes os inv s process
  -- the command was not started, and nothing has changed
  unfit :
      (command : CommandInvocation) (reason : String)
      → inv.mirror_report_path ≡ none
      → inv.command ≡ some command
      → Unfit os command s reason
      → process ≡ Failure reason s
      → Finishes os inv s process
  unstarted :
      (command : CommandInvocation) (reason : String) (t : System)
      → inv.mirror_report_path ≡ none
      → inv.command ≡ some command
      → Unstarted os command s reason t
      → process ≡ Failure reason t
      → Finishes os inv s process
  -- the command ran if there is one, and of its report at most the file, or a first part of it
  unreported :
      (r : Option CommandResult) (path reason : String) (t s' : System)
      → inv.mirror_report_path ≡ none
      → Ran os inv s r t
      → inv.report_path ≡ some path
      → Unwritten os path (render_report os.env (collect os) inv r) t s'
      → process ≡ Failure reason s'
      → Finishes os inv s process
