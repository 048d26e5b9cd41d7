-- ===== src/Runner/Workspace.antt =====
-- The guard against running `wasm-pack` in a virtual workspace, where it finds no package.
use text.Mathlib.Text.{starts_with}
use rust_browser_proofs.Base.{
  String, ◌<>◌, Bool, false, not, ◌||◌, Option, none, some, List, [], ◌∷◌, Result, ok, err, ◌==◌,
  string_eq, if◌then◌else◌,
}
use rust_browser_proofs.Base.Text.{lines, trim}
use rust_browser_proofs.Runner.Invocation.{CommandInvocation}
use rust_browser_proofs.Runner.Os.{Os, System, text_at}
use rust_browser_proofs.Runner.Paths.{join}

any_header : String → List String → Bool
any_header header [] = false
any_header header (line ∷ rest) = trim line == header || any_header header rest

pub has_manifest_table : String → String → Bool
unfolding any_header
has_manifest_table manifest table = any_header ("[" <> (table <> "]")) (lines manifest)

pub has_manifest_path : List String → Bool
has_manifest_path [] = false
has_manifest_path (argument ∷ arguments) =
    (argument == "--manifest-path" || starts_with argument "--manifest-path=")
    || has_manifest_path arguments

abbrev pub workspace_message : String
workspace_message =
    "`wasm-pack` must run from a Cargo package directory, but the current directory is a virtual workspace."

unfoldable pub virtual_workspace_wasm_pack_error : String → List String → String → Option String
unfolding has_manifest_path has_manifest_table
virtual_workspace_wasm_pack_error program arguments manifest =
    if not (program == "wasm-pack")
      || (has_manifest_path arguments
          || (not (has_manifest_table manifest "workspace")
              || has_manifest_table manifest "package"))
    then none
    else some workspace_message

fixture_hint : Os → String → String
fixture_hint os current_dir =
    if os.is_file (join current_dir "fixtures/consumer-battery/Cargo.toml")
    then " For this checkout: `cd fixtures/consumer-battery` first."
    else ""

unfoldable pub reject_virtual_workspace_wasm_pack :
    Os → System → CommandInvocation → Result String (Unit {0})
unfolding fixture_hint
reject_virtual_workspace_wasm_pack os s command = elim os.current_dir [
  | err error ↦ err ("could not determine the current directory: " <> error)
  | ok current_dir ↦ elim (text_at os (join current_dir "Cargo.toml") s) [
    | none ↦ ok tt
    | some manifest ↦
        elim (virtual_workspace_wasm_pack_error command.program command.arguments manifest) [
          | none ↦ ok tt
          | some message ↦ err (message <> fixture_hint os current_dir)
        ]
  ]
]
