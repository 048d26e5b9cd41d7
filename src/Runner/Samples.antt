-- ===== src/Runner/Samples.antt =====
-- A host, an invocation and a state for the tests.
use rust_browser_proofs.Base.{
  String, true, false, Option, none, some, [], ◌∷◌, ok, err, ◌==◌, string_eq, if◌then◌else◌,
}
use rust_browser_proofs.Base.Int.{pos}
use rust_browser_proofs.Runner.Invocation.{CommandInvocation, Invocation}
use rust_browser_proofs.Runner.Os.{Os, System, text}
use rust_browser_proofs.Runner.Paths.{Env}

abbrev home : String → Option String
home name =
    if name == "HOME"
    then some "/home/dev"
    else if name == "PATH"
    then some "/bin:/usr/bin"
    else none

abbrev pub env : Env
env = record { var_os = home; now = some 1724096260123 }

abbrev pub test_command : CommandInvocation
test_command = record { program = "wasm-pack"; arguments = "test" ∷ "--chrome" ∷ [] }

abbrev pub tested : Invocation
tested = record {
  report_path = some "out/status.md";
  mirror_report_path = none;
  command = some test_command;
}

-- A host with one toolchain, whose commands all exit with code 0.
abbrev pub os : Os
os = record {
  env = env;
  macos = false;
  current_dir = ok "/work";
  place = λ path. path;
  is_file = λ path. path == "/toolchain/bin/cargo";
  is_dir = λ path. false;
  read_error = λ path. "No such file or directory (os error 2)";
  mkdir_error = λ path. none;
  write_error = λ path. none;
  output = λ program arguments.
      if program == "rustup"
      then ok (record { success = true; stdout = "/toolchain/bin/rustc\n"; stderr = "" })
      else err "not found";
  spawn = λ program arguments variables s. (ok (some (pos 0)), s);
  sqlite = record {
    open_error = λ path. none;
    begin_error = λ path. none;
    schema_error = λ path. none;
    store_error = λ path. none;
    commit_error = λ path. none;
  };
}

abbrev pub blank : System
blank = record { files = ("old.md", text "# Old") ∷ []; printed = [] }
