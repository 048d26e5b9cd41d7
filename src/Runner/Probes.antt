-- ===== src/Runner/Probes.antt =====
-- The read-only probes of the host behind `EnvironmentSnapshot::collect`.
pub mod Located
pub mod Present
pub mod Available
use mathlib.Core.List.{tail, filter_map}
use text.Mathlib.Text.{find?}
use rust_browser_proofs.Base.{
  String, ◌<>◌, not, ◌||◌, ◌&&◌, Option, none, some, List, [], ◌∷◌, ok, err, ◌==◌, contains,
  is_some, string_eq, if◌then◌else◌,
}
use rust_browser_proofs.Base.Text.{lines, trim, split, first_word, joined}
use rust_browser_proofs.Runner.Os.{Os, Output}
use rust_browser_proofs.Runner.Paths.{join}
use rust_browser_proofs.Runner.Report.{Probe, EnvironmentSnapshot}

abbrev pub split_paths : String → List String
split_paths = split b':'

unfoldable pub output_text : Output → String
output_text output =
    let stdout = trim output.stdout in if stdout == "" then trim output.stderr else stdout

module _ (os : Os) where
  -- The first of the paths that exists.
  find_path : List String → Option String
  find_path [] = none
  find_path (path ∷ paths) =
      if os.is_file path || os.is_dir path then some path else find_path paths

  find_in : String → List String → Option String
  find_in program [] = none
  find_in program (directory ∷ directories) =
      let candidate = join directory program in
      if os.is_file candidate then some candidate else find_in program directories

  find_program : List String → List String → Option String
  find_program [] directories = none
  find_program (program ∷ programs) directories = elim (find_in program directories) [
    | some found ↦ some found
    | none ↦ find_program programs directories
  ]

  unfoldable pub find_executable : List String → List String → Option String
  unfolding find_path find_in find_program
  find_executable programs paths = elim (find_path paths) [
    | some found ↦ some found
    | none ↦ elim (os.env.var_os "PATH") [
      | none ↦ none
      | some search_paths ↦ find_program programs (split_paths search_paths)
    ]
  ]

  available : String → Probe
  available detail = record { status = "available"; detail = detail }

  missing : String → Probe
  missing detail = record { status = "missing"; detail = detail }

  not_applicable : String → Probe
  not_applicable detail = record { status = "not applicable"; detail = detail }

  pub rustup_probe : Probe
  rustup_probe = elim (os.output "rustup" ("which" ∷ "rustc" ∷ [])) [
    | ok output ↦
        if output.success
        then available ("rustc at " <> output_text output)
        else missing ("rustup failed: " <> output_text output)
    | err error ↦ missing ("rustup is unavailable: " <> error)
  ]

  pub wasm_target_probe : Probe
  wasm_target_probe = elim (os.output "rustup" ("target" ∷ "list" ∷ "--installed" ∷ [])) [
    | ok output ↦
        if output.success && contains (lines (output_text output)) "wasm32-unknown-unknown"
        then available "wasm32-unknown-unknown is installed"
        else if output.success
        then missing "wasm32-unknown-unknown is not installed for rustup"
        else missing ("could not list rustup targets: " <> output_text output)
    | err error ↦ missing ("rustup is unavailable: " <> error)
  ]

  pub executable_probe : List String → List String → String → Probe
  executable_probe programs paths label = elim (find_executable programs paths) [
    | some location ↦ available ("detected at " <> location)
    | none ↦ missing (label <> " was not found on PATH or at an expected host path")
  ]

  pub safari_probe : Probe
  safari_probe =
      if not os.macos
      then not_applicable "Safari WebDriver is only probed on macOS"
      else executable_probe ("safaridriver" ∷ [])
          ("/Applications/Safari.app" ∷ "/usr/bin/safaridriver" ∷ []) "Safari and SafariDriver"

  -- The targets that `adb devices` lists below its heading.
  devices : Output → List String
  devices output = filter_map first_word (tail (lines (output_text output)))

  abbrev attached : String → List String → String
  attached adb [] = "adb at " <> (adb <> "; no attached device or booted emulator")
  attached adb (device ∷ others) =
      "adb at " <> (adb <> ("; attached targets: " <> joined ", " (device ∷ others)))

  pub android_probe : Probe
  unfolding devices
  android_probe = elim (find_executable ("adb" ∷ []) []) [
    | none ↦ missing "Android Debug Bridge was not found on PATH"
    | some adb ↦ elim (os.output adb ("devices" ∷ [])) [
      | ok output ↦
          if output.success
          then available (attached adb (devices output))
          else missing ("adb at " <> (adb <> (" failed: " <> output_text output)))
      | err error ↦ missing ("could not run adb at " <> (adb <> (": " <> error)))
    ]
  ]

  abbrev booted : String → Output → String
  booted xcrun output =
      if is_some (find? (output_text output) "Booted")
      then "xcrun at " <> (xcrun <> "; a simulator is booted")
      else "xcrun at " <> (xcrun <> "; no simulator is booted")

  abbrev simulators : List String
  simulators = "simctl" ∷ "list" ∷ "devices" ∷ "booted" ∷ []

  pub ios_simulator_probe : Probe
  ios_simulator_probe =
      if not os.macos
      then not_applicable "the iOS simulator is only probed on macOS"
      else elim (find_executable ("xcrun" ∷ []) []) [
        | none ↦ missing "xcrun was not found on PATH"
        | some xcrun ↦ elim (os.output xcrun simulators) [
          | ok output ↦
              if output.success
              then available (booted xcrun output)
              else missing ("xcrun at " <> (xcrun <> (" failed: " <> output_text output)))
          | err error ↦ missing ("could not run xcrun at " <> (xcrun <> (": " <> error)))
        ]
      ]

  -- `EnvironmentSnapshot::collect`
  pub collect : EnvironmentSnapshot
  collect = record {
    rustup = rustup_probe;
    wasm_target = wasm_target_probe;
    wasm_pack = executable_probe ("wasm-pack" ∷ []) [] "wasm-pack";
    chrome =
        executable_probe
          ("google-chrome" ∷ "google-chrome-stable" ∷ "chromium" ∷ "chromium-browser" ∷ [])
          ("/Applications/Google Chrome.app" ∷ []) "Chrome or Chromium";
    firefox = executable_probe ("firefox" ∷ []) ("/Applications/Firefox.app" ∷ []) "Firefox";
    safari = safari_probe;
    edge =
        executable_probe ("microsoft-edge" ∷ "microsoft-edge-stable" ∷ "msedge" ∷ [])
          ("/Applications/Microsoft Edge.app" ∷ []) "Microsoft Edge";
    chromedriver =
        executable_probe ("chromedriver" ∷ []) (".tools/chromedriver" ∷ []) "ChromeDriver";
    android = android_probe;
    ios_simulator = ios_simulator_probe;
  }
