-- ===== src/Runner/Probes/Available.antt =====
-- When the report calls what `EnvironmentSnapshot::collect` probes available.
use text.Mathlib.TextEquality.{eq_iff}
use rust_browser_proofs.Base.{
  String, ◌<>◌, ◌≡◌, refl, ◌≢◌, ◌↔◌, ◌&&◌, not, true, false, Bool, Option, none, some, List, [],
  ◌∷◌, Result, ok, err, arith, contains, string_eq, if◌then◌else◌,
}
use rust_browser_proofs.Base.Text.{lines}
use rust_browser_proofs.Runner.Os.{Os, Output}
use rust_browser_proofs.Runner.Report.{Probe, EnvironmentSnapshot}
use rust_browser_proofs.Runner.Probes.{
  output_text, find_executable, available, missing, not_applicable, rustup_probe, wasm_target_probe,
  executable_probe, safari_probe, android_probe, ios_simulator_probe, collect, attached, devices,
  booted, simulators,
}
use rust_browser_proofs.Runner.Probes.Present.{Present, Settles, Located-Settles}
use rust_browser_proofs.Runner.Probes.Located.{find_executable-Located}

missing-ne : ◌≢◌ {A = String} "missing" "available"
missing-ne = ground (arith, eq_iff "missing" "available")

not_applicable-ne : ◌≢◌ {A = String} "not applicable" "available"
not_applicable-ne = ground (arith, eq_iff "not applicable" "available")

-- The probe calls its tool available exactly if this holds.
abbrev pub Tells : Probe → Type 0 → Type 0
Tells probe P = (probe.status ≡ "available") ↔ P

module _ (os : Os) where
  -- The program ran, and its output is such.
  abbrev pub Ran : Result String Output → (Output → Type 0) → Type 0
  Ran (ok output) P = P output
  Ran (err error) P = ⊥

  -- The program runs and exits with success.
  abbrev pub Succeeds : String → List String → Type 0
  Succeeds program arguments = Ran (os.output program arguments) (λ output. output.success ≡ true)

  tool-Tells :
      (P : Type 0) (o : Option String) (found : String → String) (absent : String)
      → Settles os o P
      → Tells (elim o [ some l ↦ available os (found l) | none ↦ missing os absent ]) P
  unfolding available missing
  tool-Tells P none found absent h = (λ e. absurd (missing-ne e), λ p. absurd (h p))
  tool-Tells P (some l) found absent h = (λ e. h, λ p. refl)

  executable_probe-Tells :
      (programs paths : List String) (label : String)
      → Tells (executable_probe os programs paths label) (Present os programs paths)
  unfolding executable_probe
  executable_probe-Tells programs paths label =
      tool-Tells (Present os programs paths) (find_executable os programs paths) _ _ (
        Located-Settles os programs paths (find_executable os programs paths)
          (find_executable-Located os programs paths))

  if-Tells :
      (b : Bool) (good bad : Probe)
      → good.status ≡ "available"
      → bad.status ≢ "available"
      → Tells (if b then good else bad) (b ≡ true)
  if-Tells true good bad hg hb = (λ e. refl, λ e. hg)
  if-Tells false good bad hg hb = (λ e. absurd (hb e), λ e. ground arith)

  -- A probe that judges a program's output by a test.
  judged-Tells :
      (r : Result String Output) (test : Output → Bool) (good bad : Output → Probe)
      (refused : String → Probe)
      → ((output : Output) → (good output).status ≡ "available")
      → ((output : Output) → (bad output).status ≢ "available")
      → ((error : String) → (refused error).status ≢ "available")
      → Tells
          (elim r [
            | ok output ↦ if test output then good output else bad output
            | err error ↦ refused error
          ])
          (Ran r (λ output. test output ≡ true))
  judged-Tells (err error) test good bad refused hg hb hr = (λ e. hr error e, λ h. absurd h)
  judged-Tells (ok output) test good bad refused hg hb hr =
      if-Tells (test output) (good output) (bad output) (hg output) (hb output)

  rustup_probe-Tells : Tells (rustup_probe os) (Succeeds "rustup" ("which" ∷ "rustc" ∷ []))
  unfolding rustup_probe available missing
  rustup_probe-Tells =
      judged-Tells (os.output "rustup" ("which" ∷ "rustc" ∷ [])) (λ output. output.success)
        (λ output. available os ("rustc at " <> output_text output))
        (λ output. missing os ("rustup failed: " <> output_text output))
        (λ error. missing os ("rustup is unavailable: " <> error)) (λ output. refl)
        (λ output. missing-ne) (λ error. missing-ne)

  if-missing :
      (b : Bool) (s t : String) → (if b then missing os s else missing os t).status ≢ "available"
  unfolding missing
  if-missing true s t = missing-ne
  if-missing false s t = missing-ne

  abbrev wasm32 : Output → Bool
  wasm32 output = output.success && contains (lines (output_text output)) "wasm32-unknown-unknown"

  wasm_target_probe-Tells : Tells (wasm_target_probe os) (
      Ran
        (os.output "rustup" ("target" ∷ "list" ∷ "--installed" ∷ []))
        (λ output. wasm32 output ≡ true))
  unfolding wasm_target_probe available missing
  wasm_target_probe-Tells =
      judged-Tells (os.output "rustup" ("target" ∷ "list" ∷ "--installed" ∷ [])) wasm32
        (λ output. available os "wasm32-unknown-unknown is installed")
        (λ output.
          if output.success
          then missing os "wasm32-unknown-unknown is not installed for rustup"
          else missing os ("could not list rustup targets: " <> output_text output))
        (λ error. missing os ("rustup is unavailable: " <> error)) (λ output. refl)
        (λ output. if-missing output.success _ _) (λ error. missing-ne)

  -- Only on macOS is there something to probe.
  mac-Tells :
      (b : Bool) (P : Type 0) (text : String) (probe : Probe)
      → Tells probe P
      → Tells (if not b then not_applicable os text else probe) ((b ≡ true) × P)
  unfolding not_applicable
  mac-Tells true P text probe h = (λ e. (refl, h.0 e), λ p. h.1 p.1)
  mac-Tells false P text probe h = (λ e. absurd (not_applicable-ne e), λ p. ground arith)

  safari_probe-Tells : Tells (safari_probe os) (
      (os.macos ≡ true)
      × Present os
          ("safaridriver" ∷ [])
          ("/Applications/Safari.app" ∷ "/usr/bin/safaridriver" ∷ []))
  unfolding safari_probe
  safari_probe-Tells = mac-Tells os.macos _ _ _ (
      executable_probe-Tells ("safaridriver" ∷ [])
        ("/Applications/Safari.app" ∷ "/usr/bin/safaridriver" ∷ []) "Safari and SafariDriver")

  -- The tool that was found runs and exits with success.
  abbrev pub Answers : Option String → List String → Type 0
  Answers none arguments = ⊥
  Answers (some tool) arguments = Succeeds tool arguments

  answers-Tells :
      (o : Option String) (arguments : List String) (absent : String)
      (good bad : String → Output → String) (refused : String → String → String)
      → Tells
          (elim o [
            | none ↦ missing os absent
            | some tool ↦ elim (os.output tool arguments) [
              | ok output ↦
                  if output.success
                  then available os (good tool output)
                  else missing os (bad tool output)
              | err error ↦ missing os (refused tool error)
            ]
          ])
          (Answers o arguments)
  unfolding available missing
  answers-Tells none arguments absent good bad refused = (λ e. missing-ne e, λ h. absurd h)
  answers-Tells (some tool) arguments absent good bad refused =
      judged-Tells (os.output tool arguments) (λ output. output.success)
        (λ output. available os (good tool output)) (λ output. missing os (bad tool output))
        (λ error. missing os (refused tool error)) (λ output. refl) (λ output. missing-ne)
        (λ error. missing-ne)

  android_probe-Tells :
      Tells (android_probe os) (Answers (find_executable os ("adb" ∷ []) []) ("devices" ∷ []))
  unfolding android_probe
  android_probe-Tells =
      answers-Tells (find_executable os ("adb" ∷ []) []) ("devices" ∷ []) _
        (λ adb output. attached os adb (devices os output))
        (λ adb output. "adb at " <> (adb <> (" failed: " <> output_text output)))
        (λ adb error. "could not run adb at " <> (adb <> (": " <> error)))

  ios_simulator_probe-Tells :
      Tells
        (ios_simulator_probe os)
        ((os.macos ≡ true) × Answers (find_executable os ("xcrun" ∷ []) []) (simulators os))
  unfolding ios_simulator_probe
  ios_simulator_probe-Tells = mac-Tells os.macos _ _ _ (
      answers-Tells (find_executable os ("xcrun" ∷ []) []) (simulators os) _ (booted os)
        (λ xcrun output. "xcrun at " <> (xcrun <> (" failed: " <> output_text output)))
        (λ xcrun error. "could not run xcrun at " <> (xcrun <> (": " <> error))))

  -- What is there, for each row of the report.
  abbrev pub Detects : EnvironmentSnapshot → Type 0
  Detects snapshot =
      Tells snapshot.rustup (Succeeds "rustup" ("which" ∷ "rustc" ∷ []))
      × Tells snapshot.wasm_target (
          Ran (os.output "rustup" ("target" ∷ "list" ∷ "--installed" ∷ []))
            (λ output. wasm32 output ≡ true))
      × Tells snapshot.wasm_pack (Present os ("wasm-pack" ∷ []) [])
      × Tells snapshot.chrome (
          Present os
            ("google-chrome" ∷ "google-chrome-stable" ∷ "chromium" ∷ "chromium-browser" ∷ [])
            ("/Applications/Google Chrome.app" ∷ []))
      × Tells snapshot.firefox (Present os ("firefox" ∷ []) ("/Applications/Firefox.app" ∷ []))
      × Tells snapshot.safari (
          (os.macos ≡ true)
          × Present os ("safaridriver" ∷ [])
              ("/Applications/Safari.app" ∷ "/usr/bin/safaridriver" ∷ []))
      × Tells snapshot.edge (
          Present os ("microsoft-edge" ∷ "microsoft-edge-stable" ∷ "msedge" ∷ [])
            ("/Applications/Microsoft Edge.app" ∷ []))
      × Tells snapshot.chromedriver (Present os ("chromedriver" ∷ []) (".tools/chromedriver" ∷ []))
      × Tells snapshot.android (Answers (find_executable os ("adb" ∷ []) []) ("devices" ∷ []))
      × Tells snapshot.ios_simulator
          ((os.macos ≡ true) × Answers (find_executable os ("xcrun" ∷ []) []) (simulators os))

  -- The report calls Rustup available exactly if `rustup which rustc` succeeds, the target exactly
  -- if Rustup lists it as installed, and a browser or a tool exactly if an expected path exists or a
  -- directory of the search path has one of its programs; Safari and the simulators are available
  -- on macOS only, and Android and the simulators exactly if the tool that is found succeeds.
  pub collect-Detects : Detects (collect os)
  unfolding collect
  collect-Detects = (
    rustup_probe-Tells,
    wasm_target_probe-Tells,
    executable_probe-Tells _ _ _,
    executable_probe-Tells _ _ _,
    executable_probe-Tells _ _ _,
    safari_probe-Tells,
    executable_probe-Tells _ _ _,
    executable_probe-Tells _ _ _,
    android_probe-Tells,
    ios_simulator_probe-Tells,
  )
