-- ===== src/Runner/Report/Evidence.antt =====
-- What the report's evidence columns say: a test counts as passed only when this invocation ran it.
use Prim.Native.Char.{Char, code}
use text.Mathlib.TextEquality.{eq_iff}
use text.Mathlib.TextLemmas.{cons-append, head-eq_of_cons-eq}
use rust_browser_proofs.Base.{
  ℕ, ◌*◌, ◌+◌, ◌%◌, String, ◌<>◌, ◌≡◌, refl, sym, ap, ◌∙◌, ◌≢◌, ◌↔◌, inl, inr, true, Option, none,
  some, arith, contains, string_eq, Option-cases,
}
use rust_browser_proofs.Base.Decimal.{decimal}
use rust_browser_proofs.Base.Int.{ℤ, pos, negsuc, as_u8}
use rust_browser_proofs.Runner.Invocation.{CommandInvocation, Invocation}
use rust_browser_proofs.Runner.Report.{
  CommandResult, from_status, label, outcome, browser_test_status,
}

-- Texts with different first characters differ.
append-ne : (c d : Char) (s t u : String) → code c ≢ code d → (String.◌∷◌ c s) <> t ≢ String.◌∷◌ d u
append-ne c d s t u h e = h (ap code (head-eq_of_cons-eq (sym (cons-append c s t) ∙ e)))

outcome-zero : (r : CommandResult) → r.exit_code ≡ 0 → outcome r ≡ "passed (exit 0)"
unfolding outcome label decimal
outcome-zero r h = rw h

failed-ne : (t : String) → "failed" <> t ≢ "passed (exit 0)"
failed-ne t = append-ne "f" "p" "ailed" t "assed (exit 0)" (omega arith)

outcome-pos : (r : CommandResult) → r.exit_code ≢ 0 → outcome r ≢ "passed (exit 0)"
unfolding outcome label
outcome-pos r h e = ground (arith, failed-ne (" (exit " <> (decimal r.exit_code <> ")")))

not_run-ne : ◌≢◌ {A = String} "not run" "passed (exit 0)"
not_run-ne = ground (arith, eq_iff "not run" "passed (exit 0)")

not_identified-ne : ◌≢◌ {A = String} "not identified by this command" "passed (exit 0)"
not_identified-ne = ground (arith, eq_iff "not identified by this command" "passed (exit 0)")

failed-ne-passed : ◌≢◌ {A = String} "failed" "passed"
failed-ne-passed = ground (arith, eq_iff "failed" "passed")

-- The command ran `wasm-pack` with this flag and exited with code 0.
abbrev pub RanIn : Invocation → Option CommandResult → String → Type 0
RanIn invocation command_result browser_flag =
    (command : CommandInvocation) × (result : CommandResult) × (invocation.command ≡ some command)
    × (command.program ≡ "wasm-pack")
    × (contains command.arguments browser_flag ≡ true)
    × (command_result ≡ some result)
    × (result.exit_code ≡ 0)

identified :
    (inv : Invocation) (c : CommandInvocation) (r : CommandResult) (f : String)
    → inv.command ≡ some c
    → browser_test_status inv (some r) f ≡ "passed (exit 0)"
    → (c.program ≡ "wasm-pack") × (contains c.arguments f ≡ true) × (r.exit_code ≡ 0)
unfolding browser_test_status
identified inv c r f e h = ground (arith, not_identified-ne, outcome-pos r)

passed-RanIn :
    (inv : Invocation) (r : Option CommandResult) (browser_flag : String)
    → browser_test_status inv r browser_flag ≡ "passed (exit 0)"
    → RanIn inv r browser_flag
unfolding browser_test_status
passed-RanIn inv none f h = absurd (ground (arith, not_run-ne, not_identified-ne))
passed-RanIn inv (some r) f h = elim (Option-cases inv.command) [
  | inl e ↦ absurd (ground (arith, not_run-ne))
  | inr (c, e) ↦ let ran = identified inv c r f e h in (c, r, e, ran.0, ran.1, refl, ran.2)
]

ran-passed :
    (inv : Invocation) (r : Option CommandResult) (browser_flag : String)
    → RanIn inv r browser_flag
    → browser_test_status inv r browser_flag ≡ "passed (exit 0)"
unfolding browser_test_status
ran-passed inv r f (c, res, e, program, flagged, ran, code) = ground (arith, outcome-zero res)

-- The report says of a browser that its test passed exactly if this invocation ran `wasm-pack` with
-- that browser's flag and the command's exit code was 0: no run, another program, another browser
-- and a failure all read otherwise.
pub browser_test_status-passed_iff :
    (inv : Invocation) (r : Option CommandResult) (browser_flag : String)
    → (browser_test_status inv r browser_flag ≡ "passed (exit 0)") ↔ RanIn inv r browser_flag
browser_test_status-passed_iff inv r f = (passed-RanIn inv r f, λ h. ran-passed inv r f h)

-- The exit code is a multiple of 256, of either sign.
abbrev pub IsMultiple : Option ℤ → Type 0
IsMultiple none = ⊥
IsMultiple (some (pos n)) = n % 256 ≡ 0
IsMultiple (some (negsuc n)) = (n + 1) % 256 ≡ 0

-- A process counts as passed exactly if it has an exit code that is a multiple of 256: of the codes
-- that Unix can report this is 0 alone, but the cast to `u8` hides others. The end by a signal
-- counts as failed.
pub label-from_status :
    (status : Option ℤ) → (label (from_status status) ≡ "passed") ↔ IsMultiple status
unfolding label from_status as_u8
label-from_status none = (λ e. failed-ne-passed e, λ h. absurd h)
label-from_status (some (pos n)) = (λ e. ground (arith, failed-ne-passed), λ e. ground arith)
label-from_status (some (negsuc n)) = (λ e. ground (arith, failed-ne-passed), λ e. ground arith)

-- Such codes other than 0.
label-from_status_wraps :
    (k : ℕ)
    → (label (from_status (some (pos (256 * (k + 1))))) ≡ "passed")
      × (label (from_status (some (negsuc (256 * k + 255)))) ≡ "passed")
label-from_status_wraps k = (
  (label-from_status (some (pos (256 * (k + 1))))).1 (omega arith),
  (label-from_status (some (negsuc (256 * k + 255)))).1 (omega arith),
)
