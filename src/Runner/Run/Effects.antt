-- ===== src/Runner/Run/Effects.antt =====
-- What a run does: the command it starts, its exit status, and what it leaves behind.
use rust_browser_proofs.Base.{
  ℕ, String, ◌≡◌, refl, ap, subst, ◌<>◌, ◌⊎◌, inl, inr, Option, none, some, List, [], ◌∷◌, ◌++◌,
  Result, ok, err, arith, Option-cases, Result-cases, string_eq,
}
use rust_browser_proofs.Base.Dict.{lookup}
use rust_browser_proofs.Base.Int.{ℤ}
use rust_browser_proofs.Runner.Cache.{write_report, mirror_report_in_cache, cache_place}
use rust_browser_proofs.Runner.Cache.Mirror.{
  Mirrors, Outcome, mirror_report_in_cache-Outcome, table_at, row,
}
use rust_browser_proofs.Runner.Cache.Written.{write_report-found}
use rust_browser_proofs.Runner.Invocation.{CommandInvocation, Invocation}
use rust_browser_proofs.Runner.Os.{Os, System, text_at}
use rust_browser_proofs.Runner.Paths.{join, report_cache_path}
use rust_browser_proofs.Runner.Probes.{collect}
use rust_browser_proofs.Runner.Report.{CommandResult, from_status}
use rust_browser_proofs.Runner.Report.Render.{render_report, render_report-ne}
use rust_browser_proofs.Runner.Run.{
  Io, ◌>>=◌, rustup_toolchain, prepend_path, run_command, report_run, mirror_run, run_invocation,
  exit_code_of, print_line, ◌>>◌, pure,
}
use rust_browser_proofs.Runner.Workspace.{reject_virtual_workspace_wasm_pack}

abbrev pub bound : {A B : Type 0} → (A → Io B) → Result String A × System → Result String B × System
bound f p = let (r, t) = p in elim r [ ok a ↦ f a t | err e ↦ (err e, t) ]

bound-eq-ok :
    {A B : Type 0} (f : A → Io B) (p : Result String A × System) {b : B} {s' : System}
    → bound f p ≡ (ok b, s')
    → (a : A) × (t : System) × (p ≡ (ok a, t)) × (f a t ≡ (ok b, s'))
bound-eq-ok f (ok a, t) h = (a, t, refl, h)
bound-eq-ok f (err e, t) h = absurd (ground arith)

-- A chain that ends well has a first step that ends well.
bind-eq-ok :
    {A B : Type 0} (m : Io A) (f : A → Io B) (s : System) {b : B} {s' : System}
    → (m >>= f) s ≡ (ok b, s')
    → (a : A) × (t : System) × (m s ≡ (ok a, t)) × (f a t ≡ (ok b, s'))
bind-eq-ok m f s h = bound-eq-ok f (m s) h

-- The variables that the command is given.
abbrev pub variables : String → String → List (String × String)
variables toolchain path =
    ("RUSTC", join toolchain "rustc") ∷ ("CARGO", join toolchain "cargo") ∷ ("PATH", path) ∷ []

-- The command ran once, with Rustup's compilers, from the state `s`, and left `s'`.
abbrev pub Started : Os → CommandInvocation → System → CommandResult → System → Type 0
Started os command s result s' =
    (toolchain path : String) × (status : Option ℤ) × (reject_virtual_workspace_wasm_pack os s
        command
      ≡ ok tt)
    × (rustup_toolchain os ≡ ok toolchain)
    × (prepend_path os toolchain ≡ ok path)
    × (os.spawn command.program command.arguments (variables toolchain path) s ≡ (ok status, s'))
    × (result ≡ from_status status)

abbrev Starts : Os → CommandInvocation → System → Option CommandResult → System → Type 0
Starts os command s r s' =
    (result : CommandResult) × (r ≡ some result) × Started os command s result s'

-- The last step, by what `spawn` gave.
spawned-Starts :
    (os : Os) (command : CommandInvocation) (s s' : System) (r : Option CommandResult)
    (toolchain path : String) (p : Result String (Option ℤ) × System)
    → reject_virtual_workspace_wasm_pack os s command ≡ ok tt
    → rustup_toolchain os ≡ ok toolchain
    → prepend_path os toolchain ≡ ok path
    → os.spawn command.program command.arguments (variables toolchain path) s ≡ p
    → run_command os (some command) s ≡ (ok r, s')
    → Starts os command s r s'
unfolding run_command
spawned-Starts os command s s' r toolchain path (ok status, t) accepted found built e h = (
  from_status status,
  ground arith,
  (toolchain, path, status, accepted, found, built, ground arith, refl),
)
spawned-Starts os command s s' r toolchain path (err x, t) accepted found built e h =
    absurd (ground arith)

-- A step that gave a result ran the command, exactly as the invocation spells it.
run_command-Starts :
    (os : Os) (command : CommandInvocation) (s s' : System) (r : Option CommandResult)
    → run_command os (some command) s ≡ (ok r, s')
    → Starts os command s r s'
unfolding run_command
run_command-Starts os command s s' r h =
    elim (Result-cases (reject_virtual_workspace_wasm_pack os s command)) [
      | inr (x, refused) ↦ absurd (ground arith)
      | inl (_, accepted) ↦ elim (Result-cases (rustup_toolchain os)) [
        | inr (x, refused) ↦ absurd (ground arith)
        | inl (toolchain, found) ↦ elim (Result-cases (prepend_path os toolchain)) [
          | inr (x, refused) ↦ absurd (ground arith)
          | inl (path, built) ↦
              spawned-Starts os command s s' r toolchain path _ accepted found built refl h
        ]
      ]
    ]

-- How the command of an invocation went, if it has one.
abbrev pub Ran : Os → Invocation → System → Option CommandResult → System → Type 0
Ran os inv s r t =
    ((inv.command ≡ none) × (r ≡ none) × (t ≡ s))
    ⊎ ((command : CommandInvocation) × (inv.command ≡ some command) × Starts os command s r t)

pub run_command-Ran :
    (os : Os) (inv : Invocation) (s t : System) (r : Option CommandResult)
    → run_command os inv.command s ≡ (ok r, t)
    → Ran os inv s r t
unfolding run_command
run_command-Ran os inv s t r h = elim (Option-cases inv.command) [
  | inl e ↦ inl (ground arith)
  | inr (c, e) ↦ inr (c, e, run_command-Starts os c s t r (rw e at h))
]

-- What the report step leaves, from the state behind the command.
abbrev pub Reported :
    Os → Invocation → Option CommandResult → Option String → System → System → Type 0
Reported os inv r none t s' = s' ≡ t
Reported os inv r (some path) t s' =
    (text_at os path s' ≡ some (render_report os.env (collect os) inv r))
    × ((millis : ℕ) × (lookup path (table_at (cache_place os path) s')
          ≡ some (row (render_report os.env (collect os) inv r) millis)))

pub report_run-Reported :
    (os : Os) (inv : Invocation) (r : Option CommandResult) (o : Option String) (t s' : System)
    → report_run os inv r o t ≡ (ok tt, s')
    → Reported os inv r o t s'
unfolding report_run
report_run-Reported os inv r none t s' h = ground arith
report_run-Reported os inv r (some p) t s' h =
    let report = render_report os.env (collect os) inv r in
    let line = "rust-browser-proofs: wrote Markdown report to " <> p in
    let (_, u, written, printed) =
      bind-eq-ok (write_report os p report) (λ _. print_line line) t h in
    let (in_file, millis, in_cache) : ((text_at os p u ≡ some report)
        × (millis : ℕ) × (lookup p (table_at (cache_place os p) u) ≡ some (row report millis))) =
      (let found =
          write_report-found os p report t u (render_report-ne os.env (collect os) inv r) written in
        (found.0, found.1.0, found.1.1)) in
    let same : record u { printed = u.printed ++ (line ∷ []) } ≡ s' =
      ap (λ (q : Result String (Unit {0}) × System). q.1) printed in
    rw (← same) (in_file, (millis, in_cache))

-- A run without a mirror that succeeds: a command that was asked for has run once, with Rustup's
-- compilers in its environment, and the exit status is its own; without one nothing ran and the
-- status is 0. A report that was asked for stands in its file, and as its row in the cache, with
-- the text rendered for that very result; without one nothing changed since the command.
pub run_invocation-Ran :
    (os : Os) (inv : Invocation) (s s' : System) {code : ℕ}
    → inv.mirror_report_path ≡ none
    → run_invocation os inv s ≡ (ok code, s')
    → (r : Option CommandResult) × (t : System) × Ran os inv s r t
      × (code ≡ exit_code_of r)
      × Reported os inv r inv.report_path t s'
unfolding run_invocation
run_invocation-Ran os inv s s' m h =
    let rest =
      λ (r : Option CommandResult). report_run os inv r inv.report_path >> pure (exit_code_of r) in
    let (r, t, ran, h1) =
      bind-eq-ok (run_command os inv.command) rest s (rw (m, run_invocation) at h) in
    let (_, u, reported, h2) =
      bind-eq-ok (report_run os inv r inv.report_path) (λ _. pure (exit_code_of r)) t h1 in
    let same : u ≡ s' = ap (λ (q : Result String ℕ × System). q.1) h2 in
    (
      r,
      t,
      run_command-Ran os inv s t r ran,
      ground arith,
      subst (λ x. Reported os inv r inv.report_path t x) same
          (report_run-Reported os inv r inv.report_path t u reported),
    )

-- What a mirror run has done, by how it ended.
abbrev pub Mirrored : Os → String → System → Result String ℕ × System → Type 0
Mirrored os path s (ok code, s') =
    (code ≡ 0)
    × ((report : String) × (t : System) × (text_at os path s ≡ some report)
        × Mirrors os path report s t
        × (s' ≡ record t { printed = s'.printed }))
Mirrored os path s (err _, s') = s' ≡ s

mirrored_line : String → String
mirrored_line path = "rust-browser-proofs: mirrored Markdown report in " <> report_cache_path path

-- `mirror_run` on a file that is there, and on one that is not.
mirror_run-found :
    (os : Os) (path report : String) (s : System)
    → text_at os path s ≡ some report
    → mirror_run os path s
      ≡ bound
          (λ _. print_line (mirrored_line path) >> pure 0)
          (mirror_report_in_cache os path report s)
unfolding mirror_run mirrored_line
mirror_run-found os path report s found = ground arith

mirror_run-absent :
    (os : Os) (path : String) (s : System)
    → text_at os path s ≡ none
    → (text : String) × (mirror_run os path s ≡ (err text, s))
unfolding mirror_run
mirror_run-absent os path s absent =
    ("could not read report " <> (path <> (": " <> os.read_error path)), ground arith)

bound-Mirrored :
    (os : Os) (path report line : String) (s : System) (q : Result String (Unit {0}) × System)
    → text_at os path s ≡ some report
    → Outcome os path report s q
    → Mirrored os path s (bound (λ _. print_line line >> pure 0) q)
bound-Mirrored os path report line s (ok _, t) found h = (refl, (report, t, found, h, refl))
bound-Mirrored os path report line s (err _, t) found h = h

-- A run with a mirror path starts no command and writes no file but the cache, whatever else the
-- invocation holds. If it succeeds its status is 0 and it has stored, in the cache beside that file, the
-- report that the file holds; if it fails it has changed nothing.
pub run_invocation-Mirrored :
    (os : Os) (inv : Invocation) (s : System) {path : String}
    → inv.mirror_report_path ≡ some path
    → Mirrored os path s (run_invocation os inv s)
unfolding run_invocation
run_invocation-Mirrored os inv s {path} m = elim (Option-cases (text_at os path s)) [
  | inl absent ↦ rw (m, run_invocation, (mirror_run-absent os path s absent).1) refl
  | inr (report, found) ↦
      rw (m, run_invocation, mirror_run-found os path report s found)
        (bound-Mirrored os path report (mirrored_line path) s _ found
          (mirror_report_in_cache-Outcome os path report s))
]
