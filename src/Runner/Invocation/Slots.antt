-- ===== src/Runner/Invocation/Slots.antt =====
-- `Invocation::parse` behind its first option: the slot that is filled is kept, and what is left is the
-- command.
use rust_browser_proofs.Base.{
  String, ◌≡◌, refl, ap, ◌≢◌, ◌⊎◌, inl, inr, Option, none, some, List, [], ◌∷◌, arith, ok, err,
  Result-cases, string_eq,
}
use text.Mathlib.TextEquality.{eq_iff}
use rust_browser_proofs.Runner.Paths.{Env, default_report_path}
use rust_browser_proofs.Runner.Invocation.{
  Flag, CommandInvocation, Invocation, Parsed, flag, finish, parse_loop, other, separator, report,
  mirror_report, help,
}
use rust_browser_proofs.Runner.Invocation.Modes.{Holds}

-- The words that a command stands for.
abbrev pub words : Option CommandInvocation → List String
words none = []
words (some command) = command.program ∷ command.arguments

-- No option, nor the separator.
abbrev pub IsWord : String → Type 0
IsWord a = (a ≢ "--help") × (a ≢ "-h") × (a ≢ "--report") × (a ≢ "--mirror-report") × (a ≢ "--")

-- A command that stands without a separator begins with such a word.
abbrev pub Plain : Option CommandInvocation → Type 0
Plain none = Unit
Plain (some command) = IsWord command.program

-- The words behind the options: the command's, or a separator and the command's.
abbrev pub Ends : List String → Option CommandInvocation → Type 0
Ends ws command = ((ws ≡ words command) × Plain command) ⊎ (ws ≡ "--" ∷ words command)

abbrev pub asked : Option String → Option String → Option CommandInvocation → Invocation
asked r m c = record { report_path = r; mirror_report_path = m; command = c }

-- The slots are kept, and the words are a command.
abbrev pub Keeps : List String → Option String → Option String → Invocation → Type 0
Keeps ws r m inv = (inv ≡ asked r m inv.command) × Ends ws inv.command

-- The slot is kept, and there are no words but a separator.
abbrev pub Mirrors : List String → String → Invocation → Type 0
Mirrors ws m inv = (inv ≡ asked none (some m) none) × ((ws ≡ []) ⊎ (ws ≡ "--" ∷ []))

pub flag_separator : (a : String) → flag a ≡ separator → a ≡ "--"
unfolding flag string_eq
flag_separator a h = ground (arith, eq_iff a "--")

pub Flag-cases :
    (k : Flag) → (k ≡ help) ⊎ (k ≡ report) ⊎ (k ≡ mirror_report) ⊎ (k ≡ separator) ⊎ (k ≡ other)
Flag-cases help = inl refl
Flag-cases report = inr (inl refl)
Flag-cases mirror_report = inr (inr (inl refl))
Flag-cases separator = inr (inr (inr (inl refl)))
Flag-cases other = inr (inr (inr (inr refl)))

pub flag_other : (a : String) → flag a ≡ other → IsWord a
unfolding flag string_eq
flag_other a h = (
  (λ e. ground (arith, eq_iff a "--help")),
  (λ e. ground (arith, eq_iff a "-h")),
  (λ e. ground (arith, eq_iff a "--report")),
  (λ e. ground (arith, eq_iff a "--mirror-report")),
  λ e. ground (arith, eq_iff a "--"),
)

pub flag-separator : flag "--" ≡ separator
unfolding flag string_eq
flag-separator = refl

pub flag-mirror : flag "--mirror-report" ≡ mirror_report
unfolding flag string_eq
flag-mirror = refl

pub finish-plain :
    (a : String) (ws : List String) (r m : Option String)
    → flag a ≡ other
    → Holds (Keeps (a ∷ ws) r m) (finish (a ∷ ws) r m)
unfolding finish
finish-plain a ws none none h = (refl, inl (refl, flag_other a h))
finish-plain a ws (some r) none h = (refl, inl (refl, flag_other a h))
finish-plain a ws none (some m) h = tt
finish-plain a ws (some r) (some m) h = tt

pub finish-behind :
    (a : String) (ws : List String) (r m : Option String)
    → flag a ≡ separator
    → Holds (Keeps (a ∷ ws) r m) (finish ws r m)
unfolding finish
finish-behind a [] none none h = tt
finish-behind a [] none (some m) h = (refl, inr (ap (λ x. x ∷ []) (flag_separator a h)))
finish-behind a [] (some r) none h = (refl, inr (ap (λ x. x ∷ []) (flag_separator a h)))
finish-behind a [] (some r) (some m) h = tt
finish-behind a (w ∷ ws) none none h = (refl, inr (ap (λ x. x ∷ w ∷ ws) (flag_separator a h)))
finish-behind a (w ∷ ws) (some r) none h = (refl, inr (ap (λ x. x ∷ w ∷ ws) (flag_separator a h)))
finish-behind a (w ∷ ws) none (some m) h = tt
finish-behind a (w ∷ ws) (some r) (some m) h = tt

Holds-absurd : (P : Invocation → Type 0) (p : Parsed Invocation) → Holds (λ inv. ⊥) p → Holds P p
Holds-absurd P (ok inv) h = absurd h
Holds-absurd P (err _) h = tt

pub Holds-map :
    (P Q : Invocation → Type 0) (p : Parsed Invocation)
    → ((inv : Invocation) → P inv → Q inv)
    → Holds P p
    → Holds Q p
Holds-map P Q (ok inv) f h = f inv h
Holds-map P Q (err _) f h = tt

module _ (env : Env) where
  both_fail :
      (ws : List String) (r m : String) → Holds (λ inv. ⊥) (parse_loop env ws (some r) (some m))
  unfolding parse_loop finish
  both_fail [] r m = tt
  both_fail (a ∷ []) r m = elim (Result-cases (default_report_path env)) [
    | inl (p, e) ↦ ground arith
    | inr (t, e) ↦ ground arith
  ]
  both_fail (a ∷ b ∷ ws) r m = elim (Result-cases (default_report_path env)) [
    | inl (p, e) ↦ ground arith
    | inr (t, e) ↦ ground arith
  ]

  pub report-Keeps :
      (ws : List String) (r : String)
      → Holds (Keeps ws (some r) none) (parse_loop env ws (some r) none)
  unfolding parse_loop finish
  report-Keeps [] r = (refl, inl (refl, tt))
  report-Keeps (a ∷ []) r = elim (Flag-cases (flag a)) [
    | inl e ↦ rw (e, Holds) tt
    | inr (inl e) ↦ elim (Result-cases (default_report_path env)) [
      | inl (p, d) ↦ rw (e, d, Holds) tt
      | inr (t, d) ↦ rw (e, d, Holds) tt
    ]
    | inr (inr (inl e)) ↦ rw (e, Holds) tt
    | inr (inr (inr (inl e))) ↦ rw (e, Holds) (finish-behind a [] (some r) none e)
    | inr (inr (inr (inr e))) ↦ rw (e, Holds) (finish-plain a [] (some r) none e)
  ]
  report-Keeps (a ∷ b ∷ ws) r = elim (Flag-cases (flag a)) [
    | inl e ↦ rw (e, Holds) tt
    | inr (inl e) ↦ elim (Result-cases (default_report_path env)) [
      | inl (p, d) ↦ ground arith
      | inr (t, d) ↦ ground arith
    ]
    | inr (inr (inl e)) ↦
        let never : Holds (Keeps (a ∷ b ∷ ws) (some r) none) (parse_loop env ws (some r) (some b)) =
          Holds-absurd (Keeps (a ∷ b ∷ ws) (some r) none) (parse_loop env ws (some r) (some b))
            (both_fail ws r b) in
        rw (e, Holds) (ground (arith, never))
    | inr (inr (inr (inl e))) ↦ rw (e, Holds) (finish-behind a (b ∷ ws) (some r) none e)
    | inr (inr (inr (inr e))) ↦ rw (e, Holds) (finish-plain a (b ∷ ws) (some r) none e)
  ]

  pub mirror-Mirrors :
      (ws : List String) (m : String) → Holds (Mirrors ws m) (parse_loop env ws none (some m))
  unfolding parse_loop finish
  mirror-Mirrors [] m = (refl, inl refl)
  mirror-Mirrors (a ∷ []) m = elim (Flag-cases (flag a)) [
    | inl e ↦ rw (e, Holds) tt
    | inr (inl e) ↦ elim (Result-cases (default_report_path env)) [
      | inl (p, d) ↦ rw (e, d, Holds) tt
      | inr (t, d) ↦ rw (e, d, Holds) tt
    ]
    | inr (inr (inl e)) ↦ rw (e, Holds) tt
    | inr (inr (inr (inl e))) ↦ rw (e, Holds) (refl, inr (ap (λ x. x ∷ []) (flag_separator a e)))
    | inr (inr (inr (inr e))) ↦ rw (e, Holds) tt
  ]
  mirror-Mirrors (a ∷ b ∷ ws) m = elim (Flag-cases (flag a)) [
    | inl e ↦ rw (e, Holds) tt
    | inr (inl e) ↦
        let never = λ (r : String) (rest : List String).
          Holds-absurd (Mirrors (a ∷ b ∷ ws) m) (parse_loop env rest (some r) (some m))
            (both_fail rest r m) in
        elim (Result-cases (default_report_path env)) [
          | inl (p, d) ↦ ground (arith, never p (b ∷ ws), never b ws)
          | inr (t, d) ↦ ground (arith, never b ws)
        ]
    | inr (inr (inl e)) ↦ rw (e, Holds) (ground arith)
    | inr (inr (inr (inl e))) ↦ rw (e, Holds) tt
    | inr (inr (inr (inr e))) ↦ rw (e, Holds) tt
  ]
