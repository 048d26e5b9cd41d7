-- ===== src/Runner/Invocation/Modes.antt =====
-- `Invocation::parse`: which combinations of modes it accepts.
use rust_browser_proofs.Base.{
  String, ◌≡◌, refl, ◌≢◌, ◌⊎◌, inl, inr, Option, none, some, List, [], ◌∷◌, arith, ok, err,
  Result-cases,
}
use rust_browser_proofs.Runner.Paths.{Env, default_report_path}
use rust_browser_proofs.Runner.Invocation.{Invocation, Parsed, finish, parse_loop, parse}

-- A mirror invocation does nothing else, and any other reports, runs a command, or does both.
abbrev pub IsMode : Invocation → Type 0
IsMode inv =
    ((inv.mirror_report_path ≢ none) × (inv.report_path ≡ none) × (inv.command ≡ none))
    ⊎ ((inv.mirror_report_path ≡ none) × ((inv.report_path ≢ none) ⊎ (inv.command ≢ none)))

-- The property holds of what was parsed, if there is a result.
abbrev pub Holds : (Invocation → Type 0) → Parsed Invocation → Type 0
Holds P (ok inv) = P inv
Holds P (err _) = Unit

finish-IsMode : (ws : List String) (r m : Option String) → Holds IsMode (finish ws r m)
unfolding finish
finish-IsMode [] none none = tt
finish-IsMode [] none (some m) = inl ((λ e. cc), refl, refl)
finish-IsMode [] (some r) none = inr (refl, inl (λ e. cc))
finish-IsMode [] (some r) (some m) = tt
finish-IsMode (w ∷ ws) none none = inr (refl, inr (λ e. cc))
finish-IsMode (w ∷ ws) (some r) none = inr (refl, inl (λ e. cc))
finish-IsMode (w ∷ ws) none (some m) = tt
finish-IsMode (w ∷ ws) (some r) (some m) = tt

module _ (env : Env) where
  parse_loop-IsMode :
      (ws : List String) (r m : Option String) → Holds IsMode (parse_loop env ws r m)
  unfolding parse_loop
  parse_loop-IsMode [] r m = finish-IsMode [] r m
  parse_loop-IsMode (a ∷ []) r m = elim (Result-cases (default_report_path env)) [
    | inl (p, e) ↦
        ground
          (arith, parse_loop-IsMode [] (some p) m, finish-IsMode [] r m, finish-IsMode (a ∷ []) r m)
    | inr (t, e) ↦ ground (arith, finish-IsMode [] r m, finish-IsMode (a ∷ []) r m)
  ]
  parse_loop-IsMode (a ∷ b ∷ ws) r m = elim (Result-cases (default_report_path env)) [
    | inl (p, e) ↦ ground (
      arith,
      parse_loop-IsMode (b ∷ ws) (some p) m,
      parse_loop-IsMode ws (some b) m,
      parse_loop-IsMode ws r (some b),
      finish-IsMode (b ∷ ws) r m,
      finish-IsMode (a ∷ b ∷ ws) r m,
    )
    | inr (t, e) ↦ ground (
      arith,
      parse_loop-IsMode ws (some b) m,
      parse_loop-IsMode ws r (some b),
      finish-IsMode (b ∷ ws) r m,
      finish-IsMode (a ∷ b ∷ ws) r m,
    )
  ]

  -- Every invocation that is accepted either mirrors a report and does nothing else, or does not
  -- mirror and reports, runs a command, or both.
  pub parse-IsMode :
      (arguments : List String) {inv : Invocation} → parse env arguments ≡ ok inv → IsMode inv
  unfolding parse
  parse-IsMode arguments h = rw h at (parse_loop-IsMode arguments none none)
