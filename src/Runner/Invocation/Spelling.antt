-- ===== src/Runner/Invocation/Spelling.antt =====
-- `Invocation::parse`: which argument lists it accepts, and what it takes each of them for.
use rust_browser_proofs.Base.{String, ◌≡◌, ◌≢◌, ◌⊎◌, none, some, List, [], ◌∷◌, ok}
use rust_browser_proofs.Runner.Paths.{Env, default_report_path}
use rust_browser_proofs.Runner.Invocation.{Invocation}
use rust_browser_proofs.Runner.Invocation.Slots.{words, asked, Keeps, Mirrors}

-- The forms that an accepted argument list has, each with the invocation that it stands for.
pub data Spells (env : Env) (ws : List String) (inv : Invocation) : Type 0 where
  bare : Keeps ws none none inv → Spells env ws inv
  reported :
      (path : String) (rest : List String)
      → ws ≡ "--report" ∷ path ∷ rest
      → path ≢ "--"
      → path ≢ "--mirror-report"
      → Keeps rest (some path) none inv
      → Spells env ws inv
  defaulted :
      (path : String) (rest : List String)
      → ws ≡ "--report" ∷ rest
      → default_report_path env ≡ ok path
      → (rest ≡ []) ⊎ (rest ≡ "--" ∷ words inv.command)
      → inv ≡ asked (some path) none inv.command
      → Spells env ws inv
  mirrored :
      (path : String) (rest : List String)
      → ws ≡ "--mirror-report" ∷ path ∷ rest
      → path ≢ "--report"
      → Mirrors rest path inv
      → Spells env ws inv
