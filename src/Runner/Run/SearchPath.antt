-- ===== src/Runner/Run/SearchPath.antt =====
-- The search path that the command is given.
use rust_browser_proofs.Base.{String, ◌≡◌, refl, sym, ap, ◌∙◌, inl, inr, ◌∷◌, ok, arith, Bool-cases}
use rust_browser_proofs.Base.Text.{any_has, joined}
use rust_browser_proofs.Base.Text.Split.{split-joined}
use rust_browser_proofs.Runner.Os.{Os}
use rust_browser_proofs.Runner.Probes.{split_paths}
use rust_browser_proofs.Runner.Run.{join_paths, or_empty, prepend_path}

-- The command's search path, taken apart, is Rustup's toolchain and behind it the directories that
-- the runner inherited, in their order.
pub prepend_path-split :
    (os : Os) (toolchain : String) {path : String}
    → prepend_path os toolchain ≡ ok path
    → split_paths path ≡ toolchain ∷ split_paths (or_empty (os.env.var_os "PATH"))
unfolding prepend_path join_paths
prepend_path-split os toolchain {path} h =
    let inherited = split_paths (or_empty (os.env.var_os "PATH")) in
    elim (Bool-cases (any_has b':' (toolchain ∷ inherited))) [
      | inl e ↦ absurd (ground arith)
      | inr e ↦
          let same : joined ":" (toolchain ∷ inherited) ≡ path = ground arith in
          ap split_paths (sym same) ∙ split-joined b':' ":" ":" toolchain inherited refl refl e
    ]
