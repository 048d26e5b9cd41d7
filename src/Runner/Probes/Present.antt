-- ===== src/Runner/Probes/Present.antt =====
-- Where the runner's tools are present, told without the order in which they are looked for.
use rust_browser_proofs.Base.{
  String, ◌≡◌, refl, sym, ap, subst, ◌∙◌, ◌⊎◌, inl, inr, true, false, Bool, Option, none, some,
  List, [], ◌∷◌, arith, string_eq,
}
use rust_browser_proofs.Runner.Os.{Os}
use rust_browser_proofs.Runner.Paths.{join}
use rust_browser_proofs.Runner.Probes.{split_paths}
use rust_browser_proofs.Runner.Probes.Located.{AnyOf, AllOf, exists, Searched, Located}

any-map :
    {A : Type 0} {P Q : A → Type 0} (xs : List A) → ((x : A) → P x → Q x) → AnyOf P xs → AnyOf Q xs
any-map [] f p = absurd p
any-map (x ∷ xs) f (inl p) = inl (f x p)
any-map (x ∷ xs) f (inr p) = inr (any-map xs f p)

any-all :
    {A : Type 0} {P Q : A → Type 0} (xs : List A)
    → ((x : A) → P x → ¬ Q x)
    → AnyOf P xs
    → ¬ AllOf Q xs
any-all [] f p q = absurd p
any-all (x ∷ xs) f (inl p) (q, qs) = f x p q
any-all (x ∷ xs) f (inr p) (q, qs) = any-all xs f p qs

both-ne : (b : Bool) → b ≡ true → ¬ (b ≡ false)
both-ne b h e = cc

module _ (os : Os) where
  -- An expected path exists, or the directories path has a directory with a program's file.
  abbrev pub Present : List String → List String → Type 0
  Present programs paths =
      AnyOf (λ path. exists os path ≡ true) paths
      ⊎ ((directories : String) × (os.env.var_os "PATH" ≡ some directories)
          × AnyOf
              (λ program.
                AnyOf (λ directory. os.is_file (join directory program) ≡ true)
                  (split_paths directories))
              programs)

  stands-Present :
      (programs paths : List String) (location : String) (o : Option String)
      → os.env.var_os "PATH" ≡ o
      → Searched os programs o (some location)
      → Present programs paths
  stands-Present programs paths location none e h = absurd (ground arith)
  stands-Present programs paths location (some directories) e h = inr (
    directories,
    e,
    any-map programs
        (λ program.
          any-map (split_paths directories) (λ directory s. ap os.is_file (sym s.0) ∙ s.1))
        h,
  )

  found-Present :
      (programs paths : List String) (location : String)
      → Located os programs paths (some location)
      → Present programs paths
  found-Present programs paths location (inl (path, e, h)) = inl (any-map paths (λ p s. s.1) h)
  found-Present programs paths location (inr (h, s)) =
      stands-Present programs paths location (os.env.var_os "PATH") refl s

  absent-Present :
      (programs paths : List String) → Located os programs paths none → ¬ Present programs paths
  absent-Present programs paths (inl (path, e, h)) p = ground arith
  absent-Present programs paths (inr (h, s)) (inl p) =
      any-all paths (λ path. both-ne (exists os path)) p h
  absent-Present programs paths (inr (h, s)) (inr (directories, e, p)) =
      any-all programs
        (λ program.
          any-all (split_paths directories)
            (λ directory. both-ne (os.is_file (join directory program))))
        p (subst (λ o. Searched os programs o none) e s)

  -- The place of a tool, and whether there is one.
  abbrev pub Settles : Option String → Type 0 → Type 0
  Settles none P = ¬ P
  Settles (some location) P = P

  pub Located-Settles :
      (programs paths : List String) (o : Option String)
      → Located os programs paths o
      → Settles o (Present programs paths)
  Located-Settles programs paths none h = absent-Present programs paths h
  Located-Settles programs paths (some location) h = found-Present programs paths location h
