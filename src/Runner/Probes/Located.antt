-- ===== src/Runner/Probes/Located.antt =====
-- `find_executable` finds what is there, and only that.
use rust_browser_proofs.Base.{
  String, ◌≡◌, refl, ◌⊎◌, inl, inr, ◌||◌, true, false, Bool, Option, none, some, List, [], ◌∷◌,
  Bool-cases,
}
use rust_browser_proofs.Runner.Os.{Os}
use rust_browser_proofs.Runner.Paths.{join}
use rust_browser_proofs.Runner.Probes.{
  split_paths, find_path, find_in, find_program, find_executable,
}

-- Some element has the property, and every element has it.
abbrev pub AnyOf : {A : Type 0} → (A → Type 0) → List A → Type 0
AnyOf P [] = ⊥
AnyOf P (x ∷ xs) = P x ⊎ AnyOf P xs

abbrev pub AllOf : {A : Type 0} → (A → Type 0) → List A → Type 0
AllOf P [] = Unit
AllOf P (x ∷ xs) = P x × AllOf P xs

module _ (os : Os) where
  abbrev pub exists : String → Bool
  exists path = os.is_file path || os.is_dir path

  abbrev PathLocated : List String → Option String → Type 0
  PathLocated paths (some location) = AnyOf (λ path. (location ≡ path) × (exists path ≡ true)) paths
  PathLocated paths none = AllOf (λ path. exists path ≡ false) paths

  path_first :
      (path : String) (paths : List String) (o : Option String)
      → exists path ≡ false
      → PathLocated paths o
      → PathLocated (path ∷ paths) o
  path_first path paths (some location) e h = inr h
  path_first path paths none e h = (e, h)

  find_path-PathLocated : (paths : List String) → PathLocated paths (find_path os paths)
  unfolding find_path
  find_path-PathLocated [] = tt
  find_path-PathLocated (path ∷ paths) = elim (Bool-cases (exists path)) [
    | inl e ↦ rw (e, find_path) (inl (refl, e))
    | inr e ↦ rw (e, find_path) (path_first path paths _ e (find_path-PathLocated paths))
  ]

  -- The program stands at this place, in one of the directories.
  abbrev pub StandsIn : List String → String → String → Type 0
  StandsIn directories location program =
      AnyOf (λ directory. (location ≡ join directory program) × (os.is_file location ≡ true))
        directories

  abbrev pub AbsentIn : List String → String → Type 0
  AbsentIn directories program =
      AllOf (λ directory. os.is_file (join directory program) ≡ false) directories

  abbrev InLocated : String → List String → Option String → Type 0
  InLocated program directories (some location) = StandsIn directories location program
  InLocated program directories none = AbsentIn directories program

  in_first :
      (program directory : String) (directories : List String) (o : Option String)
      → os.is_file (join directory program) ≡ false
      → InLocated program directories o
      → InLocated program (directory ∷ directories) o
  in_first program directory directories (some location) e h = inr h
  in_first program directory directories none e h = (e, h)

  find_in-InLocated :
      (program : String) (directories : List String)
      → InLocated program directories (find_in os program directories)
  unfolding find_in
  find_in-InLocated program [] = tt
  find_in-InLocated program (directory ∷ directories) =
      elim (Bool-cases (os.is_file (join directory program))) [
        | inl e ↦ rw (e, find_in) (inl (refl, e))
        | inr e ↦
            rw (e, find_in)
              (in_first program directory directories _ e (find_in-InLocated program directories))
      ]

  abbrev ProgramLocated : List String → List String → Option String → Type 0
  ProgramLocated programs directories (some location) =
      AnyOf (StandsIn directories location) programs
  ProgramLocated programs directories none = AllOf (AbsentIn directories) programs

  program_first :
      (program : String) (programs directories : List String) (o p : Option String)
      → InLocated program directories o
      → ProgramLocated programs directories p
      → ProgramLocated
          (program ∷ programs)
          directories
          (elim o [ some found ↦ some found | none ↦ p ])
  program_first program programs directories (some location) p h k = inl h
  program_first program programs directories none (some location) h k = inr k
  program_first program programs directories none none h k = (h, k)

  find_program-ProgramLocated :
      (programs directories : List String)
      → ProgramLocated programs directories (find_program os programs directories)
  unfolding find_program
  find_program-ProgramLocated [] directories = tt
  find_program-ProgramLocated (program ∷ programs) directories =
      program_first program programs directories (find_in os program directories)
        (find_program os programs directories) (find_in-InLocated program directories)
        (find_program-ProgramLocated programs directories)

  -- The programs as the search path has them.
  abbrev pub Searched : List String → Option String → Option String → Type 0
  Searched programs none location = location ≡ none
  Searched programs (some search) location = ProgramLocated programs (split_paths search) location

  -- One of the expected paths exists; or none of them does, and the search path decides.
  abbrev pub Located : List String → List String → Option String → Type 0
  Located programs paths location =
      ((path : String) × (location ≡ some path) × AnyOf (λ p. (path ≡ p) × (exists p ≡ true)) paths)
      ⊎ (AllOf (λ p. exists p ≡ false) paths × Searched programs (os.env.var_os "PATH") location)

  searched :
      (programs : List String) (o : Option String)
      → Searched programs o
          (elim o [ none ↦ none | some search ↦ find_program os programs (split_paths search) ])
  searched programs none = refl
  searched programs (some search) = find_program-ProgramLocated programs (split_paths search)

  decided :
      (programs paths : List String) (o p : Option String)
      → PathLocated paths o
      → Searched programs (os.env.var_os "PATH") p
      → Located programs paths (elim o [ some found ↦ some found | none ↦ p ])
  decided programs paths (some path) p h k = inl (path, refl, h)
  decided programs paths none p h k = inr (h, k)

  -- What is found is one of the expected paths, which exists; or none of those exists, and it is a
  -- program's file in a directory of the search path. Nothing is found only if no expected path
  -- exists and there is no search path, or no program has a file in any of its directories.
  pub find_executable-Located :
      (programs paths : List String) → Located programs paths (find_executable os programs paths)
  unfolding find_executable
  find_executable-Located programs paths =
      decided programs paths (find_path os paths) _ (find_path-PathLocated paths)
        (searched programs (os.env.var_os "PATH"))
