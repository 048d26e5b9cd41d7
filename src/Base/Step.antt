-- ===== src/Base/Step.antt =====
-- Fallible steps on a state: a result or an error, and the state that the step leaves in either case.
use rust_browser_proofs.Base.{◌≡◌, refl, ap, ◌∙◌, arith, Result, ok, err}

abbrev pub Step : Type 0 → Type 0 → Type 0 → Type 0
Step S E A = S → Result E A × S

-- What follows a step, by how it ended.
abbrev pub then_by : {S E A B : Type 0} → (A → Step S E B) → Result E A × S → Result E B × S
then_by f q = let (r, s) = q in elim r [ ok a ↦ f a s | err e ↦ (err e, s) ]

infixl 5 ◌>>=◌ ◌>>◌
abbrev pub ◌>>=◌ : {S E A B : Type 0} → Step S E A → (A → Step S E B) → Step S E B
◌>>=◌ m f s = then_by f (m s)

abbrev pub ◌>>◌ : {S E B : Type 0} → Step S E (Unit {0}) → Step S E B → Step S E B
m >> k = m >>= λ _. k

abbrev pub pure : {S E A : Type 0} → A → Step S E A
pure a s = (ok a, s)

abbrev pub throw : {S E A : Type 0} → E → Step S E A
throw e s = (err e, s)

abbrev pub lift : {S E A : Type 0} → Result E A → Step S E A
lift r s = (r, s)

-- A step that cannot fail.
abbrev pub modify : {S E : Type 0} → (S → S) → Step S E (Unit {0})
modify f s = (ok tt, f s)

then_by-ok :
    {S E A B : Type 0} (f : A → Step S E B) (q : Result E A × S) {b : B} {s' : S}
    → then_by f q ≡ (ok b, s')
    → (a : A) × (t : S) × (q ≡ (ok a, t)) × (f a t ≡ (ok b, s'))
then_by-ok f (ok a, t) h = (a, t, refl, h)
then_by-ok f (err e, t) h = absurd (ground arith)

-- A chain that ends well has a first step that ends well.
pub bind-ok :
    {S E A B : Type 0} (m : Step S E A) (f : A → Step S E B) (s : S) {b : B} {s' : S}
    → (m >>= f) s ≡ (ok b, s')
    → (a : A) × (t : S) × (m s ≡ (ok a, t)) × (f a t ≡ (ok b, s'))
bind-ok m f s h = then_by-ok f (m s) h

-- What holds of the outcome of every such first step holds.
pub from_first {ℓ} :
    {S E A B : Type 0} {C : Type ℓ} (m : Step S E A) (f : A → Step S E B) (s : S) {b : B} {s' : S}
    → (m >>= f) s ≡ (ok b, s')
    → ((a : A) (t : S) → m s ≡ (ok a, t) → f a t ≡ (ok b, s') → C)
    → C
from_first m f s h k = let (a, t, first, rest) = bind-ok m f s h in k a t first rest

-- A step that ends well, with what holds of its outcome then.
abbrev pub Returns {ℓ} : {S E A : Type 0} → Step S E A → S → (A → S → Type ℓ) → Type ℓ
Returns {S} {E} {A} m s Q = (a : A) × (t : S) × (m s ≡ (ok a, t)) × Q a t

-- A chain ends well if its first step does, and the rest does from where that step leads.
pub bind-Returns {ℓ κ} :
    {S E A B : Type 0} (m : Step S E A) (f : A → Step S E B) (s : S) {Q : A → S → Type ℓ}
    {R : B → S → Type κ}
    → Returns m s Q
    → ((a : A) (t : S) → Q a t → Returns (f a) t R)
    → Returns (m >>= f) s R
bind-Returns m f s (a, t, first, q) next =
    let (b, u, rest, r) = next a t q in (b, u, ap (then_by f) first ∙ rest, r)

pub Returns-eq {ℓ} :
    {S E A : Type 0} (m n : Step S E A) (s : S) (Q : A → S → Type ℓ)
    → m s ≡ n s
    → Returns n s Q
    → Returns m s Q
Returns-eq m n s Q e (a, t, ran, q) = (a, t, e ∙ ran, q)
