-- ===== src/Harness/IdbDriver/Completes.antt =====
-- Calls that complete, and chains of them.
use rust_browser_proofs.Base.{String, ◌≡◌, refl, ap, sym, subst, ◌∙◌, Bool, true, false}
use rust_browser_proofs.Harness.Vfs.{Poll, done, failed, parked, Async, ◌>>=◌, ◌>>◌}
use rust_browser_proofs.Harness.Engine.{map_err}
use rust_browser_proofs.Harness.IdbDriver.{require, fails}

abbrev pub Completes : {W E A : Type 0} → Async W E A → W → (A → W → Type 0) → Type 0
Completes {W} {E} {A} m w Q = (a : A) × (v : W) × (m w ≡ (done a, v)) × Q a v

-- What follows a call, by how it ended.
abbrev pub resumed : {W E A B : Type 0} → (A → Async W E B) → Poll E A × W → Poll E B × W
resumed f q =
    let (p, w) = q in elim p [ done a ↦ f a w | failed e ↦ (failed e, w) | parked ↦ (parked, w) ]

pub bind-Completes :
    {W E A B : Type 0} (m : Async W E A) (f : A → Async W E B) (w : W) {Q : A → W → Type 0}
    {R : B → W → Type 0}
    → Completes m w Q
    → ((a : A) (v : W) → Q a v → Completes (f a) v R)
    → Completes (m >>= f) w R
bind-Completes m f w (a, v, ran, q) next =
    let (b, u, rest, r) = next a v q in (b, u, ap (resumed f) ran ∙ rest, r)

abbrev told : {W E F A : Type 0} → (E → F) → Poll E A × W → Poll F A × W
told context q =
    let (p, w) = q in
    elim p [ done a ↦ (done a, w) | failed e ↦ (failed (context e), w) | parked ↦ (parked, w) ]

-- `map_err` leaves what completes as it is.
pub map_err-Completes :
    {W E F A : Type 0} (context : E → F) (m : Async W E A) (w : W) {Q : A → W → Type 0}
    → Completes m w Q
    → Completes (map_err context m) w Q
map_err-Completes context m w (a, v, ran, q) = (a, v, ap (told context) ran, q)

pub require-Completes :
    {W : Type 0} (condition : Bool) (message : String) (w : W)
    → condition ≡ true
    → Completes (require condition message) w (λ _ v. v ≡ w)
unfolding require
require-Completes condition message w h = rw h (tt, w, refl, refl)

abbrev failing : {W E F A : Type 0} → Poll E A × W → Poll F Bool × W
failing q =
    let (p, w) = q in
    elim p [ done a ↦ (done false, w) | failed e ↦ (done true, w) | parked ↦ (parked, w) ]

-- A call that fails is found to fail.
pub fails-Completes :
    {W E F A : Type 0} (m : Async W E A) (w : W) {Q : W → Type 0}
    → (e : E) × (v : W) × (m w ≡ (failed e, v)) × Q v
    → Completes (fails {F = F} m) w (λ absent v. (absent ≡ true) × Q v)
fails-Completes m w (e, v, ran, q) = (true, v, ap failing ran, (refl, q))

-- A call of the back end at the head of a chain.
pub call-Completes :
    {W E F A B : Type 0} (context : E → F) (m : Async W E A) (f : A → Async W F B) (w : W)
    {Q : A → W → Type 0} {R : B → W → Type 0}
    → Completes m w Q
    → ((a : A) (v : W) → Q a v → Completes (f a) v R)
    → Completes (map_err context m >>= f) w R
call-Completes context m f w h next =
    bind-Completes (map_err context m) f w (map_err-Completes context m w h) next

-- A check that goes through at the head of a chain.
pub check-Completes :
    {W B : Type 0} (condition : Bool) (message : String) (k : Async W String B) (w : W)
    {R : B → W → Type 0}
    → condition ≡ true
    → Completes k w R
    → Completes (require condition message >> k) w R
check-Completes condition message k w {R} holds h =
    bind-Completes (require condition message) (λ _. k) w
      (require-Completes condition message w holds)
      (λ _ v same. subst (λ x. Completes k x R) (sym same) h)

-- Calls that park, and chains that do so behind calls that complete.
abbrev pub Parks : {W E A : Type 0} → Async W E A → W → (W → Type 0) → Type 0
Parks {W} m w Q = (v : W) × (m w ≡ (parked, v)) × Q v

pub bind-Parks :
    {W E A B : Type 0} (m : Async W E A) (f : A → Async W E B) (w : W) {Q : A → W → Type 0}
    {R : W → Type 0}
    → Completes m w Q
    → ((a : A) (v : W) → Q a v → Parks (f a) v R)
    → Parks (m >>= f) w R
bind-Parks m f w (a, v, ran, q) next =
    let (u, rest, r) = next a v q in (u, ap (resumed f) ran ∙ rest, r)

pub call-Parks :
    {W E F A B : Type 0} (context : E → F) (m : Async W E A) (f : A → Async W F B) (w : W)
    {Q : A → W → Type 0} {R : W → Type 0}
    → Completes m w Q
    → ((a : A) (v : W) → Q a v → Parks (f a) v R)
    → Parks (map_err context m >>= f) w R
call-Parks context m f w h next =
    bind-Parks (map_err context m) f w (map_err-Completes context m w h) next

pub map_err-Parks :
    {W E F A : Type 0} (context : E → F) (m : Async W E A) (w : W) {Q : W → Type 0}
    → Parks m w Q
    → Parks (map_err context m) w Q
map_err-Parks context m w (v, ran, q) = (v, ap (told context) ran, q)

-- Calls that fail with this error, and chains that do so behind calls that complete.
abbrev pub Refuses : {W E A : Type 0} → Async W E A → W → E → Type 0
Refuses {W} m w e = (v : W) × (m w ≡ (failed e, v))

pub bind-Refuses :
    {W E A B : Type 0} (m : Async W E A) (f : A → Async W E B) (w : W) (e : E) {Q : A → W → Type 0}
    → Completes m w Q
    → ((a : A) (v : W) → Q a v → Refuses (f a) v e)
    → Refuses (m >>= f) w e
bind-Refuses m f w e (a, v, ran, q) next =
    let (u, rest) = next a v q in (u, ap (resumed f) ran ∙ rest)

pub call-Refuses :
    {W E F A B : Type 0} (context : E → F) (m : Async W E A) (f : A → Async W F B) (w : W) (e : F)
    {Q : A → W → Type 0}
    → Completes m w Q
    → ((a : A) (v : W) → Q a v → Refuses (f a) v e)
    → Refuses (map_err context m >>= f) w e
call-Refuses context m f w e h next =
    bind-Refuses (map_err context m) f w e (map_err-Completes context m w h) next

-- A check that does not go through.
pub check-Refuses :
    {W B : Type 0} (condition : Bool) (message : String) (k : Async W String B) (w : W)
    → condition ≡ false
    → Refuses (require condition message >> k) w message
unfolding require
check-Refuses condition message k w h = rw h (w, refl)

-- A call that completes is found not to fail.
pub fails-found :
    {W E F A : Type 0} (m : Async W E A) (w : W) {Q : A → W → Type 0}
    → Completes m w Q
    → Completes (fails {F = F} m) w (λ absent v. absent ≡ false)
fails-found m w (a, v, ran, q) = (false, v, ap failing ran, refl)
