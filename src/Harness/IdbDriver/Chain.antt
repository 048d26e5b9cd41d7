-- ===== src/Harness/IdbDriver/Chain.antt =====
-- Chains of calls that complete: what their first call gave.
use rust_browser_proofs.Base.{String, ◌≡◌, refl, Bool, true, false, arith}
use rust_browser_proofs.Harness.Vfs.{Poll, done, failed, parked, Async, ◌>>=◌, ◌>>◌}
use rust_browser_proofs.Harness.Engine.{map_err}
use rust_browser_proofs.Harness.IdbDriver.{require, fails}

-- What holds of every outcome of the first call with which the rest completes holds.
told :
    {W E F A B C : Type 0} (context : E → F) (q : Poll E A × W) (f : A → Async W F B) (w : W)
    {b : B} {w' : W}
    → (map_err context (λ _. q) >>= f) w ≡ (done b, w')
    → ((a : A) (t : W) → q ≡ (done a, t) → f a t ≡ (done b, w') → C)
    → C
told context (done a, t) f w h k = k a t refl h
told context (failed e, t) f w h k = absurd (ground arith)
told context (parked, t) f w h k = absurd (ground arith)

pub from_told :
    {W E F A B C : Type 0} (context : E → F) (m : Async W E A) (f : A → Async W F B) (w : W) {b : B}
    {w' : W}
    → (map_err context m >>= f) w ≡ (done b, w')
    → ((a : A) (t : W) → m w ≡ (done a, t) → f a t ≡ (done b, w') → C)
    → C
from_told context m f w h k = told context (m w) f w h k

pub from_require :
    {W B C : Type 0} (condition : Bool) (message : String) (k : Async W String B) (w : W) {b : B}
    {w' : W}
    → (require condition message >> k) w ≡ (done b, w')
    → (condition ≡ true → k w ≡ (done b, w') → C)
    → C
unfolding require
from_require true message k w h next = next refl h
from_require false message k w h next = absurd (ground arith)

refused :
    {W E B C : Type 0} {A : Type 0} (message : String) (q : Poll E A × W) (k : Async W String B)
    (w : W) {b : B} {w' : W}
    → (fails (λ _. q) >>= λ absent. require absent message >> k) w ≡ (done b, w')
    → ((e : E) (t : W) → q ≡ (failed e, t) → k t ≡ (done b, w') → C)
    → C
unfolding require
refused message (done a, t) k w h next = absurd (ground arith)
refused message (failed e, t) k w h next = next e t refl h
refused message (parked, t) k w h next = absurd (ground arith)

-- A chain that requires its first call to fail completes only if that call fails.
pub from_refused :
    {W E A B C : Type 0} (message : String) (m : Async W E A) (k : Async W String B) (w : W) {b : B}
    {w' : W}
    → (fails m >>= λ absent. require absent message >> k) w ≡ (done b, w')
    → ((e : E) (t : W) → m w ≡ (failed e, t) → k t ≡ (done b, w') → C)
    → C
from_refused message m k w h next = refused message (m w) k w h next

done_first :
    {W E A B C : Type 0} (q : Poll E A × W) (f : A → Async W E B) (w : W) {b : B} {w' : W}
    → ((λ _. q) >>= f) w ≡ (done b, w')
    → ((a : A) (t : W) → q ≡ (done a, t) → f a t ≡ (done b, w') → C)
    → C
done_first (done a, t) f w h k = k a t refl h
done_first (failed e, t) f w h k = absurd (ground arith)
done_first (parked, t) f w h k = absurd (ground arith)

pub from_first :
    {W E A B C : Type 0} (m : Async W E A) (f : A → Async W E B) (w : W) {b : B} {w' : W}
    → (m >>= f) w ≡ (done b, w')
    → ((a : A) (t : W) → m w ≡ (done a, t) → f a t ≡ (done b, w') → C)
    → C
from_first m f w h k = done_first (m w) f w h k

told_last :
    {W E F A : Type 0} (context : E → F) (q : Poll E A × W) (w : W) {a : A} {w' : W}
    → map_err context (λ _. q) w ≡ (done a, w')
    → q ≡ (done a, w')
told_last context (done a, t) w h = ground arith
told_last context (failed e, t) w h = absurd (ground arith)
told_last context (parked, t) w h = absurd (ground arith)

-- The last call of a chain completed with what the chain gave.
pub from_last :
    {W E F A : Type 0} (context : E → F) (m : Async W E A) (w : W) {a : A} {w' : W}
    → map_err context m w ≡ (done a, w')
    → m w ≡ (done a, w')
from_last context m w h = told_last context (m w) w h
