-- ===== src/Harness/Engine/Doomed.antt =====
-- A commit that is to be lost: a database prepares it over a wrapper of harness/src/fault.rs that is
-- not armed, then the driver arms the wrapper and commits.
use rust_browser_proofs.Base.{
  ◌≤◌, ◌<◌, ◌^◌, arith, true, ℕ, String, ◌≡◌, refl, ◌∙◌, ap, sym, subst, ◌⊎◌, inl, inr, false, List,
  [], ◌∷◌, ◌++◌,
}
use rust_browser_proofs.Harness.Vfs.{Poll, done, failed, parked, Async, ◌>>=◌, Vfs}
use rust_browser_proofs.Harness.Engine.{map_err}
use rust_browser_proofs.Harness.Fault.{
  FaultState, TriggerState, OpKind, Action, unfired, arm, beacon,
}
use rust_browser_proofs.Harness.Fault.Client.{plain, wrapped, Client, run}
use rust_browser_proofs.Harness.Fault.Client.Unarmed.{run-unarmed}
use rust_browser_proofs.Harness.Fault.Client.Faults.{Allowed}
use rust_browser_proofs.Harness.Fault.Client.Cutting.{IsParked}
use rust_browser_proofs.Harness.Fault.Client.Refinement.{run-Allowed}
use rust_browser_proofs.Harness.Fault.Client.Ticks.{client_ticks}
use rust_browser_proofs.Harness.Fault.Trigger.Counting.{ticks, occurrences, ticks-firings}
use rust_browser_proofs.Harness.Fault.Client.Parking.{Parks, run-Parks}

module _ (V : Vfs) where
  -- A chain of the back end, over the wrapper.
  abbrev pub lift : {E A : Type 0} → Async V.World E A → Async (FaultState V) E A
  lift m s = let (p, w) = m s.inner in (p, record s { inner = w })

  -- Until the wrapper is armed, the chain does what `n` does over the back end, and `next` behind it.
  abbrev pub Continues :
      {E A B : Type 0}
      → Async (FaultState V) E B
      → Async V.World E A
      → (A → Async (FaultState V) E B)
      → Type 0
  Continues m n next = (s : FaultState V) → s.trigger.armed ≡ false → m s ≡ (lift n >>= next) s

  told :
      {A B C : Type 0} (context : V.Error → String) (f : A → Async (FaultState V) String C)
      (g : A → Async V.World String B) (next : B → Async (FaultState V) String C)
      (q : Poll V.Error A × V.World) (s : FaultState V)
      → s.trigger.armed ≡ false
      → ((a : A) → Continues (f a) (g a) next)
      → (map_err context (lift (λ _. q)) >>= f) s
        ≡ (lift (map_err context (λ _. q) >>= g) >>= next) s
  told context f g next (done a, w) s h k = k a (record s { inner = w }) h
  told context f g next (failed e, w) s h k = refl
  told context f g next (parked, w) s h k = refl

  -- A chain that begins with a client, its errors told in some way.
  pub client-Continues :
      {A B C : Type 0} (context : V.Error → String) (c : Client V A)
      (f : A → Async (FaultState V) String C) (g : A → Async V.World String B)
      (next : B → Async (FaultState V) String C)
      → ((a : A) → Continues (f a) (g a) next)
      → Continues
          (map_err context (run V (wrapped V) c) >>= f)
          (map_err context (run V (plain V) c) >>= g)
          next
  client-Continues context c f g next k s h =
      ap (λ q. (map_err context (λ (t : FaultState V). q) >>= f) s) (run-unarmed V c s h)
      ∙ told context f g next (run V (plain V) c s.inner) s h k

  -- An outcome, with its error told in some way.
  abbrev pub telling : {A : Type 0} → (V.Error → String) → Poll V.Error A → Poll String A
  telling context (done a) = done a
  telling context (failed e) = failed (context e)
  telling context parked = parked

  -- Of so many occurrences, no more than a count holds, one is the chosen one.
  abbrev Reaches : ℕ → ℕ → Type 0
  Reaches at n = (1 ≤ at) × (at ≤ n) × (n < 2 ^ 64)

  module _ {Txn : Type 0} (context : V.Error → String) (commit : Txn → Client V (Unit {0})) where
    -- The wrapper is armed and the transaction committed.
    abbrev pub finish : Txn → Async (FaultState V) String (Unit {0})
    finish txn s = map_err context (run V (wrapped V) (commit txn)) (arm V s)

    -- What the driver comes to, by what the preparation over the back end came to. If that failed or
    -- parked, so did the driver. Else its commit is a run that the specification of a faulty file
    -- system allows: the undisturbed one, with nothing posted, which is so only if its operations do
    -- not reach the occurrence or are more of its kind than a count holds; or one that parks behind the message of this kind and occurrence.
    abbrev pub EndsAs :
        OpKind
        → ℕ
        → List String
        → Poll String Txn × V.World
        → Poll String (Unit {0}) × (V.World × List String)
        → Type 0
    EndsAs kind at posted (failed e, v) q = q ≡ (failed e, (v, posted))
    EndsAs kind at posted (parked, v) q = q ≡ (parked, (v, posted))
    EndsAs kind at posted (done txn, v) q =
        (r : Poll V.Error (Unit {0})) × (cuts : ℕ) × (q.0 ≡ telling context r)
        × Allowed V (commit txn) v r q.1.0 cuts
        × (((run V (plain V) (commit txn) v ≡ (r, q.1.0))
              × (q.1.1 ≡ posted)
              × ¬ Reaches at (occurrences kind (client_ticks V (commit txn) v)))
            ⊎ (IsParked V r × (q.1.1 ≡ posted ++ beacon V kind at ∷ [])))

    -- An undisturbed run has not reached the occurrence.
    missed :
        (kind : OpKind) (at : ℕ) (js : List OpKind) (t : TriggerState)
        → t ≡ ticks js (unfired kind at Action.park true)
        → t.fired ≡ 0
        → ¬ Reaches at (occurrences kind js)
    missed kind at js t seen quiet (first, reached, small) =
        let e = (ticks-firings js kind at Action.park small).1 in
        ground (arith, e, ap (λ (u : TriggerState). u.fired) seen)

    abbrev pub observed :
        Poll String (Unit {0}) × FaultState V → Poll String (Unit {0}) × (V.World × List String)
    observed q = (q.0, (q.1.inner, q.1.beacons))

    -- A wrapper that was just made, but for the messages of its worker.
    abbrev pub fresh : OpKind → ℕ → List String → V.World → FaultState V
    fresh kind at posted w = record {
      inner = w;
      trigger = unfired kind at Action.park false;
      beacons = posted;
    }

    committed :
        (kind : OpKind) (at : ℕ) (posted : List String) (txn : Txn) (v : V.World)
        (q : Poll V.Error (Unit {0}) × FaultState V) (cuts : ℕ)
        → Allowed V (commit txn) v q.0 q.1.inner cuts
        → Parks V (commit txn) (arm V (fresh kind at posted v)) q
        → EndsAs kind at posted
            (done txn, v)
            (observed (map_err context (λ (t : FaultState V). q) q.1))
    unfolding arm
    committed kind at posted txn v (done a, t) cuts allowed (inl h) =
        (done a, cuts, refl, allowed, inl (h.0, h.1.2, missed kind at _ t.trigger h.2 h.1.0))
    committed kind at posted txn v (failed e, t) cuts allowed (inl h) =
        (failed e, cuts, refl, allowed, inl (h.0, h.1.2, missed kind at _ t.trigger h.2 h.1.0))
    committed kind at posted txn v (parked, t) cuts allowed (inl h) =
        (parked, cuts, refl, allowed, inl (h.0, h.1.2, missed kind at _ t.trigger h.2 h.1.0))
    committed kind at posted txn v (done a, t) cuts allowed (inr h) = absurd h.0
    committed kind at posted txn v (failed e, t) cuts allowed (inr h) = absurd h.0
    committed kind at posted txn v (parked, t) cuts allowed (inr h) =
        (parked, cuts, refl, allowed, inr h)

    -- The driver behind its preparation.
    finish-EndsAs :
        (kind : OpKind) (at : ℕ) (posted : List String) (w : V.World)
        (p : Poll String Txn × V.World)
        → EndsAs kind at posted p (observed ((lift (λ _. p) >>= finish) (fresh kind at posted w)))
    unfolding arm
    finish-EndsAs kind at posted w (failed e, v) = refl
    finish-EndsAs kind at posted w (parked, v) = refl
    finish-EndsAs kind at posted w (done txn, v) =
        let s = arm V (fresh kind at posted v) in
        let (cuts, allowed, counted) = run-Allowed V (commit txn) s in
        committed kind at posted txn v (run V (wrapped V) (commit txn) s) cuts allowed
          (run-Parks V (commit txn) s refl)

    -- The driver from the wrapper that it makes, where its chain prepares the commit by `prepared`.
    pub driver-EndsAs :
        (driver : Async (FaultState V) String (Unit {0})) (prepared : Async V.World String Txn)
        (kind : OpKind) (at : ℕ) (posted : List String) (w : V.World)
        → Continues driver prepared finish
        → EndsAs kind at posted (prepared w) (observed (driver (fresh kind at posted w)))
    driver-EndsAs driver prepared kind at posted w continues =
        subst (λ q. EndsAs kind at posted (prepared w) (observed q))
          (sym (continues (fresh kind at posted w) refl))
          (finish-EndsAs kind at posted w (prepared w))
