-- ===== src/Harness/Fault/Client/Cutting.antt =====
-- Where an operation of the wrapper in harness/src/fault.rs can be cut, step by step.
use rust_browser_proofs.Base.{
  ℕ, String, ◌+◌, ◌%◌, ◌^◌, ◌≡◌, refl, ◌∙◌, ap, sym, subst, ◌⊎◌, inl, inr, List, [], ◌∷◌, ◌++◌,
}
use rust_browser_proofs.Harness.Vfs.{Poll, done, failed, parked, Async, ◌>>=◌, ◌>>◌, pure, Vfs}
use rust_browser_proofs.Harness.Fault.Trigger.{
  OpKind, Action, TriggerState, count_tick, Fire, pass, inject,
}
use mathlib.Core.List.{append-nil}
use rust_browser_proofs.Harness.Fault.Client.Ticks.{behind}
use rust_browser_proofs.Harness.Fault.Trigger.Counting.{ticks, ticks-append}
use rust_browser_proofs.Harness.Fault.Trigger.Firing.{setup, Counted, count_tick-Counted}
use rust_browser_proofs.Harness.Fault.{FaultState, FaultCall, inner_call, respond, tick, beacon}
use rust_browser_proofs.Harness.Fault.Transparency.{after}
use rust_browser_proofs.Harness.Fault.Client.Faults.{IsInjected}

module _ (V : Vfs) where
  -- How a call ends that is cut.
  abbrev pub Interrupted : {A : Type 0} → Poll V.Error A → Type 0
  Interrupted (done a) = ⊥
  Interrupted (failed e) = IsInjected V e
  Interrupted parked = Unit

  abbrev pub IsParked : {A : Type 0} → Poll V.Error A → Type 0
  IsParked (done a) = ⊥
  IsParked (failed e) = ⊥
  IsParked parked = Unit

  -- The trigger has not fired, and nothing is posted.
  abbrev pub Same : FaultState V → FaultState V → Type 0
  Same s t =
      (t.trigger.fired ≡ s.trigger.fired)
      × (setup t.trigger ≡ setup s.trigger)
      × (t.beacons ≡ s.beacons)

  -- It has fired once more. If it is to park, the call parks behind its beacon.
  abbrev pub OneMore : {A : Type 0} → FaultState V → Poll V.Error A × FaultState V → Type 0
  OneMore s q =
      (q.1.trigger.fired ≡ (s.trigger.fired + 1) % 2 ^ 64)
      × (s.trigger.action ≡ Action.park
          → IsParked q.0 × (q.1.beacons ≡ s.beacons ++ beacon V s.trigger.kind s.trigger.at ∷ []))

  pub Same-trans : (s t u : FaultState V) → Same s t → Same t u → Same s u
  Same-trans s t u h k = (k.0 ∙ h.0, k.1 ∙ h.1, k.2 ∙ h.2)

  Same-OneMore :
      {A : Type 0} (s t : FaultState V) (q : Poll V.Error A × FaultState V)
      → Same s t
      → OneMore t q
      → OneMore s q
  Same-OneMore s t q h k = (
    k.0 ∙ ap (λ f. (f + 1) % 2 ^ 64) h.0,
    λ parks.
        let (stands, posted) = k.1 (ap (λ (u : OpKind × ℕ × Action). u.2) h.1 ∙ parks) in
        (
          stands,
          posted
              ∙ ap (λ (b : List String). b ++ beacon V t.trigger.kind t.trigger.at ∷ []) h.2
              ∙ ap (λ (u : OpKind × ℕ × Action). s.beacons ++ beacon V u.0 u.1 ∷ []) h.1,
        ),
  )

  -- A call of the wrapper does what `m` does, and the trigger sees `js` and does not fire; or it is cut where `P`
  -- holds and the trigger fires once.
  abbrev pub Yields :
      {A : Type 0}
      → Async V.World V.Error A
      → List OpKind
      → (V.World → Type 0)
      → FaultState V
      → Poll V.Error A × FaultState V
      → Type 0
  Yields m js P s q =
      ((m s.inner ≡ (q.0, q.1.inner)) × Same s q.1 × (q.1.trigger ≡ ticks js s.trigger))
      ⊎ (Interrupted q.0 × P q.1.inner × OneMore s q)

  pub Yields-ticks :
      {A : Type 0} (m : Async V.World V.Error A) (js ks : List OpKind) (P : V.World → Type 0)
      (s : FaultState V) (q : Poll V.Error A × FaultState V)
      → js ≡ ks
      → Yields m js P s q
      → Yields m ks P s q
  Yields-ticks m js ks P s q e h = subst (λ ls. Yields m ls P s q) e h

  Yields-eq :
      {A : Type 0} (m n : Async V.World V.Error A) (js : List OpKind) (P : V.World → Type 0)
      (s : FaultState V) (q : Poll V.Error A × FaultState V)
      → m s.inner ≡ n s.inner
      → Yields m js P s q
      → Yields n js P s q
  Yields-eq m n js P s q e (inl h) = inl (sym e ∙ h.0, h.1, h.2)
  Yields-eq m n js P s q e (inr h) = inr h

  pub Yields-widen :
      {A : Type 0} (m : Async V.World V.Error A) (js : List OpKind) (P R : V.World → Type 0)
      (s : FaultState V) (q : Poll V.Error A × FaultState V)
      → ((v : V.World) → P v → R v)
      → Yields m js P s q
      → Yields m js R s q
  Yields-widen m js P R s q widen (inl h) = inl h
  Yields-widen m js P R s q widen (inr h) = inr (h.0, widen _ h.1, h.2)

  respond-Yields :
      (kind : OpKind) (fire : Fire) (s : FaultState V) (trigger : TriggerState)
      → Counted kind s.trigger fire trigger
      → trigger ≡ ticks (kind ∷ []) s.trigger
      → Yields
          (pure tt)
          (kind ∷ [])
          (λ v. v ≡ s.inner)
          s
          (respond V kind fire (record s { trigger = trigger }))
  respond-Yields kind pass s trigger h seen = inl (refl, (h.0, h.1, refl), seen)
  respond-Yields kind (inject n) s trigger h seen =
      inr ((kind, n, refl), refl, (h.0, λ e. absurd (h.1 e)))
  respond-Yields kind (Fire.park n) s trigger h seen = inr (
    tt,
    refl,
    (
      h.0,
      λ e. (
        tt,
        ap (λ k. s.beacons ++ beacon V k n ∷ []) h.1
            ∙ ap (λ m. s.beacons ++ beacon V s.trigger.kind m ∷ []) h.2,
      ),
    ),
  )

  tick-Yields :
      (kind : OpKind) (s : FaultState V)
      → Yields (pure tt) (kind ∷ []) (λ v. v ≡ s.inner) s (tick V kind s)
  unfolding tick ticks
  tick-Yields kind s =
      respond-Yields kind (count_tick kind s.trigger).0 s (count_tick kind s.trigger).1
        (count_tick-Counted kind s.trigger) refl

  -- What was seen and fired since the middle of a chain, since its start.
  since :
      {A : Type 0} (m : Async V.World V.Error A) (js ks : List OpKind) (R : V.World → Type 0)
      (s t : FaultState V) (q : Poll V.Error A × FaultState V)
      → Same s t
      → t.trigger ≡ ticks js s.trigger
      → Yields m ks R t q
      → Yields (λ _. m t.inner) (js ++ ks) R s q
  since m js ks R s t q same seen (inl h) = inl (
    h.0,
    Same-trans s t q.1 same h.1,
    h.2 ∙ ap (ticks ks) seen ∙ sym (ticks-append js ks s.trigger),
  )
  since m js ks R s t q same seen (inr h) = inr (h.0, h.1, Same-OneMore s t q same h.2)

  -- Nothing is seen behind a call that is not done.
  seen_no_more :
      {O : Type 0} (js : List OpKind) (o : O) (rest : O → List OpKind) (o' : O)
      → o ≡ o'
      → rest o' ≡ []
      → (s t : FaultState V) → t.trigger ≡ ticks js s.trigger
      → t.trigger ≡ ticks (js ++ rest o) s.trigger
  seen_no_more js o rest o' e none_left s t seen =
      seen
      ∙ ap (λ ls. ticks ls s.trigger)
          (sym (ap (λ o. js ++ rest o) e ∙ ap (λ ls. js ++ ls) none_left ∙ append-nil js))

  pub after-Yields :
      {A B : Type 0} (m : Async V.World V.Error A) (n : A → Async V.World V.Error B)
      (k : A → FaultCall V B) (js : List OpKind) (ks : A → V.World → List OpKind)
      (P R : V.World → Type 0) (s : FaultState V) (q : Poll V.Error A × FaultState V)
      → ((v : V.World) → P v → R v)
      → ((a : A) (t : FaultState V)
          → m s.inner ≡ (done a, t.inner)
          → Yields (n a) (ks a t.inner) R t (k a t))
      → Yields m js P s q
      → Yields (m >>= n) (js ++ behind V ks (m s.inner)) R s (after V k q)
  after-Yields m n k js ks P R s (done a, t) widen next (inl e) =
      Yields-ticks (m >>= n) (js ++ ks a t.inner) (js ++ behind V ks (m s.inner)) R s (k a t)
        (ap (λ o. js ++ behind V ks o) (sym e.0))
        (Yields-eq (λ _. n a t.inner) (m >>= n) (js ++ ks a t.inner) R s (k a t)
          (sym (ap (after V n) e.0))
          (since (n a) js (ks a t.inner) R s t (k a t) e.1 e.2 (next a t e.0)))
  after-Yields m n k js ks P R s (failed x, t) widen next (inl e) = inl (
    ap (after V n) e.0,
    e.1,
    seen_no_more js (m s.inner) (behind V ks) (failed x, t.inner) e.0 refl s t e.2,
  )
  after-Yields m n k js ks P R s (parked, t) widen next (inl e) = inl (
    ap (after V n) e.0,
    e.1,
    seen_no_more js (m s.inner) (behind V ks) (parked, t.inner) e.0 refl s t e.2,
  )
  after-Yields m n k js ks P R s (done a, t) widen next (inr h) = absurd h.0
  after-Yields m n k js ks P R s (failed x, t) widen next (inr h) = inr (h.0, widen _ h.1, h.2)
  after-Yields m n k js ks P R s (parked, t) widen next (inr h) = inr (h.0, widen _ h.1, h.2)

  -- A call of the wrapped back end, where nothing can cut it.
  call-Yields :
      {A : Type 0} (m : Async V.World V.Error A) (P : V.World → Type 0) (s : FaultState V)
      → Yields m [] P s (inner_call V m s)
  unfolding ticks
  call-Yields m P s = inl (refl, (refl, refl, refl), refl)

  -- A tick in front of a call cuts it before it has done anything.
  pub tick-then-Yields :
      {A : Type 0} (kind : OpKind) (m : Async V.World V.Error A) (js : List OpKind)
      (P : V.World → Type 0) (k : FaultCall V A) (s : FaultState V)
      → P s.inner
      → ((t : FaultState V) → t.inner ≡ s.inner → Yields m js P t (k t))
      → Yields m (kind ∷ js) P s ((tick V kind >> k) s)
  tick-then-Yields kind m js P k s before next =
      after-Yields (pure tt) (λ _. m) (λ _. k) (kind ∷ []) (λ _ v. js) (λ v. v ≡ s.inner) P s
        (tick V kind s) (λ v e. subst P (sym e) before)
        (λ a t e. next t (sym (ap (λ (q : Poll V.Error (Unit {0}) × V.World). q.1) e)))
        (tick-Yields kind s)

  >>pure-Yields : (m : Async V.World V.Error (Unit {0})) (w : V.World) → (m >> pure tt) w ≡ m w
  >>pure-Yields m w = same (m w)
    where
      same : (q : Poll V.Error (Unit {0}) × V.World) → after V (λ _. pure tt) q ≡ q
      same (done tt, v) = refl
      same (failed e, v) = refl
      same (parked, v) = refl

  -- A tick behind a call cuts it when it has done all.
  pub then-tick-Yields :
      (kind : OpKind) (m : Async V.World V.Error (Unit {0})) (js : List OpKind)
      (P : V.World → Type 0) (f : FaultCall V (Unit {0})) (s : FaultState V)
      → ((v : V.World) → m s.inner ≡ (done tt, v) → P v)
      → Yields m js P s (f s)
      → Yields m (js ++ behind V (λ _ v. kind ∷ []) (m s.inner)) P s ((f >> tick V kind) s)
  then-tick-Yields kind m js P f s before h =
      let all = js ++ behind V (λ _ v. kind ∷ []) (m s.inner) in
      Yields-eq (m >> pure tt) m all P s ((f >> tick V kind) s) (>>pure-Yields m s.inner) (
        after-Yields m (λ _. pure tt) (λ _. tick V kind) js (λ _ v. kind ∷ []) P P s (f s)
          (λ v p. p)
          (λ a t e. elim (tick-Yields kind t) [
            | inl d ↦ inl d
            | inr (i, d, fired) ↦ inr (i, subst P (sym d) (before t.inner e), fired)
          ])
          h)
