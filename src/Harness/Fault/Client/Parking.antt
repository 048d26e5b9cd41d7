-- ===== src/Harness/Fault/Client/Parking.antt =====
-- A whole client over a wrapper of harness/src/fault.rs whose trigger parks, as the crash drivers
-- make it.
use mathlib.Core.List.{append-nil}
use rust_browser_proofs.Base.{
  ℕ, sym, List, ◌≡◌, refl, ◌∙◌, ap, ◌⊎◌, inl, inr, [], ◌∷◌, ◌++◌, Result, ok, err,
}
use rust_browser_proofs.Harness.Vfs.{Poll, done, failed, parked, Vfs}
use rust_browser_proofs.Harness.Fault.{FaultState, FaultCall, OpKind, Action, beacon}
use rust_browser_proofs.Harness.Fault.Client.{
  Call, Answer, plain, wrapped, Client, ends, asks, resume, run,
}
use rust_browser_proofs.Harness.Fault.Client.Faults.{Cut}
use rust_browser_proofs.Harness.Fault.Client.Cutting.{Yields, IsParked, Same, Same-trans}
use rust_browser_proofs.Harness.Fault.Client.Ticks.{call_ticks, client_ticks, answered_by}
use rust_browser_proofs.Harness.Fault.Trigger.Counting.{ticks, ticks-append}
use rust_browser_proofs.Harness.Fault.Client.Refinement.{wrapped-Yields}

module _ (V : Vfs) where
  -- The run is the back end's, and the trigger sees all its operations; or it parks behind the beacon that tells what the trigger waited for.
  abbrev pub Parks :
      {A : Type 0} → Client V A → FaultState V → Poll V.Error A × FaultState V → Type 0
  Parks c s q =
      ((run V (plain V) c s.inner ≡ (q.0, q.1.inner))
        × Same V s q.1
        × (q.1.trigger ≡ ticks (client_ticks V c s.inner) s.trigger))
      ⊎ (IsParked V q.0 × (q.1.beacons ≡ s.beacons ++ beacon V s.trigger.kind s.trigger.at ∷ []))

  -- A client that goes on undisturbed behind a call that was undisturbed.
  on-Parks :
      {A : Type 0} (c : Client V A) (d : Client V A) (js : List OpKind) (s t : FaultState V)
      (q : Poll V.Error A × FaultState V)
      → run V (plain V) c s.inner ≡ run V (plain V) d t.inner
      → client_ticks V c s.inner ≡ js ++ client_ticks V d t.inner
      → Same V s t
      → t.trigger ≡ ticks js s.trigger
      → Parks d t q
      → Parks c s q
  on-Parks c d js s t q e all same seen (inl h) = inl (
    e ∙ h.0,
    Same-trans V s t q.1 same h.1,
    h.2
        ∙ ap (ticks (client_ticks V d t.inner)) seen
        ∙ sym (ticks-append js (client_ticks V d t.inner) s.trigger)
        ∙ ap (λ ls. ticks ls s.trigger) (sym all),
  )
  on-Parks c d js s t q e all same seen (inr h) = inr (
    h.0,
    h.1
        ∙ ap (λ b. b ++ beacon V t.trigger.kind t.trigger.at ∷ []) same.2
        ∙ ap (λ (u : OpKind × ℕ × Action). s.beacons ++ beacon V u.0 u.1 ∷ []) same.1,
  )

  resume-Parks :
      {A : Type 0} (c : Call V) (k : Result V.Error (Answer V c) → Client V A) (s : FaultState V)
      (f : Result V.Error (Answer V c) → FaultCall V A)
      (q : Poll V.Error (Answer V c) × FaultState V)
      → s.trigger.action ≡ Action.park
      → Yields V (plain V c) (call_ticks V c s.inner) (Cut V c s.inner) s q
      → ((r : Result V.Error (Answer V c)) (t : FaultState V)
          → t.trigger.action ≡ Action.park
          → Parks (k r) t (f r t))
      → Parks (asks c k) s (resume V f q)
  unfolding run client_ticks
  resume-Parks c k s f (done a, t) parks (inl h) next =
      on-Parks (asks c k) (k (ok a)) (call_ticks V c s.inner) s t (f (ok a) t)
        (ap (resume V (λ r. run V (plain V) (k r))) h.0)
        (ap (λ o. call_ticks V c s.inner ++ answered_by V (λ r v. client_ticks V (k r) v) o) h.0)
        h.1 h.2 (next (ok a) t (ap (λ (u : OpKind × ℕ × Action). u.2) h.1.1 ∙ parks))
  resume-Parks c k s f (failed e, t) parks (inl h) next =
      on-Parks (asks c k) (k (err e)) (call_ticks V c s.inner) s t (f (err e) t)
        (ap (resume V (λ r. run V (plain V) (k r))) h.0)
        (ap (λ o. call_ticks V c s.inner ++ answered_by V (λ r v. client_ticks V (k r) v) o) h.0)
        h.1 h.2 (next (err e) t (ap (λ (u : OpKind × ℕ × Action). u.2) h.1.1 ∙ parks))
  resume-Parks c k s f (parked, t) parks (inl h) next = inl (
    ap (resume V (λ r. run V (plain V) (k r))) h.0,
    h.1,
    h.2
        ∙ ap (λ ls. ticks ls s.trigger)
            (sym (
              ap (λ o. call_ticks V c s.inner ++ answered_by V (λ r v. client_ticks V (k r) v) o)
                h.0
              ∙ append-nil (call_ticks V c s.inner))),
  )
  resume-Parks c k s f (done a, t) parks (inr h) next = absurd h.0
  resume-Parks c k s f (failed e, t) parks (inr h) next = absurd (h.2.1 parks).0
  resume-Parks c k s f (parked, t) parks (inr h) next = inr (tt, (h.2.1 parks).1)

  -- Over a wrapper whose trigger parks, a client either runs as over the back end, and nothing is
  -- posted and all its operations are seen, or it parks for good and one message is posted, with the kind and the occurrence that
  -- the trigger waited for.
  pub run-Parks :
      {A : Type 0} (c : Client V A) (s : FaultState V)
      → s.trigger.action ≡ Action.park
      → Parks c s (run V (wrapped V) c s)
  unfolding run client_ticks ticks
  run-Parks (ends a) s parks = inl (refl, (refl, refl, refl), refl)
  run-Parks (asks c k) s parks =
      resume-Parks c k s (λ r. run V (wrapped V) (k r)) (wrapped V c s) parks (wrapped-Yields V c s)
        (λ r t h. run-Parks (k r) t h)
