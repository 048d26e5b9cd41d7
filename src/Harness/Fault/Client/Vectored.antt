-- ===== src/Harness/Fault/Client/Vectored.antt =====
-- Where a vectored write of the wrapper in harness/src/fault.rs can be cut.
use rust_browser_proofs.Base.{
  ℕ, suc, ◌≤◌, ◌≡◌, refl, ◌∙◌, ap, sym, inl, inr, List, [], ◌∷◌, some, Option-cases, ltb, arith,
  if◌then◌else◌, take, take_all, length,
}
use rust_browser_proofs.Harness.Vfs.{Poll, done, Async, ◌>>◌, pure, Request, Vfs}
use rust_browser_proofs.Harness.Fault.Trigger.{vectored_sub_write, vectored_write}
use rust_browser_proofs.Harness.Fault.Trigger.Firing.{setup}
use rust_browser_proofs.Harness.Fault
use rust_browser_proofs.Harness.Fault.{
  FaultState, FaultCall, inner_call, respond, tick, max_end, sub_writes, extend, injected, beacon,
  fault_vfs,
}
use rust_browser_proofs.Harness.Fault.Transparency.{
  write_each, plain_write_at_vectored, after, extend_lem,
}
use rust_browser_proofs.Harness.Fault.Client.Faults.{Torn}
use rust_browser_proofs.Harness.Fault.Client.Ticks.{
  sub_ticks, written_ticks, extended_ticks, batch_ticks,
}
use rust_browser_proofs.Harness.Fault.Trigger.Counting.{ticks}
use rust_browser_proofs.Harness.Fault.Client.Cutting.{
  Yields, after-Yields, Yields-widen, Yields-ticks, tick-then-Yields, then-tick-Yields,
}

module _ (V : Vfs) where
  -- The first of the requests are written, and no other.
  abbrev Started : V.File → List Request → V.World → V.World → Type 0
  Started file reqs w v =
      (count : ℕ) × (count ≤ length reqs) × (write_each V file (take count reqs) w ≡ (done tt, v))

  sub_writes-Yields :
      (file : V.File) (reqs : List Request) (s : FaultState V)
      → Yields V
          (write_each V file reqs)
          (sub_ticks V file reqs s.inner)
          (Started file reqs s.inner)
          s
          (sub_writes V file reqs s)
  unfolding sub_writes write_each sub_ticks ticks
  sub_writes-Yields file [] s = inl (refl, (refl, refl, refl), refl)
  sub_writes-Yields file (r ∷ rs) s =
      after-Yields V (V.write_at file r.offset r.buf) (λ _. write_each V file rs)
        (λ _. tick V vectored_sub_write >> sub_writes V file rs) []
        (λ _ v. vectored_sub_write ∷ sub_ticks V file rs v) (λ v. ⊥) (Started file (r ∷ rs) s.inner)
        s (inner_call V (V.write_at file r.offset r.buf) s) (λ v h. absurd h)
        (λ a t e.
          tick-then-Yields V vectored_sub_write (write_each V file rs) (sub_ticks V file rs t.inner)
            (Started file (r ∷ rs) s.inner) (sub_writes V file rs) t
            (1, omega arith, ap (after V (λ _. pure tt)) e)
            (λ u e'.
              Yields-widen V (write_each V file rs) (sub_ticks V file rs t.inner)
                (Started file rs u.inner) (Started file (r ∷ rs) s.inner) u (sub_writes V file rs u)
                (λ v h. (
                  suc h.0,
                  omega (arith, h.1),
                  ap (after V (λ _. write_each V file (take h.0 rs))) e
                      ∙ ap (write_each V file (take h.0 rs)) (sym e')
                      ∙ h.2,
                ))
                (Yields-ticks V (write_each V file rs) (sub_ticks V file rs u.inner)
                  (sub_ticks V file rs t.inner) (Started file rs u.inner) u (sub_writes V file rs u)
                  (ap (sub_ticks V file rs) e') (sub_writes-Yields file rs u))))
        (inl (refl, (refl, refl, refl), refl))

  written-Yields :
      (file : V.File) (reqs : List Request) (s : FaultState V)
      → Yields V
          (write_each V file reqs)
          (written_ticks V file reqs s.inner)
          (Started file reqs s.inner)
          s
          ((sub_writes V file reqs >> tick V vectored_write) s)
  written-Yields file reqs s =
      then-tick-Yields V vectored_write (write_each V file reqs) (sub_ticks V file reqs s.inner)
        (Started file reqs s.inner) (sub_writes V file reqs) s
        (λ v e.
          (length reqs, omega arith, ap (λ l. write_each V file l s.inner) (take_all reqs) ∙ e))
        (sub_writes-Yields file reqs s)

  abbrev plain_extend : V.File → ℕ → ℕ → Async V.World V.Error (Unit {0})
  plain_extend file size end = if ltb size end then V.truncate file end else pure tt

  extend-Yields :
      (file : V.File) (size end : ℕ) (s : FaultState V)
      → Yields V (plain_extend file size end) [] (λ v. ⊥) s (extend V file size end s)
  unfolding ticks
  extend-Yields file size end s =
      let e = extend_lem V file size end s in
      inl (
        sym (ap (λ (q : Poll V.Error (Unit {0}) × FaultState V). (q.0, q.1.inner)) e),
        (
          ap (λ (q : Poll V.Error (Unit {0}) × FaultState V). q.1.trigger.fired) e,
          ap (λ (q : Poll V.Error (Unit {0}) × FaultState V). setup q.1.trigger) e,
          ap (λ (q : Poll V.Error (Unit {0}) × FaultState V). q.1.beacons) e,
        ),
        ap (λ (q : Poll V.Error (Unit {0}) × FaultState V). q.1.trigger) e,
      )

  measured-Yields :
      (file : V.File) (reqs : List Request) (end : ℕ) (w : V.World)
      → max_end reqs 0 ≡ some end
      → (size : ℕ) (s : FaultState V) → V.len file w ≡ (done size, s.inner)
      → Yields V
          (plain_extend file size end >> write_each V file reqs)
          (extended_ticks V file reqs end size s.inner)
          (Torn V file reqs w)
          s
          ((extend V file size end >> (sub_writes V file reqs >> tick V vectored_write)) s)
  measured-Yields file reqs end w valid size s measured =
      after-Yields V (plain_extend file size end) (λ _. write_each V file reqs)
        (λ _. sub_writes V file reqs >> tick V vectored_write) []
        (λ _ v. written_ticks V file reqs v) (λ v. ⊥) (Torn V file reqs w) s
        (extend V file size end s) (λ v h. absurd h)
        (λ a u extended.
          Yields-widen V (write_each V file reqs) (written_ticks V file reqs u.inner)
            (Started file reqs u.inner) (Torn V file reqs w) u
            ((sub_writes V file reqs >> tick V vectored_write) u)
            (λ v h. record {
              end = end;
              size = size;
              w₀ = s.inner;
              w₁ = u.inner;
              count = h.0;
              valid = valid;
              measured = measured;
              extended = extended;
              bounded = h.1;
              written = h.2;
            })
            (written-Yields file reqs u))
        (extend-Yields file size end s)

  pub write_at_vectored-Yields :
      (file : V.File) (reqs : List Request) (s : FaultState V)
      → Yields V
          (plain_write_at_vectored V file reqs)
          (batch_ticks V file reqs (max_end reqs 0) s.inner)
          (Torn V file reqs s.inner)
          s
          (Fault.write_at_vectored V file reqs s)
  unfolding Fault.write_at_vectored plain_write_at_vectored ticks
  write_at_vectored-Yields file reqs s = elim (Option-cases (max_end reqs 0)) [
    | inl e ↦
        rw (e, Fault.write_at_vectored, plain_write_at_vectored)
          (inl (refl, (refl, refl, refl), refl))
    | inr (end, valid) ↦
        rw (valid, Fault.write_at_vectored, plain_write_at_vectored)
          (after-Yields V (V.len file)
            (λ size. plain_extend file size end >> write_each V file reqs)
            (λ size. extend V file size end >> (sub_writes V file reqs >> tick V vectored_write)) []
            (λ size v. extended_ticks V file reqs end size v) (λ v. ⊥) (Torn V file reqs s.inner) s
            (inner_call V (V.len file) s) (λ v h. absurd h)
            (λ size t measured. measured-Yields file reqs end s.inner valid size t measured)
            (inl (refl, (refl, refl, refl), refl)))
  ]
