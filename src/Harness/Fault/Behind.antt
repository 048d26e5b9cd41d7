-- ===== src/Harness/Fault/Behind.antt =====
-- A trigger that fires behind a vectored write or behind a directory sync.
use rust_browser_proofs.Base.{
  String, ◌≡◌, refl, ◌≢◌, ◌∙◌, ap, sym, subst, inl, inr, List, ltb, arith, if◌then◌else◌,
  Option-cases,
}
use rust_browser_proofs.Harness.Vfs.{Poll, done, failed, parked, Async, ◌>>◌, pure, Request, Vfs}
use rust_browser_proofs.Harness.Fault.Trigger.{
  OpKind, op_kind_eq, TriggerState, count_tick, pass, vectored_sub_write, vectored_write,
  sync_dir_before, sync_dir_after,
}
use rust_browser_proofs.Harness.Fault.Transparency.{
  IsQuiet, write_each, plain_write_at_vectored, lifted, after, tick-then, sub_writes-quiet,
  extend_lem,
}
use rust_browser_proofs.Harness.Fault.Cut.{IsStopped, tick-Stops}
use rust_browser_proofs.Harness.Fault
use rust_browser_proofs.Harness.Fault.{
  FaultState, FaultCall, inner_call, tick, max_end, sub_writes, extend,
}

module _ (V : Vfs) where
  -- The operations that tick when they have run, with their arguments.
  pub data Followed : Type 0 where
    write_at_vectored : V.File → List Request → Followed
    sync_dir : String → Followed

  -- The kinds that they count on the way, and at their end.
  abbrev pub inside_kind : Followed → OpKind
  inside_kind (write_at_vectored file reqs) = vectored_sub_write
  inside_kind (sync_dir path) = sync_dir_before

  abbrev pub end_kind : Followed → OpKind
  end_kind (write_at_vectored file reqs) = vectored_write
  end_kind (sync_dir path) = sync_dir_after

  abbrev pub perform : Followed → FaultCall V (Unit {0})
  perform (write_at_vectored file reqs) = Fault.write_at_vectored V file reqs
  perform (sync_dir path) = Fault.sync_dir V path

  -- The same with no trigger.
  abbrev pub plain : Followed → Async V.World V.Error (Unit {0})
  plain (write_at_vectored file reqs) = plain_write_at_vectored V file reqs
  plain (sync_dir path) = V.sync_dir path

  -- A chain that begins with a call of the back end, where the rest is one call and a tick.
  ending :
      {A : Type 0} (kind : OpKind) (f : A → FaultCall V (Unit {0}))
      (g : A → Async V.World V.Error (Unit {0})) (s : FaultState V) (q : Poll V.Error A × V.World)
      → ((a : A) (w : V.World)
          → f a (record s { inner = w }) ≡ after V (λ _. tick V kind) (lifted V s (g a w)))
      → after V f (lifted V s q) ≡ after V (λ _. tick V kind) (lifted V s (after V g q))
  ending kind f g s (done a, w) h = h a w
  ending kind f g s (failed e, w) h = refl
  ending kind f g s (parked, w) h = refl

  -- While what is counted on the way is quiet, an operation is its plain form and a tick.
  perform-quiet :
      (op : Followed) (s : FaultState V)
      → IsQuiet V (inside_kind op) s
      → perform op s ≡ (inner_call V (plain op) >> tick V (end_kind op)) s
  unfolding Fault.write_at_vectored Fault.sync_dir plain_write_at_vectored
  perform-quiet (sync_dir path) s quiet =
      tick-then V sync_dir_before (inner_call V (V.sync_dir path) >> tick V sync_dir_after) s quiet
  perform-quiet (write_at_vectored file reqs) s quiet = elim (Option-cases (max_end reqs 0)) [
    | inl e ↦ rw (e, Fault.write_at_vectored, plain_write_at_vectored) refl
    | inr (end, e) ↦
        rw (e, Fault.write_at_vectored, plain_write_at_vectored)
          (ending vectored_write
            (λ len. extend V file len end >> (sub_writes V file reqs >> tick V vectored_write))
            (λ len.
              (if ltb len end then V.truncate file end else pure tt) >> write_each V file reqs)
            s (V.len file s.inner)
            λ len w.
              ap (after V (λ _. sub_writes V file reqs >> tick V vectored_write))
                (extend_lem V file len end (record s { inner = w }))
              ∙ ending vectored_write (λ _. sub_writes V file reqs >> tick V vectored_write)
                  (λ _. write_each V file reqs) (record s { inner = w })
                  ((if ltb len end then V.truncate file end else pure tt) w)
                  λ a u.
                    ap (after V (λ _. tick V vectored_write))
                      (sub_writes-quiet V file reqs (record s { inner = u }) quiet))
  ]

  -- A trigger fires at its own kind only.
  fires-kind : (kind : OpKind) (t : TriggerState) → (count_tick kind t).0 ≢ pass → kind ≡ t.kind
  unfolding count_tick
  fires-kind kind t h = ground arith

  inside-ne-end : (op : Followed) → inside_kind op ≢ end_kind op
  inside-ne-end (write_at_vectored file reqs) e = cc
  inside-ne-end (sync_dir path) e = cc

  -- A trigger that fires at the end of a vectored write or of a directory sync leaves the back end
  -- in the state of the operation run to its end, and yet the call does not complete.
  pub fired_behind :
      (op : Followed) (s : FaultState V) (w : V.World)
      → (count_tick (end_kind op) s.trigger).0 ≢ pass
      → plain op s.inner ≡ (done tt, w)
      → IsStopped V (perform op s).0 × ((perform op s).1.inner ≡ w)
  fired_behind op s w fires complete =
      let own = fires-kind (end_kind op) s.trigger fires in
      subst (λ q. IsStopped V q.0 × (q.1.inner ≡ w))
        (sym (
          perform-quiet op s (inr (λ e. inside-ne-end op (e ∙ sym own)))
          ∙ ap (λ q. after V (λ _. tick V (end_kind op)) (lifted V s q)) complete))
        (tick-Stops V (end_kind op) (record s { inner = w }) fires)
