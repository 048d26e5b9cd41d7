-- ===== src/Harness/Fault/Client/Refinement.antt =====
-- A whole client over an armed wrapper of harness/src/fault.rs, against a specification of what a
-- file system may do at a crash or a fault.
use rust_browser_proofs.Base.{
  ℕ, suc, [], ◌∷◌, ◌+◌, ◌%◌, ◌^◌, arith, ◌≡◌, refl, ◌∙◌, ap, sym, inl, inr, Result, ok, err,
}
use rust_browser_proofs.Harness.Vfs.{Poll, done, failed, parked, ◌>>◌, Vfs}
use rust_browser_proofs.Harness.Fault.Trigger.{OpKind, sync_dir_before, sync_dir_after}
use rust_browser_proofs.Harness.Fault
use rust_browser_proofs.Harness.Fault.{
  FaultState, FaultCall, inner_call, respond, tick, max_end, sub_writes, extend, injected,
  fault_vfs,
}
use rust_browser_proofs.Harness.Fault.Client.{
  Call, open_file, remove, rename, list_dir, mkdir_all, sync_dir, lock_exclusive, lock_shared,
  read_at, read_at_vectored, write_at, write_at_vectored, sync, truncate, len, is_empty, Answer,
  plain, wrapped, Client, ends, asks, resume, run,
}
use rust_browser_proofs.Harness.Fault.Client.Faults.{
  Cut, Allowed, ended, answered, refused, hung, cut, halted,
}
use rust_browser_proofs.Harness.Fault.Client.Ticks.{call_ticks, behind}
use rust_browser_proofs.Harness.Fault.Trigger.Counting.{ticks}
use rust_browser_proofs.Harness.Fault.Client.Cutting.{
  Yields, Yields-ticks, tick-then-Yields, then-tick-Yields,
}
use rust_browser_proofs.Harness.Fault.Client.Vectored.{write_at_vectored-Yields}

module _ (V : Vfs) where
  pub wrapped-Yields :
      (c : Call V) (s : FaultState V)
      → Yields V (plain V c) (call_ticks V c s.inner) (Cut V c s.inner) s (wrapped V c s)
  unfolding wrapped plain Fault.rename Fault.sync_dir Fault.write_at Fault.sync ticks
  wrapped-Yields (open_file path mode) s = inl (refl, (refl, refl, refl), refl)
  wrapped-Yields (remove path) s = inl (refl, (refl, refl, refl), refl)
  wrapped-Yields (rename from to) s =
      tick-then-Yields V OpKind.rename (V.rename from to) [] (λ v. v ≡ s.inner)
        (inner_call V (V.rename from to)) s refl (λ t e. inl (refl, (refl, refl, refl), refl))
  wrapped-Yields (list_dir path) s = inl (refl, (refl, refl, refl), refl)
  wrapped-Yields (mkdir_all path) s = inl (refl, (refl, refl, refl), refl)
  wrapped-Yields (sync_dir path) s =
      let P : V.World → Type 0 = Cut V (sync_dir path) s.inner in
      let seen = λ (w : V.World). behind V (λ _ v. sync_dir_after ∷ []) (V.sync_dir path w) in
      tick-then-Yields V sync_dir_before (V.sync_dir path) (seen s.inner) P
        (inner_call V (V.sync_dir path) >> tick V sync_dir_after) s (inl refl)
        (λ t e.
          Yields-ticks V (V.sync_dir path) (seen t.inner) (seen s.inner) P t
            ((inner_call V (V.sync_dir path) >> tick V sync_dir_after) t) (ap seen e)
            (then-tick-Yields V sync_dir_after (V.sync_dir path) [] P
              (inner_call V (V.sync_dir path)) t (λ v e'. inr (ap (V.sync_dir path) (sym e) ∙ e'))
              (inl (refl, (refl, refl, refl), refl))))
  wrapped-Yields (lock_exclusive path) s = inl (refl, (refl, refl, refl), refl)
  wrapped-Yields (lock_shared path) s = inl (refl, (refl, refl, refl), refl)
  wrapped-Yields (read_at file offset buf) s = inl (refl, (refl, refl, refl), refl)
  wrapped-Yields (read_at_vectored file reqs) s = inl (refl, (refl, refl, refl), refl)
  wrapped-Yields (write_at file offset buf) s =
      tick-then-Yields V OpKind.write (V.write_at file offset buf) [] (λ v. v ≡ s.inner)
        (inner_call V (V.write_at file offset buf)) s refl
        (λ t e. inl (refl, (refl, refl, refl), refl))
  wrapped-Yields (write_at_vectored file reqs) s = write_at_vectored-Yields V file reqs s
  wrapped-Yields (sync file) s =
      tick-then-Yields V OpKind.sync (V.sync file) [] (λ v. v ≡ s.inner)
        (inner_call V (V.sync file)) s refl (λ t e. inl (refl, (refl, refl, refl), refl))
  wrapped-Yields (truncate file size) s = inl (refl, (refl, refl, refl), refl)
  wrapped-Yields (len file) s = inl (refl, (refl, refl, refl), refl)
  wrapped-Yields (is_empty file) s = inl (refl, (refl, refl, refl), refl)

  -- A run that the specification allows, with as many cuts as the trigger fires in it.
  abbrev pub Permits :
      {A : Type 0} → Client V A → FaultState V → Poll V.Error A × FaultState V → Type 0
  Permits c s q =
      (cuts : ℕ) × Allowed V c s.inner q.0 q.1.inner cuts
      × (q.1.trigger.fired % 2 ^ 64 ≡ (s.trigger.fired + cuts) % 2 ^ 64)

  resume-Permits :
      {A : Type 0} (c : Call V) (k : Result V.Error (Answer V c) → Client V A) (s : FaultState V)
      (f : Result V.Error (Answer V c) → FaultCall V A)
      (q : Poll V.Error (Answer V c) × FaultState V)
      → Yields V (plain V c) (call_ticks V c s.inner) (Cut V c s.inner) s q
      → ((r : Result V.Error (Answer V c)) (t : FaultState V) → Permits (k r) t (f r t))
      → Permits (asks c k) s (resume V f q)
  resume-Permits c k s f (done a, t) (inl h) next =
      let (cuts, allowed, counted) = next (ok a) t in
      (cuts, answered a t.inner h.0 allowed, omega (arith, h.1.0, counted))
  resume-Permits c k s f (failed x, t) (inl h) next =
      let (cuts, allowed, counted) = next (err x) t in
      (cuts, refused x t.inner h.0 allowed, omega (arith, h.1.0, counted))
  resume-Permits c k s f (parked, t) (inl h) next = (0, hung h.0, omega (arith, h.1.0))
  resume-Permits c k s f (done a, t) (inr h) next = absurd h.0
  resume-Permits c k s f (failed x, t) (inr h) next =
      let (cuts, allowed, counted) = next (err x) t in
      (suc cuts, cut x t.inner h.1 h.0 allowed, omega (arith, h.2.0, counted))
  resume-Permits c k s f (parked, t) (inr h) next = (1, halted h.1, omega (arith, h.2.0))

  -- Whatever the trigger waits for and has counted, a client's run over the wrapper is one that the
  -- specification allows: each call does what the back end does, or is cut with an injected error
  -- or for good. A rename, a sync or a plain write that is cut has not touched the back end, a
  -- directory sync either has not or is complete, and of a vectored write the file has its final
  -- length and a first part of the requests is written. Any other call is never cut. As many calls
  -- are cut as the trigger fires during the run, where its count of firings wraps around at 2^64.
  pub run-Allowed :
      {A : Type 0} (c : Client V A) (s : FaultState V) → Permits c s (run V (wrapped V) c s)
  unfolding run
  run-Allowed (ends a) s = (0, ended a, omega arith)
  run-Allowed (asks c k) s =
      resume-Permits c k s (λ r. run V (wrapped V) (k r)) (wrapped V c s) (wrapped-Yields c s)
        (λ r t. run-Allowed (k r) t)
