-- ===== src/Harness/Fault/Cut.antt =====
-- Where a trigger cuts: before a guarded operation, and inside a vectored write.
use rust_browser_proofs.Base.{
  ℕ, suc, zero, ◌+◌, ◌<◌, ◌^◌, String, ◌≡◌, refl, ◌≢◌, ◌∙◌, ap, sym, subst, List, [], ◌∷◌, ◌++◌,
  some, ltb, arith, if◌then◌else◌, take, length,
}
use rust_browser_proofs.Harness.Vfs.{
  Poll, done, failed, parked, Async, ◌>>=◌, ◌>>◌, pure, Request, Vfs,
}
use rust_browser_proofs.Harness.Fault.Trigger.{
  OpKind, op_kind_eq, Action, inject_error, inject_error_persistent, count_tick, Fire, pass, inject,
  vectored_sub_write, vectored_write, sync_dir_before, sync_dir_after, should_fire, fire_of,
}
use rust_browser_proofs.Harness.Fault.Trigger.Counting.{
  IsCounting, count_tick-IsCounting_self, count_tick-fire,
}
use rust_browser_proofs.Harness.Fault.Transparency.{write_each, after, lifted, extend_lem}
use rust_browser_proofs.Harness.Fault
use rust_browser_proofs.Harness.Fault.{
  FaultState, FaultCall, inner_call, respond, tick, max_end, sub_writes, extend, write_at_vectored,
  beacon, injected,
}

module _ (V : Vfs) where
  -- The operations that tick before they run, with their arguments.
  pub data Guarded : Type 0 where
    rename : String → String → Guarded
    sync_dir : String → Guarded
    sync : V.File → Guarded
    write_at : V.File → ℕ → List ℕ → Guarded

  abbrev pub guard_kind : Guarded → OpKind
  guard_kind (rename from to) = OpKind.rename
  guard_kind (sync_dir path) = sync_dir_before
  guard_kind (sync file) = OpKind.sync
  guard_kind (write_at file offset buf) = OpKind.write

  -- The call, with the count that `write_at` gives left out.
  abbrev pub perform : Guarded → FaultCall V (Unit {0})
  perform (rename from to) = Fault.rename V from to
  perform (sync_dir path) = Fault.sync_dir V path
  perform (sync file) = Fault.sync V file
  perform (write_at file offset buf) = Fault.write_at V file offset buf >>= λ _. pure tt

  abbrev pub IsStopped : {A : Type 0} → Poll V.Error A → Type 0
  IsStopped (done a) = ⊥
  IsStopped _ = Unit

  -- The call did not complete and did not touch the back end.
  abbrev pub Stops : {A : Type 0} → FaultState V → Poll V.Error A × FaultState V → Type 0
  Stops s q = IsStopped q.0 × (q.1.inner ≡ s.inner)

  respond-Stops :
      (kind : OpKind) (fire : Fire) (s : FaultState V)
      → fire ≢ pass
      → Stops s (respond V kind fire s)
  respond-Stops kind pass s h = absurd (h refl)
  respond-Stops kind (inject n) s h = (tt, refl)
  respond-Stops kind (Fire.park n) s h = (tt, refl)

  pub tick-Stops :
      (kind : OpKind) (s : FaultState V)
      → (count_tick kind s.trigger).0 ≢ pass
      → Stops s (tick V kind s)
  unfolding tick
  tick-Stops kind s h = respond-Stops kind (count_tick kind s.trigger).0 _ h

  -- What follows a call that stopped is not reached.
  after-Stops :
      {A B : Type 0} (k : A → FaultCall V B) (s : FaultState V) (q : Poll V.Error A × FaultState V)
      → Stops s q
      → Stops s (after V k q)
  after-Stops k s (done a, t) h = absurd h.0
  after-Stops k s (failed e, t) h = h
  after-Stops k s (parked, t) h = h

  -- A guarded operation at which the trigger fires does not complete and does not reach the back
  -- end, which is as it was.
  pub fired_before :
      (op : Guarded) (s : FaultState V)
      → (count_tick (guard_kind op) s.trigger).0 ≢ pass
      → Stops s (perform op s)
  unfolding Fault.rename Fault.sync_dir Fault.sync Fault.write_at
  fired_before (rename from to) s h =
      after-Stops (λ _. inner_call V (V.rename from to)) s _ (tick-Stops OpKind.rename s h)
  fired_before (sync_dir path) s h =
      after-Stops (λ _. inner_call V (V.sync_dir path) >> tick V sync_dir_after) s _
        (tick-Stops sync_dir_before s h)
  fired_before (sync file) s h =
      after-Stops (λ _. inner_call V (V.sync file)) s _ (tick-Stops OpKind.sync s h)
  fired_before (write_at file offset buf) s h =
      after-Stops (λ _. pure tt) s _
        (after-Stops (λ _. inner_call V (V.write_at file offset buf)) s _
          (tick-Stops OpKind.write s h))

  -- A trigger for the sub-writes that has counted `n` of them.
  abbrev Waits : ℕ → Action → ℕ → FaultState V → Type 0
  Waits at action n s = IsCounting vectored_sub_write at action n s.trigger

  -- The state after the tick that fires.
  abbrev pub Cuts :
      ℕ → Action → V.World → List String → Poll V.Error (Unit {0}) × FaultState V → Type 0
  Cuts at inject_error w before q =
      (q.0 ≡ failed (V.other (injected V vectored_sub_write at)))
      × (q.1.inner ≡ w)
      × (q.1.beacons ≡ before)
  Cuts at inject_error_persistent w before q =
      (q.0 ≡ failed (V.other (injected V vectored_sub_write at)))
      × (q.1.inner ≡ w)
      × (q.1.beacons ≡ before)
  Cuts at Action.park w before q =
      (q.0 ≡ parked)
      × (q.1.inner ≡ w)
      × (q.1.beacons ≡ before ++ (beacon V vectored_sub_write at ∷ []))

  -- A tick before the chosen occurrence counts it and lets the operation pass.
  tick-early :
      (at n : ℕ) (action : Action) (s : FaultState V)
      → Waits at action n s
      → n + 1 < at
      → at < 2 ^ 64
      → tick V vectored_sub_write s
        ≡ (done tt, record s { trigger = (count_tick vectored_sub_write s.trigger).1 })
  unfolding tick should_fire
  tick-early at n inject_error s c h b =
      ground (arith, count_tick-fire vectored_sub_write at inject_error n s.trigger c)
  tick-early at n inject_error_persistent s c h b =
      ground (arith, count_tick-fire vectored_sub_write at inject_error_persistent n s.trigger c)
  tick-early at n Action.park s c h b =
      ground (arith, count_tick-fire vectored_sub_write at Action.park n s.trigger c)

  tick-Cuts :
      (at n : ℕ) (action : Action) (s : FaultState V)
      → Waits at action n s
      → n + 1 ≡ at
      → at < 2 ^ 64
      → Cuts at action s.inner s.beacons (tick V vectored_sub_write s)
  unfolding tick should_fire fire_of
  tick-Cuts at n inject_error s c h b =
      ground (arith, count_tick-fire vectored_sub_write at inject_error n s.trigger c)
  tick-Cuts at n inject_error_persistent s c h b =
      ground (arith, count_tick-fire vectored_sub_write at inject_error_persistent n s.trigger c)
  tick-Cuts at n Action.park s c h b =
      ground (arith, count_tick-fire vectored_sub_write at Action.park n s.trigger c)

  -- What follows the tick that fires is not reached.
  after-Cuts :
      (at : ℕ) (action : Action) (w : V.World) (before : List String) (k : FaultCall V (Unit {0}))
      (q : Poll V.Error (Unit {0}) × FaultState V)
      → Cuts at action w before q
      → Cuts at action w before (after V (λ _. k) q)
  after-Cuts at inject_error w before k (done a, t) h = absurd (ground arith)
  after-Cuts at inject_error_persistent w before k (done a, t) h = absurd (ground arith)
  after-Cuts at Action.park w before k (done a, t) h = absurd (ground arith)
  after-Cuts at inject_error w before k (failed e, t) h = h
  after-Cuts at inject_error_persistent w before k (failed e, t) h = h
  after-Cuts at Action.park w before k (failed e, t) h = h
  after-Cuts at inject_error w before k (parked, t) h = h
  after-Cuts at inject_error_persistent w before k (parked, t) h = h
  after-Cuts at Action.park w before k (parked, t) h = h

  -- A write that goes through in front of a chain.
  first_write :
      {A : Type 0} (at : ℕ) (action : Action) (f : FaultCall V (Unit {0}))
      (g : Async V.World V.Error (Unit {0})) (s : FaultState V) (w : V.World)
      (q : Poll V.Error A × V.World)
      → ((v : V.World)
          → g v ≡ (done tt, w)
          → Cuts at action w s.beacons (f (record s { inner = v })))
      → after V (λ _. g) q ≡ (done tt, w)
      → Cuts at action w s.beacons (after V (λ _. f) (lifted V s q))
  first_write at action f g s w (done a, v) next h = next v h
  first_write at action f g s w (failed e, v) next h = absurd (ground arith)
  first_write at action f g s w (parked, v) next h = absurd (ground arith)

  sub_writes-Cuts :
      (file : V.File) (reqs : List Request) (k at n : ℕ) (action : Action) (s : FaultState V)
      (w : V.World)
      → Waits at action n s
      → at ≡ n + suc k
      → k < length reqs
      → at < 2 ^ 64
      → write_each V file (take (suc k) reqs) s.inner ≡ (done tt, w)
      → Cuts at action w s.beacons (sub_writes V file reqs s)
  unfolding sub_writes write_each
  sub_writes-Cuts file [] k at n action s w c e l b h = absurd (omega arith)
  sub_writes-Cuts file (r ∷ rs) zero at n action s w c e l b h =
      first_write at action (tick V vectored_sub_write >> sub_writes V file rs) (pure tt) s w
        (V.write_at file r.offset r.buf s.inner)
        (λ v e'. after-Cuts at action w s.beacons (sub_writes V file rs) _ (
          subst
            (λ x. Cuts at action x s.beacons (tick V vectored_sub_write (record s { inner = v })))
            (ap (λ (q : Poll V.Error (Unit {0}) × V.World). q.1) e')
            (tick-Cuts at n action (record s { inner = v }) c (omega arith) b)))
        h
  sub_writes-Cuts file (r ∷ rs) (suc k) at n action s w c e l b h =
      first_write at action (tick V vectored_sub_write >> sub_writes V file rs)
        (write_each V file (take (suc k) rs)) s w (V.write_at file r.offset r.buf s.inner)
        (λ v e'.
          let t : FaultState V = record s { inner = v } in
          let u : FaultState V = record t {
            trigger = (count_tick vectored_sub_write s.trigger).1;
          } in
          subst (λ q. Cuts at action w s.beacons (after V (λ _. sub_writes V file rs) q))
            (sym (tick-early at n action t c (omega arith) b))
            (sub_writes-Cuts file rs k at (1 + n) action u w
              (count_tick-IsCounting_self vectored_sub_write at action n s.trigger c (omega arith))
              (omega arith) (omega arith) b e'))
        h

  -- The trigger for sub-writes, with `n` counted and waiting for occurrence `n + suc k`, cuts a
  -- vectored write whose requests are valid right behind its first `suc k` requests: the file has
  -- been extended to the furthest end of the whole batch, those requests are written and the
  -- others are not. The call then fails with the injected error, or parks behind its beacon.
  pub write_at_vectored-Cuts :
      (file : V.File) (reqs : List Request) (k at n end len : ℕ) (action : Action)
      (s : FaultState V) (w₀ w₁ w : V.World)
      → IsCounting vectored_sub_write at action n s.trigger
      → at ≡ n + suc k
      → k < length reqs
      → at < 2 ^ 64
      → max_end reqs 0 ≡ some end
      → V.len file s.inner ≡ (done len, w₀)
      → (if ltb len end then V.truncate file end else pure tt) w₀ ≡ (done tt, w₁)
      → write_each V file (take (suc k) reqs) w₁ ≡ (done tt, w)
      → Cuts at action w s.beacons (write_at_vectored V file reqs s)
  unfolding write_at_vectored
  write_at_vectored-Cuts file reqs k at n end len action s w₀ w₁ w c e l b valid measured extended
        written =
      let rest = sub_writes V file reqs >> tick V vectored_write in
      let cut =
        after-Cuts at action w s.beacons (tick V vectored_write) _
          (sub_writes-Cuts file reqs k at n action (record s { inner = w₁ }) w c e l b written) in
      rw (valid, write_at_vectored)
        (subst
          (λ q.
            Cuts at action w s.beacons
              (after V (λ len. extend V file len end >> rest) (lifted V s q)))
          (sym measured)
          (subst (λ q. Cuts at action w s.beacons (after V (λ _. rest) q))
            (sym (extend_lem V file len end (record s { inner = w₀ }) ∙ ap (lifted V s) extended))
            cut))
