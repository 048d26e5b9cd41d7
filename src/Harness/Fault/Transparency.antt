-- ===== src/Harness/Fault/Transparency.antt =====
-- A trigger that cannot fire leaves every operation as the wrapped back end has it.
use rust_browser_proofs.Base.{
  ℕ, String, ◌≡◌, refl, ◌≢◌, ◌⊎◌, inl, inr, ◌∙◌, ap, false, List, [], ◌∷◌, none, some, ltb, arith,
  if◌then◌else◌, Bool-cases, Option-cases,
}
use rust_browser_proofs.Harness.Vfs.{
  Poll, done, failed, parked, Async, ◌>>=◌, ◌>>◌, pure, throw, Request, Vfs,
}
use rust_browser_proofs.Harness.Fault.Trigger.{
  OpKind, op_kind_eq, count_tick, vectored_sub_write, vectored_write, sync_dir_before,
  sync_dir_after,
}
use rust_browser_proofs.Harness.Fault.{
  FaultState, FaultCall, inner_call, tick, max_end, sub_writes, extend, write_at_vectored, rename,
  sync_dir, write_at, sync,
}

module _ (V : Vfs) where
  -- The trigger is not armed, or waits for another kind.
  abbrev pub IsQuiet : OpKind → FaultState V → Type 0
  IsQuiet kind s = (s.trigger.armed ≡ false) ⊎ (kind ≢ s.trigger.kind)

  tick-quiet : (kind : OpKind) (s : FaultState V) → IsQuiet kind s → tick V kind s ≡ (done tt, s)
  unfolding tick count_tick
  tick-quiet kind s (inl unarmed) = ground arith
  tick-quiet kind s (inr other) = ground arith

  -- Writes one after the other, up to the first that fails.
  unfoldable pub write_each : V.File → List Request → Async V.World V.Error (Unit {0})
  write_each file [] = pure tt
  write_each file (r ∷ rs) = do written ← V.write_at file r.offset r.buf; write_each file rs

  -- A vectored write by the same steps with no trigger: the requests are checked, the file is
  -- extended to the furthest end, and each request is written in turn.
  unfoldable pub plain_write_at_vectored : V.File → List Request → Async V.World V.Error (Unit {0})
  unfolding write_each
  plain_write_at_vectored file reqs = elim (max_end reqs 0) [
    | none ↦ throw (V.invalid_input "vectored write offset overflow")
    | some end ↦ do
      len ← V.len file
      if ltb len end then V.truncate file end else pure tt
      write_each file reqs
  ]

  abbrev pub lifted :
      {A : Type 0} → FaultState V → Poll V.Error A × V.World → Poll V.Error A × FaultState V
  lifted s q = (q.0, record s { inner = q.1 })

  abbrev pub after :
      {W A B : Type 0} → (A → Async W V.Error B) → Poll V.Error A × W → Poll V.Error B × W
  after f q =
      let (p, w) = q in elim p [ done a ↦ f a w | failed e ↦ (failed e, w) | parked ↦ (parked, w) ]

  after-lifted :
      {A B : Type 0} (f : A → FaultCall V B) (g : A → Async V.World V.Error B) (s : FaultState V)
      (q : Poll V.Error A × V.World)
      → ((a : A) (w : V.World) → f a (record s { inner = w }) ≡ lifted s (g a w))
      → after f (lifted s q) ≡ lifted s (after g q)
  after-lifted f g s (done a, w) h = h a w
  after-lifted f g s (failed e, w) h = refl
  after-lifted f g s (parked, w) h = refl

  -- A chain that begins with a call of the back end is one call of the back end, if its rest is.
  inner_bind :
      {A B : Type 0} (m : Async V.World V.Error A) (f : A → FaultCall V B)
      (g : A → Async V.World V.Error B) (s : FaultState V)
      → ((a : A) (w : V.World) → f a (record s { inner = w }) ≡ lifted s (g a w))
      → (inner_call V m >>= f) s ≡ inner_call V (m >>= g) s
  inner_bind m f g s h = after-lifted f g s (m s.inner) h

  -- A quiet tick in front of a chain is as if it were not there.
  pub tick-then :
      {B : Type 0} (kind : OpKind) (k : FaultCall V B) (s : FaultState V)
      → IsQuiet kind s
      → (tick V kind >> k) s ≡ k s
  tick-then kind k s q = ap (after (λ _. k)) (tick-quiet kind s q)

  pub sub_writes-quiet :
      (file : V.File) (reqs : List Request) (s : FaultState V)
      → IsQuiet vectored_sub_write s
      → sub_writes V file reqs s ≡ inner_call V (write_each file reqs) s
  unfolding sub_writes write_each
  sub_writes-quiet file [] s q = refl
  sub_writes-quiet file (r ∷ rs) s q =
      inner_bind (V.write_at file r.offset r.buf)
        (λ _. tick V vectored_sub_write >> sub_writes V file rs) (λ _. write_each file rs) s
        λ a w.
          let t : FaultState V = record s { inner = w } in
          tick-then vectored_sub_write (sub_writes V file rs) t q ∙ sub_writes-quiet file rs t q

  -- A call followed by a quiet tick is the call.
  then-tick :
      (kind : OpKind) (m : FaultCall V (Unit {0})) (n : Async V.World V.Error (Unit {0}))
      (s : FaultState V)
      → IsQuiet kind s
      → m s ≡ inner_call V n s
      → (m >> tick V kind) s ≡ inner_call V n s
  then-tick kind m n s q e = ap (after (λ _. tick V kind)) e ∙ settled (n s.inner)
    where
      settled :
          (p : Poll V.Error (Unit {0}) × V.World)
          → after (λ _. tick V kind) (lifted s p) ≡ lifted s p
      settled (done a, w) = tick-quiet kind (record s { inner = w }) q
      settled (failed e, w) = refl
      settled (parked, w) = refl

  pub extend_lem :
      (file : V.File) (len end : ℕ) (s : FaultState V)
      → extend V file len end s
        ≡ inner_call V (if ltb len end then V.truncate file end else pure tt) s
  extend_lem file len end s = elim (Bool-cases (ltb len end)) [
    | inl e ↦ rw e refl
    | inr e ↦ rw e refl
  ]

  extended-quiet :
      (file : V.File) (reqs : List Request) (end len : ℕ) (s : FaultState V)
      → IsQuiet vectored_sub_write s
      → IsQuiet vectored_write s
      → (extend V file len end >> (sub_writes V file reqs >> tick V vectored_write)) s
        ≡ inner_call V
            ((if ltb len end then V.truncate file end else pure tt) >> write_each file reqs)
            s
  extended-quiet file reqs end len s q q' =
      ap (after (λ _. sub_writes V file reqs >> tick V vectored_write)) (extend_lem file len end s)
      ∙ inner_bind (if ltb len end then V.truncate file end else pure tt)
          (λ _. sub_writes V file reqs >> tick V vectored_write) (λ _. write_each file reqs) s
          λ a w.
            let t : FaultState V = record s { inner = w } in
            then-tick vectored_write (sub_writes V file reqs) (write_each file reqs) t q'
              (sub_writes-quiet file reqs t q)

  -- While neither of its two kinds can fire, an instrumented vectored write is the plain one.
  pub write_at_vectored-quiet :
      (file : V.File) (reqs : List Request) (s : FaultState V)
      → IsQuiet vectored_sub_write s
      → IsQuiet vectored_write s
      → write_at_vectored V file reqs s ≡ inner_call V (plain_write_at_vectored file reqs) s
  unfolding write_at_vectored plain_write_at_vectored
  write_at_vectored-quiet file reqs s q q' = elim (Option-cases (max_end reqs 0)) [
    | inl e ↦ rw (e, write_at_vectored, plain_write_at_vectored) refl
    | inr (end, e) ↦
        rw (e, write_at_vectored, plain_write_at_vectored)
          (inner_bind (V.len file)
            (λ len. extend V file len end >> (sub_writes V file reqs >> tick V vectored_write))
            (λ len. (if ltb len end then V.truncate file end else pure tt) >> write_each file reqs)
            s λ len w. extended-quiet file reqs end len (record s { inner = w }) q q')
  ]

  sync_dir-quiet :
      (path : String) (s : FaultState V)
      → IsQuiet sync_dir_before s
      → IsQuiet sync_dir_after s
      → sync_dir V path s ≡ inner_call V (V.sync_dir path) s
  unfolding sync_dir
  sync_dir-quiet path s q q' =
      tick-then sync_dir_before (inner_call V (V.sync_dir path) >> tick V sync_dir_after) s q
      ∙ then-tick sync_dir_after (inner_call V (V.sync_dir path)) (V.sync_dir path) s q' refl

  -- Until it is armed the wrapper does what the wrapped back end does: each operation that it
  -- instruments gives the same result and leaves the same state of the back end, and the trigger
  -- and the messages as they were; a vectored write does so by the plain steps.
  pub unarmed_transparent :
      (s : FaultState V)
      → s.trigger.armed ≡ false
      → ((from to : String) → rename V from to s ≡ inner_call V (V.rename from to) s)
        × ((path : String) → sync_dir V path s ≡ inner_call V (V.sync_dir path) s)
        × ((file : V.File) → sync V file s ≡ inner_call V (V.sync file) s)
        × ((file : V.File) (offset : ℕ) (buf : List ℕ)
            → write_at V file offset buf s ≡ inner_call V (V.write_at file offset buf) s)
        × ((file : V.File) (reqs : List Request)
            → write_at_vectored V file reqs s ≡ inner_call V (plain_write_at_vectored file reqs) s)
  unfolding rename sync write_at
  unarmed_transparent s unarmed = (
    (λ from to. tick-then OpKind.rename (inner_call V (V.rename from to)) s (inl unarmed)),
    (λ path. sync_dir-quiet path s (inl unarmed) (inl unarmed)),
    (λ file. tick-then OpKind.sync (inner_call V (V.sync file)) s (inl unarmed)),
    (λ file offset buf.
        tick-then OpKind.write (inner_call V (V.write_at file offset buf)) s (inl unarmed)),
    (λ file reqs. write_at_vectored-quiet file reqs s (inl unarmed) (inl unarmed)),
  )
