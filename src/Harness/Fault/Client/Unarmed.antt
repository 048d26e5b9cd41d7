-- ===== src/Harness/Fault/Client/Unarmed.antt =====
-- A whole client over the wrapper before the trigger of harness/src/fault.rs is armed.
use rust_browser_proofs.Base.{◌≡◌, refl, ◌∙◌, ap, false, Result, ok, err}
use rust_browser_proofs.Harness.Vfs.{Poll, done, failed, parked, Async, Vfs}
use rust_browser_proofs.Harness.Fault.{FaultState, FaultCall, inner_call}
use rust_browser_proofs.Harness.Fault.Transparency.{lifted, unarmed_transparent}
use rust_browser_proofs.Harness.Fault.Client.{
  Call, open_file, remove, rename, list_dir, mkdir_all, sync_dir, lock_exclusive, lock_shared,
  read_at, read_at_vectored, write_at, write_at_vectored, sync, truncate, len, is_empty, plain,
  wrapped, Client, ends, asks, resume, run,
}

module _ (V : Vfs) where
  wrapped-plain :
      (c : Call V) (s : FaultState V)
      → s.trigger.armed ≡ false
      → wrapped V c s ≡ inner_call V (plain V c) s
  unfolding wrapped plain
  wrapped-plain (open_file path mode) s h = refl
  wrapped-plain (remove path) s h = refl
  wrapped-plain (rename from to) s h = (unarmed_transparent V s h).0 from to
  wrapped-plain (list_dir path) s h = refl
  wrapped-plain (mkdir_all path) s h = refl
  wrapped-plain (sync_dir path) s h = (unarmed_transparent V s h).1 path
  wrapped-plain (lock_exclusive path) s h = refl
  wrapped-plain (lock_shared path) s h = refl
  wrapped-plain (read_at file offset buf) s h = refl
  wrapped-plain (read_at_vectored file reqs) s h = refl
  wrapped-plain (write_at file offset buf) s h = (unarmed_transparent V s h).3 file offset buf
  wrapped-plain (write_at_vectored file reqs) s h = (unarmed_transparent V s h).4 file reqs
  wrapped-plain (sync file) s h = (unarmed_transparent V s h).2 file
  wrapped-plain (truncate file size) s h = refl
  wrapped-plain (len file) s h = refl
  wrapped-plain (is_empty file) s h = refl

  resume-lifted :
      {A B : Type 0} (f : Result V.Error A → FaultCall V B)
      (g : Result V.Error A → Async V.World V.Error B) (s : FaultState V)
      (q : Poll V.Error A × V.World)
      → ((r : Result V.Error A) (w : V.World) → f r (record s { inner = w }) ≡ lifted V s (g r w))
      → resume V f (lifted V s q) ≡ lifted V s (resume V g q)
  resume-lifted f g s (done a, w) h = h (ok a) w
  resume-lifted f g s (failed e, w) h = h (err e) w
  resume-lifted f g s (parked, w) h = refl

  -- Until the wrapper is armed, every client ends over it as it does over the wrapped back end with
  -- its vectored write replaced by the plain sequence of its steps, the check of the ends, the
  -- extension and one write per request: with the same value, error or standstill, and the same
  -- state of the back end. The trigger and the messages are as they were.
  pub run-unarmed :
      {A : Type 0} (c : Client V A) (s : FaultState V)
      → s.trigger.armed ≡ false
      → run V (wrapped V) c s ≡ inner_call V (run V (plain V) c) s
  unfolding run
  run-unarmed (ends a) s h = refl
  run-unarmed (asks c k) s h =
      ap (resume V (λ r. run V (wrapped V) (k r))) (wrapped-plain c s h)
      ∙ resume-lifted (λ r. run V (wrapped V) (k r)) (λ r. run V (plain V) (k r)) s
          (plain V c s.inner) λ r w. run-unarmed (k r) (record s { inner = w }) h
