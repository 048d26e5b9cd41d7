-- ===== src/Harness/Fault/Client/Ticks.antt =====
-- The operations that the trigger of harness/src/fault.rs sees of a client that is not cut, in their
-- order.
use rust_browser_proofs.Base.{
  ℕ, List, [], ◌∷◌, ◌++◌, Option, none, some, ltb, if◌then◌else◌, Result, ok, err,
}
use rust_browser_proofs.Harness.Vfs.{Poll, done, failed, parked, pure, Request, Vfs}
use rust_browser_proofs.Harness.Fault.Trigger.{
  OpKind, vectored_sub_write, vectored_write, sync_dir_before, sync_dir_after,
}
use rust_browser_proofs.Harness.Fault.{max_end}
use rust_browser_proofs.Harness.Fault.Transparency.{write_each}
use rust_browser_proofs.Harness.Fault.Client.{
  Call, rename, sync_dir, write_at, write_at_vectored, sync, plain, Client, ends, asks,
}

module _ (V : Vfs) where
  -- What is seen behind a call that is done.
  abbrev pub behind :
      {A : Type 0} → (A → V.World → List OpKind) → Poll V.Error A × V.World → List OpKind
  behind f (done a, w) = f a w
  behind f (failed e, w) = []
  behind f (parked, w) = []

  -- What is seen behind a call that is answered.
  abbrev pub answered_by :
      {A : Type 0}
      → (Result V.Error A → V.World → List OpKind)
      → Poll V.Error A × V.World
      → List OpKind
  answered_by f (done a, w) = f (ok a) w
  answered_by f (failed e, w) = f (err e) w
  answered_by f (parked, w) = []

  unfoldable pub sub_ticks : V.File → List Request → V.World → List OpKind
  sub_ticks file [] w = []
  sub_ticks file (r ∷ rs) w =
      behind (λ n v. vectored_sub_write ∷ sub_ticks file rs v) (V.write_at file r.offset r.buf w)

  abbrev pub written_ticks : V.File → List Request → V.World → List OpKind
  written_ticks file reqs w =
      sub_ticks file reqs w ++ behind (λ _ v. vectored_write ∷ []) (write_each V file reqs w)

  abbrev pub extended_ticks : V.File → List Request → ℕ → ℕ → V.World → List OpKind
  extended_ticks file reqs end size w =
      behind (λ _ v. written_ticks file reqs v)
        ((if ltb size end then V.truncate file end else pure tt) w)

  -- A batch that is not valid makes no operation.
  abbrev pub batch_ticks : V.File → List Request → Option ℕ → V.World → List OpKind
  batch_ticks file reqs none w = []
  batch_ticks file reqs (some end) w =
      behind (λ size v. extended_ticks file reqs end size v) (V.len file w)

  abbrev pub call_ticks : Call V → V.World → List OpKind
  call_ticks (rename from to) w = OpKind.rename ∷ []
  call_ticks (sync_dir path) w =
      sync_dir_before ∷ behind (λ _ v. sync_dir_after ∷ []) (V.sync_dir path w)
  call_ticks (write_at file offset buf) w = OpKind.write ∷ []
  call_ticks (write_at_vectored file reqs) w = batch_ticks file reqs (max_end reqs 0) w
  call_ticks (sync file) w = OpKind.sync ∷ []
  call_ticks _ w = []

  unfoldable pub client_ticks : {A : Type 0} → Client V A → V.World → List OpKind
  client_ticks (ends a) w = []
  client_ticks (asks c k) w =
      call_ticks c w ++ answered_by (λ r v. client_ticks (k r) v) (plain V c w)
