-- ===== src/Harness/Fault/Client/Faults.antt =====
-- What a file system may do to a client at a crash or a fault: the specification of the wrapper in
-- harness/src/fault.rs, with no trigger.
use rust_browser_proofs.Base.{
  ℕ, suc, ◌≤◌, ◌≡◌, ◌⊎◌, List, some, ltb, if◌then◌else◌, take, length, Result, ok, err,
}
use rust_browser_proofs.Harness.Vfs.{Poll, done, failed, parked, pure, Request, Vfs}
use rust_browser_proofs.Harness.Fault.Trigger.{OpKind}
use rust_browser_proofs.Harness.Fault.{max_end, injected}
use rust_browser_proofs.Harness.Fault.Transparency.{write_each}
use rust_browser_proofs.Harness.Fault.Client.{
  Call, rename, sync_dir, write_at, write_at_vectored, sync, Answer, plain, Client, ends, asks,
}

module _ (V : Vfs) where
  -- How far a vectored write may come before it is cut: the requests are valid, the file has the
  -- length for all of them, and the first `count` of them are written.
  pub record Torn (file : V.File) (reqs : List Request) (w v : V.World) : Type 0 where
    pub end : ℕ
    pub size : ℕ
    pub w₀ : V.World
    pub w₁ : V.World
    pub count : ℕ
    pub valid : max_end reqs 0 ≡ some end
    pub measured : V.len file w ≡ (done size, w₀)
    pub extended : (if ltb size end then V.truncate file end else pure tt) w₀ ≡ (done tt, w₁)
    pub bounded : count ≤ length reqs
    pub written : write_each V file (take count reqs) w₁ ≡ (done tt, v)

  -- What a call that is cut has done to the back end: nothing, or all of it behind a directory
  -- sync, or a part of a vectored write. No other call is ever cut.
  abbrev pub Cut : Call V → V.World → V.World → Type 0
  Cut (rename from to) w v = v ≡ w
  Cut (sync_dir path) w v = (v ≡ w) ⊎ (V.sync_dir path w ≡ (done tt, v))
  Cut (write_at file offset buf) w v = v ≡ w
  Cut (write_at_vectored file reqs) w v = Torn file reqs w v
  Cut (sync file) w v = v ≡ w
  Cut _ w v = ⊥

  abbrev pub IsInjected : V.Error → Type 0
  IsInjected e = (kind : OpKind) × (n : ℕ) × (e ≡ V.other (injected V kind n))

  -- The runs that the specification allows, by the client, the back end's state at their start, the
  -- outcome with the back end's state at their end, and how many calls are cut.
  pub data Allowed {A : Type 0} : Client V A → V.World → Poll V.Error A → V.World → ℕ → Type 0 where
    ended : {w : V.World} (a : A) → Allowed (ends a) w (done a) w 0
    answered :
        {c : Call V} {k : Result V.Error (Answer V c) → Client V A} {w v : V.World}
        {p : Poll V.Error A} {cuts : ℕ} (a : Answer V c) (u : V.World)
        → plain V c w ≡ (done a, u)
        → Allowed (k (ok a)) u p v cuts
        → Allowed (asks c k) w p v cuts
    refused :
        {c : Call V} {k : Result V.Error (Answer V c) → Client V A} {w v : V.World}
        {p : Poll V.Error A} {cuts : ℕ} (e : V.Error) (u : V.World)
        → plain V c w ≡ (failed e, u)
        → Allowed (k (err e)) u p v cuts
        → Allowed (asks c k) w p v cuts
    hung :
        {c : Call V} {k : Result V.Error (Answer V c) → Client V A} {w v : V.World}
        → plain V c w ≡ (parked, v)
        → Allowed (asks c k) w parked v 0
    cut :
        {c : Call V} {k : Result V.Error (Answer V c) → Client V A} {w v : V.World}
        {p : Poll V.Error A} {cuts : ℕ} (e : V.Error) (u : V.World)
        → Cut c w u
        → IsInjected e
        → Allowed (k (err e)) u p v cuts
        → Allowed (asks c k) w p v (suc cuts)
    halted :
        {c : Call V} {k : Result V.Error (Answer V c) → Client V A} {w v : V.World}
        → Cut c w v
        → Allowed (asks c k) w parked v 1
