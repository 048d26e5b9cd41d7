-- ===== src/Harness/Fault/Tests.antt =====
-- The theorems on clients of the fault wrapper, and on what fires behind an operation, at small
-- inputs over the file in memory.
use rust_browser_proofs.Base.{ℕ, ◌≡◌, refl, true, false, List, [], ◌∷◌, Result, ok, err}
use rust_browser_proofs.Base.Dict.{lookup}
use rust_browser_proofs.Base.{string_eq}
use rust_browser_proofs.Harness.Vfs.{Request}
use rust_browser_proofs.Harness.Memory.{memory}
use rust_browser_proofs.Harness.Fault.{
  FaultState, OpKind, Action, op_kind_eq, unfired, inner_call, vectored_write, max_end, count_tick,
}
use rust_browser_proofs.Harness.Fault.Transparency.{plain_write_at_vectored, write_each}
use rust_browser_proofs.Harness.Fault.Cut.{IsStopped}
use rust_browser_proofs.Harness.Fault.Behind.{Followed, perform, fired_behind}
use rust_browser_proofs.Harness.Fault.Client.{
  Client, ends, asks, write_at, sync, plain, wrapped, run,
}
use rust_browser_proofs.Harness.Fault.Client.Unarmed.{run-unarmed}
use rust_browser_proofs.Harness.Fault.Client.Refinement.{Permits, run-Allowed}

-- What the client makes of a call's answer: its file is lost, or it is done.
abbrev outcome : {A : Type 0} → Result memory.Error A → Client memory ℕ
outcome (ok a) = ends 0
outcome (err e) = ends 1

-- A client that writes, syncs, and tells whether the sync went well.
abbrev write_and_sync : Client memory ℕ
write_and_sync = asks (write_at tt 0 (7 ∷ [])) λ r. asks (sync tt) outcome

abbrev failing_sync : FaultState memory
failing_sync = record {
  inner = 9 ∷ [];
  trigger = unfired OpKind.sync 1 Action.inject_error true;
  beacons = [];
}

abbrev not_armed : FaultState memory
not_armed = record failing_sync { trigger = unfired OpKind.sync 1 Action.inject_error false }

run-unarmed_example :
    run memory (wrapped memory) write_and_sync not_armed
    ≡ inner_call memory (run memory (plain memory) write_and_sync) not_armed
run-unarmed_example = run-unarmed memory write_and_sync not_armed refl

run-Allowed_example :
    Permits memory write_and_sync failing_sync
      (run memory (wrapped memory) write_and_sync failing_sync)
run-Allowed_example = run-Allowed memory write_and_sync failing_sync

abbrev pair : List Request
pair = record { offset = 0; buf = 1 ∷ 2 ∷ [] } ∷ record { offset = 3; buf = 4 ∷ [] } ∷ []

abbrev behind : FaultState memory
behind = record { inner = []; trigger = unfired vectored_write 1 Action.park true; beacons = [] }

fired_behind_example :
    IsStopped memory (perform memory (Followed.write_at_vectored tt pair) behind).0
    × ((perform memory (Followed.write_at_vectored tt pair) behind).1.inner ≡ 1 ∷ 2 ∷ 0 ∷ 4 ∷ [])
unfolding max_end write_each plain_write_at_vectored count_tick op_kind_eq lookup string_eq
fired_behind_example =
    fired_behind memory (Followed.write_at_vectored tt pair) behind (1 ∷ 2 ∷ 0 ∷ 4 ∷ []) (λ e. cc)
      refl
