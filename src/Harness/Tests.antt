-- ===== src/Harness/Tests.antt =====
-- The fault wrapper over a file in memory, and its theorems at small inputs.
use rust_browser_proofs.Base.{ℕ, String, ◌≡◌, refl, true, some, false, List, [], ◌∷◌, ◌++◌, arith}
use rust_browser_proofs.Base.Dict.{lookup, insert}
use rust_browser_proofs.Base.{string_eq}
use rust_browser_proofs.Harness.Vfs.{parked, Request}
use rust_browser_proofs.Harness.Memory.{memory}
use rust_browser_proofs.Harness.Driver.Phases.{flush, publish, survivors, survivors_lem}
use rust_browser_proofs.Harness.Fault.{
  FaultState, OpKind, Action, op_kind_eq, unfired, inner_call, new, max_end, sub_writes,
  write_at_vectored, rename, sync_dir, sync, write_at, vectored_sub_write, sync_dir_before,
  sync_dir_after, count, count_tick,
}
use rust_browser_proofs.Harness.Fault.Trigger.Counting.{
  ticks, occurrences, firings, unfired-IsCounting, ticks-firings,
}
use rust_browser_proofs.Harness.Fault.Transparency.{
  unarmed_transparent, plain_write_at_vectored, write_each,
}
use rust_browser_proofs.Harness.Fault.Cut.{
  Guarded, perform, Stops, fired_before, Cuts, write_at_vectored-Cuts,
}
use rust_browser_proofs.Harness.Fault.Requests.{Checked, max_end-Checked}

abbrev batch : List Request
batch =
    record { offset = 0; buf = 1 ∷ 2 ∷ [] }
    ∷ record { offset = 2; buf = 3 ∷ [] }
    ∷ record { offset = 4; buf = 5 ∷ [] }
    ∷ []

abbrev parking : FaultState memory
parking = record {
  inner = 9 ∷ [];
  trigger = unfired vectored_sub_write 2 Action.park true;
  beacons = [];
}

-- A worker that parks behind the second of three requests: the file has its final length, and the
-- third request is not written.
parked_mid_batch : (write_at_vectored memory tt batch parking).0 ≡ parked
unfolding write_at_vectored sub_writes max_end count_tick op_kind_eq lookup insert string_eq
parked_mid_batch = refl

write_at_vectored-Cuts_example :
    Cuts memory 2 Action.park
      (1 ∷ 2 ∷ 3 ∷ 0 ∷ 0 ∷ [])
      []
      (write_at_vectored memory tt batch parking)
unfolding max_end write_each
write_at_vectored-Cuts_example =
    write_at_vectored-Cuts memory tt batch 1 2 0 5 1 Action.park parking (9 ∷ [])
      (9 ∷ 0 ∷ 0 ∷ 0 ∷ 0 ∷ []) (1 ∷ 2 ∷ 3 ∷ 0 ∷ 0 ∷ [])
      (unfired-IsCounting vectored_sub_write 2 Action.park) refl (omega arith) (omega arith) refl
      refl refl refl

abbrev unarmed : FaultState memory
unarmed = record { inner = 9 ∷ []; trigger = unfired OpKind.sync 1 Action.park false; beacons = [] }

unarmed_transparent_example :
    ((from to : String)
      → rename memory from to unarmed ≡ inner_call memory (memory.rename from to) unarmed)
    × ((path : String)
        → sync_dir memory path unarmed ≡ inner_call memory (memory.sync_dir path) unarmed)
    × ((file : Unit {0}) → sync memory file unarmed ≡ inner_call memory (memory.sync file) unarmed)
    × ((file : Unit {0}) (offset : ℕ) (buf : List ℕ)
        → write_at memory file offset buf unarmed
          ≡ inner_call memory (memory.write_at file offset buf) unarmed)
    × ((file : Unit {0}) (reqs : List Request)
        → write_at_vectored memory file reqs unarmed
          ≡ inner_call memory (plain_write_at_vectored memory file reqs) unarmed)
unarmed_transparent_example = unarmed_transparent memory unarmed refl

fired_before_example : Stops memory (new memory (9 ∷ []) OpKind.rename 1 Action.inject_error) (
    perform memory
      (Guarded.rename "a" "b")
      (new memory (9 ∷ []) OpKind.rename 1 Action.inject_error))
unfolding new count_tick op_kind_eq lookup string_eq
fired_before_example =
    fired_before memory (Guarded.rename "a" "b")
      (new memory (9 ∷ []) OpKind.rename 1 Action.inject_error) (λ e. cc)

ticks-firings_example :
    (count OpKind.sync (
        ticks
          (OpKind.sync ∷ OpKind.rename ∷ OpKind.sync ∷ [])
          (unfired OpKind.sync 2 Action.park true))
      ≡ occurrences OpKind.sync (OpKind.sync ∷ OpKind.rename ∷ OpKind.sync ∷ []))
    × ((ticks
          (OpKind.sync ∷ OpKind.rename ∷ OpKind.sync ∷ [])
          (unfired OpKind.sync 2 Action.park true)).fired
        ≡ firings Action.park 2
            (occurrences OpKind.sync (OpKind.sync ∷ OpKind.rename ∷ OpKind.sync ∷ [])))
unfolding occurrences op_kind_eq
ticks-firings_example =
    ticks-firings (OpKind.sync ∷ OpKind.rename ∷ OpKind.sync ∷ []) OpKind.sync 2 Action.park
      (omega arith)

max_end-Checked_example : Checked 0 batch (max_end batch 0)
max_end-Checked_example = max_end-Checked batch 0

survivors_lem_example :
    let pages = flush (3 ∷ 1 ∷ []) in
    let ticks = pages ++ publish in
    (survivors "mid-vectored-write" ticks ≡ some [])
    × (survivors "pages-written-pre-sync" ticks ≡ some (pages ++ []))
    × (survivors "pages-synced-pre-header-write" ticks ≡ some (pages ++ OpKind.sync ∷ []))
    × (survivors "header-written-pre-sync" ticks ≡ some (pages ++ OpKind.sync ∷ OpKind.write ∷ []))
    × (survivors "header-synced-pre-rename" ticks
        ≡ some (
            pages
            ++ OpKind.sync ∷ OpKind.write ∷ OpKind.sync ∷ sync_dir_before ∷ sync_dir_after
              ∷ sync_dir_before ∷ sync_dir_after ∷ []))
    × (survivors "during-sync-dir" ticks
        ≡ some (
            pages
            ++ OpKind.sync ∷ OpKind.write ∷ OpKind.sync ∷ sync_dir_before ∷ sync_dir_after
              ∷ sync_dir_before ∷ sync_dir_after ∷ OpKind.rename ∷ []))
    × (survivors "after-sync-dir-pre-gc" ticks
        ≡ some (
            pages
            ++ OpKind.sync ∷ OpKind.write ∷ OpKind.sync ∷ sync_dir_before ∷ sync_dir_after
              ∷ sync_dir_before ∷ sync_dir_after ∷ OpKind.rename ∷ sync_dir_before ∷ sync_dir_after
              ∷ sync_dir_before ∷ []))
survivors_lem_example = survivors_lem 2 (1 ∷ []) (flush (3 ∷ 1 ∷ []) ++ publish) refl
