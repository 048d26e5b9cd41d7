-- ===== src/Harness/Driver/Reached.antt =====
-- Every phase of the driver is reached by a commit in the documented order, and there the driver
-- stands until its worker is killed.
use mathlib.Core.Option.{some-injective}
use rust_browser_proofs.Base.{
  ℕ, suc, String, ◌≤◌, ◌<◌, ◌^◌, ◌≡◌, subst, sym, Bool, true, false, Option, none, some, List, [],
  ◌∷◌, ◌++◌, arith, inl, inr, ◌==◌, if◌then◌else◌, string_eq,
}
use rust_browser_proofs.Harness.Vfs.{Poll, done, failed, parked, Async, Vfs}
use rust_browser_proofs.Harness.Engine.Clients.{EngineClient, over}
use rust_browser_proofs.Harness.Engine.Doomed.{EndsAs}
use rust_browser_proofs.Harness.Fault.{
  OpKind, op_kind_eq, beacon, vectored_sub_write, sync_dir_before, sync_dir_after,
}
use rust_browser_proofs.Harness.Fault.Trigger.Counting.{occurrences}
use rust_browser_proofs.Harness.Fault.Client.{plain, wrapped}
use rust_browser_proofs.Harness.Fault.Client.Faults.{Allowed}
use rust_browser_proofs.Harness.Fault.Client.Ticks.{client_ticks}
use rust_browser_proofs.Harness.Driver.{parse_kind, oracle_commit}
use rust_browser_proofs.Harness.Driver.Phases.{flush, publish, CommitOrder}
use rust_browser_proofs.Harness.Driver.Crash.{prepare, telling_commit, oracle_commit-EndsAs}

-- The occurrences at the end of a list are among those of the list.
occurrences-append :
    (kind : OpKind) (js ks : List OpKind) → occurrences kind ks ≤ occurrences kind (js ++ ks)
unfolding occurrences
occurrences-append kind [] ks = omega arith
occurrences-append kind (j ∷ js) ks = omega (arith, occurrences-append kind js ks)

-- A commit has what each phase waits for.
abbrev Occurs : OpKind × ℕ → List OpKind → Type 0
Occurs kind_at ticks = (1 ≤ kind_at.1) × (kind_at.1 ≤ occurrences kind_at.0 ticks)

published :
    (kind : OpKind) (at : ℕ) (pages : List OpKind)
    → 1 ≤ at
    → at ≤ occurrences kind publish
    → Occurs (kind, at) (pages ++ publish)
published kind at pages first h = (first, omega (arith, h, occurrences-append kind pages publish))

chosen :
    (b : Bool) (x kind_at : OpKind × ℕ) (o : Option (OpKind × ℕ)) (ticks : List OpKind)
    → Occurs x ticks
    → (o ≡ some kind_at → Occurs kind_at ticks)
    → (if b then some x else o) ≡ some kind_at
    → Occurs kind_at ticks
chosen true x kind_at o ticks first next h =
    subst (λ k. Occurs k ticks) (some-injective x kind_at h) first
chosen false x kind_at o ticks first next h = next h

phase-Occurs :
    (phase : String) (kind : OpKind) (at n : ℕ) (ns : List ℕ)
    → parse_kind phase ≡ some (kind, at)
    → Occurs (kind, at) (flush (suc n ∷ ns) ++ publish)
unfolding parse_kind occurrences op_kind_eq
phase-Occurs phase kind at n ns h =
    let pages = flush (suc n ∷ ns) in
    let sub : Occurs (vectored_sub_write, 1) (pages ++ publish) = (omega arith, omega arith) in
    let sync1 = published OpKind.sync 1 pages (omega arith) (omega arith) in
    let write1 = published OpKind.write 1 pages (omega arith) (omega arith) in
    let sync2 = published OpKind.sync 2 pages (omega arith) (omega arith) in
    let rename1 = published OpKind.rename 1 pages (omega arith) (omega arith) in
    let before3 = published sync_dir_before 3 pages (omega arith) (omega arith) in
    let after4 = published sync_dir_after 4 pages (omega arith) (omega arith) in
    let all = pages ++ publish in
    let k : OpKind × ℕ = (kind, at) in
    chosen (phase == "mid-vectored-write") (vectored_sub_write, 1) k _ all sub
      (chosen (phase == "pages-written-pre-sync") (OpKind.sync, 1) k _ all sync1
        (chosen (phase == "pages-synced-pre-header-write") (OpKind.write, 1) k _ all write1
          (chosen (phase == "header-written-pre-sync") (OpKind.sync, 2) k _ all sync2
            (chosen (phase == "header-synced-pre-rename") (OpKind.rename, 1) k _ all rename1
              (chosen (phase == "during-sync-dir") (sync_dir_before, 3) k _ all before3
                (chosen (phase == "after-sync-dir-pre-gc") (sync_dir_after, 4) k none all after4
                  (λ e. absurd (ground arith))))))))
      h

module _ (V : Vfs) (debug : V.Error → String) (C : EngineClient V) where
  -- The driver stands behind this message, and what it has done to the storage is what a commit that
  -- is cut may have done.
  abbrev pub Stands :
      C.WriteTxn → V.World → List String → Poll String (Unit {0}) × (V.World × List String) → Type 0
  Stands txn v messages q =
      (q.0 ≡ parked)
      × (q.1.1 ≡ messages)
      × ((cuts : ℕ) × Allowed V (C.commit txn) v parked q.1.0 cuts)

  reached :
      (kind : OpKind) (at : ℕ) (posted : List String) (txn : C.WriteTxn) (v : V.World)
      (q : Poll String (Unit {0}) × (V.World × List String))
      → Occurs (kind, at) (client_ticks V (C.commit txn) v)
      → occurrences kind (client_ticks V (C.commit txn) v) < 2 ^ 64
      → EndsAs V (telling_commit V debug) C.commit kind at posted (done txn, v) q
      → Stands txn v (posted ++ beacon V kind at ∷ []) q
  reached kind at posted txn v q occurs small (r, cuts, told, allowed, inl h) =
      absurd (h.2 (occurs.0, occurs.1, small))
  reached kind at posted txn v q occurs small (done a, cuts, told, allowed, inr h) = absurd h.0
  reached kind at posted txn v q occurs small (failed e, cuts, told, allowed, inr h) = absurd h.0
  reached kind at posted txn v q occurs small (parked, cuts, told, allowed, inr h) =
      (told, h.1, (cuts, allowed))

  module _ (with_root : String → Async V.World V.Error (Unit {0})) where
    -- On a root that opens, where a transaction is prepared whose commit, left alone, makes the
    -- operations of the documented order, with any page writes and no more operations of the phase's
    -- kind than a count holds, the driver of every known phase comes to stand behind the phase's
    -- message, with the storage as a commit that is cut may leave it.
    pub oracle_commit-Stands :
        (root phase : String) (posted : List String) (kind : OpKind) (at : ℕ) (w opened v : V.World)
        (txn : C.WriteTxn) (n : ℕ) (ns : List ℕ)
        → parse_kind phase ≡ some (kind, at)
        → with_root root w ≡ (done tt, opened)
        → prepare V debug (over V C (plain V)) opened ≡ (done txn, v)
        → CommitOrder n ns (client_ticks V (C.commit txn) v)
        → occurrences kind (client_ticks V (C.commit txn) v) < 2 ^ 64
        → Stands txn v
            (posted ++ beacon V kind at ∷ [])
            (oracle_commit V debug with_root (over V C (wrapped V)) root phase (w, posted))
    oracle_commit-Stands root phase posted kind at w opened v txn n ns phased rooted prepared order
          small =
        let q = oracle_commit V debug with_root (over V C (wrapped V)) root phase (w, posted) in
        reached kind at posted txn v q
          (subst (Occurs (kind, at)) (sym order) (phase-Occurs phase kind at n ns phased)) small
          (subst (λ p. EndsAs V (telling_commit V debug) C.commit kind at posted p q) prepared
            (oracle_commit-EndsAs V debug C with_root root phase posted kind at w opened phased
              rooted))
