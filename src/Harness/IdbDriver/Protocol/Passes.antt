-- ===== src/Harness/IdbDriver/Protocol/Passes.antt =====
-- The crash tests on files, from the seed to the verification.
use rust_browser_proofs.Base.{String, ◌≡◌, [], ◌∷◌, true, false}
use rust_browser_proofs.Harness.Vfs.{Async, done, parked, Vfs}
use rust_browser_proofs.Harness.IdbDriver.{
  Idb, idb_seed_baseline, idb_crash_after_file_sync, idb_crash_after_namespace_sync,
  idb_crash_during_namespace_put, idb_verify_file_sync, idb_verify_namespace_sync,
  idb_verify_namespace_put,
}
use rust_browser_proofs.Harness.IdbDriver.Completes.{Refuses}
use rust_browser_proofs.Harness.IdbDriver.Protocol.Files.{pending, published, Durable}
use rust_browser_proofs.Harness.IdbDriver.Protocol.Seeded.{
  baseline, doomed, idb_seed_baseline-Completes, crash_after_file_sync-Parks,
  idb_crash_during_namespace_put-Parks,
}
use rust_browser_proofs.Harness.IdbDriver.Protocol.Verifies.{
  verify_unpublished_path-Completes, idb_verify_namespace_sync-Completes,
  verify_unpublished_path-Refuses,
}

module _ (V : Vfs) (I : Idb V) (D : Durable V I) where
  abbrev Driver : Type 0
  Driver = String → Async V.World String (Unit {0})

  -- The seed completes, the driver that is to be killed parks, and the verification completes and
  -- leaves no store.
  abbrev pub Survives : Driver → Driver → String → V.World → Type 0
  Survives crash verify root w =
      (w₁ w₂ w₃ : V.World) × (idb_seed_baseline V I root w ≡ (done tt, w₁))
      × (crash root (D.kill w₁) ≡ (parked, w₂))
      × (verify root (D.kill w₂) ≡ (done tt, w₃))
      × D.IsStored root [] w₃

  -- The verification refuses what the driver leaves.
  abbrev pub Detects : Driver → Driver → String → String → V.World → Type 0
  Detects crash verify reason root w =
      (w₁ w₂ : V.World) × (idb_seed_baseline V I root w ≡ (done tt, w₁))
      × (crash root (D.kill w₁) ≡ (parked, w₂))
      × Refuses (verify root) (D.kill w₂) reason

  -- On a back end that keeps its promises the crash tests on files raise no false alarm, and miss
  -- no published path: from a root with no store, the seed completes, each of the three drivers
  -- comes to stand where its worker is killed, and the verification that goes with it completes and
  -- deletes the store; and the verification of an unpublished path refuses what the driver leaves
  -- that has published it.
  pub crash_tests-Survives :
      (root : String) (w : V.World)
      → D.IsStored root [] w
      → Survives (idb_crash_after_file_sync V I) (idb_verify_file_sync V I) root w
        × Survives (idb_crash_after_namespace_sync V I) (idb_verify_namespace_sync V I) root w
        × Survives (idb_crash_during_namespace_put V I) (idb_verify_namespace_put V I) root w
        × Detects
            (idb_crash_after_namespace_sync V I)
            (idb_verify_file_sync V I)
            "doomed path was published"
            root
            w
  unfolding idb_crash_after_file_sync idb_crash_after_namespace_sync idb_verify_file_sync
      idb_verify_namespace_put
  crash_tests-Survives root w stored =
      let (_, w₁, seeded, opened) = idb_seed_baseline-Completes V I D root w stored in
      let stored₁ = D.killed root (baseline ∷ []) 1 w₁ opened in
      let (a, parked_a, left_a) =
        crash_after_file_sync-Parks V I D root false (D.kill w₁) stored₁ in
      let (b, parked_b, left_b) = crash_after_file_sync-Parks V I D root true (D.kill w₁) stored₁ in
      let (c, parked_c, left_c) =
        idb_crash_during_namespace_put-Parks V I D root (D.kill w₁) stored₁ in
      let stored_b = D.killed root (baseline ∷ doomed published ∷ []) 1 b left_b in
      let (_, a', verified_a, gone_a) =
        verify_unpublished_path-Completes V I D root (D.kill a)
          (D.killed root (baseline ∷ doomed pending ∷ []) 1 a left_a) in
      let (_, b', verified_b, gone_b) =
        idb_verify_namespace_sync-Completes V I D root (D.kill b) stored_b in
      let (_, c', verified_c, gone_c) =
        verify_unpublished_path-Completes V I D root (D.kill c)
          (D.killed root (baseline ∷ doomed pending ∷ []) 1 c left_c) in
      (
        (w₁, a, a', seeded, parked_a, verified_a, gone_a),
        (w₁, b, b', seeded, parked_b, verified_b, gone_b),
        (w₁, c, c', seeded, parked_c, verified_c, gone_c),
        (w₁, b, seeded, parked_b, verify_unpublished_path-Refuses V I D root (D.kill b) stored_b),
      )
