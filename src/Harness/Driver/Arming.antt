-- ===== src/Harness/Driver/Arming.antt =====
-- The doomed commit runs with a trigger that has counted nothing.
use rust_browser_proofs.Base.{ℕ, String, ◌<>◌, ◌≡◌, refl, ap, ◌∙◌, ◌⊎◌, inl, inr, false, List}
use rust_browser_proofs.Harness.Vfs.{Poll, done, failed, parked, Async, ◌>>=◌, ◌>>◌, Vfs}
use rust_browser_proofs.Harness.Engine.{Engine}
use rust_browser_proofs.Harness.Fault.{FaultState, OpKind, Action, TriggerState, unfired, arm}
use rust_browser_proofs.Harness.Driver.{tell, arm_trigger, doomed_commit}

module _ (V : Vfs) where
  -- Nothing is armed, counted or posted since the wrapper was made.
  abbrev pub Untouched : OpKind → ℕ → List String → FaultState V → Type 0
  Untouched kind at posted s =
      (s.trigger ≡ unfired kind at Action.park false) × (s.beacons ≡ posted)

  -- A call that an unarmed wrapper does not see.
  abbrev pub Unseen : {E A : Type 0} → Async (FaultState V) E A → Type 0
  Unseen m =
      (s : FaultState V)
      → s.trigger.armed ≡ false
      → ((m s).1.trigger ≡ s.trigger) × ((m s).1.beacons ≡ s.beacons)

-- The engine reaches the wrapper through the file system alone, whose operations leave a trigger
-- that is not armed, and the messages, as they are.
pub record Bystander (V : Vfs) (E : Engine (FaultState V) V.Error) : Type 0 where
  pub open_existing : Unseen V E.open_existing
  pub begin_write : (db : E.Db) → Unseen V (E.begin_write db)
  pub put : (w : E.WriteTxn) (key value : String) → Unseen V (E.put w key value)
  pub link_segment :
      (w : E.WriteTxn) (name : String) (meta : E.SegmentMeta)
      → Unseen V (E.link_segment w name meta)
  pub create_segment : (db : E.Db) → Unseen V (E.create_segment db)
  pub append_page : (sw : E.SegmentWriter) (page : String) → Unseen V (E.append_page sw page)
  pub seal : (sw : E.SegmentWriter) → Unseen V (E.seal sw)

abbrev pub Halted : {E A : Type 0} → Poll E A → Type 0
Halted (done a) = ⊥
Halted _ = Unit

module _ (V : Vfs) (debug : V.Error → String) (kind : OpKind) (at : ℕ) (posted : List String) where
  abbrev Ready : FaultState V → Type 0
  Ready = Untouched V kind at posted

  -- What holds of a chain that halts with the wrapper untouched, and of the rest of a chain from
  -- every untouched state, holds of a chain that begins with an outcome that left it so.
  told :
      {A B : Type 0} (Q : Poll String B × FaultState V → Type 0) (context : String)
      (f : A → Async (FaultState V) String B) (s : FaultState V) (q : Poll V.Error A × FaultState V)
      → ((p : Poll String B) (t : FaultState V) → Halted p → Ready t → Q (p, t))
      → ((a : A) (t : FaultState V) → Ready t → Q (f a t))
      → Ready q.1
      → Q ((tell V debug context (λ _. q) >>= f) s)
  told Q context f s (done a, t) halts next h = next a t h
  told Q context f s (failed e, t) halts next h = halts (failed (context <> debug e)) t tt h
  told Q context f s (parked, t) halts next h = halts parked t tt h

  -- The same of a chain that begins with a call that an unarmed wrapper does not see.
  tell_unseen :
      {A B : Type 0} (Q : Poll String B × FaultState V → Type 0) (context : String)
      (m : Async (FaultState V) V.Error A) (f : A → Async (FaultState V) String B)
      (s : FaultState V)
      → ((p : Poll String B) (t : FaultState V) → Halted p → Ready t → Q (p, t))
      → Unseen V m
      → Ready s
      → ((a : A) (t : FaultState V) → Ready t → Q (f a t))
      → Q ((tell V debug context m >>= f) s)
  tell_unseen Q context m f s halts unseen h next =
      let (trigger, beacons) = unseen s (ap (λ (t : TriggerState). t.armed) h.0) in
      told Q context f s (m s) halts next (trigger ∙ h.0, beacons ∙ h.1)

  module _ (E : Engine (FaultState V) V.Error) where
    -- Either the driver halted before the commit, and the wrapper is untouched; or its outcome is
    -- that of the commit of a transaction from an untouched state at which the trigger was armed.
    abbrev pub Doomed : Poll String (Unit {0}) × FaultState V → Type 0
    Doomed q =
        (Halted q.0 × Ready q.1)
        ⊎ ((w : E.WriteTxn) × (t : FaultState V) × Ready t
            × (q ≡ tell V debug "commit: " (E.commit w) (arm V t)))

    -- The occurrences that a phase counts are those of the commit: from an unarmed trigger that has
    -- counted nothing, the driver either halts before the commit, with the trigger and the messages
    -- as they were, or gives what the commit gives when it starts with that trigger armed, still
    -- with nothing counted and nothing posted.
    doomed_commit-Doomed :
        (s : FaultState V)
        → Bystander V E
        → Untouched V kind at posted s
        → Doomed (doomed_commit V debug E s)
    unfolding doomed_commit
    doomed_commit-Doomed s unaware h =
        let halts : (p : Poll String (Unit {0})) (t : FaultState V)
            → Halted p
            → Ready t
            → Doomed (p, t) =
          λ p t stopped ready. inl (stopped, ready) in
        let k7 = λ (w : E.WriteTxn). arm_trigger V debug >> tell V debug "commit: " (E.commit w) in
        let k6 = λ (meta : E.SegmentMeta) (w : E.WriteTxn).
          tell V debug "" (E.link_segment w "doomed.seg" meta) >>= k7 in
        let k5 = λ (meta : E.SegmentMeta) (w : E.WriteTxn).
          tell V debug "" (E.put w "victim" "uncertain-gen-2") >>= k6 meta in
        let k4 =
          λ (db : E.Db) (meta : E.SegmentMeta). tell V debug "" (E.begin_write db) >>= k5 meta in
        let k3 = λ (db : E.Db) (sw : E.SegmentWriter). tell V debug "" (E.seal sw) >>= k4 db in
        let k2 = λ (db : E.Db) (sw : E.SegmentWriter).
          tell V debug "" (E.append_page sw "doomed-segment-page") >>= k3 db in
        let k1 = λ (db : E.Db). tell V debug "" (E.create_segment db) >>= k2 db in
        tell_unseen Doomed "seed-open: " E.open_existing k1 s halts unaware.open_existing h
          λ db t1 r1.
            tell_unseen Doomed "" (E.create_segment db) (k2 db) t1 halts (unaware.create_segment db)
              r1
              λ sw t2 r2.
                tell_unseen Doomed "" (E.append_page sw "doomed-segment-page") (k3 db) t2 halts
                  (unaware.append_page sw "doomed-segment-page") r2
                  λ sw' t3 r3.
                    tell_unseen Doomed "" (E.seal sw') (k4 db) t3 halts (unaware.seal sw') r3
                      λ meta t4 r4.
                        tell_unseen Doomed "" (E.begin_write db) (k5 meta) t4 halts
                          (unaware.begin_write db) r4
                          λ w t5 r5.
                            tell_unseen Doomed "" (E.put w "victim" "uncertain-gen-2") (k6 meta) t5
                              halts (unaware.put w "victim" "uncertain-gen-2") r5
                              λ w' t6 r6.
                                tell_unseen Doomed "" (E.link_segment w' "doomed.seg" meta) k7 t6
                                  halts (unaware.link_segment w' "doomed.seg" meta) r6
                                  λ linked t7 r7. inr (linked, t7, r7, refl)
