-- ===== src/Harness/Driver/Phases.antt =====
-- Where in a commit each phase parks.
use rust_browser_proofs.Base.{
  ℕ, zero, suc, String, ◌≡◌, refl, ap, ◌≢◌, ◌∙◌, ◌++◌, List, [], ◌∷◌, Option, none, some, arith,
  true, string_eq,
}
use rust_browser_proofs.Base.Dict.{lookup, insert}
use rust_browser_proofs.Harness.Fault.{
  OpKind, Action, TriggerState, op_kind_eq, unfired, count_tick, vectored_sub_write, vectored_write,
  sync_dir_before, sync_dir_after, should_fire, fire_of, pass,
}
use rust_browser_proofs.Harness.Driver.{parse_kind}

-- The ticks that pass before one fires.
unfoldable pub passed : List OpKind → TriggerState → List OpKind
passed [] t = []
passed (kind ∷ kinds) t =
    let (fire, t') = count_tick kind t in elim fire [ pass ↦ kind ∷ passed kinds t' | _ ↦ [] ]

abbrev sub_ticks : ℕ → List OpKind
sub_ticks zero = []
sub_ticks (suc n) = vectored_sub_write ∷ sub_ticks n

-- The vectored writes of the pages, by the number of requests in each.
abbrev pub flush : List ℕ → List OpKind
flush [] = []
flush (n ∷ ns) = sub_ticks n ++ vectored_write ∷ flush ns

-- The ticks behind the page writes, in the order that the driver's documentation gives: sync, header
-- write, sync, the two directory syncs of the setup, rename, and the two that publish.
abbrev pub publish : List OpKind
publish =
    OpKind.sync ∷ OpKind.write ∷ OpKind.sync ∷ sync_dir_before ∷ sync_dir_after ∷ sync_dir_before
    ∷ sync_dir_after ∷ OpKind.rename ∷ sync_dir_before ∷ sync_dir_after ∷ sync_dir_before
    ∷ sync_dir_after ∷ []

-- The ticks of a commit of at least one page, by that documentation.
abbrev pub CommitOrder : ℕ → List ℕ → List OpKind → Type 0
CommitOrder n ns ticks = ticks ≡ flush (suc n ∷ ns) ++ publish

-- The trigger of a driver at its arming.
abbrev pub armed_at : OpKind × ℕ → TriggerState
armed_at kind_at = unfired kind_at.0 kind_at.1 Action.park true

-- The ticks that pass before the phase's park, if there is such a phase.
unfoldable pub survivors : String → List OpKind → Option (List OpKind)
unfolding passed
survivors phase ticks = elim (parse_kind phase) [
  | none ↦ none
  | some kind_at ↦ some (passed ticks (armed_at kind_at))
]

passed-other :
    (kind : OpKind) (kinds : List OpKind) (t : TriggerState)
    → kind ≢ t.kind
    → passed (kind ∷ kinds) t ≡ kind ∷ passed kinds t
unfolding passed count_tick
passed-other kind kinds t h = ground arith

-- None of the ticks is of the kind.
abbrev Lacks : OpKind → List OpKind → Type 0
Lacks kind [] = Unit
Lacks kind (k ∷ ks) = (k ≢ kind) × Lacks kind ks

passed-append :
    (ks rest : List OpKind) (t : TriggerState)
    → Lacks t.kind ks
    → passed (ks ++ rest) t ≡ ks ++ passed rest t
passed-append [] rest t h = refl
passed-append (k ∷ ks) rest t (differ, h) =
    passed-other k (ks ++ rest) t differ
    ∙ ap (λ (l : List OpKind). k ∷ l) (passed-append ks rest t h)

sub_ticks-Lacks :
    (kind : OpKind) (n : ℕ) (ks : List OpKind)
    → vectored_sub_write ≢ kind
    → Lacks kind ks
    → Lacks kind (sub_ticks n ++ ks)
sub_ticks-Lacks kind zero ks h l = l
sub_ticks-Lacks kind (suc n) ks h l = (h, sub_ticks-Lacks kind n ks h l)

flush-Lacks :
    (kind : OpKind) (ns : List ℕ)
    → vectored_sub_write ≢ kind
    → vectored_write ≢ kind
    → Lacks kind (flush ns)
flush-Lacks kind [] h h' = tt
flush-Lacks kind (n ∷ ns) h h' =
    sub_ticks-Lacks kind n (vectored_write ∷ flush ns) h (h', flush-Lacks kind ns h h')

-- A trigger for a later kind lets all page writes pass.
passed-flush :
    (ns : List ℕ) (t : TriggerState)
    → vectored_sub_write ≢ t.kind
    → vectored_write ≢ t.kind
    → passed (flush ns ++ publish) t ≡ flush ns ++ passed publish t
passed-flush ns t h h' = passed-append (flush ns) publish t (flush-Lacks t.kind ns h h')

-- What each phase lets pass of a commit in the documented order: mid-vectored-write, no tick, as it
-- parks behind the first sub-write; the pages' phases, the page writes, and with them the first sync;
-- the header's phases, further the header write, and then also its sync and the setup's directory
-- syncs; during-sync-dir, further the rename and no publishing sync; after-sync-dir-pre-gc, every
-- tick but the last.
pub survivors_lem :
    (n : ℕ) (ns : List ℕ) (ticks : List OpKind)
    → CommitOrder n ns ticks
    → let pages = flush (suc n ∷ ns) in
      (survivors "mid-vectored-write" ticks ≡ some [])
      × (survivors "pages-written-pre-sync" ticks ≡ some (pages ++ []))
      × (survivors "pages-synced-pre-header-write" ticks ≡ some (pages ++ OpKind.sync ∷ []))
      × (survivors "header-written-pre-sync" ticks
          ≡ some (pages ++ OpKind.sync ∷ OpKind.write ∷ []))
      × (survivors "header-synced-pre-rename" ticks
          ≡ some (
              pages
              ++ OpKind.sync ∷ OpKind.write ∷ OpKind.sync ∷ sync_dir_before ∷ sync_dir_after
                ∷ sync_dir_before ∷ sync_dir_after ∷ []))
      × (survivors "during-sync-dir" ticks
          ≡ some (
              pages
              ++ OpKind.sync ∷ OpKind.write ∷ OpKind.sync ∷ sync_dir_before ∷ sync_dir_after
                ∷ sync_dir_before ∷ sync_dir_after ∷ OpKind.rename ∷ []))
      × (survivors "after-sync-dir-pre-gc" ticks
          ≡ some (
              pages
              ++ OpKind.sync ∷ OpKind.write ∷ OpKind.sync ∷ sync_dir_before ∷ sync_dir_after
                ∷ sync_dir_before ∷ sync_dir_after ∷ OpKind.rename ∷ sync_dir_before
                ∷ sync_dir_after ∷ sync_dir_before ∷ []))
unfolding survivors parse_kind passed count_tick op_kind_eq lookup insert string_eq should_fire
    fire_of
survivors_lem n ns ticks order =
    let late : (kind_at : OpKind × ℕ)
        → vectored_sub_write ≢ kind_at.0
        → vectored_write ≢ kind_at.0
        → some (passed ticks (armed_at kind_at))
          ≡ some (flush (suc n ∷ ns) ++ passed publish (armed_at kind_at)) =
      λ kind_at h h'.
        ap (λ l. some (passed l (armed_at kind_at))) order
        ∙ ap some (passed-flush (suc n ∷ ns) (armed_at kind_at) h h') in
    (
      ap (λ l. some (passed l (armed_at (vectored_sub_write, 1)))) order,
      late (OpKind.sync, 1) (λ e. cc) (λ e. cc),
      late (OpKind.write, 1) (λ e. cc) (λ e. cc),
      late (OpKind.sync, 2) (λ e. cc) (λ e. cc),
      late (OpKind.rename, 1) (λ e. cc) (λ e. cc),
      late (sync_dir_before, 3) (λ e. cc) (λ e. cc),
      late (sync_dir_after, 4) (λ e. cc) (λ e. cc),
    )
