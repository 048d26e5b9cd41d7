-- ===== src/Runner/Cache/Written.antt =====
-- `write_report` leaves the report in its file and in the cache, or says why not.
use rust_browser_proofs.Base.{
  ℕ, String, ◌≡◌, ◌≢◌, refl, sym, subst, ◌⊎◌, inl, inr, none, some, Option, Result, ok, err, arith,
  Option-cases, string_eq, ◌==◌, Bool-cases, false,
}
use rust_browser_proofs.Base.Dict.{lookup, insert, lookup-insert}
use rust_browser_proofs.Runner.Os.{
  Os, System, text, database, WriteError, not_opened, cut_off, text_at,
}
use rust_browser_proofs.Runner.Paths.{report_directory}
use rust_browser_proofs.Runner.Cache.{
  write_report, directory_error, cache_place, foreign, with_report, first,
}
use rust_browser_proofs.Runner.Cache.Mirror.{
  Mirrors, Outcome, mirror_report_in_cache-Outcome, table_at, row, mirrored-table, with_row,
}

-- What a write that fails leaves: nothing new; or in the report's file, over whatever stood there, a
-- first part of the report or all of it.
abbrev pub Unwritten : Os → String → String → System → System → Type 0
Unwritten os path report s s' =
    (s' ≡ s)
    ⊎ ((n : ℕ) × (s' ≡ with_report os path (first n report) s))
    ⊎ (s' ≡ with_report os path report s)

abbrev pub Written : Os → String → String → System → Result String (Unit {0}) × System → Type 0
Written os path report s (ok _, s') = Mirrors os path report (with_report os path report s) s'
Written os path report s (err _, s') = Unwritten os path report s s'

after_mirror :
    (os : Os) (path report : String) (s : System) (p : Result String (Unit {0}) × System)
    → Outcome os path report (with_report os path report s) p
    → Written os path report s p
after_mirror os path report s (ok _, s') h = h
after_mirror os path report s (err _, s') h = inr (inr h)

-- The write behind the creation of the directory, by why it fails if it does.
opened-Written :
    (os : Os) (path report : String) (s : System) (o : Option WriteError)
    → directory_error os (report_directory path) ≡ none
    → os.write_error path ≡ o
    → Written os path report s (write_report os path report s)
unfolding write_report
opened-Written os path report s none created e =
    rw (created, e, write_report)
      (after_mirror os path report s _
        (mirror_report_in_cache-Outcome os path report (with_report os path report s)))
opened-Written os path report s (some (not_opened error)) created e =
    rw (created, e, write_report) (inl refl)
opened-Written os path report s (some (cut_off error n)) created e =
    rw (created, e, write_report) (inr (inl (n, refl)))

-- A report that is written stands in its file and then as its row in the cache beside it, and nothing
-- else changes. If the write fails, nothing has changed, or the report's file alone: it holds the
-- report or a first part of it, even where it was a cache before.
pub write_report-Written :
    (os : Os) (path report : String) (s : System)
    → Written os path report s (write_report os path report s)
unfolding write_report
write_report-Written os path report s =
    elim (Option-cases (directory_error os (report_directory path))) [
      | inr (e, refused) ↦ rw (refused, write_report) (inl refl)
      | inl created ↦ opened-Written os path report s (os.write_error path) created refl
    ]

-- A report that is not empty is no cache.
apart :
    (os : Os) (path report : String) (s : System)
    → report ≢ ""
    → foreign (lookup (cache_place os path) (with_report os path report s).files) ≡ none
    → (os.place path == cache_place os path) ≡ false
apart os path report s some_text own = elim (Bool-cases (os.place path == cache_place os path)) [
  | inr e ↦ e
  | inl e ↦
      absurd
        (ground (arith, lookup-insert (cache_place os path) (os.place path) (text report) s.files))
]

abbrev Found : Os → String → String → System → Type 0
Found os path report s' =
    (text_at os path s' ≡ some report)
    × ((millis : ℕ) × (lookup path (table_at (cache_place os path) s') ≡ some (row report millis)))

both_stored :
    (os : Os) (path report : String) (s : System) (millis : ℕ)
    → (os.place path == cache_place os path) ≡ false
    → Found os path report (with_row os path report millis (with_report os path report s))
both_stored os path report s millis other =
    let t = with_report os path report s in
    let place = os.place path in
    let cache = cache_place os path in
    let table = insert path (row report millis) (table_at cache t) in
    (
      ground (
        arith,
        lookup-insert place cache (database table) t.files,
        lookup-insert place place (text report) s.files,
      ),
      (
        millis,
        ground (
          arith,
          mirrored-table os path report t millis,
          lookup-insert path path (row report millis) (table_at cache t),
        ),
      ),
    )

-- What a successful write leaves where the report is looked for.
pub write_report-found :
    (os : Os) (path report : String) (s s' : System)
    → report ≢ ""
    → write_report os path report s ≡ (ok tt, s')
    → (text_at os path s' ≡ some report)
      × ((millis : ℕ) × (lookup path (table_at (cache_place os path) s')
            ≡ some (row report millis)))
write_report-found os path report s s' some_text h =
    let m : Mirrors os path report (with_report os path report s) s' =
      rw h at (write_report-Written os path report s) in
    subst (Found os path report) (sym m.1.2)
      (both_stored os path report s m.1.0 (apart os path report s some_text m.0))
