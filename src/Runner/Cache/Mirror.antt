-- ===== src/Runner/Cache/Mirror.antt =====
-- `mirror_report_in_cache` stores one row, and all of it or nothing.
use rust_browser_proofs.Base.{
  ℕ, ◌==◌, if◌then◌else◌, String, ◌≡◌, refl, Option, none, some, [], Result, ok, err, arith,
  Option-cases, inl, inr, string_eq,
}
use mathlib.Core.Option.{get_or}
use rust_browser_proofs.Base.Dict.{
  lookup, insert, lookup-insert, insert-lookup_self, NodupKeys, insert-NodupKeys,
}
use rust_browser_proofs.Base.Int.{as_i64}
use rust_browser_proofs.Runner.Os.{Os, System, Table, Row, Content, text, database}
use rust_browser_proofs.Runner.Paths.{report_cache_path}
use rust_browser_proofs.Runner.Cache.{
  cache_place, table_of, foreign, Connection, mirror_statements, store_committed,
  mirror_report_in_cache,
}

-- What the session leaves committed, by how it ended.
abbrev Commits :
    Os
    → Option Content
    → String
    → String
    → Connection
    → Result String (Unit {0}) × Connection
    → Type 0
Commits os file path report c (err _, c') = c'.committed ≡ c.committed
Commits os file path report c (ok _, c') =
    (foreign file ≡ none)
    × (millis : ℕ) × (os.env.now ≡ some millis)
    × (c'.committed
        ≡ some (
            insert path (record { markdown = report; written_at_unix_ms = as_i64 millis })
              (get_or c.working [])))

mirror_statements-Commits :
    (os : Os) (file : Option Content) (path report : String) (c : Connection)
    → Commits os file path report c (mirror_statements os file path report c)
unfolding mirror_statements
mirror_statements-Commits os file path report c = elim (Option-cases os.env.now) [
  | inl e ↦ ground arith
  | inr (millis, e) ↦ ground arith
]

-- The row that a mirror of the report at this time stores.
abbrev pub row : String → ℕ → Row
row report millis = record { markdown = report; written_at_unix_ms = as_i64 millis }

-- The table that the database at a place has, empty before there is one.
abbrev pub table_at : String → System → Table
table_at place s = get_or (table_of (lookup place s.files)) []

-- The state with this report's row in the cache beside it, at this time.
abbrev pub with_row : Os → String → String → ℕ → System → System
with_row os path report millis s = record s {
  files =
      insert (cache_place os path)
        (database (insert path (row report millis) (table_at (cache_place os path) s))) s.files;
}

-- What a mirror of a report does: no text stands where the cache is to be, and the row of that report
-- is stored and nothing else.
abbrev pub Mirrors : Os → String → String → System → System → Type 0
Mirrors os path report s s' =
    (foreign (lookup (cache_place os path) s.files) ≡ none)
    × ((millis : ℕ) × (os.env.now ≡ some millis) × (s' ≡ with_row os path report millis s))

abbrev pub Outcome : Os → String → String → System → Result String (Unit {0}) × System → Type 0
Outcome os path report s (ok _, s') = Mirrors os path report s s'
Outcome os path report s (err _, s') = s' ≡ s

-- The connection that `mirror_report_in_cache` opens.
abbrev opened : Option Content → Connection
opened file = record { committed = table_of file; working = table_of file }

-- A session that fails leaves the file that was there.
kept :
    (place : String) (file : Option Content) (c : Connection) (s : System)
    → lookup place s.files ≡ file
    → c.committed ≡ table_of file
    → store_committed place c s ≡ s
unfolding store_committed
kept place none c s e h = rw h refl
kept place (some (text t)) c s e h = rw h refl
kept place (some (database table)) c s e h =
    ground (arith, insert-lookup_self place (database table) s.files e)

stored-Outcome :
    (os : Os) (path report : String) (s : System) (p : Result String (Unit {0}) × Connection)
    → Commits os
        (lookup (cache_place os path) s.files)
        path
        report
        (opened (lookup (cache_place os path) s.files))
        p
    → Outcome os path report s (p.0, store_committed (cache_place os path) p.1 s)
unfolding store_committed
stored-Outcome os path report s (err e, c) h =
    kept (cache_place os path) (lookup (cache_place os path) s.files) c s refl h
stored-Outcome os path report s (ok _, c) (own, millis, now, stored) =
    (own, (millis, now, ground arith))

-- A mirror that succeeds stores the row of this report, stamped with the time, in the cache beside
-- the report, where no text but an empty one stood, and changes nothing else; one that fails, at
-- whatever step, changes nothing.
pub mirror_report_in_cache-Outcome :
    (os : Os) (path report : String) (s : System)
    → Outcome os path report s (mirror_report_in_cache os path report s)
unfolding mirror_report_in_cache store_committed
mirror_report_in_cache-Outcome os path report s =
    elim (Option-cases (os.sqlite.open_error (report_cache_path path))) [
      | inl e ↦
          rw (e, mirror_report_in_cache)
            (stored-Outcome os path report s _ (
              mirror_statements-Commits os (lookup (cache_place os path) s.files) path report
                (opened (lookup (cache_place os path) s.files))))
      | inr (text_, e) ↦ rw (e, mirror_report_in_cache) refl
    ]

-- Every table behind a mirror.
pub table_at-with_row :
    (os : Os) (path report place : String) (millis : ℕ) (s : System)
    → table_at place (with_row os path report millis s) ≡ (
        if place == cache_place os path
        then insert path (row report millis) (table_at (cache_place os path) s)
        else table_at place s)
table_at-with_row os path report place millis s =
    let table = insert path (row report millis) (table_at (cache_place os path) s) in
    ground (arith, lookup-insert place (cache_place os path) (database table) s.files)

pub mirrored-table :
    (os : Os) (path report : String) (s : System) (millis : ℕ)
    → table_at (cache_place os path) (with_row os path report millis s)
      ≡ insert path (row report millis) (table_at (cache_place os path) s)
mirrored-table os path report s millis =
    ground (arith, table_at-with_row os path report (cache_place os path) millis s)

-- After a mirror that succeeds, the report's path has the row of this report in the table, and
-- every other path has the row that it had; a table without duplicate keys still has none.
pub mirror_report_in_cache-rows :
    (os : Os) (path report : String) (s s' : System) (j : String)
    → mirror_report_in_cache os path report s ≡ (ok tt, s')
    → NodupKeys (table_at (cache_place os path) s)
    → NodupKeys (table_at (cache_place os path) s')
      × ((millis : ℕ) × (os.env.now ≡ some millis)
          × (lookup j (table_at (cache_place os path) s') ≡ (
              if j == path
              then some (row report millis)
              else lookup j (table_at (cache_place os path) s))))
mirror_report_in_cache-rows os path report s s' j h u =
    let (own, millis, now, e) : (foreign (lookup (cache_place os path) s.files) ≡ none)
        × (millis : ℕ) × (os.env.now ≡ some millis)
        × (s' ≡ with_row os path report millis s) =
      (let m : Mirrors os path report s s' =
          rw h at (mirror_report_in_cache-Outcome os path report s) in
        (m.0, m.1.0, m.1.1, m.1.2)) in
    let old = table_at (cache_place os path) s in
    rw (e, mirrored-table os path report s millis)
      (
        insert-NodupKeys path (row report millis) old u,
        (millis, now, lookup-insert j path (row report millis) old),
      )
