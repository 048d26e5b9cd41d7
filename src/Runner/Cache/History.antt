-- ===== src/Runner/Cache/History.antt =====
-- The caches after any number of reports, from one process or from many.
use rust_browser_proofs.Base.{
  ℕ, String, ◌≡◌, ◌≢◌, refl, sym, subst, inl, inr, Option, none, some, [], ok, err, arith, ◌==◌,
  string_eq, if◌then◌else◌, Bool-cases,
}
use rust_browser_proofs.Base.Dict.{lookup, insert, lookup-insert, NodupKeys, insert-NodupKeys}
use rust_browser_proofs.Runner.Os.{Os, System, Row, Table, text}
use rust_browser_proofs.Runner.Cache.{
  mirror_report_in_cache, write_report, cache_place, with_report, first,
}
use rust_browser_proofs.Runner.Cache.Mirror.{
  Mirrors, mirror_report_in_cache-Outcome, table_at, row, with_row, table_at-with_row,
}
use rust_browser_proofs.Runner.Cache.Written.{Unwritten, write_report-Written}

-- The abstract store: at each place the text of the last report for a path.
abbrev pub Store : Type 0
Store = String → String → Option String

-- A report is stored for a path, in the cache at a place.
abbrev pub put : Store → String → String → String → Store
put store place path report p j =
    if p == place then (if j == path then some report else store p j) else store p j

-- A text has been written over whatever was at a place.
abbrev pub wipe : Store → String → Store
wipe store place p j = if p == place then none else store p j

-- What can have come about since there was no cache, with the store that it amounts to: reports that
-- were written or mirrored, well or not, by any hosts from any directories, and whatever leaves the
-- caches alone. A report that is written over a cache takes its place.
pub data History : Store → System → Type 0 where
  fresh : (s : System) → ((place : String) → table_at place s ≡ []) → History (λ _ _. none) s
  written :
      {store : Store} {s : System} (os : Os) (path report : String) (s' : System)
      → History store s
      → write_report os path report s ≡ (ok tt, s')
      → History (put (wipe store (os.place path)) (cache_place os path) path report) s'
  unwritten :
      {store : Store} {s : System} (os : Os) (path report reason : String) (s' : System)
      → History store s
      → write_report os path report s ≡ (err reason, s')
      → s' ≢ s
      → History (wipe store (os.place path)) s'
  unopened :
      {store : Store} {s : System} (os : Os) (path report reason : String) (s' : System)
      → History store s
      → write_report os path report s ≡ (err reason, s')
      → s' ≡ s
      → History store s'
  mirrored :
      {store : Store} {s : System} (os : Os) (path report : String) (s' : System)
      → History store s
      → mirror_report_in_cache os path report s ≡ (ok tt, s')
      → History (put store (cache_place os path) path report) s'
  unmirrored :
      {store : Store} {s : System} (os : Os) (path report reason : String) (s' : System)
      → History store s
      → mirror_report_in_cache os path report s ≡ (err reason, s')
      → History store s'
  elsewhere :
      {store : Store} {s : System} (s' : System)
      → History store s
      → ((place : String) → table_at place s' ≡ table_at place s)
      → History store s'

abbrev markdown_of : Option Row → Option String
markdown_of none = none
markdown_of (some r) = some r.markdown

-- A table has for the path what the store has, and its keys are distinct.
abbrev Agrees : Option String → String → Table → Type 0
Agrees o path table = NodupKeys table × (markdown_of (lookup path table) ≡ o)

abbrev pub Remembers : Store → System → String → String → Type 0
Remembers store s place path = Agrees (store place path) path (table_at place s)

-- What a text at a place leaves of the tables.
table_at-with_report :
    (os : Os) (path report place : String) (s : System)
    → table_at place (with_report os path report s)
      ≡ (if place == os.place path then [] else table_at place s)
table_at-with_report os path report place s =
    ground (arith, lookup-insert place (os.place path) (text report) s.files)

with_report-Remembers :
    (os : Os) (path report : String) (store : Store) (s : System) (p j : String)
    → Remembers store s p j
    → Remembers (wipe store (os.place path)) (with_report os path report s) p j
unfolding lookup
with_report-Remembers os path report store s p j h =
    subst (Agrees (wipe store (os.place path) p j) j)
      (sym (table_at-with_report os path report p s))
      (elim (Bool-cases (p == os.place path)) [ inl e ↦ rw e (tt, refl) | inr e ↦ rw e h ])

with_row-Remembers :
    (os : Os) (path report : String) (store : Store) (s : System) (millis : ℕ) (p j : String)
    → Remembers store s p j
    → Remembers (put store (cache_place os path) path report) (with_row os path report millis s) p j
with_row-Remembers os path report store s millis p j (distinct, same) =
    let table = table_at-with_row os path report p millis s in
    elim (Bool-cases (p == cache_place os path)) [
      | inl here ↦
          let place : p ≡ cache_place os path = ground arith in
          let now : table_at p (with_row os path report millis s)
              ≡ insert path (row report millis) (table_at p s) =
            ground (arith, table) in
          rw now (
            insert-NodupKeys path (row report millis) (table_at p s) distinct,
            ground (arith, lookup-insert j path (row report millis) (table_at p s)),
          )
      | inr there ↦
          let now : table_at p (with_row os path report millis s) ≡ table_at p s =
            ground (arith, table) in
          rw now (distinct, ground arith)
    ]

Mirrors-Remembers :
    (os : Os) (path report : String) (store : Store) (s s' : System) (p j : String)
    → Mirrors os path report s s'
    → Remembers store s p j
    → Remembers (put store (cache_place os path) path report) s' p j
Mirrors-Remembers os path report store s s' p j m h =
    subst (λ t. Remembers (put store (cache_place os path) path report) t p j) (sym m.1.2)
      (with_row-Remembers os path report store s m.1.0 p j h)

-- A report that is not written but has touched its file.
Unwritten-Remembers :
    (os : Os) (path report : String) (store : Store) (s s' : System) (p j : String)
    → Unwritten os path report s s'
    → s' ≢ s
    → Remembers store s p j
    → Remembers (wipe store (os.place path)) s' p j
Unwritten-Remembers os path report store s s' p j (inl same) touched h = absurd (touched same)
Unwritten-Remembers os path report store s s' p j (inr (inl (n, e))) touched h =
    subst (λ t. Remembers (wipe store (os.place path)) t p j) (sym e)
      (with_report-Remembers os path (first n report) store s p j h)
Unwritten-Remembers os path report store s s' p j (inr (inr e)) touched h =
    subst (λ t. Remembers (wipe store (os.place path)) t p j) (sym e)
      (with_report-Remembers os path report store s p j h)

-- Whatever reports were written or mirrored since there was no cache, and in whatever order, each
-- place has as its cache the map from the paths to the last reports that were stored there, since a
-- text was last written over it, and no path has two rows. A mirror that failed has left no trace,
-- and a write that failed none but the wiped cache where its report's file was one.
pub History-Remembers :
    {store : Store} {s : System} (place path : String)
    → History store s
    → Remembers store s place path
unfolding lookup
History-Remembers p j (fresh s e) = rw (e p) (tt, refl)
History-Remembers p j (written {store} {s} os path report s' before e) =
    let stored : Mirrors os path report (with_report os path report s) s' =
      rw e at (write_report-Written os path report s) in
    Mirrors-Remembers os path report (wipe store (os.place path)) (with_report os path report s) s'
      p j stored (with_report-Remembers os path report store s p j (History-Remembers p j before))
History-Remembers p j (unwritten {store} {s} os path report reason s' before e touched) =
    let left : Unwritten os path report s s' = rw e at (write_report-Written os path report s) in
    Unwritten-Remembers os path report store s s' p j left touched (History-Remembers p j before)
History-Remembers p j (unopened {store} {s} os path report reason s' before e same) =
    subst (λ t. Remembers store t p j) (sym same) (History-Remembers p j before)
History-Remembers p j (mirrored {store} {s} os path report s' before e) =
    let stored : Mirrors os path report s s' =
      rw e at (mirror_report_in_cache-Outcome os path report s) in
    Mirrors-Remembers os path report store s s' p j stored (History-Remembers p j before)
History-Remembers p j (unmirrored {store} {s} os path report reason s' before e) =
    let same : s' ≡ s = rw e at (mirror_report_in_cache-Outcome os path report s) in
    subst (λ t. Remembers store t p j) (sym same) (History-Remembers p j before)
History-Remembers p j (elsewhere {store} {s} s' before e) =
    subst (Agrees (store p j) j) (sym (e p)) (History-Remembers p j before)
