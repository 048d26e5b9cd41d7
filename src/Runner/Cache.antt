-- ===== src/Runner/Cache.antt =====
-- The report and its mirror in the SQLite cache beside it: `write_report`, `mirror_report_in_cache`.
pub mod Mirror
pub mod Written
pub mod History
mod Tests
use mathlib.Core.Option.{get_or}
use rust_browser_proofs.Base.{
  ℕ, String, ◌<>◌, Option, none, some, [], Result, ok, err, string_eq, ◌==◌, if◌then◌else◌, take,
}
use rust_browser_proofs.Base.Text.{chars, from_chars}
use rust_browser_proofs.Base.Dict.{lookup, insert}
use rust_browser_proofs.Base.Int.{as_i64}
use rust_browser_proofs.Runner.Os.{
  Os, System, Table, Row, Content, text, database, WriteError, not_opened, cut_off,
}
use rust_browser_proofs.Runner.Paths.{clock_error, report_directory, report_cache_path}

-- A connection with an open transaction: the table as last committed, none before the schema
-- exists, and as the transaction sees it. A transaction that is dropped rolls back.
pub record Connection : Type 0 where
  pub committed : Option Table
  pub working : Option Table

abbrev pub Session : Type 0 → Type 0
Session A = Connection → Result String A × Connection

infixl 5 ◌>>=◌ ◌>>◌
abbrev ◌>>=◌ : {A B : Type 0} → Session A → (A → Session B) → Session B
◌>>=◌ m f c = let (r, c') = m c in elim r [ ok a ↦ f a c' | err e ↦ (err e, c') ]

abbrev ◌>>◌ : {B : Type 0} → Session (Unit {0}) → Session B → Session B
m >> k = m >>= λ _. k

-- `map_err(..)?` on a step that fails with the error text, if there is one.
abbrev refuse : Option String → String → Session (Unit {0})
refuse none context c = (ok tt, c)
refuse (some error) context c = (err (context <> (": " <> error)), c)

abbrev modify : (Connection → Connection) → Session (Unit {0})
modify f c = (ok tt, f c)

-- `CREATE TABLE IF NOT EXISTS`
abbrev create_table : Connection → Connection
create_table c = record c { working = some (get_or c.working []) }

-- `INSERT … ON CONFLICT(markdown_path) DO UPDATE`
abbrev upsert : String → Row → Connection → Connection
upsert path row c = record c { working = some (insert path row (get_or c.working [])) }

abbrev commit : Connection → Connection
commit c = record c { committed = c.working }

abbrev timestamp : Option ℕ → Session ℕ
timestamp none c = (err ("could not timestamp report cache row: " <> clock_error), c)
timestamp (some millis) c = (ok millis, c)

-- The place of the cache beside a report.
abbrev pub cache_place : Os → String → String
cache_place os report_path = os.place (report_cache_path report_path)

-- The table of a database, and none before there is one.
abbrev pub table_of : Option Content → Option Table
table_of (some (database table)) = some table
table_of _ = none

-- An empty file is an empty database, and any other text is none.
abbrev pub foreign : Option Content → Option String
foreign (some (text t)) = if t == "" then none else some "file is not a database"
foreign _ = none

-- The statements of `mirror_report_in_cache` on an open connection.
mirror_statements : Os → Option Content → String → String → Session (Unit {0})
mirror_statements os file report_path report =
    let cache_path = report_cache_path report_path in
    do
      refuse (os.sqlite.begin_error cache_path)
          ("could not start report cache transaction " <> cache_path)
      refuse (foreign file) ("could not start report cache transaction " <> cache_path)
      refuse (os.sqlite.schema_error cache_path)
          ("could not create report cache schema " <> cache_path)
      modify create_table
      millis ← timestamp os.env.now
      refuse (os.sqlite.store_error cache_path) ("could not store report cache row " <> cache_path)
      modify (upsert report_path (record { markdown = report; written_at_unix_ms = as_i64 millis }))
      refuse (os.sqlite.commit_error cache_path)
          ("could not commit report cache transaction " <> cache_path)
      modify commit

-- The database after the session: what was committed is what stays.
store_committed : String → Connection → System → System
store_committed place c s = elim c.committed [
  | none ↦ s
  | some table ↦ record s { files = insert place (database table) s.files }
]

unfoldable pub mirror_report_in_cache :
    Os → String → String → System → Result String (Unit {0}) × System
unfolding mirror_statements store_committed
mirror_report_in_cache os report_path report s =
    let cache_path = report_cache_path report_path in
    elim (os.sqlite.open_error cache_path) [
      | some error ↦ (err ("could not open report cache " <> (cache_path <> (": " <> error))), s)
      | none ↦
          let file = lookup (cache_place os report_path) s.files in
          let (r, c) =
            mirror_statements os file report_path report
              (record { committed = table_of file; working = table_of file }) in
          (r, store_committed (cache_place os report_path) c s)
    ]

abbrev directory_error : Os → Option String → Option String
directory_error os none = none
directory_error os (some directory) = elim (os.mkdir_error directory) [
  | none ↦ none
  | some error ↦ some ("could not create report directory " <> (directory <> (": " <> error)))
]

-- The state with a text in the file of this path, whatever was there.
abbrev pub with_report : Os → String → String → System → System
with_report os path report s = record s { files = insert (os.place path) (text report) s.files }

-- The first characters of a text.
abbrev pub first : ℕ → String → String
first n report = from_chars (take n (chars report))

abbrev unwritten : String → String → String
unwritten path error = "could not write report " <> (path <> (": " <> error))

unfoldable pub write_report : Os → String → String → System → Result String (Unit {0}) × System
write_report os path report s = elim (directory_error os (report_directory path)) [
  | some error ↦ (err error, s)
  | none ↦ elim (os.write_error path) [
    | some (not_opened error) ↦ (err (unwritten path error), s)
    | some (cut_off error n) ↦ (err (unwritten path error), with_report os path (first n report) s)
    | none ↦ mirror_report_in_cache os path report (with_report os path report s)
  ]
]
