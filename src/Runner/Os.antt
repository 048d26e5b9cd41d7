-- ===== src/Runner/Os.antt =====
-- What the runner asks of its surroundings. Files, databases and printed lines are its state; the
-- file system's refusals, the processes that it starts and SQLite's refusals are parameters.
use rust_browser_proofs.Base.{ℕ, String, Bool, Option, none, some, List, Result, string_eq}
use rust_browser_proofs.Base.Dict.{Dict, lookup}
use rust_browser_proofs.Base.Int.{ℤ}
use rust_browser_proofs.Runner.Paths.{Env}

-- A row of `report_cache` behind its primary key, `markdown_path`.
pub record Row : Type 0 where
  pub markdown : String
  pub written_at_unix_ms : ℤ

abbrev pub Table : Type 0
Table = Dict String Row

-- What a file holds: a text, or a SQLite database with its committed `report_cache` table.
pub data Content : Type 0 where
  text : String → Content
  database : Table → Content

-- The files by the place that they have on the disk, and what was printed.
pub record System : Type 0 where
  pub files : Dict String Content
  pub printed : List String

-- `process::Output`, with both streams decoded.
pub record Output : Type 0 where
  pub success : Bool
  pub stdout : String
  pub stderr : String

-- Why a file is not written: it could not be opened for that, or the write was cut off behind so many
-- characters.
pub data WriteError : Type 0 where
  not_opened : String → WriteError
  cut_off : String → ℕ → WriteError

-- Why SQLite refuses a step on the database at a path, if it does.
pub record Sqlite : Type 0 where
  pub open_error : String → Option String
  pub begin_error : String → Option String
  pub schema_error : String → Option String
  pub store_error : String → Option String
  pub commit_error : String → Option String

pub record Os : Type 0 where
  pub env : Env
  -- `cfg!(target_os = "macos")`
  pub macos : Bool
  pub current_dir : Result String String
  -- the place on the disk that a path leads to from this process's directory
  pub place : String → String
  pub is_file : String → Bool
  pub is_dir : String → Bool
  -- the error text for a path that cannot be read
  pub read_error : String → String
  pub mkdir_error : String → Option String
  pub write_error : String → Option WriteError
  -- a program run to collect its output
  pub output : String → List String → Result String Output
  -- a program run with the given variables on top of the environment: its exit code, or none if a
  -- signal ended it, and the state that it leaves
  pub spawn :
      String → List String → List (String × String) → System → Result String (Option ℤ) × System
  pub sqlite : Sqlite

-- `fs::read_to_string`: a database is not text.
abbrev pub text_of : Option Content → Option String
text_of (some (text t)) = some t
text_of _ = none

abbrev pub text_at : Os → String → System → Option String
text_at os path s = text_of (lookup (os.place path) s.files)
