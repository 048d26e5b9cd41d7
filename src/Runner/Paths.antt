-- ===== src/Runner/Paths.antt =====
-- The operations of `std::path` that the runner uses, over Unix paths, and the two paths that the
-- runner builds from them: the report's and the report cache's.

use Prim.Native.Char.{Char}
use mathlib.Core.List.{reverse}
use mathlib.Core.Option.{or_else, get_or}
use text.Mathlib.Text.{starts_with}
use rust_browser_proofs.Base.{
  ℕ, String, ◌<>◌, Bool, false, Option, none, some, List, [], ◌∷◌, Result, ok, ok_or, ◌>>=◌, ◌==◌,
  string_eq, if◌then◌else◌,
}
use rust_browser_proofs.Base.Decimal.{decimal}
use rust_browser_proofs.Base.Text.{chars, from_chars, is_char}

-- What the runner reads of its process: variables, and the time since the Unix epoch in
-- milliseconds, which `duration_since` refuses for a clock that stands before the epoch.
pub record Env : Type 0 where
  pub var_os : String → Option String
  pub now : Option ℕ

-- Trailing separators and `.` components, of the characters backwards. A leading one stays.
trim_end : List Char → List Char
trim_end [] = []
trim_end (c ∷ []) = c ∷ []
trim_end (c ∷ d ∷ cs) =
    let shorter = trim_end (d ∷ cs) in
    if is_char b'/' c
    then shorter
    else if is_char b'.' c
    then (if is_char b'/' d then shorter else c ∷ d ∷ cs)
    else c ∷ d ∷ cs

-- The characters backwards, without those after the last separator.
drop_name : List Char → List Char
drop_name [] = []
drop_name (c ∷ cs) = let rest = drop_name cs in if is_char b'/' c then c ∷ cs else rest

-- `parent`, of the trimmed characters backwards: neither the empty path nor the root has one.
parent_of : List Char → Option String
parent_of [] = none
parent_of (c ∷ []) = if is_char b'/' c then none else some ""
parent_of (c ∷ d ∷ cs) = some (from_chars (reverse (trim_end (drop_name (c ∷ d ∷ cs)))))

-- `Path::parent`
unfoldable pub parent : String → Option String
unfolding trim_end drop_name parent_of
parent path = parent_of (trim_end (reverse (chars path)))

ends_with_separator : List Char → Bool
ends_with_separator [] = false
ends_with_separator (c ∷ []) = is_char b'/' c
ends_with_separator (_ ∷ c ∷ cs) = ends_with_separator (c ∷ cs)

-- `Path::join`
unfoldable pub join : String → String → String
unfolding ends_with_separator
join base path =
    if starts_with path "/"
    then path
    else if base == ""
    then path
    else if ends_with_separator (chars base)
    then base <> path
    else base <> ("/" <> path)

abbrev filter_nonempty : Option String → Option String
filter_nonempty none = none
filter_nonempty (some path) = if path == "" then none else some path

-- The directory that a report is written to, if its path names one.
unfoldable pub report_directory : String → Option String
report_directory path = filter_nonempty (parent path)

unfoldable pub report_cache_path : String → String
unfolding report_directory
report_cache_path report_path =
    join (get_or (report_directory report_path) ".") "report-cache.sqlite3"

unfoldable pub timestamped_report_path : String → ℕ → String
timestamped_report_path cache_root millis = join cache_root (decimal millis <> "-test-status.md")

abbrev joined : Option String → String → Option String
joined none path = none
joined (some root) path = some (join root path)

-- The first of the three variables that is set decides.
pub cache_root : Env → Option String
cache_root env = or_else (env.var_os "RUST_BROWSER_PROOFS_REPORT_DIR") (
    or_else (joined (env.var_os "XDG_CACHE_HOME") "rust-browser-proofs/browser-tests")
      (joined (env.var_os "HOME") "cache/rust-browser-proofs/browser-tests"))

-- What `SystemTimeError` says.
abbrev pub clock_error : String
clock_error = "second time provided was later than self"

unfoldable pub default_report_path : Env → Result String String
unfolding cache_root
default_report_path env = do
  root ←
      ok_or (cache_root env)
        "could not determine a report directory; set RUST_BROWSER_PROOFS_REPORT_DIR or HOME"
  generated_at ← ok_or env.now ("could not timestamp report path: " <> clock_error)
  ok (timestamped_report_path root generated_at)
