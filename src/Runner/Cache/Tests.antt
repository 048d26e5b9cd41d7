-- ===== src/Runner/Cache/Tests.antt =====
-- The theorems on the cache at small inputs.
use rust_browser_proofs.Base.{
  arith, [], ℕ, String, ◌≡◌, refl, none, some, ◌==◌, string_eq, if◌then◌else◌,
}
use rust_browser_proofs.Base.Dict.{lookup, insert, NodupKeys}
use rust_browser_proofs.Runner.Cache.{mirror_report_in_cache, write_report, cache_place}
use rust_browser_proofs.Runner.Cache.Mirror.{
  mirror_report_in_cache-rows, mirror_report_in_cache-Outcome, Outcome, table_at, row,
}
use rust_browser_proofs.Runner.Cache.History.{
  Store, put, wipe, History, fresh, written, Remembers, History-Remembers,
}
use rust_browser_proofs.Runner.Cache.Written.{Written, write_report-Written}
use rust_browser_proofs.Runner.Os.{System}
use rust_browser_proofs.Runner.Samples.{env, os, blank}
use rust_browser_proofs.Runner.Paths.{parent, join, report_cache_path, report_directory}

mirror_report_in_cache-Outcome_example :
    Outcome os "out/a.md" "# A" blank (mirror_report_in_cache os "out/a.md" "# A" blank)
mirror_report_in_cache-Outcome_example = mirror_report_in_cache-Outcome os "out/a.md" "# A" blank

abbrev mirrored : System
mirrored = (mirror_report_in_cache os "out/a.md" "# A" blank).1

mirror_report_in_cache-rows_example :
    NodupKeys (table_at (cache_place os "out/a.md") mirrored)
    × ((millis : ℕ) × (env.now ≡ some millis)
        × (lookup "out/b.md" (table_at (cache_place os "out/a.md") mirrored) ≡ (
            if ◌==◌ {A = String} "out/b.md" "out/a.md"
            then some (row "# A" millis)
            else lookup "out/b.md" (table_at (cache_place os "out/a.md") blank))))
unfolding mirror_report_in_cache report_cache_path parent join string_eq lookup
mirror_report_in_cache-rows_example =
    mirror_report_in_cache-rows os "out/a.md" "# A" blank mirrored "out/b.md" refl tt

write_report-Written_example :
    Written os "out/a.md" "# A" blank (write_report os "out/a.md" "# A" blank)
write_report-Written_example = write_report-Written os "out/a.md" "# A" blank

-- A report that is written, and then replaced by a mirror of another text for its path.
abbrev replaced : System
replaced = (mirror_report_in_cache os "out/a.md" "# B" (write_report os "out/a.md" "# A" blank).1).1

abbrev first_and_second : Store
first_and_second =
    put (put (wipe (λ _ _. none) "out/a.md") (cache_place os "out/a.md") "out/a.md" "# A")
      (cache_place os "out/a.md") "out/a.md" "# B"

no_cache : (place : String) → table_at place blank ≡ []
unfolding lookup string_eq
no_cache place = ground arith

replaced-History : History first_and_second replaced
unfolding write_report mirror_report_in_cache report_cache_path parent join string_eq lookup insert
    report_directory
replaced-History =
    History.mirrored os "out/a.md" "# B" replaced
      (written os "out/a.md" "# A" (write_report os "out/a.md" "# A" blank).1 (fresh blank no_cache)
        refl)
      refl

History-Remembers_example :
    Remembers first_and_second replaced (cache_place os "out/a.md") "out/a.md"
History-Remembers_example =
    History-Remembers (cache_place os "out/a.md") "out/a.md" replaced-History
