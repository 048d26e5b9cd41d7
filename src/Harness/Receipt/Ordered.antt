-- ===== src/Harness/Receipt/Ordered.antt =====
-- What the script and the receipt may expect of a database: an ordered map from keys to values with
-- one transaction at a time, and segments of pages that are linked to a name by a commit.
use rust_browser_proofs.Base.{
  ℕ, String, Option, none, some, List, [], ◌∷◌, ◌++◌, Bool, true, false, ◌&&◌, not, ok, err, ltb,
  nat_beq, if◌then◌else◌, string_eq, is_some,
}
use rust_browser_proofs.Base.Bytes.{bytes, bytes_eq}
use rust_browser_proofs.Base.Dict.{Dict, lookup, insert}
use rust_browser_proofs.Harness.Receipt.{Call, Database}

abbrev pub Pairs : Type 0
Pairs = List (List ℕ × List ℕ)

-- Byte strings in the order of a dictionary.
unfoldable pub before : List ℕ → List ℕ → Bool
before [] [] = false
before [] (y ∷ ys) = true
before (x ∷ xs) [] = false
before (x ∷ xs) (y ∷ ys) =
    let rest = before xs ys in if ltb x y then true else if nat_beq x y then rest else false

unfoldable pub placed : List ℕ → List ℕ → Pairs → Pairs
placed key value [] = (key, value) ∷ []
placed key value (p ∷ ps) =
    let rest = placed key value ps in
    if before key p.0
    then (key, value) ∷ p ∷ ps
    else if bytes_eq key p.0
    then (key, value) ∷ ps
    else p ∷ rest

unfoldable pub without : List ℕ → Pairs → Pairs
without key [] = []
without key (p ∷ ps) = let rest = without key ps in if bytes_eq key p.0 then ps else p ∷ rest

unfoldable pub found : List ℕ → Pairs → Option (List ℕ)
found key [] = none
found key (p ∷ ps) = let rest = found key ps in if bytes_eq key p.0 then some p.1 else rest

-- The pairs from a key on and before another.
unfoldable pub between : List ℕ → List ℕ → Pairs → Pairs
between low high [] = []
between low high (p ∷ ps) =
    let rest = between low high ps in
    if not (before p.0 low) && before p.0 high then p ∷ rest else rest

-- The pairs that are committed and that the open transaction has, with the name that it links; the
-- segment that is written; the linked segments; if a read is open, and the segment that is.
pub record Store : Type 0 where
  pub committed : Pairs
  pub working : Option Pairs
  pub name : Option String
  pub pages : List String
  pub sealed : Bool
  pub segments : Dict String (List String)
  pub reading : Bool
  pub reader : Option (List String)

-- A new database.
abbrev pub empty : Store
empty = record {
  committed = [];
  working = none;
  name = none;
  pages = [];
  sealed = false;
  segments = [];
  reading = false;
  reader = none;
}

-- How a segment of these pages is stored: its page count, and each page, as bytes.
pub record Layout : Type 0 where
  pub page_count : List String → List ℕ
  pub page : List String → ℕ → List ℕ

-- A call in the wrong state panics.
abbrev change : (Pairs → Pairs) → Call Store (Unit {0})
change f s = elim s.working [
  | some pairs ↦ (ok tt, record s { working = some (f pairs) })
  | none ↦ (err tt, s)
]

abbrev if_open : {A : Type 0} → A → Call Store A
if_open a s = if s.reading then (ok a, s) else (err tt, s)

abbrev linked : Option String → List String → Dict String (List String) → Dict String (List String)
linked none pages segments = segments
linked (some name) pages segments = insert name pages segments

abbrev committing : Call Store (Unit {0})
committing s = elim s.working [
  | some pairs ↦ (
    ok tt,
    record s {
      committed = pairs;
      working = none;
      name = none;
      segments = linked s.name s.pages s.segments;
    },
  )
  | none ↦ (err tt, s)
]

abbrev opening : String → Call Store (Unit {0})
opening name s = elim (lookup name s.segments) [
  | some pages ↦ (ok tt, record s { reader = some pages })
  | none ↦ (err tt, s)
]

abbrev from_reader : {A : Type 0} → (List String → A) → Call Store A
from_reader f s = elim s.reader [ some pages ↦ (ok (f pages), s) | none ↦ (err tt, s) ]

abbrev pub ordered : Layout → Database
ordered L = record {
  World = Store;
  begin_write = λ s. elim s.working [
    | some _ ↦ (err tt, s)
    | none ↦ (ok tt, record s { working = some s.committed })
  ];
  put = λ key value. change (placed (bytes key) (bytes value));
  delete = λ key. change (without (bytes key));
  link_segment = λ name s.
      if is_some s.working && s.sealed then (ok tt, record s { name = some name }) else (err tt, s);
  commit = committing;
  create_segment = λ s. (ok tt, record s { pages = []; sealed = false });
  append_page = λ page s.
      if s.sealed then (err tt, s) else (ok tt, record s { pages = s.pages ++ page ∷ [] });
  set_manifest = λ text s. if s.sealed then (err tt, s) else (ok tt, s);
  seal = λ s. (ok tt, record s { sealed = true });
  begin_read = λ s. (ok tt, record s { reading = true });
  scan = λ low high s. if_open (between (bytes low) (bytes high) s.committed) s;
  get = λ key s. if_open (found (bytes key) s.committed) s;
  drop_read = λ s. (ok tt, record s { reading = false });
  open_segment = opening;
  page_count = from_reader L.page_count;
  read_page = λ p. from_reader (λ pages. L.page pages p);
}
