-- ===== src/Harness/Fault/Requests.antt =====
-- The check of a vectored write's requests: the furthest end, or an overflow.
use rust_browser_proofs.Base.{
  ℕ, ◌+◌, ◌<◌, ◌≤◌, ◌^◌, max, ◌≡◌, refl, ◌⊎◌, inl, inr, List, [], ◌∷◌, Option, none, some, ltb,
  arith, length, Bool-cases,
}
use rust_browser_proofs.Harness.Vfs.{Request}
use rust_browser_proofs.Harness.Fault.{max_end}

abbrev pub end_of : Request → ℕ
end_of r = r.offset + length r.buf

-- Every request ends at `end` or before it, and none overflows `u64`.
abbrev pub Fits : ℕ → List Request → Type 0
Fits end [] = Unit
Fits end (r ∷ rs) = (end_of r ≤ end) × (end_of r < 2 ^ 64) × Fits end rs

-- Some request ends there.
abbrev pub Attains : ℕ → List Request → Type 0
Attains end [] = ⊥
Attains end (r ∷ rs) = (end ≡ end_of r) ⊎ Attains end rs

abbrev pub Overflows : List Request → Type 0
Overflows [] = ⊥
Overflows (r ∷ rs) = (2 ^ 64 ≤ end_of r) ⊎ Overflows rs

-- What the check says, by its result.
abbrev pub Checked : ℕ → List Request → Option ℕ → Type 0
Checked start reqs none = Overflows reqs
Checked start reqs (some end) = (start ≤ end) × Fits end reqs × ((end ≡ start) ⊎ Attains end reqs)

-- The request in front, from what the check says of the others.
front :
    (r : Request) (rs : List Request) (start : ℕ) (o : Option ℕ)
    → end_of r < 2 ^ 64
    → Checked (max start (end_of r)) rs o
    → Checked start (r ∷ rs) o
front r rs start none b h = inr h
front r rs start (some end) b (above, fits, inr attained) =
    (omega arith, (omega arith, b, fits), inr (inr attained))
front r rs start (some end) b (above, fits, inl e) = (omega arith, (omega arith, b, fits), ends)
  where
    ends : (end ≡ start) ⊎ Attains end (r ∷ rs)
    ends = elim (Bool-cases (ltb start (end_of r))) [
      | inl lt ↦ inr (inl (ground arith))
      | inr ge ↦ inl (ground arith)
    ]

-- Where the check refuses a batch some end overflows. Otherwise none does, and it gives the least
-- number that is at least `start` and at least every end.
pub max_end-Checked : (reqs : List Request) (start : ℕ) → Checked start reqs (max_end reqs start)
unfolding max_end
max_end-Checked [] start = (omega arith, tt, inl refl)
max_end-Checked (r ∷ rs) start = elim (Bool-cases (ltb (end_of r) (2 ^ 64))) [
  | inl valid ↦
      rw (valid, max_end)
        (front r rs start _ (ground arith) (max_end-Checked rs (max start (end_of r))))
  | inr overflow ↦ rw (overflow, max_end) (inl (ground arith))
]
