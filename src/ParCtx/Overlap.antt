-- ===== src/ParCtx/Overlap.antt =====
-- What the test of the reduce areas finds.
use simple_parallel.Prelude.{
  ℕ, suc, ◌+◌, ◌-◌, ◌*◌, ◌≤◌, ◌<◌, ◌≡◌, ◌⊎◌, refl, true, false, Option, none, some, List, [], ◌∷◌,
  arith, leb, Bool-cases, inl, inr, word, All, get_elem?,
}
use simple_parallel.Types.{ReduceArea}
use simple_parallel.ParCtx.{
  Error, mem_area, back, mem_area_overlap, number_with_ordinal_suffix, verify_against, verify_from,
  verify_reduces_no_overlap,
}

-- A reduce area of at least one byte that does not wrap around the address space.
abbrev pub IsFilled : ReduceArea → Type 0
IsFilled reduce =
    (0 < reduce.count * reduce.sizeof_type)
    × (reduce.begin + reduce.count * reduce.sizeof_type < word)

-- A byte of the area.
abbrev pub IsByte : ReduceArea → ℕ → Type 0
IsByte reduce x = (reduce.begin ≤ x) × (x < reduce.begin + reduce.count * reduce.sizeof_type)

abbrev pub Disjoint : ReduceArea → ReduceArea → Type 0
Disjoint a b = (x : ℕ) → IsByte a x → IsByte b x → ⊥

last_byte :
    (a : ReduceArea) → IsFilled a → back (mem_area a) ≡ a.begin + a.count * a.sizeof_type - 1
unfolding mem_area back
last_byte a f = omega (arith, f.0, f.1)

overlap_shared :
    (a b : ReduceArea)
    → IsFilled a
    → IsFilled b
    → mem_area_overlap (mem_area a) (mem_area b) ≡ true
    → (x : ℕ) × IsByte a x × IsByte b x
unfolding mem_area_overlap mem_area
overlap_shared a b fa fb e =
    let la = last_byte a fa in
    let lb = last_byte b fb in
    elim (Bool-cases (leb a.begin b.begin)) [
      | inl le ↦ (b.begin, (ground (arith, fa, fb, la)), (omega arith, omega (arith, fb.0)))
      | inr gt ↦ (a.begin, (omega arith, omega (arith, fa.0)), ground (arith, fa, fb, lb))
    ]

apart-Disjoint :
    (a b : ReduceArea)
    → IsFilled a
    → IsFilled b
    → mem_area_overlap (mem_area a) (mem_area b) ≡ false
    → Disjoint a b
unfolding mem_area_overlap mem_area
apart-Disjoint a b fa fb e x ia ib = ground (arith, ia, ib, fa, fb, last_byte a fa, last_byte b fb)

-- Every two areas have no byte in common.
abbrev pub AllDisjoint : List ReduceArea → Type 0
AllDisjoint [] = Unit
AllDisjoint (a ∷ rest) = All (Disjoint a) rest × AllDisjoint rest

-- The exception names two areas, the first before the second, that share a byte.
abbrev pub Named : List ReduceArea → Error → Type 0
Named reduces e =
    (m n : ℕ) × (a b : ReduceArea) × (get_elem? reduces m ≡ some a)
    × (get_elem? reduces n ≡ some b)
    × (m < n)
    × ((x : ℕ) × IsByte a x × IsByte b x)
    × (e ≡ Error.overlaps (number_with_ordinal_suffix (m + 1)) (number_with_ordinal_suffix (n + 1)))

-- The inner loop, for the area at `lhs` and the rest from `rhs` on.
abbrev Against : ReduceArea → ℕ → ℕ → List ReduceArea → Option Error → Type 0
Against a lhs rhs rest r =
    ((r ≡ none) × All (Disjoint a) rest)
    ⊎ ((n : ℕ) × (b : ReduceArea) × (get_elem? rest n ≡ some b)
        × ((x : ℕ) × IsByte a x × IsByte b x)
        × (r
            ≡ some (
                Error.overlaps (number_with_ordinal_suffix (lhs + 1))
                  (number_with_ordinal_suffix (rhs + n + 1)))))

against_lem :
    (a : ReduceArea) (lhs rhs : ℕ) (rest : List ReduceArea)
    → IsFilled a
    → All IsFilled rest
    → Against a lhs rhs rest (verify_against a lhs rhs rest)
unfolding verify_against
against_lem a lhs rhs [] fa fs = inl (refl, tt)
against_lem a lhs rhs (b ∷ rest) fa fs =
    elim (Bool-cases (mem_area_overlap (mem_area a) (mem_area b))) [
      | inl meet ↦
          let same : rhs + 1 ≡ rhs + 0 + 1 = omega arith in
          inr (0, b, refl, overlap_shared a b fa fs.0 meet, rw (meet, same) refl)
      | inr apart ↦ elim (against_lem a lhs (rhs + 1) rest fa fs.1) [
        | inl (e, d) ↦ inl (rw apart e, (apart-Disjoint a b fa fs.0 apart, d))
        | inr (n, c, at, shared, e) ↦
            let same : rhs + 1 + n + 1 ≡ rhs + suc n + 1 = omega arith in
            inr (suc n, c, at, shared, rw (apart, ← same) e)
      ]
    ]

-- The outer loop, from the area at `lhs` on.
abbrev From : ℕ → List ReduceArea → Option Error → Type 0
From lhs reduces r =
    ((r ≡ none) × AllDisjoint reduces)
    ⊎ ((m n : ℕ) × (a b : ReduceArea) × (get_elem? reduces m ≡ some a)
        × (get_elem? reduces n ≡ some b)
        × (m < n)
        × ((x : ℕ) × IsByte a x × IsByte b x)
        × (r
            ≡ some (
                Error.overlaps (number_with_ordinal_suffix (lhs + m + 1))
                  (number_with_ordinal_suffix (lhs + n + 1)))))

from_lem :
    (lhs : ℕ) (reduces : List ReduceArea)
    → All IsFilled reduces
    → From lhs reduces (verify_from lhs reduces)
unfolding verify_from
from_lem lhs [] fs = inl (refl, tt)
from_lem lhs (a ∷ rest) fs = elim (against_lem a lhs (lhs + 1) rest fs.0 fs.1) [
  | inr (n, b, at, shared, e) ↦
      let first : lhs + 1 ≡ lhs + 0 + 1 = omega arith in
      let second : lhs + 1 + n + 1 ≡ lhs + suc n + 1 = omega arith in
      inr (0, suc n, a, b, refl, at, omega arith, shared, rw (e, verify_from, second, first) refl)
  | inl (e, d) ↦ elim (from_lem (lhs + 1) rest fs.1) [
    | inl (e', ds) ↦ inl (rw (e, verify_from) e', (d, ds))
    | inr (m, n, b, c, at_m, at_n, lt, shared, e') ↦
        let first : lhs + 1 + m + 1 ≡ lhs + suc m + 1 = omega arith in
        let second : lhs + 1 + n + 1 ≡ lhs + suc n + 1 = omega arith in
        inr (
          suc m,
          suc n,
          b,
          c,
          at_m,
          at_n,
          omega arith,
          shared,
          rw (e, verify_from, ← first, ← second) e',
        )
  ]
]

-- For reduce areas of at least one byte that do not wrap: either the test passes and no two areas
-- share a byte, or its exception names, counting from 1, two areas that do, the first one first.
pub verify_reduces_no_overlap_lem :
    (reduces : List ReduceArea)
    → All IsFilled reduces
    → ((verify_reduces_no_overlap reduces ≡ none) × AllDisjoint reduces)
      ⊎ ((e : Error) × (verify_reduces_no_overlap reduces ≡ some e) × Named reduces e)
unfolding verify_reduces_no_overlap
verify_reduces_no_overlap_lem reduces fs = elim (from_lem 0 reduces fs) [
  | inl ok ↦ inl ok
  | inr (m, n, a, b, at_m, at_n, lt, shared, e) ↦
      inr (_, e, (m, n, a, b, at_m, at_n, lt, shared, same m n))
]
  where
    same :
        (m n : ℕ)
        → Error.overlaps
            (number_with_ordinal_suffix (0 + m + 1))
            (number_with_ordinal_suffix (0 + n + 1))
          ≡ Error.overlaps (number_with_ordinal_suffix (m + 1)) (number_with_ordinal_suffix (n + 1))
    same m n =
        let zero_m : 0 + m ≡ m = omega arith in
        let zero_n : 0 + n ≡ n = omega arith in rw (zero_m, zero_n) refl
