-- ===== src/Pages/Bounds.antt =====
-- Areas and the pages that they meet or hold.
use simple_parallel.Prelude.{
  ℕ, zero, suc, ◌+◌, ◌-◌, ◌*◌, ◌/◌, ◌≤◌, ◌<◌, ◌≡◌, ◌↔◌, refl, ◌∙◌, Option, none, some, arith, word,
  sub64, add64, leb, Bool-cases, ◌⊎◌, inl, inr, if◌then◌else◌,
}
use native.Mathlib.Nat.{
  le-div_iff_mul-le, div-lt_iff_lt-mul, div-mul-le_self, mul-div_left, div-eq_of_lt-le,
  div-eq_of_eq-mul_left, div-le_self,
}
use simple_parallel.Types.{MemArea, PteRange}
use simple_parallel.Pages.{memarea2pgrng, memarea2innerpgrng, pgrng2memarea}

-- An area that does not wrap around the address space, and holds a byte; it does not start at the
-- null address, as no object does.
pub record IsArea (a : MemArea) : Type 0 where
  pub filled : 0 < a.size
  pub fits : a.addr + a.size < word
  pub not_null : 0 < a.addr

abbrev pub InRange : ℕ → PteRange → Type 0
InRange p r = (r.begin ≤ p) × (p < r.begin + r.count)

-- Page `p` has a byte in common with the area.
abbrev pub Meets : ℕ → ℕ → MemArea → Type 0
Meets page_size p a = (a.addr < (p + 1) * page_size) × (p * page_size < a.addr + a.size)

-- Every byte of page `p` belongs to the area.
abbrev pub Holds : ℕ → ℕ → MemArea → Type 0
Holds page_size p a = (a.addr ≤ p * page_size) × ((p + 1) * page_size ≤ a.addr + a.size)

abbrev pub InInner : ℕ → Option PteRange → Type 0
InInner p none = ⊥
InInner p (some r) = InRange p r

-- The first page and the page after the last, on areas that do not wrap.
module _ (page_size : ℕ) (a : MemArea) (v : IsArea a) where
  last_byte : sub64 (add64 a.addr a.size) 1 ≡ a.addr + a.size - 1
  last_byte = omega (arith, v.fits, v.filled)

  byte_before : sub64 a.addr 1 ≡ a.addr - 1
  byte_before = omega (arith, v.fits, v.not_null)

  byte_after : add64 a.addr a.size ≡ a.addr + a.size
  byte_after = omega (arith, v.fits)

div-le-div : (k x y : ℕ) → 0 < k → x ≤ y → x / k ≤ y / k
div-le-div k x y pos le =
    (le-div_iff_mul-le {k = k} {x = x / k} {y = y} pos).1 (omega (arith, div-mul-le_self x k))

-- The byte before the end of `n` pages lies in the last of them.
page_below : (k n : ℕ) {m : ℕ} → 0 < k → 0 < n → m ≡ n * k → (m - 1) / k ≡ n - 1
page_below k zero pos some_pages e = absurd (omega arith)
page_below k (suc n) pos some_pages e =
    div-eq_of_lt-le {k = n} k (omega (arith, e)) (omega (arith, e)) ∙ omega arith

-- The pages from `b` to before `e`, or none.
abbrev between : ℕ → ℕ → Option PteRange
between b e = if leb e b then none else some (record { begin = b; count = sub64 e b })

InInner-between : (p b e : ℕ) → e < word → InInner p (between b e) ↔ ((b ≤ p) × (p < e))
InInner-between p b e lt = elim (Bool-cases (leb e b)) [
  | inl empty ↦ rw empty ((λ h. absurd h), λ h. ground (arith, h))
  | inr some_page ↦ rw some_page ((λ h. ground (arith, h)), λ h. ground (arith, h))
]

-- There is no range, or it has a page.
abbrev pub HasPage : Option PteRange → Type 0
HasPage r = (r ≡ none) ⊎ ((s : PteRange) × (r ≡ some s) × (0 < s.count))

between-HasPage : (b e : ℕ) → e < word → HasPage (between b e)
between-HasPage b e lt = elim (Bool-cases (leb e b)) [
  | inl empty ↦ rw empty (inl refl)
  | inr some_page ↦ rw some_page (inr (record { begin = b; count = sub64 e b }, refl, ground arith))
]

module _ (page_size : ℕ) (pos : 0 < page_size) where
  -- A page is in the range of an area exactly when it has a byte in common with the area.
  pub memarea2pgrng_iff :
      (a : MemArea) (p : ℕ) → IsArea a → InRange p (memarea2pgrng page_size a) ↔ Meets page_size p a
  unfolding memarea2pgrng
  memarea2pgrng_iff a p v =
      let first = div-lt_iff_lt-mul {k = page_size} {x = a.addr} {y = p + 1} pos in
      let last = le-div_iff_mul-le {k = page_size} {x = p} {y = a.addr + a.size - 1} pos in
      let order = div-le-div page_size a.addr (a.addr + a.size - 1) pos (omega (arith, v.filled)) in
      rw (last_byte page_size a v) (
        (λ h. (first.0 (omega arith), omega (arith, last.0 (omega (arith, order))))),
        λ h. (omega (arith, first.1 h.0), omega (arith, order, last.1 (omega arith))),
      )

  -- A page is in the inner range of an area exactly when all its bytes belong to the area.
  pub memarea2innerpgrng_iff :
      (a : MemArea) (p : ℕ)
      → IsArea a
      → InInner p (memarea2innerpgrng page_size a) ↔ Holds page_size p a
  unfolding memarea2innerpgrng
  memarea2innerpgrng_iff a p v =
      let first = div-lt_iff_lt-mul {k = page_size} {x = a.addr - 1} {y = p} pos in
      let last = le-div_iff_mul-le {k = page_size} {x = p + 1} {y = a.addr + a.size} pos in
      let r =
        InInner-between p ((a.addr - 1) / page_size + 1) ((a.addr + a.size) / page_size)
          (omega (arith, v.fits, div-le_self (a.addr + a.size) page_size)) in
      rw (byte_before page_size a v, byte_after page_size a v)
        (
          (λ h.
              let (lo, hi) = r.0 h in
              (omega (arith, first.0 (omega (arith, lo)), v.not_null), last.0 (omega (arith, hi)))),
          λ h.
              r.1 (
                omega (arith, first.1 (omega (arith, h.0, v.not_null))),
                omega (arith, last.1 h.1),
              ),
        )

  memarea2innerpgrng-HasPage : (a : MemArea) → IsArea a → HasPage (memarea2innerpgrng page_size a)
  unfolding memarea2innerpgrng
  memarea2innerpgrng-HasPage a v =
      rw (byte_before page_size a v, byte_after page_size a v)
        (between-HasPage ((a.addr - 1) / page_size + 1) ((a.addr + a.size) / page_size)
          (omega (arith, v.fits, div-le_self (a.addr + a.size) page_size)))

  pgrng-IsArea :
      (r : PteRange)
      → 0 < r.count
      → 0 < r.begin
      → (r.begin + r.count) * page_size < word
      → IsArea (pgrng2memarea page_size r)
  unfolding pgrng2memarea
  pgrng-IsArea r some_pages above fits = record {
    filled = grind arith;
    fits = omega (arith, fits);
    not_null = grind arith;
  }

  -- For an area of at least one byte that neither wraps nor starts at address 0: a page is in the range
  -- that memarea2pgrng gives exactly when it has a byte in common with the area, and in the inner range
  -- exactly when all its bytes belong to the area; an inner range that is given has at least one page.
  pub page_ranges_iff :
      (a : MemArea) (p : ℕ)
      → IsArea a
      → (InRange p (memarea2pgrng page_size a) ↔ Meets page_size p a)
        × (InInner p (memarea2innerpgrng page_size a) ↔ Holds page_size p a)
        × HasPage (memarea2innerpgrng page_size a)
  page_ranges_iff a p v =
      (memarea2pgrng_iff a p v, memarea2innerpgrng_iff a p v, memarea2innerpgrng-HasPage a v)

  -- Reading the pages of an area that a page range stands for gives the range back, both ways, for
  -- a range of at least one page that starts above page 0 and ends below 2^64 bytes.
  pub pgrng_roundtrip :
      (r : PteRange)
      → 0 < r.count
      → 0 < r.begin
      → (r.begin + r.count) * page_size < word
      → (memarea2pgrng page_size (pgrng2memarea page_size r) ≡ r)
        × (memarea2innerpgrng page_size (pgrng2memarea page_size r) ≡ some r)
  unfolding memarea2pgrng memarea2innerpgrng pgrng2memarea
  pgrng_roundtrip r some_pages above fits =
      let v = pgrng-IsArea r some_pages above fits in
      let a = pgrng2memarea page_size r in
      let first : r.begin * page_size / page_size ≡ r.begin = mul-div_left r.begin pos in
      let last : (r.begin * page_size + r.count * page_size - 1) / page_size
          ≡ r.begin + r.count - 1 =
        page_below page_size (r.begin + r.count) pos (omega arith) (omega arith) in
      let before : (r.begin * page_size - 1) / page_size ≡ r.begin - 1 =
        page_below page_size r.begin pos above refl in
      let after : (r.begin * page_size + r.count * page_size) / page_size ≡ r.begin + r.count =
        div-eq_of_eq-mul_left pos (omega arith) in
      (
        rw (last_byte page_size a v) (ground (arith, first, last)),
        rw (byte_before page_size a v, byte_after page_size a v) (ground (arith, before, after)),
      )
