-- ===== src/Heap/Transfer.antt =====
-- What the bytes of the ranks are after the transfer of the heap.
use simple_parallel.Prelude.{
  ℕ, ◌+◌, ◌-◌, ◌*◌, ◌/◌, ◌%◌, ◌≤◌, ◌<◌, ◌≡◌, refl, ◌∙◌, ap, Bool, true, false, ◌&&◌, ◌||◌, Option,
  some, List, [], ◌∷◌, arith, ltb, leb, if◌then◌else◌, inl, inr, Option-cases,
}
use native.Mathlib.Nat.{le-div_iff_mul-le, div-eq_of_lt-le}
use simple_parallel.Types.{MemArea, PteRange}
use simple_parallel.Mpi.{World}
use simple_parallel.Pages.{pgrng2memarea}
use simple_parallel.BigMpi.Sync.{copy_bytes, copy_areas}
use simple_parallel.Heap.{memareas, memset_zero, zero_area, recv_zero_page}
use simple_parallel.Heap.ZeroPage.{Bytes}
use simple_parallel.Heap.Sets.{in_range, has}

unfoldable pub in_area : MemArea → ℕ → Bool
in_area a x = leb a.addr x && ltb x (a.addr + a.size)

unfoldable pub in_areas : List MemArea → ℕ → Bool
in_areas [] x = false
in_areas (a ∷ more) x = in_area a x || in_areas more x

pub copy_bytes_at :
    (root : ℕ) (a : MemArea) (w : World) (k x : ℕ)
    → copy_bytes root a.addr a.size w k x ≡ (if in_area a x then w root x else w k x)
unfolding in_area
copy_bytes_at root a w k x =
    let start : x - (x - a.addr) % 1 + (x - a.addr) % 1 % 1 ≡ x = omega arith in
    ground (arith, ap (w root) start)

pub copy_areas_at :
    (root : ℕ) (more : List MemArea) (w : World) (k x : ℕ)
    → copy_areas root more w k x ≡ (if in_areas more x then w root x else w k x)
unfolding in_areas
copy_areas_at root [] w k x = refl
copy_areas_at root (a ∷ more) w k x =
    copy_areas_at root more (copy_bytes root a.addr a.size w) k x
    ∙ rw (copy_bytes_at root a w root x, copy_bytes_at root a w k x)
        (choose (in_areas more x) (in_area a x) (w root x) (w k x))
  where
    choose :
        (b a : Bool) (r v : ℕ)
        → (if b then (if a then r else r) else (if a then r else v)) ≡ (if a || b then r else v)
    choose true true r v = refl
    choose true false r v = refl
    choose false true r v = refl
    choose false false r v = refl

module _ (page_size p j : ℕ) (lt : j < page_size) where
  page_of_area :
      (r : PteRange) → in_area (pgrng2memarea page_size r) (page_size * p + j) ≡ in_range r p
  unfolding in_area pgrng2memarea
  page_of_area r =
      let x = page_size * p + j in
      let pos : 0 < page_size = omega arith in
      let page : x / page_size ≡ p =
        div-eq_of_lt-le {k = p} page_size (omega arith) (omega arith) in
      let first = le-div_iff_mul-le {k = page_size} {x = r.begin} {y = x} pos in
      let last = le-div_iff_mul-le {k = page_size} {x = r.begin + r.count} {y = x} pos in
      same_tests (rw page at first.0) (rw page at first.1) (λ h. omega (arith, rw page at last.0 h))
        (λ h. rw page at last.1 (omega arith))
    where
      same_tests :
          {a b c : ℕ}
          → (r.begin ≤ p → a ≤ c)
          → (a ≤ c → r.begin ≤ p)
          → (r.begin + r.count ≤ p → b ≤ c)
          → (b ≤ c → r.begin + r.count ≤ p)
          → (leb a c && ltb c b) ≡ in_range r p
      same_tests h i k l = ground arith

  pub page_of_areas :
      (rs : List PteRange) → in_areas (memareas page_size rs) (page_size * p + j) ≡ has rs p
  unfolding in_areas memareas
  page_of_areas [] = refl
  page_of_areas (r ∷ rs) = rw (page_of_area r, page_of_areas rs) refl

-- `MADV_DONTNEED` on private anonymous memory: where it succeeds, the area reads as zeros and no
-- other byte changes.
abbrev pub DontNeed : (MemArea → Bytes → Option Bytes) → Type 0
DontNeed madvise =
    (a : MemArea) (mem mem' : Bytes)
    → madvise a mem ≡ some mem'
    → (x : ℕ) → mem' x ≡ memset_zero a mem x

module _ (page_size : ℕ) (madvise : MemArea → Bytes → Option Bytes) (dont_need : DontNeed madvise)
    (p j : ℕ) (lt : j < page_size) where
  one_range_zeroed :
      (r : PteRange) (mem : Bytes)
      → zero_area page_size madvise (pgrng2memarea page_size r) mem (page_size * p + j)
        ≡ (if in_range r p then 0 else mem (page_size * p + j))
  unfolding in_area zero_area
  one_range_zeroed r mem =
      let area = pgrng2memarea page_size r in
      let x = page_size * p + j in
      let within = page_of_area page_size p j lt r in
      elim (Option-cases (madvise area mem)) [
        | inl failed ↦ rw (failed, zero_area) (ap (λ b. if b then 0 else mem x) within)
        | inr (mem', e) ↦
            rw (e, zero_area)
              (dont_need area mem mem' e x ∙ ap (λ b. if b then 0 else mem x) within)
      ]

  pub zeroed_ranges :
      (rs : List PteRange) (mem : Bytes)
      → recv_zero_page page_size madvise rs mem (page_size * p + j)
        ≡ (if has rs p then 0 else mem (page_size * p + j))
  unfolding recv_zero_page
  zeroed_ranges [] mem = refl
  zeroed_ranges (r ∷ rs) mem =
      zeroed_ranges rs _
      ∙ rw (one_range_zeroed r mem) (choose (has rs p) (in_range r p) (mem (page_size * p + j)))
    where
      choose :
          (b a : Bool) (v : ℕ) → (if b then 0 else (if a then 0 else v)) ≡ (if a || b then 0 else v)
      choose true true v = refl
      choose true false v = refl
      choose false true v = refl
      choose false false v = refl
