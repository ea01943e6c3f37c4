-- ===== src/Heap/Scan.antt =====
-- Which pages the scan of the page table puts into the two sets.
use simple_parallel.Prelude.{
  ℕ, zero, suc, ◌+◌, ◌≡◌, refl, ◌∙◌, ap, Bool, true, false, not, ◌&&◌, ◌||◌, Option, none, some,
  List, [], ◌∷◌, arith, ltb, leb, if◌then◌else◌, Bool-cases, inl, inr, subst,
}
use simple_parallel.Types.{MemArea, PteRange, ReduceArea}
use simple_parallel.Pages.{Pte, is_dirty, is_touched}
use simple_parallel.Heap.{
  Scanned, pte_range_overlap, overlap_reduce_rngs, in_ranges, scan_page, scan_pages, scan_ranges,
  get_zero_and_dirty_pages, visit_heaps,
}
use simple_parallel.Heap.Blocks.{is_malloc_page, visit_heaps_adds, or_none}
use simple_parallel.Heap.Sets.{PageSet, PageSetDocumented, in_range, has}

-- The page lies within one of the reduce areas' inner ranges.
unfoldable pub is_reduced : List ReduceArea → ℕ → Bool
is_reduced [] p = false
is_reduced (reduce ∷ reduces) p = elim reduce.inner_pages [
  | none ↦ is_reduced reduces p
  | some rng ↦ in_range rng p || is_reduced reduces p
]

overlap_if_shared :
    (rng pgs : PteRange) (p : ℕ)
    → in_range pgs p ≡ true
    → in_range rng p ≡ true
    → pte_range_overlap rng pgs ≡ true
unfolding pte_range_overlap
overlap_if_shared rng pgs p a b = ground arith

-- On the pages of a range, the ranges that do not overlap it make no difference.
overlapping_only :
    (reduces : List ReduceArea) (pgs : PteRange) (p : ℕ)
    → in_range pgs p ≡ true
    → in_ranges (overlap_reduce_rngs reduces pgs) p ≡ is_reduced reduces p
unfolding in_ranges overlap_reduce_rngs is_reduced
overlapping_only [] pgs p h = refl
overlapping_only (reduce ∷ reduces) pgs p h =
    by_inner reduce.inner_pages (overlapping_only reduces pgs p h)
  where
    by_inner :
        (o : Option PteRange)
        → in_ranges (overlap_reduce_rngs reduces pgs) p ≡ is_reduced reduces p
        → in_ranges
            (elim o [
              | none ↦ overlap_reduce_rngs reduces pgs
              | some rng ↦
                  if pte_range_overlap rng pgs
                  then rng ∷ overlap_reduce_rngs reduces pgs
                  else overlap_reduce_rngs reduces pgs
            ])
            p
          ≡ elim o [
            | none ↦ is_reduced reduces p
            | some rng ↦ in_range rng p || is_reduced reduces p
          ]
    by_inner none ih = ih
    by_inner (some rng) ih = elim (Bool-cases (in_range rng p)) [
      | inl within ↦ rw (overlap_if_shared rng pgs p h within, within) refl
      | inr beyond ↦ elim (Bool-cases (pte_range_overlap rng pgs)) [
        | inl meet ↦ rw (meet, beyond) ih
        | inr apart ↦ rw (apart, beyond) ih
      ]
    ]

-- The page is to be sent, as far as its entry and the ranges tell.
unfoldable pub is_wanted : (ℕ → Pte) → Bool → ℕ → Bool
is_wanted entries reduced p = is_dirty (entries p) && is_touched (entries p) && not reduced

module _ (P : PageSet) (doc : PageSetDocumented P) (entries : ℕ → Pte) (is_zeroed : ℕ → Bool) where
  -- What a part of the scan adds to the sets: page `p`, if it is passed and wanted.
  abbrev Adds : Scanned P → Scanned P → ℕ → Bool → Bool → Bool → Type 0
  Adds s s' p passed wanted zeroed =
      (has (P.ranges s'.dirty_pages) p
        ≡ ((passed && wanted && not zeroed) || has (P.ranges s.dirty_pages) p))
      × (has (P.ranges s'.zero_pages) p
          ≡ ((passed && wanted && zeroed) || has (P.ranges s.zero_pages) p))

  abbrev at_page : ℕ → ℕ → Bool
  at_page q p = leb q p && ltb p (q + 1)

  -- One page, by what is known of it.
  after_tests : (d t r z : Bool) → ℕ → Scanned P → Scanned P
  after_tests d t r z q s =
      if not d
      then s
      else if not t
      then s
      else if r
      then record s { skiped_reduce_size = s.skiped_reduce_size + 1 }
      else if z
      then record s { zero_pages = P.add s.zero_pages q (q + 1) }
      else record s { dirty_pages = P.add s.dirty_pages q (q + 1) }

  after_tests-Adds :
      (d t r z b : Bool) (q : ℕ) (s : Scanned P) (p : ℕ)
      → at_page q p ≡ b
      → Adds s (after_tests d t r z q s) p b (d && t && not r) z
  unfolding after_tests
  after_tests-Adds false t r z true q s p e = (refl, refl)
  after_tests-Adds false t r z false q s p e = (refl, refl)
  after_tests-Adds true false r z true q s p e = (refl, refl)
  after_tests-Adds true false r z false q s p e = (refl, refl)
  after_tests-Adds true true true z true q s p e = (refl, refl)
  after_tests-Adds true true true z false q s p e = (refl, refl)
  after_tests-Adds true true false true true q s p e =
      (refl, doc.add_lem s.zero_pages q (q + 1) p ∙ ap (λ b. b || has (P.ranges s.zero_pages) p) e)
  after_tests-Adds true true false true false q s p e =
      (refl, doc.add_lem s.zero_pages q (q + 1) p ∙ ap (λ b. b || has (P.ranges s.zero_pages) p) e)
  after_tests-Adds true true false false true q s p e = (
    doc.add_lem s.dirty_pages q (q + 1) p ∙ ap (λ b. b || has (P.ranges s.dirty_pages) p) e,
    refl,
  )
  after_tests-Adds true true false false false q s p e = (
    doc.add_lem s.dirty_pages q (q + 1) p ∙ ap (λ b. b || has (P.ranges s.dirty_pages) p) e,
    refl,
  )

  scan_page-Adds :
      (rngs : List PteRange) (q : ℕ) (s : Scanned P) (p : ℕ)
      → Adds s
          (scan_page P entries is_zeroed rngs q s)
          p
          (at_page q p)
          (is_wanted entries (in_ranges rngs p) p)
          (is_zeroed p)
  unfolding scan_page is_wanted after_tests
  scan_page-Adds rngs q s p =
      let tested =
        after_tests-Adds (is_dirty (entries q)) (is_touched (entries q)) (in_ranges rngs q)
          (is_zeroed q) in
      elim (Bool-cases (at_page q p)) [
        | inl here ↦
            let same : q ≡ p = ground arith in
            subst
              (λ k.
                Adds s (scan_page P entries is_zeroed rngs q s) p (at_page q p)
                  (is_wanted entries (in_ranges rngs k) k) (is_zeroed k))
              same (rw here (tested true q s p here))
        | inr other ↦ rw other (tested false q s p other)
      ]

  passed_either :
      (a b w z h : Bool) → ((b && w && z) || ((a && w && z) || h)) ≡ (((a || b) && w && z) || h)
  passed_either true true true true h = refl
  passed_either true true true false h = refl
  passed_either true true false z h = refl
  passed_either true false w z h = refl
  passed_either false true w z h = refl
  passed_either false false w z h = refl

  Adds-both :
      (s t u : Scanned P) (p : ℕ) (a b w z : Bool)
      → Adds s t p a w z
      → Adds t u p b w z
      → Adds s u p (a || b) w z
  Adds-both s t u p a b w z x y = (
    y.0 ∙ ap (λ h. (b && w && not z) || h) x.0 ∙ passed_either a b w (not z) _,
    y.1 ∙ ap (λ h. (b && w && z) || h) x.1 ∙ passed_either a b w z _,
  )

  next_pages :
      (n q p : ℕ)
      → (at_page q p || in_range (record { begin = q + 1; count = n }) p)
        ≡ in_range (record { begin = q; count = suc n }) p
  next_pages n q p = ground arith

  scan_pages-Adds :
      (n : ℕ) (rngs : List PteRange) (q : ℕ) (s : Scanned P) (p : ℕ)
      → Adds s
          (scan_pages P entries is_zeroed n rngs q s)
          p
          (in_range (record { begin = q; count = n }) p)
          (is_wanted entries (in_ranges rngs p) p)
          (is_zeroed p)
  unfolding scan_pages
  scan_pages-Adds zero rngs q s p =
      let none_passed : in_range (record { begin = q; count = 0 }) p ≡ false = ground arith in
      rw none_passed (refl, refl)
  scan_pages-Adds (suc n) rngs q s p = rw (← next_pages n q p) (
      Adds-both s (scan_page P entries is_zeroed rngs q s)
        (scan_pages P entries is_zeroed n rngs (q + 1) (scan_page P entries is_zeroed rngs q s)) p
        (at_page q p) _ _ _ (scan_page-Adds rngs q s p)
        (scan_pages-Adds n rngs (q + 1) (scan_page P entries is_zeroed rngs q s) p))

  scan_range-Adds :
      (reduces : List ReduceArea) (pgs : PteRange) (s : Scanned P) (p : ℕ)
      → Adds s
          (scan_pages P entries is_zeroed pgs.count (overlap_reduce_rngs reduces pgs) pgs.begin s)
          p
          (in_range pgs p)
          (is_wanted entries (is_reduced reduces p) p)
          (is_zeroed p)
  scan_range-Adds reduces pgs s p =
      let added = scan_pages-Adds pgs.count (overlap_reduce_rngs reduces pgs) pgs.begin s p in
      elim (Bool-cases (in_range pgs p)) [
        | inl passed ↦ rw (← overlapping_only reduces pgs p passed) added
        | inr beyond ↦ rw beyond (rw beyond at added)
      ]

  scan_ranges-Adds :
      (reduces : List ReduceArea) (pgss : List PteRange) (s : Scanned P) (p : ℕ)
      → Adds s
          (scan_ranges P entries is_zeroed reduces pgss s)
          p
          (has pgss p)
          (is_wanted entries (is_reduced reduces p) p)
          (is_zeroed p)
  unfolding scan_ranges
  scan_ranges-Adds reduces [] s p = (refl, refl)
  scan_ranges-Adds reduces (pgs ∷ rest) s p =
      Adds-both s
        (scan_pages P entries is_zeroed pgs.count (overlap_reduce_rngs reduces pgs) pgs.begin s)
        (scan_ranges P entries is_zeroed reduces rest
          (scan_pages P entries is_zeroed pgs.count (overlap_reduce_rngs reduces pgs) pgs.begin s))
        p (in_range pgs p) (has rest p) _ _ (scan_range-Adds reduces pgs s p)
        (scan_ranges-Adds reduces rest
          (scan_pages P entries is_zeroed pgs.count (overlap_reduce_rngs reduces pgs) pgs.begin s)
          p)

  -- A page is in the set of dirty pages exactly when it meets a block of a heap, its entry is dirty
  -- and touched, no reduce area's inner range holds it, and it is not zeroed; it is in the set of
  -- zeroed pages exactly when the same holds but it is zeroed.
  pub scanned_pages :
      (page_size : ℕ) (heaps : List (List MemArea)) (reduces : List ReduceArea) (p : ℕ)
      → let s = get_zero_and_dirty_pages P entries is_zeroed page_size heaps reduces in
        let sent = is_malloc_page page_size heaps p && is_wanted entries (is_reduced reduces p) p in
        (has (P.ranges s.dirty_pages) p ≡ (sent && not (is_zeroed p)))
        × (has (P.ranges s.zero_pages) p ≡ (sent && is_zeroed p))
  unfolding get_zero_and_dirty_pages
  scanned_pages page_size heaps reduces p =
      let malloc_pages = P.ranges (visit_heaps P page_size heaps P.none_yet) in
      let added = scan_ranges-Adds reduces malloc_pages _ p in
      let malloc =
        visit_heaps_adds P doc page_size heaps P.none_yet p ∙ or_none _ _ (doc.none_lem p) in
      let w = is_wanted entries (is_reduced reduces p) p in
      (
        added.0 ∙ or_none _ _ (doc.none_lem p) ∙ together _ _ w _ malloc,
        added.1 ∙ or_none _ _ (doc.none_lem p) ∙ together _ _ w _ malloc,
      )
    where
      together : (a b w z : Bool) → a ≡ b → (a && w && z) ≡ ((b && w) && z)
      together a true true z e = rw e refl
      together a true false z e = rw e refl
      together a false w z e = rw e refl
