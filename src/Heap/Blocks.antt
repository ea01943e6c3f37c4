-- ===== src/Heap/Blocks.antt =====
-- Which pages the visit of the leader's heaps collects.
use simple_parallel.Prelude.{
  ℕ, ◌+◌, ◌≡◌, refl, ◌∙◌, Bool, true, false, not, ◌&&◌, ◌||◌, List, [], ◌∷◌, ◌==◌, Bool-cases, inl,
  inr,
}
use simple_parallel.Types.{MemArea}
use simple_parallel.Pages.{memarea2pgrng}
use simple_parallel.Heap.{visit_heaps, visit_block, visit_blocks}
use simple_parallel.Heap.Sets.{PageSet, PageSetDocumented, in_range, has}

-- The page has a byte in common with a block.
unfoldable pub is_block_page : ℕ → MemArea → ℕ → Bool
is_block_page page_size block p =
    not (block.addr == 0) && in_range (memarea2pgrng page_size block) p

unfoldable pub is_heap_page : ℕ → List MemArea → ℕ → Bool
is_heap_page page_size [] p = false
is_heap_page page_size (block ∷ blocks) p =
    is_block_page page_size block p || is_heap_page page_size blocks p

unfoldable pub is_malloc_page : ℕ → List (List MemArea) → ℕ → Bool
is_malloc_page page_size [] p = false
is_malloc_page page_size (heap ∷ heaps) p =
    is_heap_page page_size heap p || is_malloc_page page_size heaps p

module _ (P : PageSet) (doc : PageSetDocumented P) where
  visit_block_adds :
      (page_size : ℕ) (block : MemArea) (s : P.Carrier) (p : ℕ)
      → has (P.ranges (visit_block P page_size block s)) p
        ≡ (is_block_page page_size block p || has (P.ranges s) p)
  unfolding visit_block is_block_page
  visit_block_adds page_size block s p = elim (Bool-cases (block.addr == 0)) [
    | inl null ↦ rw null refl
    | inr some_block ↦
        let r = memarea2pgrng page_size block in
        rw some_block (doc.add_lem s r.begin (r.begin + r.count) p)
  ]

  or_next : (a b h g : Bool) → g ≡ (a || h) → (b || g) ≡ ((a || b) || h)
  or_next true true h g e = refl
  or_next true false h g e = e
  or_next false true h g e = refl
  or_next false false h g e = e

  visit_blocks_adds :
      (page_size : ℕ) (blocks : List MemArea) (s : P.Carrier) (p : ℕ)
      → has (P.ranges (visit_blocks P page_size blocks s)) p
        ≡ (is_heap_page page_size blocks p || has (P.ranges s) p)
  unfolding visit_blocks is_heap_page
  visit_blocks_adds page_size [] s p = refl
  visit_blocks_adds page_size (block ∷ blocks) s p =
      visit_blocks_adds page_size blocks (visit_block P page_size block s) p
      ∙ or_next _ _ _ _ (visit_block_adds page_size block s p)

  pub visit_heaps_adds :
      (page_size : ℕ) (heaps : List (List MemArea)) (s : P.Carrier) (p : ℕ)
      → has (P.ranges (visit_heaps P page_size heaps s)) p
        ≡ (is_malloc_page page_size heaps p || has (P.ranges s) p)
  unfolding visit_heaps is_malloc_page
  visit_heaps_adds page_size [] s p = refl
  visit_heaps_adds page_size (heap ∷ heaps) s p =
      visit_heaps_adds page_size heaps (visit_blocks P page_size heap s) p
      ∙ or_next _ _ _ _ (visit_blocks_adds page_size heap s p)

pub or_none : (b h : Bool) → h ≡ false → (b || h) ≡ b
or_none true h e = refl
or_none false h e = e
