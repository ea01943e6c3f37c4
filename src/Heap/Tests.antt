-- ===== src/Heap/Tests.antt =====
-- The transfer of the heap on a small memory: pages of two words, read one word at a time.
use simple_parallel.Prelude.{
  ℕ, ◌+◌, ◌*◌, ◌^◌, ◌≤◌, ◌<◌, ◌≡◌, ◌↔◌, ◌⊎◌, refl, sym, ap, true, false, not, ◌&&◌, Option, some,
  List, [], ◌∷◌, arith, ltb, leb, ◌==◌, if◌then◌else◌, Bool-cases, inl, inr, All, word, int_max,
  ==→eq,
}
use simple_parallel.Types.{MemArea, ReduceArea, ReduceType, ReduceOp}
use simple_parallel.Mpi.{World}
use simple_parallel.Pages.{
  Pte, is_dirty, is_touched, is_present, is_swapped, memarea2pgrng, pgrng2memarea, addr2pgnum,
}
use simple_parallel.Heap.{
  memareas, memset_zero, sync_heap, Scanned, get_zero_and_dirty_pages, scan_ranges, scan_pages,
  scan_page, in_ranges, overlap_reduce_rngs, pte_range_overlap, visit_heaps, visit_blocks,
  visit_block,
}
use simple_parallel.Heap.ZeroPage.{Bytes, is_zeroed_pg_simd, is_zeroed_iff, or_words, all_zero}
use simple_parallel.Heap.Transfer.{DontNeed}
use simple_parallel.Heap.Scan.{is_wanted, is_reduced, scanned_pages}
use simple_parallel.Heap.Blocks.{is_malloc_page}
use simple_parallel.Heap.Synced.{CleanAgree, heap_synced}
use simple_parallel.Heap.IntervalList.{interval_list, interval_list-PageSetDocumented}
use simple_parallel.Heap.Sets.{has}

-- Page 3 is clean.
abbrev entries : ℕ → Pte
entries p = if p == 3 then record { entry = 2 ^ 63 } else record { entry = 2 ^ 63 + 2 ^ 55 }

-- Pages 1, 2 and 3, and page 4.
abbrev heaps : List (List MemArea)
heaps = (record { addr = 20; size = 40 } ∷ []) ∷ (record { addr = 64; size = 8 } ∷ []) ∷ []

-- Page 2 is reduced.
abbrev reduces : List ReduceArea
reduces =
    record {
      begin = 30;
      count = 20;
      type = ReduceType.int8;
      op = ReduceOp.sum;
      sizeof_type = 1;
      inner_pages = some (record { begin = 2; count = 1 });
    }
    ∷ []

abbrev memory : World
memory k x = if k == 0 then (if x == 21 then 9 else 0) else if leb 64 x && ltb x 80 then 5 else 0

abbrev advised : MemArea → Bytes → Option Bytes
advised area mem = some (memset_zero area mem)

advised-DontNeed : DontNeed advised
advised-DontNeed a mem mem' e x = let f : memset_zero a mem ≡ mem' = cc in sym (ap (λ g. g x) f)

abbrev found : Scanned interval_list
found =
    get_zero_and_dirty_pages interval_list entries (is_zeroed_pg_simd 16 1 (memory 0)) 16 heaps
      reduces

found_run : found ≡ record {
  dirty_pages = record { begin = 1; count = 1 } ∷ [];
  zero_pages = record { begin = 4; count = 1 } ∷ [];
  skiped_reduce_size = 1;
}
unfolding get_zero_and_dirty_pages scan_ranges scan_pages scan_page in_ranges overlap_reduce_rngs
    pte_range_overlap visit_heaps visit_blocks visit_block memarea2pgrng addr2pgnum is_dirty
    is_touched is_present is_swapped is_zeroed_pg_simd or_words all_zero
found_run = refl

sizes :
    All
      (λ mem. (mem.size + int_max < word) × (mem.size ≤ 1 * int_max))
      (memareas 16 found.dirty_pages)
unfolding memareas pgrng2memarea
sizes = rw (ap (λ s. s.dirty_pages) found_run) ((omega arith, omega arith), tt)

memory-CleanAgree : CleanAgree 16 entries heaps reduces 0 memory
unfolding is_dirty is_touched is_present is_swapped
memory-CleanAgree k p j lt m r h = elim (Bool-cases (p == 3)) [
  | inl clean ↦ rw (==→eq p 3 clean) (ground arith)
  | inr dirty ↦ let e : true ≡ false = rw dirty at h in absurd (cc)
]

heap_synced_example :
    (w' : World) × (sync_heap interval_list 16 1 entries (λ k. 0) advised 2 heaps reduces 0 memory
      ≡ some w')
    × ((x : ℕ) → w' 0 x ≡ memory 0 x)
    × ((k p j : ℕ)
        → j < 16
        → is_malloc_page 16 heaps p ≡ true
        → is_reduced reduces p ≡ false
        → w' k (16 * p + j) ≡ memory 0 (16 * p + j))
    × ((k p j : ℕ)
        → j < 16
        → (is_malloc_page 16 heaps p ≡ false) ⊎ (is_reduced reduces p ≡ true)
        → w' k (16 * p + j) ≡ memory k (16 * p + j))
heap_synced_example =
    heap_synced interval_list interval_list-PageSetDocumented 16 1 2 (omega arith) (omega arith)
      refl entries heaps reduces 0 memory advised advised-DontNeed (λ k. 0) 1 (λ k. omega arith)
      sizes memory-CleanAgree

scanned_pages_example :
    let s = get_zero_and_dirty_pages interval_list entries (λ p. p == 4) 16 heaps reduces in
    let sent = is_malloc_page 16 heaps 1 && is_wanted entries (is_reduced reduces 1) 1 in
    (has s.dirty_pages 1 ≡ (sent && not (1 == 4))) × (has s.zero_pages 1 ≡ (sent && (1 == 4)))
scanned_pages_example =
    scanned_pages interval_list interval_list-PageSetDocumented entries (λ p. p == 4) 16 heaps
      reduces 1

is_zeroed_iff_example :
    (is_zeroed_pg_simd 4096 4 (memory 0) 0 ≡ true)
    ↔ ((j : ℕ) → j < 4096 → memory 0 (4096 * 0 + j) ≡ 0)
is_zeroed_iff_example = is_zeroed_iff 4 128 (omega arith) (omega arith) (memory 0) 4096 0 refl
