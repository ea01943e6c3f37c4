-- ===== src/Enter/Tests.antt =====
-- Entering a section with two ranks, pages of two words, one block of a heap and one reduce area.
use simple_parallel.Prelude.{
  ◌+◌, ◌*◌, ◌^◌, ◌≤◌, ◌<◌, ◌≡◌, refl, sym, ap, Option, none, some, [], ◌∷◌, arith, ◌==◌,
  if◌then◌else◌, All, word, int_max,
}
use simple_parallel.Types.{MemArea, ReduceArea, ReduceType, ReduceOp}
use simple_parallel.Mpi.{World}
use simple_parallel.Mpi.TwoRanks.{two_ranks, two_ranks-MpiDocumented}
use simple_parallel.Pages.{
  is_dirty, is_touched, is_present, is_swapped, memarea2pgrng, pgrng2memarea, addr2pgnum,
}
use simple_parallel.Heap.{
  memareas, memset_zero, get_zero_and_dirty_pages, scan_ranges, scan_pages, scan_page, in_ranges,
  overlap_reduce_rngs, pte_range_overlap, visit_heaps, visit_blocks, visit_block,
}
use simple_parallel.Heap.ZeroPage.{Bytes, is_zeroed_pg_simd, or_words, all_zero}
use simple_parallel.Heap.Transfer.{DontNeed}
use simple_parallel.Heap.Synced.{CleanAgree}
use simple_parallel.Heap.IntervalList.{interval_list, interval_list-PageSetDocumented}
use simple_parallel.ParCtx.{verify_reduces_no_overlap, verify_from, verify_against}
use simple_parallel.ParCtx.Reduce.{identity, is_zero_init_when_sum, zero_identity}
use simple_parallel.Enter.{Entry, enter_section}
use simple_parallel.Enter.Areas.{IsSupported}
use simple_parallel.Enter.Transferred.{IsUsable, sent_areas}
use simple_parallel.Enter.Entered.{Begun, section_entered}

abbrev total : ReduceArea
total = record {
  begin = 100;
  count = 4;
  type = ReduceType.int8;
  op = ReduceOp.sum;
  sizeof_type = 1;
  inner_pages = none;
}

abbrev advised : MemArea → Bytes → Option Bytes
advised area mem = some (memset_zero area mem)

advised-DontNeed : DontNeed advised
advised-DontNeed a mem mem' e x = let f : memset_zero a mem ≡ mem' = cc in ap (λ g. g x) (sym f)

-- All pages are dirty; the block meets the pages 1 and 2.
abbrev entry : Entry
entry = record {
  comm_size = 2;
  root_rank = 0;
  page_size = 16;
  lanes = 1;
  fake_stack = record { addr = 200; size = 8 };
  leader_heaps = (record { addr = 20; size = 20 } ∷ []) ∷ [];
  entries = λ p. record { entry = 2 ^ 63 + 2 ^ 55 };
  reduces = total ∷ [];
  variables = record { name = 3; area = record { addr = 3000; size = 40 } } ∷ [];
  waitany_heap = λ k. 0;
  waitany_variables = λ k. 0;
  madvise = advised;
}

entry-IsUsable : IsUsable entry
entry-IsUsable = record {
  rounds = 2;
  some_round = omega arith;
  some_lane = omega arith;
  page = refl;
  root = omega arith;
  stack = omega arith;
  variables = (omega arith, tt);
  waits_heap = λ k. omega arith;
  waits_variables = λ k. omega arith;
}

abbrev memory : World
memory k x = if k == 0 then (if x == 21 then 9 else 0) else 5

total_verified : verify_reduces_no_overlap (total ∷ []) ≡ none
unfolding verify_reduces_no_overlap verify_from verify_against
total_verified = refl

total-IsSupported : IsSupported total
unfolding identity is_zero_init_when_sum zero_identity
total-IsSupported = (0, refl)

sent : sent_areas interval_list entry (memory 0) ≡ record { addr = 16; size = 16 } ∷ []
unfolding get_zero_and_dirty_pages scan_ranges scan_pages scan_page in_ranges overlap_reduce_rngs
    pte_range_overlap visit_heaps visit_blocks visit_block memarea2pgrng addr2pgnum is_dirty
    is_touched is_present is_swapped is_zeroed_pg_simd or_words all_zero memareas pgrng2memarea
sent = refl

sizes :
    All
      (λ mem. (mem.size + int_max < word) × (mem.size ≤ 1 * int_max))
      (sent_areas interval_list entry (memory 0))
sizes = rw sent ((omega arith, omega arith), tt)

memory-CleanAgree : CleanAgree 16 entry.entries entry.leader_heaps entry.reduces 0 memory
unfolding is_dirty is_touched is_present is_swapped
memory-CleanAgree k p j lt m r h = absurd (cc)

section_entered_example :
    (w' : World) × (enter_section interval_list two_ranks 2 entry memory ≡ some w')
    × Begun entry memory w'
section_entered_example =
    section_entered interval_list interval_list-PageSetDocumented two_ranks-MpiDocumented entry
      entry-IsUsable advised-DontNeed 1 memory total_verified ((omega arith, omega arith), tt)
      (total-IsSupported, tt) sizes memory-CleanAgree
