-- ===== src/Heap.antt =====
-- How the leader's heap gets to the workers: leader.cc (get_zero_and_dirty_pages, send_heap) and
-- worker.cc (recv_heap), both in src/simple_parallel. The page table's entries, the blocks that
-- mimalloc reports and what madvise does are parameters.
pub mod ZeroPage
pub mod Sets
pub mod IntervalList
pub mod Blocks
pub mod Scan
pub mod Transfer
pub mod Synced
mod Tests
use simple_parallel.Prelude.{
  ℕ, zero, suc, ◌+◌, ◌-◌, ◌*◌, Bool, true, false, not, ◌&&◌, Option, none, some, List, [], ◌∷◌,
  ◌++◌, map, ltb, leb, ◌==◌, if◌then◌else◌,
}
use simple_parallel.Types.{MemArea, PteRange, ReduceArea}
use simple_parallel.Mpi.{World}
use simple_parallel.Pages.{Pte, is_dirty, is_touched, memarea2pgrng, pgrng2memarea}
use simple_parallel.BigMpi.Requests.{Requests, Chunk, sync_areas}
use simple_parallel.BigMpi.Sync.{replay}
use simple_parallel.Heap.ZeroPage.{Bytes, is_zeroed_pg_simd}
use simple_parallel.Heap.Sets.{PageSet, in_range}

unfoldable pub pte_range_overlap : PteRange → PteRange → Bool
pte_range_overlap lhs rhs =
    ltb rhs.begin (lhs.begin + lhs.count) && ltb lhs.begin (rhs.begin + rhs.count)

-- The dirty and the zeroed pages, and how many pages the reduce areas saved.
pub record Scanned (P : PageSet) : Type 0 where
  pub dirty_pages : P.Carrier
  pub zero_pages : P.Carrier
  pub skiped_reduce_size : ℕ

module _ (P : PageSet) (page_size : ℕ) where
  -- Called for every block; a heap area without one has the null pointer.
  unfoldable pub visit_block : MemArea → P.Carrier → P.Carrier
  visit_block block malloc_pages =
      if block.addr == 0
      then malloc_pages
      else let pte_range = memarea2pgrng page_size block in
        P.add malloc_pages pte_range.begin (pte_range.begin + pte_range.count)

  unfoldable pub visit_blocks : List MemArea → P.Carrier → P.Carrier
  visit_blocks [] malloc_pages = malloc_pages
  visit_blocks (block ∷ blocks) malloc_pages = visit_blocks blocks (visit_block block malloc_pages)

  -- All heaps of the leader, each by the blocks that mimalloc reports.
  unfoldable pub visit_heaps : List (List MemArea) → P.Carrier → P.Carrier
  visit_heaps [] malloc_pages = malloc_pages
  visit_heaps (heap ∷ heaps) malloc_pages = visit_heaps heaps (visit_blocks heap malloc_pages)

-- The reduce areas' inner ranges that meet the pages.
unfoldable pub overlap_reduce_rngs : List ReduceArea → PteRange → List PteRange
overlap_reduce_rngs [] pgs = []
overlap_reduce_rngs (reduce ∷ reduces) pgs = elim reduce.inner_pages [
  | none ↦ overlap_reduce_rngs reduces pgs
  | some rng ↦
      if pte_range_overlap rng pgs
      then rng ∷ overlap_reduce_rngs reduces pgs
      else overlap_reduce_rngs reduces pgs
]

-- Whether the inner loop over the overlapping ranges leaves for the next page.
unfoldable pub in_ranges : List PteRange → ℕ → Bool
in_ranges [] page_num = false
in_ranges (rng ∷ rngs) page_num = if in_range rng page_num then true else in_ranges rngs page_num

module _ (P : PageSet) (entries : ℕ → Pte) (is_zeroed : ℕ → Bool) where
  unfoldable pub scan_page : List PteRange → ℕ → Scanned P → Scanned P
  scan_page rngs page_num s =
      if not (is_dirty (entries page_num))
      then s
      else if not (is_touched (entries page_num))
      then s
      else if in_ranges rngs page_num
      then record s { skiped_reduce_size = s.skiped_reduce_size + 1 }
      else if is_zeroed page_num
      then record s { zero_pages = P.add s.zero_pages page_num (page_num + 1) }
      else record s { dirty_pages = P.add s.dirty_pages page_num (page_num + 1) }

  -- `for (size_t i = 0; i < size; ++i)`, from page `lower + i` with `n` pages left.
  unfoldable pub scan_pages : ℕ → List PteRange → ℕ → Scanned P → Scanned P
  scan_pages zero rngs page_num s = s
  scan_pages (suc n) rngs page_num s = scan_pages n rngs (page_num + 1) (scan_page rngs page_num s)

  unfoldable pub scan_ranges : List ReduceArea → List PteRange → Scanned P → Scanned P
  scan_ranges reduces [] s = s
  scan_ranges reduces (pgs ∷ rest) s =
      scan_ranges reduces rest (scan_pages pgs.count (overlap_reduce_rngs reduces pgs) pgs.begin s)

  unfoldable pub get_zero_and_dirty_pages : ℕ → List (List MemArea) → List ReduceArea → Scanned P
  get_zero_and_dirty_pages page_size leader_heaps reduces =
      scan_ranges reduces (P.ranges (visit_heaps P page_size leader_heaps P.none_yet))
        (record { dirty_pages = P.none_yet; zero_pages = P.none_yet; skiped_reduce_size = 0 })

-- The areas of a list of page ranges.
unfoldable pub memareas : ℕ → List PteRange → List MemArea
memareas page_size [] = []
memareas page_size (rng ∷ rngs) = pgrng2memarea page_size rng ∷ memareas page_size rngs

-- `memset` with the value 0
abbrev pub memset_zero : MemArea → Bytes → Bytes
memset_zero area mem x = if leb area.addr x && ltb x (area.addr + area.size) then 0 else mem x

module _ (page_size : ℕ) (madvise : MemArea → Bytes → Option Bytes) where
  -- An area is given back to the system, or overwritten where that fails.
  unfoldable pub zero_area : MemArea → Bytes → Bytes
  zero_area area mem = elim (madvise area mem) [ none ↦ memset_zero area mem | some mem' ↦ mem' ]

  -- All the ranges that a worker receives.
  unfoldable pub recv_zero_page : List PteRange → Bytes → Bytes
  unfolding zero_area
  recv_zero_page [] mem = mem
  recv_zero_page (i ∷ is) mem = recv_zero_page is (zero_area (pgrng2memarea page_size i) mem)

-- `send_heap` on the leader and `recv_heap` on the workers: the counts and the lists of ranges go
-- from the one to the others, the dirty areas by sync_areas; the leader only sends the zeroed ones.
module _ (P : PageSet) (page_size lanes : ℕ) (entries : ℕ → Pte) (waitany : ℕ → ℕ) where
  unfoldable pub sync_heap :
      (MemArea → Bytes → Option Bytes)
      → ℕ
      → List (List MemArea)
      → List ReduceArea
      → ℕ
      → World
      → Option World
  sync_heap madvise fuel leader_heaps reduces root_rank w =
      let zeroed = is_zeroed_pg_simd page_size lanes (w root_rank) in
      let s = get_zero_and_dirty_pages P entries zeroed page_size leader_heaps reduces in
      elim (sync_areas waitany fuel (memareas page_size (P.ranges s.dirty_pages))) [
        | none ↦ none
        | some sent ↦ some (λ rank.
            let mem = replay root_rank sent.issued w rank in
            if rank == root_rank
            then mem
            else recv_zero_page page_size madvise (P.ranges s.zero_pages) mem)
      ]
