-- ===== src/Pages.antt =====
-- src/simple_parallel/include/pagemap.h: pages, page ranges and page table entries. The page size is
-- a constant that the build measures, here a parameter; addresses and page numbers are 64-bit words.
pub mod Bounds
pub mod Entry
mod Tests
use simple_parallel.Prelude.{
  ℕ, ◌+◌, ◌-◌, ◌*◌, ◌/◌, ◌^◌, Bool, not, ◌||◌, ◌==◌, Option, none, some, leb, if◌then◌else◌,
  bit_and, sub64, add64,
}
use simple_parallel.Types.{MemArea, PteRange}

-- `pte`, by its entry
pub record Pte : Type 0 where
  pub entry : ℕ

abbrev pub dirty_bit : ℕ
dirty_bit = 2 ^ 55

abbrev pub present_bit : ℕ
present_bit = 2 ^ 63

abbrev pub swap_bit : ℕ
swap_bit = 2 ^ 62

unfoldable pub is_dirty : Pte → Bool
is_dirty p = not (bit_and p.entry dirty_bit == 0)

unfoldable pub is_present : Pte → Bool
is_present p = not (bit_and p.entry present_bit == 0)

unfoldable pub is_swapped : Pte → Bool
is_swapped p = not (bit_and p.entry swap_bit == 0)

unfoldable pub is_touched : Pte → Bool
is_touched p = is_present p || is_swapped p

module _ (page_size : ℕ) where
  unfoldable pub pgnum2memarea : ℕ → MemArea
  pgnum2memarea page_num = record { addr = page_num * page_size; size = page_size }

  unfoldable pub addr2pgnum : ℕ → ℕ
  addr2pgnum addr = addr / page_size

  -- The pages that hold a byte of the area; `&area.back()` is the address of its last byte.
  unfoldable pub memarea2pgrng : MemArea → PteRange
  unfolding addr2pgnum
  memarea2pgrng area =
      let begin = addr2pgnum area.addr in
      let end = addr2pgnum (sub64 (add64 area.addr area.size) 1) + 1 in
      record { begin = begin; count = sub64 end begin }

  -- The pages that lie within the area.
  unfoldable pub memarea2innerpgrng : MemArea → Option PteRange
  unfolding addr2pgnum
  memarea2innerpgrng area =
      let begin = addr2pgnum (sub64 area.addr 1) + 1 in
      let end = addr2pgnum (add64 area.addr area.size) in
      if leb end begin then none else some (record { begin = begin; count = sub64 end begin })

  unfoldable pub pgrng2memarea : PteRange → MemArea
  pgrng2memarea range = record { addr = range.begin * page_size; size = range.count * page_size }
