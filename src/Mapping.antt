-- ===== src/Mapping.antt =====
-- The reserved heap: proxy_mmap, proxy_munmap and proxy_madvise of src/simple_parallel/leader.cc,
-- which record the leader's operations on its address space, and their replay on the workers
-- (src/simple_parallel/include/leader.h, worker.cc). What the kernel answers is a parameter.
pub mod Fresh
pub mod Replay
mod Tests
use simple_parallel.Prelude.{
  ℕ, zero, suc, ◌+◌, ◌-◌, ◌*◌, ◌%◌, Bool, true, false, not, ◌&&◌, Option, none, some, List, [], ◌∷◌,
  ◌++◌, ltb, leb, ◌==◌, if◌then◌else◌,
}
use simple_parallel.Types.{MemArea}
use simple_parallel.ParCtx.{mem_area_overlap}

-- `mem_ops_t`
pub data MemOp : Type 0 where
  mmap : (addr len prot flags fd offset : ℕ) → MemOp
  munmap : (addr len : ℕ) → MemOp
  madvise : (addr len advice : ℕ) → MemOp

-- The largest huge page
abbrev pub step : ℕ
step = 1024 * 1024 * 1024

-- `begin`, and the operations since the last section.
pub record Mapper : Type 0 where
  pub begin : ℕ
  pub memory_operations : List MemOp

unfoldable pub round_up : ℕ → ℕ → ℕ
round_up num_to_round multiple =
    if multiple == 0
    then num_to_round
    else if num_to_round % multiple == 0
    then num_to_round
    else num_to_round + multiple - num_to_round % multiple

-- How the loop ends: at an address, or with `std::terminate`.
pub data Placed : Type 0 where
  at : ℕ → Placed
  overflow : Placed

-- The loop: `answer` is what the kernel answers when it is asked for `len` bytes at an address,
-- `none` for `MAP_FAILED`. Out of fuel it gives `none`.
unfoldable pub place : (ℕ → Option ℕ) → MemArea → ℕ → ℕ → ℕ → Option Placed
place answer reserved_heap len zero begin = none
place answer reserved_heap len (suc fuel) begin =
    elim (ltb (reserved_heap.addr + reserved_heap.size) (begin + len)) [
      | true ↦ some Placed.overflow
      | false ↦ elim (answer begin) [
        | none ↦ place answer reserved_heap len fuel (begin + step)
        | some res ↦ elim (res == begin) [
          | true ↦ some (Placed.at res)
          | false ↦ place answer reserved_heap len fuel (begin + step)
        ]
      ]
    ]

-- What follows the loop.
unfoldable pub placed :
    (len prot flags fd offset : ℕ) → Mapper → Option Placed → Option (Option ℕ × Mapper)
unfolding round_up
placed len prot flags fd offset m none = none
placed len prot flags fd offset m (some Placed.overflow) = some (none, m)
placed len prot flags fd offset m (some (Placed.at res)) = some (
  some res,
  record {
    begin = res + round_up len step;
    memory_operations = m.memory_operations ++ MemOp.mmap res len prot flags fd offset ∷ [];
  },
)

-- The outer `none` is for fuel that is used up, the inner one for `std::terminate`.
unfoldable pub proxy_mmap :
    (ℕ → Option ℕ)
    → MemArea
    → ℕ
    → (len prot flags fd offset : ℕ) → Mapper
    → Option (Option ℕ × Mapper)
unfolding place placed
proxy_mmap answer reserved_heap fuel len prot flags fd offset m =
    placed len prot flags fd offset m (place answer reserved_heap len fuel m.begin)

-- The two other proxies: the return code of the call, and the mapper.
module _ (reserved_heap : MemArea) where
  unfoldable pub overlap_with_reserved_heap : MemArea → Bool
  overlap_with_reserved_heap area = mem_area_overlap area reserved_heap

  unfoldable pub recorded : Bool → ℕ → ℕ → ℕ → MemOp → Mapper → Mapper
  unfolding overlap_with_reserved_heap
  recorded finished addr size ret op m =
      if finished
      then m
      else if not (overlap_with_reserved_heap (record { addr = addr; size = size }))
      then m
      else if ret == 0
      then record m { memory_operations = m.memory_operations ++ op ∷ [] }
      else m

  unfoldable pub proxy_madvise : Bool → (addr size advice ret : ℕ) → Mapper → ℕ × Mapper
  unfolding recorded
  proxy_madvise finished addr size advice ret m =
      (ret, recorded finished addr size ret (MemOp.madvise addr size advice) m)

  unfoldable pub proxy_munmap : Bool → (addr size ret : ℕ) → Mapper → ℕ × Mapper
  unfolding recorded
  proxy_munmap finished addr size ret m =
      (ret, recorded finished addr size ret (MemOp.munmap addr size) m)
