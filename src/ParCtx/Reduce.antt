-- ===== src/ParCtx/Reduce.antt =====
-- The initial values of reduce areas on workers, reduce_area::init_reduce_area_on_worker of
-- src/simple_parallel/leader.cc, and what a reduce makes of them.
pub mod Keeps
pub mod Untouched
mod Tests
use native.Mathlib.Nat.{mod-lt, div-add-mod', div-lt_iff_lt-mul, mul-le-mul_right, mod-mod, mod-le}
use simple_parallel.Prelude.{
  ℕ, zero, suc, ◌+◌, ◌-◌, ◌*◌, ◌%◌, ◌/◌, ◌≤◌, ◌<◌, ◌≡◌, ◌≢◌, refl, ◌∙◌, sym, ap, Bool, true, false,
  ◌&&◌, Option, none, some, leb, ltb, ◌==◌, if◌then◌else◌, arith, Bool-cases, ◌⊎◌, inl, inr, ==→eq,
  Option-cases, int_max, word, subst,
}
use simple_parallel.Types.{MemArea, ReduceArea, ReduceType, ReduceOp}
use simple_parallel.Mpi.{
  IsGapless, Mpi, MpiDocumented, World, Combine, Datatype, elementwise, mpi_success,
}
use simple_parallel.BigMpi.{reduce}
use simple_parallel.BigMpi.Whole.{reduce_whole}
use simple_parallel.Heap.ZeroPage.{Bytes}
use simple_parallel.ParCtx.{mem_area}
use simple_parallel.ParCtx.Overlap.{IsByte}

-- Whether the type is among those whose sums start from zero bytes.
unfoldable pub is_zero_init_when_sum : ReduceType → Bool
is_zero_init_when_sum ReduceType.c_bool = false
is_zero_init_when_sum (ReduceType.other t) = false
is_zero_init_when_sum _ = true

-- The first test: a sum of one of those types.
unfoldable pub zero_identity : Bool → ReduceOp → Option ℕ
zero_identity is_zero_init ReduceOp.sum = if is_zero_init then some 0 else none
zero_identity is_zero_init _ = none

-- `identity` of a C bool.
unfoldable pub c_bool_identity : ReduceOp → Option ℕ
c_bool_identity ReduceOp.land = some 1
c_bool_identity ReduceOp.lor = some 0
c_bool_identity _ = none

unfoldable pub is_c_bool : ReduceType → Bool
is_c_bool ReduceType.c_bool = true
is_c_bool _ = false

-- The byte that the code fills the area with, if it supports the type with the operation.
unfoldable pub identity : ReduceType → ReduceOp → Option ℕ
unfolding is_zero_init_when_sum zero_identity c_bool_identity is_c_bool
identity type op = elim (zero_identity (is_zero_init_when_sum type) op) [
  | some value ↦ some value
  | none ↦ if is_c_bool type then c_bool_identity op else none
]

-- `memset`
abbrev pub memset : MemArea → ℕ → Bytes → Bytes
memset area value mem x = if leb area.addr x && ltb x (area.addr + area.size) then value else mem x

-- The exception for an unsupported type, or for an operation that has no name in the program.
pub data Initialised : Type 0 where
  initialised : Bytes → Initialised
  not_support : ReduceType → ReduceOp → Initialised
  no_name : Initialised

unfoldable pub refused : ReduceType → ReduceOp → Initialised
refused type (ReduceOp.user op) = no_name
refused type op = not_support type op

unfoldable pub init_reduce_area_on_worker : ReduceArea → Bytes → Initialised
unfolding identity mem_area refused
init_reduce_area_on_worker r mem = elim (identity r.type r.op) [
  | none ↦ refused r.type r.op
  | some value ↦ initialised (memset (mem_area r) value mem)
]
