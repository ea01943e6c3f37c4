-- ===== src/Types.antt =====
-- include/simple_parallel/cxx/types_fwd.h: memory areas and page ranges.
use simple_parallel.Prelude.{ℕ, Option}

-- `mem_area`, a span of bytes: its address and its size.
pub record MemArea : Type 0 where
  pub addr : ℕ
  pub size : ℕ

-- `pte_range`
pub record PteRange : Type 0 where
  pub begin : ℕ
  pub count : ℕ

-- The MPI datatypes that reduce areas treat apart, and all others.
pub data ReduceType : Type 0 where
  short int long unsigned_long long_long_int long_long float double long_double : ReduceType
  int8 int16 int32 int64 uint8 uint16 uint32 uint64 c_bool : ReduceType
  other : ℕ → ReduceType

-- The MPI operations that have a name in the program, and all others.
pub data ReduceOp : Type 0 where
  op_null max min sum prod land band lor bor lxor bxor minloc maxloc replace : ReduceOp
  user : ℕ → ReduceOp

-- `reduce_area`: the memory, its MPI type and operation, and the pages wholly within it.
pub record ReduceArea : Type 0 where
  pub begin : ℕ
  pub count : ℕ
  pub type : ReduceType
  pub op : ReduceOp
  pub sizeof_type : ℕ
  pub inner_pages : Option PteRange
