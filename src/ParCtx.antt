-- ===== src/ParCtx.antt =====
-- Parallel sections: par_ctx_base and reduce_area of include/simple_parallel/cxx/simple_parallel.h
-- and src/simple_parallel/leader.cc, and the Fortran context of
-- src/fortran_binding/fortran_binding.cc. What getcontext and swapcontext return is the system's
-- choice, as is the code of a reduce.
pub mod Overlap
pub mod Reduce
pub mod Sections
pub mod Fortran
pub mod Descriptor
mod Tests
use simple_parallel.Prelude.{
  ℕ, zero, suc, ◌+◌, ◌*◌, ◌%◌, Bool, true, false, not, ◌&&◌, ◌||◌, Option, none, some, List, [],
  ◌∷◌, ltb, leb, ◌==◌, if◌then◌else◌, sub64, add64,
}
use simple_parallel.Types.{MemArea, ReduceArea}
use simple_parallel.Mpi.{mpi_success}

-- The ending of a number in an error message.
pub data Suffix : Type 0 where
  th st nd rd : Suffix

-- The exceptions, by their messages.
pub data Error : Type 0 where
  nested_parallel failed_getcontext failed_swapcontext failed_reduce : Error
  overlaps : ℕ × Suffix → ℕ × Suffix → Error
  recursively_enter re_enter : Error

-- `operator mem_area`
unfoldable pub mem_area : ReduceArea → MemArea
mem_area reduce = record { addr = reduce.begin; size = reduce.count * reduce.sizeof_type }

-- The address of the last byte.
unfoldable pub back : MemArea → ℕ
back area = sub64 (add64 area.addr area.size) 1

unfoldable pub mem_area_overlap : MemArea → MemArea → Bool
unfolding back
mem_area_overlap lhs rhs = leb rhs.addr (back lhs) && leb lhs.addr (back rhs)

unfoldable pub number_with_ordinal_suffix : ℕ → ℕ × Suffix
number_with_ordinal_suffix number =
    if ltb (number % 100) 11 || ltb 13 (number % 100)
    then if number % 10 == 1
      then (number, Suffix.st)
      else if number % 10 == 2
      then (number, Suffix.nd)
      else if number % 10 == 3
      then (number, Suffix.rd)
      else (number, Suffix.th)
    else (number, Suffix.th)

-- The loop over `rhs`, from `rhs` on.
unfoldable pub verify_against : ReduceArea → ℕ → ℕ → List ReduceArea → Option Error
verify_against lhs_area lhs rhs [] = none
verify_against lhs_area lhs rhs (rhs_area ∷ rest) =
    if mem_area_overlap (mem_area lhs_area) (mem_area rhs_area)
    then some (
        Error.overlaps (number_with_ordinal_suffix (lhs + 1))
          (number_with_ordinal_suffix (rhs + 1)))
    else verify_against lhs_area lhs (rhs + 1) rest

-- The loop over `lhs`, from `lhs` on.
unfoldable pub verify_from : ℕ → List ReduceArea → Option Error
verify_from lhs [] = none
verify_from lhs (area ∷ rest) = elim (verify_against area lhs (lhs + 1) rest) [
  | none ↦ verify_from (lhs + 1) rest
  | some e ↦ some e
]

unfoldable pub verify_reduces_no_overlap : List ReduceArea → Option Error
unfolding verify_from
verify_reduces_no_overlap reduces = verify_from 0 reduces

-- `par_ctx_base`: the size of its communicator, its reduce areas and whether it entered.
pub record ParCtx : Type 0 where
  pub comm_size : ℕ
  pub reduces : List ReduceArea
  pub entered_parallel : Bool

-- What `getcontext` and `swapcontext` return, and each reduce.
pub record Calls : Type 0 where
  pub getcontext : Bool
  pub swapcontext : Bool
  pub reduce : ReduceArea → ℕ

-- A call of a member function: the exception or none, the context and `in_parallel` after it.
pub record Called : Type 0 where
  pub error : Option Error
  pub ctx : ParCtx
  pub in_parallel : Bool

-- A call that entered, or would have but for an exception.
unfoldable pub entering : ParCtx → Option Error → Called
entering ctx error = record {
  error = error;
  ctx = record ctx { entered_parallel = true };
  in_parallel = true;
}

-- From the test of the reduce areas on; `swapcontext` returns after the transfer.
unfoldable pub verified : Bool → Option Error → Option Error
verified swapcontext none = if swapcontext then none else some Error.failed_swapcontext
verified swapcontext (some e) = some e

-- On the leader
unfoldable pub do_enter_parallel : Calls → Bool → ParCtx → Bool → Called
unfolding entering verified
do_enter_parallel calls enter_parallel ctx in_parallel =
    if not enter_parallel || (ctx.comm_size == 1)
    then record { error = none; ctx = record ctx { comm_size = 1 }; in_parallel = in_parallel }
    else if in_parallel
    then record { error = some Error.nested_parallel; ctx = ctx; in_parallel = in_parallel }
    else if not calls.getcontext
    then entering ctx (some Error.failed_getcontext)
    else entering ctx (verified calls.swapcontext (verify_reduces_no_overlap ctx.reduces))

-- The loop over the reduce areas: none is left out before the first that fails.
unfoldable pub reduce_all : (ReduceArea → ℕ) → List ReduceArea → Option Error
reduce_all code [] = none
reduce_all code (reduce ∷ rest) =
    if code reduce == mpi_success then reduce_all code rest else some Error.failed_reduce

unfoldable pub do_exit_parallel : Calls → ParCtx → Bool → Called
do_exit_parallel calls ctx in_parallel =
    if not ctx.entered_parallel
    then record { error = none; ctx = ctx; in_parallel = in_parallel }
    else record {
      error = if ltb 1 ctx.comm_size then reduce_all calls.reduce ctx.reduces else none;
      ctx = ctx;
      in_parallel = false;
    }
