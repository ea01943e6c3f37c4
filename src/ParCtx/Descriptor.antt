-- ===== src/ParCtx/Descriptor.antt =====
-- src/fortran_binding/fortran_binding.cc, ftype_2_mpi_type and s_p_f_ctx_add_reduce_area: a Fortran
-- array's descriptor as a reduce area. The codes of the types are constants of
-- ISO_Fortran_binding.h and the size of a type is MPI's answer, so both are parameters.
pub mod Bytes
pub mod Covers
mod Tests
use native.Mathlib.Nat.{
  mod-lt, div-add-mod', div-lt_iff_lt-mul, mul-le-mul_right, mul_assoc, mul_comm, mod-eq_of_lt,
}
use simple_parallel.Prelude.{
  ℕ, zero, suc, ◌+◌, ◌-◌, ◌*◌, ◌%◌, ◌/◌, ◌≤◌, ◌<◌, ◌≡◌, ◌↔◌, ◌⊎◌, refl, sym, ap, subst, Bool, true,
  false, Option, none, some, List, [], ◌∷◌, ltb, ◌==◌, if◌then◌else◌, arith, Bool-cases,
  Option-cases, inl, inr, word,
}
use simple_parallel.Types.{ReduceArea, ReduceType, ReduceOp}
use simple_parallel.Pages.{memarea2innerpgrng}
use simple_parallel.ParCtx.Overlap.{IsByte}
use simple_parallel.ParCtx.Fortran.{FortranCtx, add_reduce_area}

-- `CFI_dim_t`: the extent, and the distance of two elements that follow one another.
pub record Dim : Type 0 where
  pub extent : ℕ
  pub sm : ℕ

-- `CFI_cdesc_t`, with the `rank` dimensions.
pub record Cdesc : Type 0 where
  pub base_addr : ℕ
  pub elem_len : ℕ
  pub type : ℕ
  pub dim : List Dim

-- The codes of the types that MPI has a counterpart for.
pub record TypeCodes : Type 0 where
  pub int : ℕ
  pub int8_t : ℕ
  pub int16_t : ℕ
  pub int32_t : ℕ
  pub int64_t : ℕ
  pub float : ℕ
  pub double : ℕ
  pub bool : ℕ

-- The table; where two codes are equal, the one that stands first counts.
unfoldable pub cfi_type_2_mpi_type : TypeCodes → List (ℕ × ReduceType)
cfi_type_2_mpi_type codes =
    (codes.int, ReduceType.int)
    ∷ (codes.int8_t, ReduceType.int8)
    ∷ (codes.int16_t, ReduceType.int16)
    ∷ (codes.int32_t, ReduceType.int32)
    ∷ (codes.int64_t, ReduceType.int64)
    ∷ (codes.float, ReduceType.float)
    ∷ (codes.double, ReduceType.double)
    ∷ (codes.bool, ReduceType.c_bool)
    ∷ []

-- `find`
unfoldable pub find_type : ℕ → List (ℕ × ReduceType) → Option ReduceType
find_type ftype [] = none
find_type ftype (entry ∷ rest) = if ftype == entry.0 then some entry.1 else find_type ftype rest

-- None is the exception.
unfoldable pub ftype_2_mpi_type : TypeCodes → ℕ → Option ReduceType
unfolding find_type cfi_type_2_mpi_type
ftype_2_mpi_type codes ftype = find_type ftype (cfi_type_2_mpi_type codes)

-- The loop over the dimensions.
unfoldable pub elements_from : ℕ → List Dim → ℕ
elements_from len [] = len
elements_from len (d ∷ ds) = elements_from ((len * d.extent) % word) ds

-- The constructor of a reduce area, with the pages wholly within it.
unfoldable pub new_reduce_area : ℕ → (ReduceType → ℕ) → ReduceType → ℕ → ℕ → ReduceOp → ReduceArea
unfolding memarea2innerpgrng
new_reduce_area page_size type_size type begin count op = record {
  begin = begin;
  count = count;
  type = type;
  op = op;
  sizeof_type = type_size type;
  inner_pages =
      memarea2innerpgrng page_size
        (record { addr = begin; size = (count * type_size type) % word });
}

-- What a call comes to; the exception carries the type's code.
pub data Added : Type 0 where
  failed_assertion : Added
  unsupported_type : ℕ → Added
  added : FortranCtx → Added

unfoldable pub f_ctx_add_reduce_area :
    ℕ → TypeCodes → (ReduceType → ℕ) → FortranCtx → Cdesc → ReduceOp → Added
unfolding ftype_2_mpi_type elements_from new_reduce_area add_reduce_area
f_ctx_add_reduce_area page_size codes type_size ctx array op =
    let len = elements_from 1 array.dim in
    if ltb 0 len
    then elim (ftype_2_mpi_type codes array.type) [
      | none ↦ Added.unsupported_type array.type
      | some type ↦
          Added.added
            (add_reduce_area (new_reduce_area page_size type_size type array.base_addr len op) ctx)
    ]
    else Added.failed_assertion
