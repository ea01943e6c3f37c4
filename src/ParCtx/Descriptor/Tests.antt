-- ===== src/ParCtx/Descriptor/Tests.antt =====
-- A matrix of three by two ints, and every other element of a row of six.
use simple_parallel.Prelude.{ℕ, ◌≡◌, ◌⊎◌, refl, sym, ap, Option, none, some, [], ◌∷◌, arith}
use simple_parallel.Types.{ReduceArea, ReduceType, ReduceOp}
use simple_parallel.Pages.{memarea2innerpgrng}
use simple_parallel.ParCtx.Fortran.{add_reduce_area, new_fortran_ctx}
use simple_parallel.ParCtx.Descriptor.{
  Cdesc, TypeCodes, Added, ftype_2_mpi_type, find_type, cfi_type_2_mpi_type, elements_from,
  new_reduce_area, f_ctx_add_reduce_area,
}
use simple_parallel.ParCtx.Descriptor.Covers.{IsSection, IsElementByte, Covers, section_reduced}

abbrev codes : TypeCodes
codes = record {
  int = 1025;
  int8_t = 257;
  int16_t = 513;
  int32_t = 1025;
  int64_t = 2049;
  float = 1027;
  double = 2051;
  bool = 258;
}

abbrev type_size : ReduceType → ℕ
type_size ReduceType.int = 4
type_size ReduceType.float = 4
type_size ReduceType.int32 = 4
type_size ReduceType.int16 = 2
type_size ReduceType.int8 = 1
type_size ReduceType.c_bool = 1
type_size _ = 8

abbrev matrix : Cdesc
matrix = record {
  base_addr = 8188;
  elem_len = 4;
  type = 1025;
  dim = record { extent = 3; sm = 4 } ∷ record { extent = 2; sm = 12 } ∷ [];
}

abbrev matrix_area : ReduceArea
matrix_area = record {
  begin = 8188;
  count = 6;
  type = ReduceType.int;
  op = ReduceOp.sum;
  sizeof_type = 4;
  inner_pages = some (record { begin = 512; count = 1 });
}

matrix_run :
    f_ctx_add_reduce_area 16 codes type_size (new_fortran_ctx 4) matrix ReduceOp.sum
    ≡ Added.added (add_reduce_area matrix_area (new_fortran_ctx 4))
unfolding f_ctx_add_reduce_area ftype_2_mpi_type find_type cfi_type_2_mpi_type elements_from
    new_reduce_area add_reduce_area memarea2innerpgrng
matrix_run = refl

-- The reduce area of a section with gaps has half of the section's elements, and half of the gaps.
every_other_run :
    f_ctx_add_reduce_area 16 codes type_size
      (new_fortran_ctx 4)
      (record matrix { dim = record { extent = 3; sm = 8 } ∷ [] })
      ReduceOp.sum
    ≡ Added.added
        (add_reduce_area (record matrix_area { count = 3; inner_pages = none }) (new_fortran_ctx 4))
unfolding f_ctx_add_reduce_area ftype_2_mpi_type find_type cfi_type_2_mpi_type elements_from
    new_reduce_area add_reduce_area memarea2innerpgrng
every_other_run = refl

refused_run :
    (f_ctx_add_reduce_area 16 codes type_size
        (new_fortran_ctx 4)
        (record matrix { type = 5 })
        ReduceOp.sum
      ≡ Added.unsupported_type 5)
    × (f_ctx_add_reduce_area 16 codes type_size
          (new_fortran_ctx 4)
          (record matrix { dim = record { extent = 0; sm = 4 } ∷ [] })
          ReduceOp.sum
        ≡ Added.failed_assertion)
unfolding f_ctx_add_reduce_area ftype_2_mpi_type find_type cfi_type_2_mpi_type elements_from
refused_run = (refl, refl)

matrix-IsSection : IsSection matrix
matrix-IsSection = record {
  elements = omega arith;
  contiguous = (refl, (refl, tt));
  not_null = omega arith;
  fits = omega arith;
}

matrix_type : (type : ReduceType) → ftype_2_mpi_type codes 1025 ≡ some type → type_size type ≡ 4
unfolding ftype_2_mpi_type find_type cfi_type_2_mpi_type
matrix_type type e = ap size_or (sym e)
  where
    size_or : Option ReduceType → ℕ
    size_or none = 4
    size_or (some type) = type_size type

section_reduced_example :
    ((f_ctx_add_reduce_area 16 codes type_size (new_fortran_ctx 4) matrix ReduceOp.sum
        ≡ Added.failed_assertion)
      × ((x : ℕ) → IsElementByte matrix x → ⊥))
    ⊎ (((f_ctx_add_reduce_area 16 codes type_size (new_fortran_ctx 4) matrix ReduceOp.sum
            ≡ Added.unsupported_type 1025)
          × (ftype_2_mpi_type codes 1025 ≡ none))
        ⊎ ((area : ReduceArea) × (f_ctx_add_reduce_area 16 codes type_size
                (new_fortran_ctx 4)
                matrix
                ReduceOp.sum
              ≡ Added.added (add_reduce_area area (new_fortran_ctx 4)))
            × Covers 16 matrix area))
section_reduced_example =
    section_reduced 16 (omega arith) codes type_size (new_fortran_ctx 4) matrix ReduceOp.sum
      matrix-IsSection matrix_type
