-- ===== src/ParCtx/Descriptor/Covers.antt =====
-- The reduce area that an array's descriptor gives: its bytes and its pages are the elements'.
use native.Mathlib.Nat.{le-mul_of_pos_right, mul-pos, mod-eq_of_lt}
use simple_parallel.Prelude.{
  ℕ, ◌+◌, ◌-◌, ◌*◌, ◌%◌, ◌≤◌, ◌<◌, ◌≡◌, ◌↔◌, ◌⊎◌, refl, ◌∙◌, sym, ap, ap₂, subst, none, some, arith,
  Bool-cases, Option-cases, inl, inr, word, ltb, ltb→lt, ltb→le,
}
use simple_parallel.Types.{MemArea, ReduceArea, ReduceType, ReduceOp}
use simple_parallel.Pages.Bounds.{InInner, Holds, memarea2innerpgrng_iff}
use simple_parallel.ParCtx.Overlap.{IsByte}
use simple_parallel.ParCtx.Fortran.{FortranCtx, add_reduce_area}
use simple_parallel.ParCtx.Descriptor.{
  Cdesc, TypeCodes, Added, ftype_2_mpi_type, elements_from, new_reduce_area, f_ctx_add_reduce_area,
}
use simple_parallel.ParCtx.Descriptor.Bytes.{
  OfElement, IsContiguous, bytes, bytes_iff, elements_lem, bytes_mul,
}

-- A byte of one of the array's elements.
abbrev pub IsElementByte : Cdesc → ℕ → Type 0
IsElementByte array x =
    (array.base_addr ≤ x) × OfElement array.elem_len array.dim (x - array.base_addr)

-- An array whose elements lie one after the other in the address space, past the null address.
pub record IsSection (array : Cdesc) : Type 0 where
  pub elements : 0 < array.elem_len
  pub contiguous : IsContiguous array.elem_len array.dim
  pub not_null : 0 < array.base_addr
  pub fits : array.base_addr + bytes array.elem_len array.dim < word

module _ (array : Cdesc) (h : IsSection array) where
  whole : bytes array.elem_len array.dim ≡ bytes 1 array.dim * array.elem_len
  whole = ap (λ k. bytes k array.dim) (omega arith) ∙ bytes_mul 1 array.elem_len array.dim

  counted : elements_from 1 array.dim ≡ bytes 1 array.dim
  counted =
      let le = le-mul_of_pos_right (bytes 1 array.dim) h.elements in
      elements_lem 1 array.dim ∙ mod-eq_of_lt (omega (arith, le, whole, h.fits))

  element_iff :
      (x : ℕ)
      → ((array.base_addr ≤ x) × (x < array.base_addr + bytes array.elem_len array.dim))
        ↔ IsElementByte array x
  element_iff x =
      let iff = bytes_iff array.elem_len array.dim (x - array.base_addr) h.contiguous in
      (λ b. (b.0, iff.0 (omega (arith, b.0, b.1))), λ e. (e.0, omega (arith, e.0, iff.1 e.1)))

  no_element : elements_from 1 array.dim ≡ 0 → (x : ℕ) → IsElementByte array x → ⊥
  no_element e x b =
      let at = (element_iff x).1 b in
      let none_left : bytes array.elem_len array.dim ≡ 0 * array.elem_len =
        whole ∙ ap (λ k. k * array.elem_len) (sym counted ∙ e) in
      omega (arith, at.0, at.1, none_left)

-- Every byte of page `p` is a byte of an element.
abbrev pub IsElementPage : ℕ → Cdesc → ℕ → Type 0
IsElementPage page_size array p =
    (x : ℕ) → p * page_size ≤ x → x < (p + 1) * page_size → IsElementByte array x

-- The bytes and the pages of the reduce area are those of the array's elements.
abbrev pub Covers : ℕ → Cdesc → ReduceArea → Type 0
Covers page_size array area =
    ((x : ℕ) → IsByte area x ↔ IsElementByte array x)
    × ((p : ℕ) → InInner p area.inner_pages ↔ IsElementPage page_size array p)

-- The reduce area that the code makes of an array with an element.
module _ (page_size : ℕ) (pos : 0 < page_size) (type_size : ReduceType → ℕ) (array : Cdesc)
    (h : IsSection array) (type : ReduceType) (op : ReduceOp)
    (sized : type_size type ≡ array.elem_len) (some_element : 0 < elements_from 1 array.dim) where
  span : elements_from 1 array.dim * type_size type ≡ bytes array.elem_len array.dim
  span = ap₂ (λ a b. a * b) (counted array h) sized ∙ sym (whole array h)

  span_filled : 0 < bytes array.elem_len array.dim
  span_filled =
      subst (λ k. 0 < k) span (mul-pos some_element (subst (λ k. 0 < k) (sym sized) h.elements))

  page_iff :
      (p : ℕ)
      → Holds page_size p (record { addr = array.base_addr; size = bytes array.elem_len array.dim })
        ↔ IsElementPage page_size array p
  page_iff p = (
    λ b x lo hi. (element_iff array h x).0 (omega (arith, b.0, lo), omega (arith, b.1, hi)),
    λ e.
        let first =
          (element_iff array h (p * page_size)).1
            (e (p * page_size) (omega arith) (omega (arith, pos))) in
        let last =
          (element_iff array h ((p + 1) * page_size - 1)).1
            (e ((p + 1) * page_size - 1) (omega (arith, pos)) (omega (arith, pos))) in
        (omega (arith, first.0), omega (arith, last.1)),
  )

  new_reduce_area-Covers :
      Covers page_size array
        (new_reduce_area page_size type_size type array.base_addr (elements_from 1 array.dim) op)
  unfolding new_reduce_area
  new_reduce_area-Covers =
      let area : MemArea = record {
        addr = array.base_addr;
        size = bytes array.elem_len array.dim;
      } in
      let in_range : bytes array.elem_len array.dim % word ≡ bytes array.elem_len array.dim =
        mod-eq_of_lt (omega (arith, h.fits)) in
      let inner = λ (p : ℕ).
        memarea2innerpgrng_iff page_size pos area p
          (record { filled = span_filled; fits = h.fits; not_null = h.not_null }) in
      rw (span, in_range)
        (
          element_iff array h,
          λ p. (λ i. (page_iff p).0 ((inner p).0 i), λ e. (inner p).1 ((page_iff p).1 e)),
        )

-- A Fortran array given to a context as a reduce area, when its elements lie one after the other in
-- the address space, past the null address, and MPI's type of the array's type, if there is one,
-- has the elements' size. Either the assertion fails, and the array has no element; or the type is
-- refused, and has no MPI counterpart; or a reduce area is added as the last, whose bytes are exactly
-- the bytes of the array's elements and whose inner pages are exactly the pages that consist of such
-- bytes. The size of a page is positive.
pub section_reduced :
    (page_size : ℕ) (pos : 0 < page_size) (codes : TypeCodes) (type_size : ReduceType → ℕ)
    (ctx : FortranCtx) (array : Cdesc) (op : ReduceOp)
    → IsSection array
    → ((type : ReduceType)
        → ftype_2_mpi_type codes array.type ≡ some type
        → type_size type ≡ array.elem_len)
    → ((f_ctx_add_reduce_area page_size codes type_size ctx array op ≡ Added.failed_assertion)
        × ((x : ℕ) → IsElementByte array x → ⊥))
      ⊎ (((f_ctx_add_reduce_area page_size codes type_size ctx array op
              ≡ Added.unsupported_type array.type)
            × (ftype_2_mpi_type codes array.type ≡ none))
          ⊎ ((area : ReduceArea) × (f_ctx_add_reduce_area page_size codes type_size ctx array op
                ≡ Added.added (add_reduce_area area ctx))
              × Covers page_size array area))
unfolding f_ctx_add_reduce_area
section_reduced page_size pos codes type_size ctx array op h sized =
    elim (Bool-cases (ltb 0 (elements_from 1 array.dim))) [
      | inr empty ↦ inl (
        rw (f_ctx_add_reduce_area, empty) refl,
        no_element array h (omega (arith, ltb→le 0 _ empty)),
      )
      | inl filled ↦ elim (Option-cases (ftype_2_mpi_type codes array.type)) [
        | inl refused ↦ inr (inl (rw (f_ctx_add_reduce_area, filled, refused) refl, refused))
        | inr (type, found) ↦ inr (
            inr (
              new_reduce_area page_size type_size type array.base_addr (elements_from 1 array.dim)
                  op,
              rw (f_ctx_add_reduce_area, filled, found) refl,
              new_reduce_area-Covers page_size pos type_size array h type op (sized type found)
                  (ltb→lt 0 _ filled),
            ))
      ]
    ]
