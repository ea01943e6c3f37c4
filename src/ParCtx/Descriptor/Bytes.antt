-- ===== src/ParCtx/Descriptor/Bytes.antt =====
-- The bytes of an array's elements, and those of the reduce area that its descriptor gives.
use native.Mathlib.Nat.{
  mod-lt, div-add-mod', div-lt_iff_lt-mul, mul-le-mul_right, mul_comm, mul_right_comm,
}
use simple_parallel.Prelude.{
  ℕ, zero, suc, ◌+◌, ◌-◌, ◌*◌, ◌%◌, ◌/◌, ◌≤◌, ◌<◌, ◌≡◌, ◌↔◌, refl, ◌∙◌, ap, List, [], ◌∷◌, arith,
  word,
}
use simple_parallel.ParCtx.Descriptor.{Dim, elements_from}

-- An index for each dimension, within its extent.
abbrev pub WithinExtents : List Dim → List ℕ → Type 0
WithinExtents [] [] = Unit
WithinExtents [] (i ∷ is) = ⊥
WithinExtents (d ∷ ds) [] = ⊥
WithinExtents (d ∷ ds) (i ∷ is) = (i < d.extent) × WithinExtents ds is

-- Where the element with these indices starts, after the array's address.
abbrev pub offset : List Dim → List ℕ → ℕ
offset (d ∷ ds) (i ∷ is) = i * d.sm + offset ds is
offset _ _ = 0

-- Byte `y` after an address is one of the `size` bytes of an element.
abbrev pub OfElement : ℕ → List Dim → ℕ → Type 0
OfElement size ds y =
    (is : List ℕ) × WithinExtents ds is × (offset ds is ≤ y) × (y < offset ds is + size)

-- Each dimension follows the one before without a gap.
abbrev pub IsContiguous : ℕ → List Dim → Type 0
IsContiguous size [] = Unit
IsContiguous size (d ∷ ds) = (d.sm ≡ size) × IsContiguous (size * d.extent) ds

-- The bytes of all elements of `size` bytes.
abbrev pub bytes : ℕ → List Dim → ℕ
bytes size [] = size
bytes size (d ∷ ds) = bytes (size * d.extent) ds

within_bytes :
    (size : ℕ) (ds : List Dim) (is : List ℕ)
    → IsContiguous size ds
    → WithinExtents ds is
    → offset ds is + size ≤ bytes size ds
within_bytes size [] [] h w = omega arith
within_bytes size [] (i ∷ is) h w = absurd w
within_bytes size (d ∷ ds) [] h w = absurd w
within_bytes size (d ∷ ds) (i ∷ is) h w =
    let rest = within_bytes (size * d.extent) ds is h.1 w.1 in
    let row : (i + 1) * size ≤ d.extent * size = mul-le-mul_right size (omega (arith, w.0)) in
    rw h.0 (omega (arith, rest, row, mul_comm size d.extent))

-- The row of a byte, in rows of `size` bytes.
row_of :
    (size extent r : ℕ)
    → r < size * extent
    → (r / size < extent) × (r / size * size ≤ r) × (r < r / size * size + size)
row_of size extent r lt =
    let pos : 0 < size = positive size lt in
    (
      (div-lt_iff_lt-mul pos).1 (omega (arith, lt, mul_comm size extent)),
      omega (arith, div-add-mod' r size),
      omega (arith, div-add-mod' r size, mod-lt r pos),
    )
  where
    positive : (size : ℕ) → r < size * extent → 0 < size
    positive zero h = omega (arith, h)
    positive (suc n) h = omega arith

covered :
    (size : ℕ) (ds : List Dim) (y : ℕ)
    → IsContiguous size ds
    → y < bytes size ds
    → OfElement size ds y
covered size [] y h lt = ([], tt, omega arith, omega (arith, lt))
covered size (d ∷ ds) y h lt =
    let (is, w, lo, hi) = covered (size * d.extent) ds y h.1 lt in
    let (inside, from, to) = row_of size d.extent (y - offset ds is) (omega (arith, lo, hi)) in
    (
      (y - offset ds is) / size ∷ is,
      (inside, w),
      rw h.0 (omega (arith, from, lo)),
      rw h.0 (omega (arith, to, lo)),
    )

pub bytes_iff :
    (size : ℕ) (ds : List Dim) (y : ℕ)
    → IsContiguous size ds
    → (y < bytes size ds) ↔ OfElement size ds y
bytes_iff size ds y h = (
  covered size ds y h,
  λ e. let (is, w, lo, hi) = e in omega (arith, within_bytes size ds is h w, hi),
)

mul-mod_lem : (a b : ℕ) → (a % word * b) % word ≡ (a * b) % word
mul-mod_lem a zero = omega arith
mul-mod_lem a (suc b) = omega (arith, mul-mod_lem a b)

-- The number of elements, on a word.
pub elements_lem : (n : ℕ) (ds : List Dim) → elements_from (n % word) ds ≡ bytes n ds % word
unfolding elements_from
elements_lem n [] = refl
elements_lem n (d ∷ ds) =
    ap (λ k. elements_from k ds) (mul-mod_lem n d.extent) ∙ elements_lem (n * d.extent) ds

pub bytes_mul : (n size : ℕ) (ds : List Dim) → bytes (n * size) ds ≡ bytes n ds * size
bytes_mul n size [] = refl
bytes_mul n size (d ∷ ds) =
    ap (λ k. bytes k ds) (mul_right_comm n size d.extent) ∙ bytes_mul (n * d.extent) size ds
