-- ===== src/ParCtx/Reduce/Keeps.antt =====
-- A value that no worker changed does not change the result of a reduce.
use simple_parallel.Prelude.{
  ℕ, ◌<◌, ◌≡◌, ◌≢◌, refl, ◌∙◌, Bool, true, false, none, some, ◌⊎◌, inl, inr, Option-cases, subst,
}
use simple_parallel.Types.{ReduceType, ReduceOp}
use simple_parallel.Mpi.{Combine}
use simple_parallel.ParCtx.Reduce.{
  is_zero_init_when_sum, zero_identity, c_bool_identity, is_c_bool, identity,
}

-- Where all ranks but the root have a byte throughout an element, and the root's bytes are below a
-- bound, the result is the root's value.
abbrev pub Keeps : Combine → ℕ → ℕ → ℕ → ℕ → Type 0
Keeps comb size root bound value =
    (values : ℕ → ℕ → ℕ)
    → ((j : ℕ) → values root j < bound)
    → ((q j : ℕ) → q ≢ root → j < size → values q j ≡ value)
    → (j : ℕ) → j < size
    → comb values j ≡ values root j

-- The types of whole numbers.
abbrev pub IsInteger : ReduceType → Type 0
IsInteger ReduceType.float = ⊥
IsInteger ReduceType.double = ⊥
IsInteger ReduceType.long_double = ⊥
IsInteger ReduceType.c_bool = ⊥
IsInteger (ReduceType.other t) = ⊥
IsInteger _ = Unit

-- What MPI documents of three operations on an element, in bytes: a sum of whole numbers with zeros, a
-- conjunction of a C bool with true, the byte 1, and a disjunction of one with false, the byte 0.
pub record OpDocumented (comb : Combine) (size root : ℕ) (type : ReduceType) (op : ReduceOp)
    : Type 0 where
  pub sum_zeros : op ≡ ReduceOp.sum → IsInteger type → Keeps comb size root 256 0
  pub land_true : op ≡ ReduceOp.land → type ≡ ReduceType.c_bool → Keeps comb size root 2 1
  pub lor_false : op ≡ ReduceOp.lor → type ≡ ReduceType.c_bool → Keeps comb size root 2 0

-- The bytes that values of the type have: a C bool is 0 or 1.
abbrev pub bytes_below : ReduceType → ℕ
bytes_below ReduceType.c_bool = 2
bytes_below _ = 256

c_bool-Keeps :
    (comb : Combine) (size root : ℕ) (op : ReduceOp) (value : ℕ)
    → OpDocumented comb size root ReduceType.c_bool op
    → identity ReduceType.c_bool op ≡ some value
    → Keeps comb size root 2 value
unfolding identity is_zero_init_when_sum zero_identity c_bool_identity is_c_bool
c_bool-Keeps comb size root ReduceOp.land value d e =
    let same : 1 ≡ value = cc in subst (Keeps comb size root 2) same (d.land_true refl refl)
c_bool-Keeps comb size root ReduceOp.lor value d e =
    let same : 0 ≡ value = cc in subst (Keeps comb size root 2) same (d.lor_false refl refl)
c_bool-Keeps comb size root ReduceOp.op_null value d e = absurd (cc)
c_bool-Keeps comb size root ReduceOp.max value d e = absurd (cc)
c_bool-Keeps comb size root ReduceOp.min value d e = absurd (cc)
c_bool-Keeps comb size root ReduceOp.sum value d e = absurd (cc)
c_bool-Keeps comb size root ReduceOp.prod value d e = absurd (cc)
c_bool-Keeps comb size root ReduceOp.band value d e = absurd (cc)
c_bool-Keeps comb size root ReduceOp.bor value d e = absurd (cc)
c_bool-Keeps comb size root ReduceOp.lxor value d e = absurd (cc)
c_bool-Keeps comb size root ReduceOp.bxor value d e = absurd (cc)
c_bool-Keeps comb size root ReduceOp.minloc value d e = absurd (cc)
c_bool-Keeps comb size root ReduceOp.maxloc value d e = absurd (cc)
c_bool-Keeps comb size root ReduceOp.replace value d e = absurd (cc)
c_bool-Keeps comb size root (ReduceOp.user n) value d e = absurd (cc)

-- Only sums start from zero bytes.
zero_of_sum :
    (is_zero_init : Bool) (op : ReduceOp) (value : ℕ)
    → zero_identity is_zero_init op ≡ some value
    → (op ≡ ReduceOp.sum) × (0 ≡ value)
unfolding zero_identity
zero_of_sum true ReduceOp.sum value e = (refl, cc)
zero_of_sum false ReduceOp.sum value e = absurd (cc)
zero_of_sum z ReduceOp.op_null value e = absurd (cc)
zero_of_sum z ReduceOp.max value e = absurd (cc)
zero_of_sum z ReduceOp.min value e = absurd (cc)
zero_of_sum z ReduceOp.prod value e = absurd (cc)
zero_of_sum z ReduceOp.land value e = absurd (cc)
zero_of_sum z ReduceOp.band value e = absurd (cc)
zero_of_sum z ReduceOp.lor value e = absurd (cc)
zero_of_sum z ReduceOp.bor value e = absurd (cc)
zero_of_sum z ReduceOp.lxor value e = absurd (cc)
zero_of_sum z ReduceOp.bxor value e = absurd (cc)
zero_of_sum z ReduceOp.minloc value e = absurd (cc)
zero_of_sum z ReduceOp.maxloc value e = absurd (cc)
zero_of_sum z ReduceOp.replace value e = absurd (cc)
zero_of_sum z (ReduceOp.user n) value e = absurd (cc)

integer-Keeps :
    (comb : Combine) (size root : ℕ) (type : ReduceType) (op : ReduceOp) (value : ℕ)
    → IsInteger type
    → is_c_bool type ≡ false
    → OpDocumented comb size root type op
    → identity type op ≡ some value
    → Keeps comb size root 256 value
unfolding identity
integer-Keeps comb size root type op value integer other d e =
    elim (Option-cases (zero_identity (is_zero_init_when_sum type) op)) [
      | inl not_zero ↦
          let wrong : none ≡ some value = rw (identity, not_zero, other) at e in absurd (cc)
      | inr (v, found) ↦
          let same : some v ≡ some value = rw (identity, found) at e in
          let at : v ≡ value = cc in
          let (sum, zeros) = zero_of_sum (is_zero_init_when_sum type) op v found in
          subst (Keeps comb size root 256) (zeros ∙ at) (d.sum_zeros sum integer)
    ]

integer_bytes :
    (type : ReduceType) → IsInteger type → (bytes_below type ≡ 256) × (is_c_bool type ≡ false)
unfolding is_c_bool
integer_bytes ReduceType.short h = (refl, refl)
integer_bytes ReduceType.int h = (refl, refl)
integer_bytes ReduceType.long h = (refl, refl)
integer_bytes ReduceType.unsigned_long h = (refl, refl)
integer_bytes ReduceType.long_long_int h = (refl, refl)
integer_bytes ReduceType.long_long h = (refl, refl)
integer_bytes ReduceType.int8 h = (refl, refl)
integer_bytes ReduceType.int16 h = (refl, refl)
integer_bytes ReduceType.int32 h = (refl, refl)
integer_bytes ReduceType.int64 h = (refl, refl)
integer_bytes ReduceType.uint8 h = (refl, refl)
integer_bytes ReduceType.uint16 h = (refl, refl)
integer_bytes ReduceType.uint32 h = (refl, refl)
integer_bytes ReduceType.uint64 h = (refl, refl)
integer_bytes ReduceType.float h = absurd h
integer_bytes ReduceType.double h = absurd h
integer_bytes ReduceType.long_double h = absurd h
integer_bytes ReduceType.c_bool h = absurd h
integer_bytes (ReduceType.other t) h = absurd h

-- The sums of the type are exact, or it is a C bool.
abbrev pub IsExact : ReduceType → Type 0
IsExact type = IsInteger type ⊎ (type ≡ ReduceType.c_bool)

pub identity-Keeps :
    (comb : Combine) (size root : ℕ) (type : ReduceType) (op : ReduceOp) (value : ℕ)
    → IsExact type
    → OpDocumented comb size root type op
    → identity type op ≡ some value
    → Keeps comb size root (bytes_below type) value
identity-Keeps comb size root type op value (inl integer) d e =
    let (bytes, other) = integer_bytes type integer in
    rw bytes (integer-Keeps comb size root type op value integer other d e)
identity-Keeps comb size root type op value (inr c_bool) d e =
    rw c_bool (c_bool-Keeps comb size root op value (rw c_bool at d) (rw c_bool at e))
