-- ===== src/BigMpi/Whole.antt =====
-- The calls that the chunked loops make add up to one call on all elements.
use simple_parallel.Prelude.{
  ℕ, zero, suc, ◌+◌, ◌-◌, ◌*◌, ◌%◌, ◌≤◌, ◌<◌, min, ◌≡◌, ◌≢◌, refl, sym, ap, ◌∙◌, ap₂, fun_ext, Bool,
  true, false, some, ltb, leb, ◌==◌, ◌&&◌, int_max, word, add64_lem, arith, Bool-cases, inl, inr,
  ltb→lt, ltb→le, le→ltb,
}
use native.Mathlib.Nat.{add-mul-mod_self_right}
use simple_parallel.Mpi.{
  IsGapless, IsGapless, Mpi, MpiDocumented, World, Combine, Datatype, mpi_success, elementwise,
  from_root, everybody,
}
use simple_parallel.BigMpi.{get_mpi_type_size, chunk_loop, bcast, all_reduce, reduce_args, reduce}

type_size_known :
    {mpi : Mpi} {oc : ℕ → Datatype → Combine}
    → MpiDocumented mpi oc
    → (t : Datatype) → get_mpi_type_size mpi t ≡ mpi.type_size t
unfolding get_mpi_type_size
type_size_known doc Datatype.byte = sym doc.byte_size
type_size_known doc Datatype.double = sym doc.double_size
type_size_known doc Datatype.int = sym doc.int_size
type_size_known doc Datatype.float = sym doc.float_size
type_size_known doc (Datatype.other t) = refl

outside :
    (size : ℕ) (targets : ℕ → Bool) (comb : Combine) (buf n : ℕ) (w : World) (r x : ℕ)
    → (targets r && leb buf x && ltb x (buf + n * size)) ≡ false
    → elementwise size targets comb buf n w r x ≡ w r x
outside size targets comb buf n w r x h = rw h

inside :
    (size : ℕ) (targets : ℕ → Bool) (comb : Combine) (buf n : ℕ) (w : World) (r x : ℕ)
    → (targets r && leb buf x && ltb x (buf + n * size)) ≡ true
    → elementwise size targets comb buf n w r x
      ≡ comb (λ q j. w q (x - (x - buf) % size + j % size)) ((x - buf) % size)
inside size targets comb buf n w r x h = rw h

mod_shift :
    (size buf m x : ℕ) → buf + m * size ≤ x → (x - (buf + m * size)) % size ≡ (x - buf) % size
mod_shift size buf m x le =
    let split : x - buf ≡ x - (buf + m * size) + m * size = omega arith in
    sym (ap (λ k. k % size) split ∙ add-mul-mod_self_right (x - (buf + m * size)) m size)

start_le :
    (size buf m x : ℕ) → 0 < size → buf + m * size ≤ x → buf + m * size ≤ x - (x - buf) % size
start_le size buf m x h le = grind arith

values_kept :
    (size : ℕ) (targets : ℕ → Bool) (comb : Combine) (buf m : ℕ) (w : World) (x q j : ℕ)
    → 0 < size
    → buf + m * size ≤ x
    → elementwise size targets comb buf m w q (x - (x - (buf + m * size)) % size + j % size)
      ≡ w q (x - (x - buf) % size + j % size)
values_kept size targets comb buf m w x q j h le =
    let s = start_le size buf m x h le in
    let y = x - (x - buf) % size + j % size in
    ap (λ k. elementwise size targets comb buf m w q (x - k + j % size)) (mod_shift size buf m x le)
    ∙ outside size targets comb buf m w q y
        (misses (targets q) (leb buf y) (le→ltb _ _ (omega arith)))
  where
    misses : (a b : Bool) {c : Bool} → c ≡ false → (a && b && c) ≡ false
    misses true true e = e
    misses true false e = refl
    misses false b e = refl

second_inside :
    (size : ℕ) (targets : ℕ → Bool) (comb : Combine) (buf m n : ℕ) (w : World) (r x : ℕ)
    → 0 < size
    → buf + m * size ≤ x
    → (targets r && leb (buf + m * size) x && ltb x (buf + m * size + n * size)) ≡ true
    → elementwise size targets comb (buf + m * size) n (elementwise size targets comb buf m w) r x
      ≡ comb (λ q j. w q (x - (x - buf) % size + j % size)) ((x - buf) % size)
second_inside size targets comb buf m n w r x h le hit =
    inside size targets comb (buf + m * size) n (elementwise size targets comb buf m w) r x hit
    ∙ ap₂ comb (fun_ext λ q. fun_ext λ j. values_kept size targets comb buf m w x q j h le)
        (mod_shift size buf m x le)

-- Two calls on neighbouring elements do what one call on all of them does.
elementwise_split :
    (size : ℕ) (targets : ℕ → Bool) (comb : Combine) (buf m n : ℕ) (w : World) (r x : ℕ)
    → 0 < size
    → elementwise size targets comb (buf + m * size) n (elementwise size targets comb buf m w) r x
      ≡ elementwise size targets comb buf (m + n) w r x
elementwise_split size targets comb buf m n w r x h =
    elim (Bool-cases (targets r && leb (buf + m * size) x && ltb x (buf + m * size + n * size))) [
      | inl second ↦
          second_inside size targets comb buf m n w r x h (ground arith) second
          ∙ sym (inside size targets comb buf (m + n) w r x (grind arith))
      | inr not_second ↦
          outside size targets comb (buf + m * size) n (elementwise size targets comb buf m w) r x
            not_second
          ∙ (elim (Bool-cases (targets r && leb buf x && ltb x (buf + m * size))) [
            | inl first ↦
                inside size targets comb buf m w r x first
                ∙ sym (inside size targets comb buf (m + n) w r x (grind arith))
            | inr neither ↦
                outside size targets comb buf m w r x neither
                ∙ sym (outside size targets comb buf (m + n) w r x (grind arith))
          ])
    ]

pub elementwise_none :
    (size : ℕ) (targets : ℕ → Bool) (comb : Combine) (buf : ℕ) (w : World)
    → elementwise size targets comb buf 0 w ≡ w
elementwise_none size targets comb buf w =
    fun_ext λ r. fun_ext λ x. outside size targets comb buf 0 w r x (ground arith)

module _ (call : ℕ → ℕ → World → ℕ × World) (fuel sent count : ℕ) (w : World) where
  chunk_done : count ≤ sent → chunk_loop call (suc fuel) sent count w ≡ some (mpi_success, w)
  unfolding chunk_loop
  chunk_done h = ground arith

  module _ (small : count + int_max < word) (lt : sent < count) where
    chunk_more :
        {w' : World}
        → call sent (min int_max (count - sent)) w ≡ (mpi_success, w')
        → chunk_loop call (suc fuel) sent count w ≡ chunk_loop call fuel (sent + int_max) count w'
    unfolding chunk_loop
    chunk_more {w'} e = ground (arith, add64_lem sent int_max (omega arith))

    -- The first call that fails ends the loop with its code.
    pub chunk_fails :
        {ret : ℕ} {w' : World}
        → call sent (min int_max (count - sent)) w ≡ (ret, w')
        → ret ≢ mpi_success
        → chunk_loop call (suc fuel) sent count w ≡ some (ret, w')
    unfolding chunk_loop
    chunk_fails {ret} {w'} e ne = ground arith

-- The elements from `sent` on, as the loop still has to do them.
module _ (size : ℕ) (targets : ℕ → Bool) (comb : Combine) (buf : ℕ) (pos : 0 < size) where
  abbrev pub rest : ℕ → ℕ → World → World
  rest sent count w = elementwise size targets comb (buf + sent * size) (count - sent) w

  pub rest_step :
      (sent count : ℕ) (w : World)
      → sent < count
      → rest
          (sent + int_max)
          count
          (elementwise size targets comb (buf + sent * size) (min int_max (count - sent)) w)
        ≡ rest sent count w
  rest_step sent count w lt = elim (Bool-cases (ltb count (sent + int_max))) [
    | inl last ↦
        let none_left : count - (sent + int_max) ≡ 0 = ground arith in
        let all : min int_max (count - sent) ≡ count - sent = ground arith in
        rw (none_left, all) (elementwise_none size targets comb (buf + (sent + int_max) * size) _)
    | inr more ↦
        let full : min int_max (count - sent) ≡ int_max = ground arith in
        let sum : int_max + (count - (sent + int_max)) ≡ count - sent = ground arith in
        let place : buf + (sent + int_max) * size ≡ buf + sent * size + int_max * size =
          omega arith in
        rw (full, place, ← sum)
          (fun_ext λ r. fun_ext λ x.
            elementwise_split size targets comb (buf + sent * size) int_max
              (count - (sent + int_max)) w r x pos)
  ]

  module _ (call : ℕ → ℕ → World → ℕ × World)
      (documented : (sent n : ℕ) (w : World)
        → call sent n w
          ≡ (mpi_success, elementwise size targets comb (buf + sent * size) n w)) where
    loop_whole :
        (fuel sent count : ℕ) (w : World)
        → count + int_max < word
        → count - sent ≤ fuel * int_max
        → chunk_loop call (suc fuel) sent count w ≡ some (mpi_success, rest sent count w)
    loop_whole zero sent count w small enough =
        let over : count ≤ sent = omega arith in
        let none_left : count - sent ≡ 0 = omega arith in
        chunk_done call zero sent count w over
        ∙ sym (
            rw none_left (ap (λ v. some (mpi_success, v)) (elementwise_none size targets comb _ w)))
    loop_whole (suc fuel) sent count w small enough = elim (Bool-cases (ltb sent count)) [
      | inr over ↦
          let none_left : count - sent ≡ 0 = ground arith in
          chunk_done call (suc fuel) sent count w (ltb→le _ _ over)
          ∙ sym (
              rw none_left
                (ap (λ v. some (mpi_success, v)) (elementwise_none size targets comb _ w)))
      | inl more ↦
          let lt = ltb→lt sent count more in
          chunk_more call (suc fuel) sent count w small lt (documented sent _ w)
          ∙ loop_whole fuel (sent + int_max) count _ small (omega arith)
          ∙ ap (λ v. some (mpi_success, v)) (rest_step sent count w lt)
    ]

-- The loop from the first element on, for a datatype whose size the program gets right.
from_start :
    (size size' : ℕ) (targets : ℕ → Bool) (comb : Combine) (buf : ℕ)
    (call : ℕ → ℕ → World → ℕ × World) (fuel count : ℕ) (w : World)
    → size' ≡ size
    → 0 < size
    → ((at n : ℕ) (v : World) → call at n v ≡ (mpi_success, elementwise size targets comb at n v))
    → count + int_max < word
    → count ≤ fuel * int_max
    → chunk_loop (λ sent n. call (buf + sent * size') n) (suc fuel) 0 count w
      ≡ some (mpi_success, elementwise size targets comb buf count w)
from_start size size' targets comb buf call fuel count w e pos doc small enough =
    let first : buf + 0 * size ≡ buf = omega arith in
    let all : count - 0 ≡ count = omega arith in
    rw e (
      loop_whole size targets comb buf pos (λ (sent n : ℕ). call (buf + sent * size) n)
        (λ sent n v. doc (buf + sent * size) n v) fuel 0 count w small (omega arith)
      ∙ rw (first, all))

module _ {mpi : Mpi} {op_combine : ℕ → Datatype → Combine} (doc : MpiDocumented mpi op_combine)
    (fuel buf count : ℕ) (t : Datatype) (w : World) (pos : 0 < mpi.type_size t)
    (gapless : IsGapless mpi t) (small : count + int_max < word)
    (enough : count ≤ fuel * int_max) where
  -- Where MPI reports no error, the chunked broadcast of `count` elements gives what one broadcast
  -- of all of them would: every rank's bytes of the buffer become the root's and no other byte
  -- changes, for a datatype that is not empty, a count below 2^64 less the largest int, and fuel
  -- for one round more than the count has full chunks, rounded up.
  pub bcast_whole :
      (root : ℕ)
      → bcast mpi (suc fuel) buf count t root w
        ≡ some (mpi_success, elementwise (mpi.type_size t) everybody (from_root root) buf count w)
  unfolding bcast
  bcast_whole root =
      from_start (mpi.type_size t) (get_mpi_type_size mpi t) everybody (from_root root) buf
        (λ at n. mpi.bcast at n t root) fuel count w (type_size_known doc t) pos
        (λ at n v. doc.bcast_lem at n t root v gapless) small enough

  -- Likewise the chunked all-reduce: on every rank, every element of the buffer becomes the
  -- combination of the ranks' values of that element, and no other byte changes.
  pub all_reduce_whole :
      (op : ℕ)
      → all_reduce mpi (suc fuel) buf count t op w
        ≡ some (mpi_success, elementwise (mpi.type_size t) everybody (op_combine op t) buf count w)
  unfolding all_reduce
  all_reduce_whole op =
      from_start (mpi.type_size t) (get_mpi_type_size mpi t) everybody (op_combine op t) buf
        (λ at n. mpi.allreduce_in_place at n t op) fuel count w (type_size_known doc t) pos
        (λ at n v. doc.allreduce_lem at n t op v gapless) small enough

  -- Likewise the chunked reduce: on the root alone, every element of the buffer becomes the
  -- combination of the ranks' values of that element, and no other byte changes.
  pub reduce_whole :
      (op root : ℕ)
      → reduce mpi (suc fuel) buf count t op root w
        ≡ some (
          mpi_success,
          elementwise (mpi.type_size t) (λ r. r == root) (op_combine op t) buf count w,
        )
  unfolding reduce
  reduce_whole op root =
      from_start (mpi.type_size t) (get_mpi_type_size mpi t) (λ r. r == root) (op_combine op t) buf
        (λ at n. mpi.reduce (reduce_args root at) n t op root) fuel count w (type_size_known doc t)
        pos
        (λ at n v.
          doc.reduce_lem (reduce_args root at) at n t op root v gapless (ground arith)
            (λ r ne. ground arith))
        small enough

  -- Where MPI reports no error, each chunked call ends with success and gives what one call on all
  -- elements would: the broadcast makes every rank's bytes of the buffer the root's; the all-reduce
  -- makes every element of the buffer, on every rank, the combination of the ranks' values of that
  -- element; the reduce does so on the root alone; and no other byte changes. The datatype is not
  -- empty and has no gap between two elements, the count is below 2^64 less the largest int, and there is fuel for one round more than
  -- the count has full chunks, rounded up.
  pub calls_whole :
      (op root : ℕ)
      → (bcast mpi (suc fuel) buf count t root w
          ≡ some
              (mpi_success, elementwise (mpi.type_size t) everybody (from_root root) buf count w))
        × (all_reduce mpi (suc fuel) buf count t op w
            ≡ some (
              mpi_success,
              elementwise (mpi.type_size t) everybody (op_combine op t) buf count w,
            ))
        × (reduce mpi (suc fuel) buf count t op root w
            ≡ some (
              mpi_success,
              elementwise (mpi.type_size t) (λ r. r == root) (op_combine op t) buf count w,
            ))
  calls_whole op root = (bcast_whole root, all_reduce_whole op, reduce_whole op root)
