-- ===== src/ParCtx/Reduce/Untouched.antt =====
-- The reduce of an area that no worker changed.
use native.Mathlib.Nat.{mod-lt, div-add-mod', div-lt_iff_lt-mul, mul-le-mul_right, mod-mod, mod-le}
use simple_parallel.Prelude.{
  ℕ, suc, ◌+◌, ◌-◌, ◌*◌, ◌%◌, ◌/◌, ◌≤◌, ◌<◌, ◌≡◌, ◌≢◌, refl, ◌∙◌, sym, ap, ◌&&◌, some, leb, ltb,
  ◌==◌, arith, Bool-cases, inl, inr, int_max, word,
}
use simple_parallel.Types.{MemArea, ReduceArea}
use simple_parallel.Mpi.{
  IsGapless, Mpi, MpiDocumented, World, Combine, Datatype, elementwise, mpi_success,
}
use simple_parallel.BigMpi.{reduce}
use simple_parallel.BigMpi.Whole.{reduce_whole}
use simple_parallel.Heap.ZeroPage.{Bytes}
use simple_parallel.ParCtx.{mem_area}
use simple_parallel.ParCtx.Overlap.{IsByte}
use simple_parallel.ParCtx.Reduce.{identity, memset, initialised, init_reduce_area_on_worker}
use simple_parallel.ParCtx.Reduce.Keeps.{IsExact, OpDocumented, bytes_below, identity-Keeps}

initialised_lem :
    (r : ReduceArea) (value : ℕ) (mem mem' : Bytes)
    → identity r.type r.op ≡ some value
    → init_reduce_area_on_worker r mem ≡ initialised mem'
    → memset (mem_area r) value mem ≡ mem'
unfolding init_reduce_area_on_worker
initialised_lem r value mem mem' e h =
    let there : initialised (memset (mem_area r) value mem) ≡ initialised mem' =
      rw (init_reduce_area_on_worker, e) at h in
    cc

memset_at :
    (area : MemArea) (value : ℕ) (mem : Bytes) (x : ℕ)
    → area.addr ≤ x
    → x < area.addr + area.size
    → memset area value mem x ≡ value
memset_at area value mem x le lt = ground arith

-- Every byte of the element that a byte of an area belongs to is in the area.
element_within :
    (size buf count x j : ℕ)
    → 0 < size
    → buf ≤ x
    → x < buf + count * size
    → (buf ≤ x - (x - buf) % size + j % size)
      × (x - (x - buf) % size + j % size < buf + count * size)
element_within size buf count x j pos le lt =
    let d = (x - buf) / size in
    let split : d * size + (x - buf) % size ≡ x - buf = div-add-mod' (x - buf) size in
    let fewer : d < count =
      (div-lt_iff_lt-mul {k = size} {x = x - buf} {y = count} pos).1 (omega arith) in
    let fits : (d + 1) * size ≤ count * size =
      omega (arith, mul-le-mul_right {m = suc d} {n = count} size fewer) in
    let low = mod-lt j pos in (omega (arith, split), omega (arith, split, fits, low))

start_of :
    (size buf x : ℕ) → 0 < size → buf ≤ x → x - (x - buf) % size + (x - buf) % size % size ≡ x
start_of size buf x pos le = omega (arith, mod-mod (x - buf) size, mod-le (x - buf) size)

module _ {mpi : Mpi} {op_combine : ℕ → Datatype → Combine}
    (doc : MpiDocumented mpi op_combine) where
  -- On workers that took the initial value of a reduce area and left it, the reduce of the area succeeds
  -- and leaves all memory as it was, the leader's too, where the code supports the type with the
  -- operation, the type is one of whole numbers, or C bool with bytes 0 and 1 on the leader, and MPI
  -- combines zeros, true and false as it documents: for a type without gaps that is not empty, of the
  -- size that MPI gives, a count below 2^64 less the largest int and fuel for one round more than the
  -- count has full chunks, rounded up.
  pub untouched_reduce :
      (op : ℕ) (t : Datatype) (r : ReduceArea) (root value fuel : ℕ) (w w' : World)
      → identity r.type r.op ≡ some value
      → IsExact r.type
      → OpDocumented (op_combine op t) r.sizeof_type root r.type r.op
      → IsGapless mpi t
      → mpi.type_size t ≡ r.sizeof_type
      → 0 < r.sizeof_type
      → r.count + int_max < word
      → r.count ≤ fuel * int_max
      → ((x : ℕ) → IsByte r x → w' root x < bytes_below r.type)
      → ((k : ℕ) → k ≢ root → init_reduce_area_on_worker r (w k) ≡ initialised (w' k))
      → (w'' : World) × (reduce mpi (suc fuel) r.begin r.count t op root w'
          ≡ some (mpi_success, w''))
        × ((k x : ℕ) → w'' k x ≡ w' k x)
  unfolding mem_area
  untouched_reduce op t r root value fuel w w' e exact documented gapless size pos small enough
        bytes started =
      (
        elementwise (mpi.type_size t) (λ k. k == root) (op_combine op t) r.begin r.count w',
        reduce_whole doc fuel r.begin r.count t w' (rw size pos) gapless small enough op root,
        λ k x.
            elim (Bool-cases
              ((k == root) && leb r.begin x && ltb x (r.begin + r.count * r.sizeof_type))) [
                | inr beyond ↦ rw (size, beyond) refl
                | inl within ↦
                    let m = (x - r.begin) % r.sizeof_type in
                    let same : k ≡ root = ground (arith, within) in
                    let le : r.begin ≤ x = ground (arith, within) in
                    let lt : x < r.begin + r.count * r.sizeof_type = ground (arith, within) in
                    let ident =
                      identity-Keeps (op_combine op t) r.sizeof_type root r.type r.op value exact
                        documented e in
                    let start = start_of r.sizeof_type r.begin x pos le in
                    rw (size, within)
                      (ident (λ q j. w' q (x - m + j % r.sizeof_type))
                          (λ j.
                            bytes _ (element_within r.sizeof_type r.begin r.count x j pos le lt))
                          (λ q j other jl.
                            let y = x - m + j % r.sizeof_type in
                            let (low, high) =
                              element_within r.sizeof_type r.begin r.count x j pos le lt in
                            let set : memset (mem_area r) value (w q) ≡ w' q =
                              initialised_lem r value (w q) (w' q) e (started q other) in
                            sym (ap (λ f. f y) set) ∙ memset_at (mem_area r) value (w q) y low high)
                          m (mod-lt (x - r.begin) pos)
                        ∙ rw (start, same) refl)
              ],
      )
