-- ===== src/BigMpi.antt =====
-- src/simple_parallel/bigmpi.cc: collective calls with a `size_t` count, cut into calls whose count
-- is an `int`. The loops run on fuel and give `none` when it is used up.
pub mod Whole
pub mod Requests
pub mod Sync
mod Tests
use simple_parallel.Prelude.{
  ℕ, zero, suc, ◌+◌, ◌-◌, ◌*◌, ◌%◌, min, Bool, true, false, Option, none, some, ltb, ◌==◌,
  if◌then◌else◌, int_max, word, add64,
}
use simple_parallel.Mpi.{Mpi, World, Datatype, ReduceArgs, mpi_success}

unfoldable pub get_mpi_type_size : Mpi → Datatype → ℕ
get_mpi_type_size mpi Datatype.byte = 1
get_mpi_type_size mpi Datatype.double = 8
get_mpi_type_size mpi Datatype.int = 4
get_mpi_type_size mpi Datatype.float = 4
get_mpi_type_size mpi (Datatype.other t) = mpi.type_size (Datatype.other t)

-- `for (size_t sent = 0; sent < count; sent += int_max)`, with a call on the elements from `sent`
-- on, and a return at the first code that is not `MPI_SUCCESS`.
unfoldable pub chunk_loop : (ℕ → ℕ → World → ℕ × World) → ℕ → ℕ → ℕ → World → Option (ℕ × World)
chunk_loop call zero sent count w = none
chunk_loop call (suc fuel) sent count w = elim (ltb sent count) [
  | false ↦ some (mpi_success, w)
  | true ↦
      let (ret, w') = call sent (min int_max (count - sent)) w in
      elim (ret == mpi_success) [
        | true ↦ chunk_loop call fuel (add64 sent int_max) count w'
        | false ↦ some (ret, w')
      ]
]

unfoldable pub bcast : Mpi → ℕ → ℕ → ℕ → Datatype → ℕ → World → Option (ℕ × World)
bcast mpi fuel buffer count datatype root w =
    let elem_size = get_mpi_type_size mpi datatype in
    chunk_loop (λ sent n. mpi.bcast (buffer + sent * elem_size) n datatype root) fuel 0 count w

unfoldable pub all_reduce : Mpi → ℕ → ℕ → ℕ → Datatype → ℕ → World → Option (ℕ × World)
all_reduce mpi fuel recvbuf count datatype op w =
    let elem_size = get_mpi_type_size mpi datatype in
    chunk_loop (λ sent n. mpi.allreduce_in_place (recvbuf + sent * elem_size) n datatype op) fuel 0
      count w

-- The root reduces in place, every other rank only sends.
abbrev pub reduce_args : ℕ → ℕ → ℕ → ReduceArgs
reduce_args root_rank this_iter_buffer my_rank =
    if my_rank == root_rank
    then ReduceArgs.in_place this_iter_buffer
    else ReduceArgs.send this_iter_buffer

unfoldable pub reduce : Mpi → ℕ → ℕ → ℕ → Datatype → ℕ → ℕ → World → Option (ℕ × World)
reduce mpi fuel buffer count datatype op root_rank w =
    let elem_size = get_mpi_type_size mpi datatype in
    chunk_loop
      (λ sent n.
        mpi.reduce (reduce_args root_rank (buffer + sent * elem_size)) n datatype op root_rank)
      fuel 0 count w
