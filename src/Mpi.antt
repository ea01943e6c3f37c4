-- ===== src/Mpi.antt =====
-- What the program uses of MPI: the memory of the ranks, the datatypes, and the calls as parameters
-- with the effect that the MPI standard documents.
pub mod TwoRanks
use simple_parallel.Prelude.{
  ℕ, ◌+◌, ◌-◌, ◌*◌, ◌%◌, ◌≡◌, ◌≢◌, Bool, ◌&&◌, ltb, leb, ◌==◌, if◌then◌else◌,
}

-- The bytes of every rank's address space, by rank and address.
abbrev pub World : Type 0
World = ℕ → ℕ → ℕ

-- `MPI_Datatype`: the four that `get_mpi_type_size` knows, and all others.
pub data Datatype : Type 0 where
  byte double int float : Datatype
  other : ℕ → Datatype

-- `MPI_SUCCESS`
abbrev pub mpi_success : ℕ
mpi_success = 0

-- How a collective call combines the values that the ranks have of one element: a value is a
-- function from the position in the element to the byte there.
abbrev pub Combine : Type 0
Combine = (ℕ → ℕ → ℕ) → ℕ → ℕ

-- The effect of a collective call that works element by element on `count` elements of `size`
-- bytes at `buf`, the same address on every rank: each target rank gets the combined values.
abbrev pub elementwise : ℕ → (ℕ → Bool) → Combine → ℕ → ℕ → World → World
elementwise size targets comb buf count w r x =
    if targets r && leb buf x && ltb x (buf + count * size)
    then comb (λ q j. w q (x - (x - buf) % size + j % size)) ((x - buf) % size)
    else w r x

-- A broadcast: everybody gets the root's value.
abbrev pub from_root : ℕ → Combine
from_root root values = values root

abbrev pub everybody : ℕ → Bool
everybody r = r == r

-- What a rank hands to `MPI_Reduce` for its send and receive buffers.
pub data ReduceArgs : Type 0 where
  in_place : ℕ → ReduceArgs
  send : ℕ → ReduceArgs

-- The calls, each for all ranks at once: the return code and the memory after it.
pub record Mpi : Type 0 where
  pub type_size : Datatype → ℕ
  -- the distance of two elements that follow one another
  pub type_extent : Datatype → ℕ
  pub bcast : ℕ → ℕ → Datatype → ℕ → World → ℕ × World
  pub allreduce_in_place : ℕ → ℕ → Datatype → ℕ → World → ℕ × World
  pub reduce : (ℕ → ReduceArgs) → ℕ → Datatype → ℕ → ℕ → World → ℕ × World

-- An element takes as many bytes as the next one follows after, unlike that of MPI_DOUBLE_INT.
abbrev pub IsGapless : Mpi → Datatype → Type 0
IsGapless mpi t = mpi.type_extent t ≡ mpi.type_size t

-- What the standard documents of them, where no error occurs, on types without gaps; `op_combine` is the combination that
-- an `MPI_Op` stands for on a datatype.
pub record MpiDocumented (mpi : Mpi) (op_combine : ℕ → Datatype → Combine) : Type 0 where
  pub byte_size : mpi.type_size Datatype.byte ≡ 1
  pub double_size : mpi.type_size Datatype.double ≡ 8
  pub int_size : mpi.type_size Datatype.int ≡ 4
  pub float_size : mpi.type_size Datatype.float ≡ 4
  pub byte_gapless : IsGapless mpi Datatype.byte
  pub bcast_lem :
      (buf n : ℕ) (t : Datatype) (root : ℕ) (w : World)
      → IsGapless mpi t
      → mpi.bcast buf n t root w
        ≡ (mpi_success, elementwise (mpi.type_size t) everybody (from_root root) buf n w)
  pub allreduce_lem :
      (buf n : ℕ) (t : Datatype) (op : ℕ) (w : World)
      → IsGapless mpi t
      → mpi.allreduce_in_place buf n t op w
        ≡ (mpi_success, elementwise (mpi.type_size t) everybody (op_combine op t) buf n w)
  pub reduce_lem :
      (args : ℕ → ReduceArgs) (buf n : ℕ) (t : Datatype) (op root : ℕ) (w : World)
      → IsGapless mpi t
      → args root ≡ ReduceArgs.in_place buf
      → ((r : ℕ) → r ≢ root → args r ≡ ReduceArgs.send buf)
      → mpi.reduce args n t op root w
        ≡ (mpi_success, elementwise (mpi.type_size t) (λ r. r == root) (op_combine op t) buf n w)
