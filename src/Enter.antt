-- ===== src/Enter.antt =====
-- Entering a parallel section as it changes the memory of the ranks: par_ctx_base::do_enter_parallel
-- and enter_parallel_impl of src/simple_parallel/leader.cc, and enter_parallel_impl of
-- src/simple_parallel/worker.cc, all ranks together.
pub mod Areas
pub mod Transferred
pub mod Entered
mod Tests
use simple_parallel.Prelude.{
  ◌%◌, ◌^◌, ℕ, zero, suc, Bool, true, false, Option, none, some, List, [], ◌∷◌, ltb, ◌==◌,
  if◌then◌else◌, ◌>>=◌, int_max,
}
use simple_parallel.Prelude.Family.{put}
use simple_parallel.Types.{MemArea, ReduceArea}
use simple_parallel.Mpi.{Mpi, World, Datatype}
use simple_parallel.Pages.{Pte}
use simple_parallel.BigMpi.Sync.{replay}
use simple_parallel.Heap.{sync_heap}
use simple_parallel.Heap.ZeroPage.{Bytes}
use simple_parallel.Heap.Sets.{PageSet}
use simple_parallel.ParCtx.{verify_reduces_no_overlap}
use simple_parallel.ParCtx.Reduce.{
  Initialised, initialised, not_support, no_name, init_reduce_area_on_worker,
}
use simple_parallel.Globals.{GlobalVariableInfo, sync_fortran_global_variables}

-- `send_stack` and `recv_stack`; the size is cast to an int, and a negative count is MPI's error.
unfoldable pub sync_stack : Mpi → MemArea → ℕ → World → Option World
sync_stack mpi fake_stack root_rank w =
    let count = fake_stack.size % 2 ^ 32 in
    if ltb int_max count
    then none
    else some ((mpi.bcast fake_stack.addr count Datatype.byte root_rank w).1)

-- The loop over the reduce areas on a worker, up to the first exception.
unfoldable pub init_areas : List ReduceArea → Bytes → Initialised
init_areas [] mem = initialised mem
init_areas (reduce ∷ rest) mem = elim (init_reduce_area_on_worker reduce mem) [
  | initialised mem' ↦ init_areas rest mem'
  | not_support type op ↦ not_support type op
  | no_name ↦ no_name
]

-- `if (m_comm->rank() != m_root_rank)`
unfoldable pub init_reduces : ℕ → List ReduceArea → ℕ → Bytes → Initialised
unfolding init_areas
init_reduces root_rank reduces rank mem =
    if rank == root_rank then initialised mem else init_areas reduces mem

-- The memory of `n` ranks that have all gone on, `none` when one of them has thrown.
unfoldable pub every_rank : ℕ → (ℕ → Initialised) → World → Option World
every_rank zero after w = some w
every_rank (suc n) after w = elim (after n) [
  | initialised mem ↦ do w' ← every_rank n after w; some (put w' n mem)
  | not_support type op ↦ none
  | no_name ↦ none
]

-- What one section's entry uses: the ranks, the fake stack, the leader's heaps and page table, the
-- reduce areas, the Fortran variables; what `MPI_Waitany` reports in the two loops that wait.
pub record Entry : Type 0 where
  pub comm_size : ℕ
  pub root_rank : ℕ
  pub page_size : ℕ
  pub lanes : ℕ
  pub fake_stack : MemArea
  pub leader_heaps : List (List MemArea)
  pub entries : ℕ → Pte
  pub reduces : List ReduceArea
  pub variables : List GlobalVariableInfo
  pub waitany_heap : ℕ → ℕ
  pub waitany_variables : ℕ → ℕ
  pub madvise : MemArea → Bytes → Option Bytes

-- The memory of all ranks when the section begins, from the memory after the workers have repeated
-- the operations on the address space; `none` when a rank has thrown.
unfoldable pub enter_section : (P : PageSet) → Mpi → ℕ → Entry → World → Option World
unfolding sync_stack init_reduces every_rank
enter_section P mpi fuel e w = elim (verify_reduces_no_overlap e.reduces) [
  | some error ↦ none
  | none ↦ do
    w1 ← sync_stack mpi e.fake_stack e.root_rank w
    w2 ←
        sync_heap P e.page_size e.lanes e.entries e.waitany_heap e.madvise fuel e.leader_heaps
          e.reduces e.root_rank w1
    w3 ← every_rank e.comm_size (λ k. init_reduces e.root_rank e.reduces k (w2 k)) w2
    s ← sync_fortran_global_variables e.waitany_variables e.variables
    some (replay e.root_rank s.issued w3)
]
