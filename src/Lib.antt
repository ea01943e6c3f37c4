-- ===== src/Lib.antt =====
-- simple_parallel lets a program run parallel sections on all ranks of an MPI job as if they shared
-- one address space. Rank 0, the leader, runs the program; the other ranks, the workers, wait in a
-- loop. When the leader constructs a parallel context, it broadcasts its operations on the address
-- space, its stack and its heap's changed pages, and the context to go on with; every worker then
-- continues in the section, and at its end the reduce areas are combined on the leader and the workers
-- go back to their loop. Inside a section the ranks share work by a dynamic schedule.
--
-- The files and the code that they model (paths from the repository's root):
--
-- Types.antt: mem_area and pte_range of include/simple_parallel/cxx/types_fwd.h and the data of
-- reduce_area of include/simple_parallel/cxx/simple_parallel.h. Prelude.antt and the files below it:
-- what the others share.
--
-- Mpi.antt: MPI as a record of calls with the effects that the standard documents. The memory of all
-- ranks is one function of rank and address, and a collective call is a step of all ranks at once; the
-- effects are those on datatypes whose extent is their size.
--
-- BigMpi.antt: src/simple_parallel/bigmpi.cc. Bcast, All_reduce and Reduce are bcast, all_reduce and
-- reduce; BigMpi/Requests.antt is async_wait_request and sync_areas, where the index that MPI_Waitany
-- reports is a function of the number of the waits before. The loops run on fuel, and the theorems give
-- fuel that is enough: one round more than the count has full chunks, rounded up.
--
-- Pages.antt: src/simple_parallel/include/pagemap.h, for any page size; addresses are 64-bit words.
--
-- Heap.antt: the transfer of the heap, on the leader get_zero_and_dirty_pages, send_dirty_page,
-- send_zeroed_page and send_heap of src/simple_parallel/leader.cc, on a worker recv_dirty_page and
-- recv_zero_page of src/simple_parallel/worker.cc; it uses Pages and BigMpi. Heap/ZeroPage.antt is the
-- SIMD test is_zeroed_pg_simd, for any number of lanes. Heap/Sets.antt is the interface of the interval
-- sets. mimalloc's blocks, the page table's entries and madvise are parameters.
--
-- Mapping.antt: proxy_mmap, proxy_munmap and proxy_madvise of leader.cc, with the kernel's answers as
-- parameters; addresses are plain numbers, since a pointer past the address space is undefined in the
-- source. The fuel of the search is for the steps of 1 GiB from its start past the end of the reserved
-- heap. Where the kernel maps elsewhere, the source unmaps that again, which leaves nothing.
-- Mapping/Replay.antt is the workers' replay (src/simple_parallel/include/leader.h), over a kernel that
-- is an interface.
--
-- Rpc.antt: the broadcasts of a section, enter_parallel_impl of leader.cc, and the worker loop of
-- worker.cc with what it receives; the messages are lists, and the worker's fuel is one round for each
-- tag. Rpc/Reserve.antt is reserve_heap_area of worker.cc.
--
-- ParCtx.antt: par_ctx_base of include/simple_parallel/cxx/simple_parallel.h and leader.cc on the
-- leader: do_enter_parallel, do_exit_parallel and verify_reduces_no_overlap. ParCtx/Sections.antt has
-- programs that construct and destroy contexts in any order; ParCtx/Reduce.antt is
-- reduce_area::init_reduce_area_on_worker, in ParCtx/Reduce/Untouched.antt with BigMpi's reduce;
-- ParCtx/Fortran.antt the context of src/fortran_binding/fortran_binding.cc, and ParCtx/Descriptor.antt
-- that file's ftype_2_mpi_type and s_p_f_ctx_add_reduce_area, with the constructor of a reduce area that
-- they use.
--
-- Enter.antt: the memory of all ranks through the entry of a section, do_enter_parallel and
-- enter_parallel_impl of leader.cc and enter_parallel_impl of worker.cc: the stack, the heap, the reduce
-- areas and the Fortran variables, by the definitions of Heap, ParCtx/Reduce and Globals. Its start is
-- the memory after the workers have repeated the operations on the address space.
--
-- Schedule.antt: Schedule/TaskRange.antt and Schedule/Gss.antt are the task generators of
-- src/c_binding/c_dynamic_schedule_binding.cc; Schedule/Dynamic.antt and the files below it the class
-- dynamic_schedule of include/simple_parallel/cxx/dynamic_schedule.h: the leader's and the clients'
-- handlers as a step relation, one MPI call a step, with the messages that are on the way;
-- Schedule/Dynamic/Network.antt what MPI may do with them beyond the order and the values of the calls,
-- as two promises that a library makes or not; Schedule/Dynamic/Liveness.antt has the runs from a state
-- on, Schedule/Dynamic/Handlers.antt the constructors and the handler for a single rank. Schedule/Threads.antt is the
-- two macros of include/simple_parallel/c/c_dynamic_schedule_binding.h by which the threads of a rank
-- share its schedule.
--
-- Symbols.antt: the number of symbols of an ELF file from its hash tables, and Globals.antt: the choice
-- of the Fortran global variables and their broadcast, with the walk over the loaded objects in
-- Globals/Objects.antt, the sections that hold them in Globals/Sections.antt and the comparison of the
-- ranks' variables in Globals/Verified.antt, all of src/simple_parallel/sync_fortran_global_vars.cc. The
-- regular expressions, libelf's answers and the addresses are parameters; Globals/Sync.antt uses the
-- requests of BigMpi.
--
-- Start.antt: fake_main and its checks, src/simple_parallel/init.cc, as the events of one process;
-- Start/Info.antt is get_mpi_info_from_env.
--
-- Not modelled: get_reserved_heap (src/simple_parallel/init.cc), the reading of the page map
-- (src/simple_parallel/pagemap.cc), timing and debug output, and the Fortran header. Failing MPI calls
-- are modelled where the source looks at their codes. Assertions are left out, as in a build with
-- NDEBUG, but where a model says that it has them.
pub mod Prelude
pub mod Types
pub mod Mpi
pub mod BigMpi
pub mod Pages
pub mod ParCtx
pub mod Mapping
pub mod Rpc
pub mod Symbols
pub mod Globals
pub mod Start
pub mod Heap
pub mod Schedule
pub mod Enter
