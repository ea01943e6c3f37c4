-- ===== src/BigMpi/Tests.antt =====
-- The theorems on the chunked calls at a concrete MPI, and runs of the code.
use mathlib.Core.List.{Perm}
use simple_parallel.Prelude.{ℕ, ◌≡◌, refl, some, List, [], ◌∷◌, arith, ◌==◌, if◌then◌else◌}
use simple_parallel.Types.{MemArea}
use simple_parallel.Mpi.{Datatype, World, elementwise, everybody, from_root, mpi_success}
use simple_parallel.Mpi.TwoRanks.{two_ranks, two_rank_sum, two_ranks-MpiDocumented}
use simple_parallel.BigMpi.{bcast, all_reduce, reduce}
use simple_parallel.BigMpi.Whole.{calls_whole}
use simple_parallel.BigMpi.Requests.{
  Requests, Chunk, async_wait_request, issue_area, issue_areas, sync_areas, waitall,
}
use simple_parallel.BigMpi.Sync.{replay, copy_areas, sync_areas_whole}

abbrev two_words : World
two_words r x = if r == 0 then x else 200

calls_whole_example :
    (bcast two_ranks 3 16 3000000000 Datatype.int 0 two_words
      ≡ some (mpi_success, elementwise 4 everybody (from_root 0) 16 3000000000 two_words))
    × (all_reduce two_ranks 3 16 3000000000 Datatype.int 5 two_words
        ≡ some (
          mpi_success,
          elementwise 4 everybody (two_rank_sum 5 Datatype.int) 16 3000000000 two_words,
        ))
    × (reduce two_ranks 3 16 3000000000 Datatype.int 5 0 two_words
        ≡ some (
          mpi_success,
          elementwise 4 (λ r. r == 0) (two_rank_sum 5 Datatype.int) 16 3000000000 two_words,
        ))
calls_whole_example =
    calls_whole two_ranks-MpiDocumented 2 16 3000000000 Datatype.int two_words (omega arith) refl
      (omega arith) (omega arith) 5 0

abbrev two_areas : List MemArea
two_areas = record { addr = 4096; size = 3000000000 } ∷ record { addr = 0; size = 10 } ∷ []

sync_areas_run :
    sync_areas (λ k. 0) 3 two_areas
    ≡ some (record {
      buffer = [];
      issued =
          record { begin = 4096; count = 2147483647 }
          ∷ record { begin = 2147487743; count = 852516353 }
          ∷ record { begin = 0; count = 10 }
          ∷ [];
      waited =
          record { begin = 4096; count = 2147483647 }
          ∷ record { begin = 2147487743; count = 852516353 }
          ∷ record { begin = 0; count = 10 }
          ∷ [];
    })
unfolding sync_areas issue_areas issue_area async_wait_request waitall
sync_areas_run = refl

sync_areas_whole_example :
    (s : Requests Chunk) × (sync_areas (λ k. 0) 3 two_areas ≡ some s)
    × (s.buffer ≡ [])
    × Perm s.waited s.issued
    × ((root : ℕ) (w : World) → replay root s.issued w ≡ copy_areas root two_areas w)
sync_areas_whole_example =
    sync_areas_whole (λ k. 0) 2 two_areas (λ k. omega arith)
      ((omega arith, omega arith), ((omega arith, omega arith), tt))
