-- ===== src/Globals/Verified/Tests.antt =====
-- Two ranks with one variable; then a rank that has a variable more.
use mathlib.Core.List.{Perm}
use simple_parallel.Prelude.{ℕ, zero, suc, ◌≡◌, ◌⊎◌, ◌<◌, refl, none, some, List, [], ◌∷◌, arith}
use simple_parallel.Mpi.{World}
use simple_parallel.BigMpi.Requests.{Requests, Chunk, async_wait_request, waitall}
use simple_parallel.BigMpi.Sync.{replay, copy_areas}
use simple_parallel.Globals.{GlobalVariableInfo, sync_fortran_global_variables, sync_variables}
use simple_parallel.Globals.Sync.{areas}
use simple_parallel.Globals.Verified.{
  same_info, all_ranks, head?, after_head, verify_each, verify_fortran_global_variables_synced,
  gathered_infos, sync_verified,
}
use simple_parallel.Globals.Verified.Agreed.{AllAgree, globals_agreed}

abbrev table : GlobalVariableInfo
table = record { name = 3; area = record { addr = 3000; size = 40 } }

abbrev same : ℕ → List GlobalVariableInfo
same rank = table ∷ []

abbrev one_more : ℕ → List GlobalVariableInfo
one_more zero = table ∷ []
one_more (suc rank) = table ∷ record { name = 5; area = record { addr = 5000; size = 4 } } ∷ []

-- Every name has eight characters, at the same place on all ranks.
abbrev fixed : ℕ → ℕ → ℕ × ℕ
fixed rank name = (name, 8)

-- The names' characters lie at different places.
abbrev moved : ℕ → ℕ → ℕ × ℕ
moved rank name = (rank, 8)

same_run :
    sync_verified 2 fixed same 1 (λ k. 0)
    ≡ some (record {
      buffer = [];
      issued = record { begin = 3000; count = 40 } ∷ [];
      waited = record { begin = 3000; count = 40 } ∷ [];
    })
unfolding sync_verified verify_fortran_global_variables_synced all_ranks verify_each same_info head?
    after_head gathered_infos sync_fortran_global_variables sync_variables async_wait_request
    waitall
same_run = refl

different_run :
    (sync_verified 2 fixed one_more 0 (λ k. 0) ≡ none)
    × (sync_verified 2 fixed one_more 1 (λ k. 0) ≡ none)
    × (sync_verified 2 moved same 0 (λ k. 0) ≡ none)
unfolding sync_verified verify_fortran_global_variables_synced all_ranks verify_each same_info head?
    after_head gathered_infos
different_run = (refl, refl, refl)

globals_agreed_example :
    ((sync_verified 2 fixed same 1 (λ k. 0) ≡ none) × (AllAgree 2 fixed same 1 → ⊥))
    ⊎ (AllAgree 2 fixed same 1
        × ((s : Requests Chunk) × (sync_verified 2 fixed same 1 (λ k. 0) ≡ some s)
            × (s.buffer ≡ [])
            × Perm s.waited s.issued
            × ((q root : ℕ) (w : World)
                → q < 2
                → replay root s.issued w ≡ copy_areas root (areas (same q)) w)))
globals_agreed_example =
    globals_agreed 2 fixed same 1 (λ k. 0) (omega arith) (λ k. omega arith) (omega arith, tt)
