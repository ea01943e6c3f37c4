-- ===== src/Globals/Verified.antt =====
-- src/simple_parallel/sync_fortran_global_vars.cc, verify_fortran_global_variables_synced: in a build
-- with assertions, every rank compares its variables with all ranks' before the broadcasts.
pub mod Compared
pub mod Agreed
mod Tests
use mathlib.Core.List.{Perm}
use simple_parallel.Prelude.{
  ℕ, suc, zero, ◌≤◌, ◌<◌, ◌≡◌, ◌↔◌, ◌⊎◌, refl, ◌∙◌, sym, ap, subst, Bool, true, false, ◌&&◌, Option,
  none, some, List, [], ◌∷◌, map, All, int_max, ltb, ◌==◌, if◌then◌else◌, arith, length, Bool-cases,
  inl, inr, ==→eq, ==_refl,
}
use simple_parallel.Mpi.{World}
use simple_parallel.BigMpi.Requests.{Requests, Chunk, capacity}
use simple_parallel.BigMpi.Sync.{replay, copy_areas}
use simple_parallel.Globals.{GlobalVariableInfo, sync_fortran_global_variables}
use simple_parallel.Globals.Sync.{areas, sync_globals_whole}

-- A variable as it is gathered: its area, and where its name's characters are and how many.
pub record Gathered : Type 0 where
  pub data_address : ℕ
  pub size_bytes : ℕ
  pub name_data : ℕ
  pub name_size : ℕ

-- The four assertions.
unfoldable pub same_info : Gathered → Option Gathered → Bool
same_info i none = false
same_info i (some j) =
    (i.data_address == j.data_address)
    && ((i.size_bytes == j.size_bytes)
        && ((i.name_data == j.name_data) && (i.name_size == j.name_size)))

-- Whether the test holds of the first `comm_size` ranks.
unfoldable pub all_ranks : ℕ → (ℕ → Bool) → Bool
all_ranks zero test = true
all_ranks (suc n) test = all_ranks n test && test n

unfoldable pub head? : List Gathered → Option Gathered
head? [] = none
head? (i ∷ is) = some i

unfoldable pub after_head : List Gathered → List Gathered
after_head [] = []
after_head (i ∷ is) = is

-- The loop of one rank; every rank gives the variable that its own loop is at.
unfoldable pub verify_each : ℕ → (ℕ → List Gathered) → List Gathered → Bool
unfolding same_info all_ranks head? after_head
verify_each comm_size ranks [] = true
verify_each comm_size ranks (i ∷ is) =
    let rest = verify_each comm_size (λ q. after_head (ranks q)) is in
    if all_ranks comm_size (λ q. same_info i (head? (ranks q))) then rest else false

-- Whether all assertions hold on the rank.
unfoldable pub verify_fortran_global_variables_synced : ℕ → (ℕ → List Gathered) → ℕ → Bool
unfolding verify_each all_ranks
verify_fortran_global_variables_synced comm_size ranks rank =
    all_ranks comm_size (λ q. length (ranks q) == length (ranks rank))
    && verify_each comm_size ranks (ranks rank)

-- The ranks' lists, with the place and the size of each name on a rank.
unfoldable pub gathered_infos : (ℕ → ℕ × ℕ) → List GlobalVariableInfo → List Gathered
gathered_infos view [] = []
gathered_infos view (i ∷ is) =
    record {
      data_address = i.area.addr;
      size_bytes = i.area.size;
      name_data = (view i.name).0;
      name_size = (view i.name).1;
    }
    ∷ gathered_infos view is

-- A rank's call, in a build with assertions.
unfoldable pub sync_verified :
    ℕ → (ℕ → ℕ → ℕ × ℕ) → (ℕ → List GlobalVariableInfo) → ℕ → (ℕ → ℕ) → Option (Requests Chunk)
unfolding verify_fortran_global_variables_synced gathered_infos
sync_verified comm_size views vars rank waitany =
    if ltb 1 comm_size
      && verify_fortran_global_variables_synced comm_size (λ q. gathered_infos (views q) (vars q))
          rank
    then sync_fortran_global_variables waitany (vars rank)
    else none
