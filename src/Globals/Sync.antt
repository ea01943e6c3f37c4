-- ===== src/Globals/Sync.antt =====
-- Every Fortran global variable is copied whole.
use mathlib.Core.List.{Perm}
use simple_parallel.Prelude.{
  ℕ, ◌≤◌, ◌<◌, ◌≡◌, refl, ◌∙◌, ap, some, List, [], ◌∷◌, All, int_max, le→ltb,
}
use simple_parallel.Types.{MemArea}
use simple_parallel.Mpi.{World}
use simple_parallel.BigMpi.Requests.{Requests, Chunk, capacity, waitall}
use simple_parallel.BigMpi.Sync.{
  replay, copy_areas, replay-append, IsBalanced, async_wait_total, nothing, nothing-IsBalanced,
}
use simple_parallel.Globals.{GlobalVariableInfo, sync_variables, sync_fortran_global_variables}

abbrev pub areas : List GlobalVariableInfo → List MemArea
areas [] = []
areas (i ∷ is) = i.area ∷ areas is

sync_variables_total :
    (waitany : ℕ → ℕ) (vars : List GlobalVariableInfo) (s : Requests Chunk)
    → ((k : ℕ) → waitany k < capacity)
    → All (λ i. i.area.size ≤ int_max) vars
    → IsBalanced s
    → (s' : Requests Chunk) × (sync_variables waitany vars s ≡ some s')
      × IsBalanced s'
      × ((root : ℕ) (w : World)
          → replay root s'.issued w ≡ copy_areas root (areas vars) (replay root s.issued w))
unfolding sync_variables
sync_variables_total waitany [] s bounded h b = (s, refl, b, λ root w. refl)
sync_variables_total waitany (i ∷ is) s bounded h b =
    let chunk : Chunk = record { begin = i.area.addr; count = i.area.size } in
    let (s1, e1, b1, i1) = async_wait_total waitany bounded chunk s b in
    let (s2, e2, b2, r2) = sync_variables_total waitany is s1 bounded h.1 b1 in
    (
      s2,
      rw (sync_variables, le→ltb int_max i.area.size h.0, e1) e2,
      b2,
      λ root w.
          r2 root w
          ∙ ap (copy_areas root (areas is))
              (ap (λ cs. replay root cs w) i1 ∙ replay-append root s.issued (chunk ∷ []) w),
    )

-- Whatever requests `MPI_Waitany` reports, when no variable is larger than the largest int: the
-- loop ends without an error, the buffer of 256 requests is never overfull, every request that was
-- started is waited for exactly once and none is left; and the broadcasts that were started copy,
-- on every rank, each variable from the root, and nothing else.
pub sync_globals_whole :
    (waitany : ℕ → ℕ) (vars : List GlobalVariableInfo)
    → ((k : ℕ) → waitany k < capacity)
    → All (λ i. i.area.size ≤ int_max) vars
    → (s : Requests Chunk) × (sync_fortran_global_variables waitany vars ≡ some s)
      × (s.buffer ≡ [])
      × Perm s.waited s.issued
      × ((root : ℕ) (w : World) → replay root s.issued w ≡ copy_areas root (areas vars) w)
unfolding sync_fortran_global_variables nothing waitall
sync_globals_whole waitany vars bounded h =
    let (s, e, b, r) = sync_variables_total waitany vars nothing bounded h nothing-IsBalanced in
    (waitall s, rw e refl, refl, b.balanced, r)
