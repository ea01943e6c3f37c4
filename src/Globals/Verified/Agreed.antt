-- ===== src/Globals/Verified/Agreed.antt =====
-- With assertions, the broadcasts are started only by ranks whose variables lie where all others' do.
use mathlib.Core.List.{Perm}
use simple_parallel.Prelude.{
  ℕ, ◌≤◌, ◌<◌, ◌≡◌, ◌⊎◌, refl, ◌∙◌, sym, ap, none, some, List, [], ◌∷◌, All, int_max, arith,
  Bool-cases, inl, inr, lt→ltb,
}
use simple_parallel.Mpi.{World}
use simple_parallel.BigMpi.Requests.{Requests, Chunk, capacity}
use simple_parallel.BigMpi.Sync.{replay, copy_areas}
use simple_parallel.Globals.{GlobalVariableInfo}
use simple_parallel.Globals.Sync.{areas, sync_globals_whole}
use simple_parallel.Types.{MemArea}
use simple_parallel.Globals.Verified.{
  Gathered, verify_fortran_global_variables_synced, gathered_infos, sync_verified,
}
use simple_parallel.Globals.Verified.Compared.{verify_iff}

-- All ranks list the same areas, in the same order, under names that lie at the same place.
abbrev pub AllAgree : ℕ → (ℕ → ℕ → ℕ × ℕ) → (ℕ → List GlobalVariableInfo) → ℕ → Type 0
AllAgree comm_size views vars rank =
    (q : ℕ)
    → q < comm_size
    → gathered_infos (views q) (vars q) ≡ gathered_infos (views rank) (vars rank)

gathered_areas : List Gathered → List MemArea
gathered_areas [] = []
gathered_areas (i ∷ is) = record { addr = i.data_address; size = i.size_bytes } ∷ gathered_areas is

areas-gathered_infos :
    (view : ℕ → ℕ × ℕ) (vars : List GlobalVariableInfo)
    → gathered_areas (gathered_infos view vars) ≡ areas vars
unfolding gathered_infos gathered_areas
areas-gathered_infos view [] = refl
areas-gathered_infos view (i ∷ is) = ap (λ l. i.area ∷ l) (areas-gathered_infos view is)

same_areas :
    (view view' : ℕ → ℕ × ℕ) (vars vars' : List GlobalVariableInfo)
    → gathered_infos view vars ≡ gathered_infos view' vars'
    → areas vars ≡ areas vars'
same_areas view view' vars vars' e =
    sym (areas-gathered_infos view vars) ∙ ap gathered_areas e ∙ areas-gathered_infos view' vars'

-- A rank's call in a build with assertions, on more than one rank and with variables of at most the
-- largest int. Either an assertion fails, and not all ranks agree with the rank's variables, which
-- are compared by their areas and by the places and sizes of their names; or all ranks agree, every
-- request is waited for once and none is left, and the broadcasts that the rank started copy, on
-- every rank, each variable of any of the ranks from the root, and nothing else.
pub globals_agreed :
    (comm_size : ℕ) (views : ℕ → ℕ → ℕ × ℕ) (vars : ℕ → List GlobalVariableInfo) (rank : ℕ)
    (waitany : ℕ → ℕ)
    → 1 < comm_size
    → ((k : ℕ) → waitany k < capacity)
    → All (λ i. i.area.size ≤ int_max) (vars rank)
    → ((sync_verified comm_size views vars rank waitany ≡ none)
        × (AllAgree comm_size views vars rank → ⊥))
      ⊎ (AllAgree comm_size views vars rank
          × ((s : Requests Chunk) × (sync_verified comm_size views vars rank waitany ≡ some s)
              × (s.buffer ≡ [])
              × Perm s.waited s.issued
              × ((q root : ℕ) (w : World)
                  → q < comm_size
                  → replay root s.issued w ≡ copy_areas root (areas (vars q)) w)))
unfolding sync_verified
globals_agreed comm_size views vars rank waitany more bounded sizes =
    let ranks : ℕ → List Gathered = λ q. gathered_infos (views q) (vars q) in
    let iff = verify_iff comm_size ranks rank in
    elim (Bool-cases (verify_fortran_global_variables_synced comm_size ranks rank)) [
      | inr fails ↦ inl (
        rw (sync_verified, fails, lt→ltb 1 comm_size more) refl,
        λ agree. let holds = iff.1 agree in absurd (ground arith),
      )
      | inl holds ↦
          let agree = iff.0 holds in
          let (s, e, none_left, once, copied) =
            sync_globals_whole waitany (vars rank) bounded sizes in
          inr (
            agree,
            (
              s,
              rw (sync_verified, holds, lt→ltb 1 comm_size more) e,
              none_left,
              once,
              λ q root w lt.
                  copied root w
                  ∙ ap (λ l. copy_areas root l w)
                      (sym (same_areas (views q) (views rank) (vars q) (vars rank) (agree q lt))),
            ),
          )
    ]
