-- ===== src/Enter/Areas.antt =====
-- The parts of a section's entry: the stack, the reduce areas on a worker, and that all ranks go on.
use simple_parallel.Prelude.{
  ◌%◌, ◌^◌, ℕ, zero, suc, ◌+◌, ◌*◌, ◌≤◌, ◌<◌, ◌≡◌, refl, ◌∙◌, sym, ap, some, List, [], ◌∷◌, arith,
  leb, ltb, ◌==◌, if◌then◌else◌, Bool-cases, inl, inr, ==→eq, All, int_max, le→ltb,
}
use simple_parallel.Prelude.Family.{put}
use simple_parallel.Types.{MemArea, ReduceArea}
use simple_parallel.Mpi.{Mpi, MpiDocumented, World, Combine, Datatype}
use simple_parallel.BigMpi.Sync.{copy_bytes}
use simple_parallel.Heap.ZeroPage.{Bytes}
use simple_parallel.Heap.Transfer.{in_area, copy_bytes_at}
use simple_parallel.ParCtx.{mem_area}
use simple_parallel.ParCtx.Overlap.{IsByte, Disjoint, AllDisjoint}
use simple_parallel.ParCtx.Reduce.{
  identity, memset, Initialised, initialised, init_reduce_area_on_worker,
}
use simple_parallel.Enter.{sync_stack, init_areas, every_rank}

pub sync_stack_lem :
    {mpi : Mpi} {op_combine : ℕ → Datatype → Combine} (doc : MpiDocumented mpi op_combine)
    (fake_stack : MemArea) (root : ℕ) (w : World)
    → fake_stack.size ≤ int_max
    → (w' : World) × (sync_stack mpi fake_stack root w ≡ some w')
      × ((k x : ℕ) → w' k x ≡ (if in_area fake_stack x then w root x else w k x))
unfolding sync_stack
sync_stack_lem {mpi} doc fake_stack root w small =
    let as_int : fake_stack.size % 2 ^ 32 ≡ fake_stack.size = omega (arith, small) in
    (
      copy_bytes root fake_stack.addr fake_stack.size w,
      rw
          (
            as_int,
            le→ltb int_max fake_stack.size small,
            doc.bcast_lem fake_stack.addr fake_stack.size Datatype.byte root w doc.byte_gapless,
            doc.byte_size,
          )
          refl,
      copy_bytes_at root fake_stack w,
    )

-- The code supports the type of the area with its operation.
abbrev pub IsSupported : ReduceArea → Type 0
IsSupported r = (value : ℕ) × (identity r.type r.op ≡ some value)

abbrev pub Outside : List ReduceArea → ℕ → Type 0
Outside reduces x = All (λ r. IsByte r x → ⊥) reduces

-- At every address of an area stands the initial value of the area.
abbrev pub HasIdentity : List ReduceArea → Bytes → Type 0
HasIdentity reduces mem =
    All (λ r. (x : ℕ) → IsByte r x → identity r.type r.op ≡ some (mem x)) reduces

Outside-rest :
    (r : ReduceArea) (rs : List ReduceArea) (x : ℕ)
    → All (Disjoint r) rs
    → IsByte r x
    → Outside rs x
Outside-rest r [] x d i = tt
Outside-rest r (a ∷ rs) x d i = (d.0 x i, Outside-rest r rs x d.1 i)

memset_in :
    (r : ReduceArea) (value : ℕ) (mem : Bytes) (x : ℕ)
    → IsByte r x
    → memset (mem_area r) value mem x ≡ value
unfolding mem_area
memset_in r value mem x (h0, h1) = ground arith

memset_out :
    (r : ReduceArea) (value : ℕ) (mem : Bytes) (x : ℕ)
    → (IsByte r x → ⊥)
    → memset (mem_area r) value mem x ≡ mem x
unfolding mem_area
memset_out r value mem x h = elim (Bool-cases (leb r.begin x)) [
  | inr low ↦ rw low refl
  | inl le ↦ elim (Bool-cases (ltb x (r.begin + r.count * r.sizeof_type))) [
    | inr high ↦ ground arith
    | inl lt ↦ absurd (h (ground arith, ground arith))
  ]
]

one_area :
    (r : ReduceArea) (value : ℕ) (mem : Bytes)
    → identity r.type r.op ≡ some value
    → init_reduce_area_on_worker r mem ≡ initialised (memset (mem_area r) value mem)
unfolding init_reduce_area_on_worker
one_area r value mem e = rw (init_reduce_area_on_worker, e) refl

-- A worker gets through the loop, with the initial values in the areas and its bytes elsewhere.
pub init_areas_lem :
    (reduces : List ReduceArea) (mem : Bytes)
    → All IsSupported reduces
    → AllDisjoint reduces
    → (mem' : Bytes) × (init_areas reduces mem ≡ initialised mem')
      × ((x : ℕ) → Outside reduces x → mem' x ≡ mem x)
      × HasIdentity reduces mem'
unfolding init_areas
init_areas_lem [] mem h d = (mem, refl, (λ x o. refl), tt)
init_areas_lem (r ∷ rs) mem ((value, e), h) d =
    let (mem', run, kept, there) = init_areas_lem rs (memset (mem_area r) value mem) h d.1 in
    (
      mem',
      rw (init_areas, one_area r value mem e) run,
      (λ x o. kept x o.1 ∙ memset_out r value mem x o.0),
      (
        (λ x i. e ∙ ap some (sym (kept x (Outside-rest r rs x d.0 i) ∙ memset_in r value mem x i))),
        there,
      ),
    )

-- When every rank has gone on, each has its own memory.
pub every_rank_lem :
    (n : ℕ) (after : ℕ → Initialised) (mem : ℕ → Bytes) (w : World)
    → ((k : ℕ) → k < n → after k ≡ initialised (mem k))
    → (w' : World) × (every_rank n after w ≡ some w') × ((k : ℕ) → k < n → w' k ≡ mem k)
unfolding every_rank
every_rank_lem zero after mem w h = (w, refl, λ k lt. absurd (omega arith))
every_rank_lem (suc n) after mem w h =
    let (w', run, there) = every_rank_lem n after mem w (λ k lt. h k (omega arith)) in
    (
      put w' n (mem n),
      rw (every_rank, h n (omega arith), run) refl,
      λ k lt. elim (Bool-cases (n == k)) [
        | inl same ↦ rw same (ap mem (==→eq n k same))
        | inr other ↦ rw other (there k (ground arith))
      ],
    )
