-- ===== src/Enter/Transferred.antt =====
-- After the stack and the heap were sent, the workers have the leader's bytes in both.
use simple_parallel.Prelude.{
  ℕ, suc, ◌+◌, ◌*◌, ◌≤◌, ◌<◌, ◌≡◌, ◌⊎◌, refl, ◌∙◌, sym, Bool, true, false, some, List,
  if◌then◌else◌, Bool-cases, inl, inr, All, word, int_max, subst,
}
use simple_parallel.Types.{MemArea}
use simple_parallel.Mpi.{Mpi, MpiDocumented, World, Combine, Datatype}
use simple_parallel.BigMpi.Requests.{capacity}
use simple_parallel.Heap.{memareas, get_zero_and_dirty_pages, sync_heap}
use simple_parallel.Heap.ZeroPage.{Bytes, is_zeroed_pg_simd}
use simple_parallel.Heap.Transfer.{DontNeed, in_area}
use simple_parallel.Heap.Scan.{is_reduced}
use simple_parallel.Heap.Blocks.{is_malloc_page}
use simple_parallel.Heap.Sets.{PageSet, PageSetDocumented}
use simple_parallel.Heap.Synced.{CleanAgree, heap_synced}
use simple_parallel.Enter.{Entry}

-- The sizes that the entry is made for: a page is a whole number of vectors of at least one word,
-- the root is one of the ranks, the stack's and each variable's size is an int, and MPI_Waitany
-- reports a request of the buffer.
pub record IsUsable (e : Entry) : Type 0 where
  pub rounds : ℕ
  pub some_round : 0 < rounds
  pub some_lane : 0 < e.lanes
  pub page : e.page_size ≡ 8 * (rounds * e.lanes)
  pub root : e.root_rank < e.comm_size
  pub stack : e.fake_stack.size ≤ int_max
  pub variables : All (λ i. i.area.size ≤ int_max) e.variables
  pub waits_heap : (k : ℕ) → e.waitany_heap k < capacity
  pub waits_variables : (k : ℕ) → e.waitany_variables k < capacity

-- The areas of dirty pages that the leader sends from a memory.
abbrev pub sent_areas : (P : PageSet) → Entry → Bytes → List MemArea
sent_areas P e mem = memareas e.page_size (
    P.ranges
      (get_zero_and_dirty_pages P e.entries (is_zeroed_pg_simd e.page_size e.lanes mem) e.page_size
        e.leader_heaps e.reduces).dirty_pages)

-- An address that is the leader's when a section begins: of the stack, or in a page that meets a
-- block of a heap and lies in no reduce area's inner range.
abbrev pub IsShared : Entry → ℕ → ℕ → Type 0
IsShared e p j =
    (in_area e.fake_stack (e.page_size * p + j) ≡ true)
    ⊎ ((is_malloc_page e.page_size e.leader_heaps p ≡ true) × (is_reduced e.reduces p ≡ false))

same_bytes : (f g : Bytes) → ((x : ℕ) → f x ≡ g x) → f ≡ g
same_bytes f g h i x = h x i

pub either : {u v : ℕ} (b : Bool) → v ≡ u → (if b then u else v) ≡ u
either true h = refl
either false h = h

module _ (e : Entry) where
  page_cases :
      (p : ℕ)
      → ((is_malloc_page e.page_size e.leader_heaps p ≡ true) × (is_reduced e.reduces p ≡ false))
        ⊎ ((is_malloc_page e.page_size e.leader_heaps p ≡ false) ⊎ (is_reduced e.reduces p ≡ true))
  page_cases p = elim (Bool-cases (is_malloc_page e.page_size e.leader_heaps p)) [
    | inr m ↦ inr (inl m)
    | inl m ↦ elim (Bool-cases (is_reduced e.reduces p)) [
      | inl r ↦ inr (inr r)
      | inr r ↦ inl (m, r)
    ]
  ]

  -- After the stack and the heap.
  pub record Transferred (w w' : World) : Type 0 where
    pub leader : (x : ℕ) → w' e.root_rank x ≡ w e.root_rank x
    pub shared :
        (k p j : ℕ)
        → j < e.page_size
        → IsShared e p j
        → w' k (e.page_size * p + j) ≡ w e.root_rank (e.page_size * p + j)
    pub others :
        (k p j : ℕ)
        → j < e.page_size
        → in_area e.fake_stack (e.page_size * p + j) ≡ false
        → (is_malloc_page e.page_size e.leader_heaps p ≡ false) ⊎ (is_reduced e.reduces p ≡ true)
        → w' k (e.page_size * p + j) ≡ w k (e.page_size * p + j)

module _ (P : PageSet) (doc_set : PageSetDocumented P) {mpi : Mpi}
    {op_combine : ℕ → Datatype → Combine} (doc : MpiDocumented mpi op_combine) (e : Entry)
    (usable : IsUsable e) (dont_need : DontNeed e.madvise) where
  pub stack_then_heap :
      (fuel : ℕ) (w w1 : World)
      → ((k x : ℕ) → w1 k x ≡ (if in_area e.fake_stack x then w e.root_rank x else w k x))
      → All
          (λ mem. (mem.size + int_max < word) × (mem.size ≤ fuel * int_max))
          (sent_areas P e (w e.root_rank))
      → CleanAgree e.page_size e.entries e.leader_heaps e.reduces e.root_rank w
      → (w' : World) × (sync_heap P e.page_size e.lanes e.entries e.waitany_heap e.madvise
            (suc fuel)
            e.leader_heaps
            e.reduces
            e.root_rank
            w1
          ≡ some w')
        × Transferred e w w'
  stack_then_heap fuel w w1 there sizes agree =
      let root = e.root_rank in
      let root_same : (x : ℕ) → w1 root x ≡ w root x =
        λ x. there root x ∙ either (in_area e.fake_stack x) refl in
      let sizes1 =
        subst
          (λ mem.
            All (λ m. (m.size + int_max < word) × (m.size ≤ fuel * int_max)) (sent_areas P e mem))
          (sym (same_bytes (w1 root) (w root) root_same)) sizes in
      let (w', run, leader, sent, kept) =
        heap_synced P doc_set e.page_size e.lanes usable.rounds usable.some_lane usable.some_round
          usable.page e.entries e.leader_heaps e.reduces root w1 e.madvise dont_need e.waitany_heap
          fuel usable.waits_heap sizes1
          (λ k p j lt m r c.
            there k _
            ∙ either (in_area e.fake_stack _) (agree k p j lt m r c)
            ∙ sym (root_same _)) in
      (
        w',
        run,
        record {
          leader = λ x. leader x ∙ root_same x;
          shared = λ k p j lt h. elim (page_cases e p) [
            | inl (m, r) ↦ sent k p j lt m r ∙ root_same _
            | inr out ↦ elim h [
              | inl s ↦ kept k p j lt out ∙ there k _ ∙ rw s refl
              | inr (m, r) ↦ sent k p j lt m r ∙ root_same _
            ]
          ];
          others = λ k p j lt s out. kept k p j lt out ∙ there k _ ∙ rw s refl;
        },
      )
