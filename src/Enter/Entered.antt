-- ===== src/Enter/Entered.antt =====
-- The parts of a section's entry that depend on the rank, and what every rank's memory is when the section begins.
use simple_parallel.Prelude.{
  ℕ, suc, ◌+◌, ◌*◌, ◌≤◌, ◌<◌, ◌≡◌, ◌≢◌, ◌⊎◌, refl, ◌∙◌, sym, ap, true, false, none, some, List,
  ◌==◌, if◌then◌else◌, Bool-cases, inl, inr, ==→eq, All, All-map, arith, word, int_max, subst,
}
use simple_parallel.Types.{ReduceArea}
use simple_parallel.Mpi.{Mpi, MpiDocumented, World, Combine, Datatype}
use simple_parallel.BigMpi.Requests.{Requests, Chunk}
use simple_parallel.BigMpi.Sync.{replay}
use simple_parallel.Heap.{sync_heap}
use simple_parallel.Heap.ZeroPage.{Bytes}
use simple_parallel.Heap.Transfer.{DontNeed, in_area, in_areas, copy_areas_at}
use simple_parallel.Heap.Scan.{is_reduced}
use simple_parallel.Heap.Blocks.{is_malloc_page}
use simple_parallel.Heap.Sets.{PageSet, PageSetDocumented}
use simple_parallel.Heap.Synced.{CleanAgree}
use simple_parallel.ParCtx.{verify_reduces_no_overlap}
use simple_parallel.ParCtx.Overlap.{IsFilled, IsByte, AllDisjoint, verify_reduces_no_overlap_lem}
use simple_parallel.ParCtx.Reduce.{identity, initialised}
use simple_parallel.Globals.{sync_fortran_global_variables}
use simple_parallel.Globals.Sync.{areas, sync_globals_whole}
use simple_parallel.Enter.{Entry, sync_stack, init_reduces, every_rank, enter_section}
use simple_parallel.Enter.Transferred.{
  IsUsable, sent_areas, IsShared, Transferred, stack_then_heap, either,
}
use simple_parallel.Enter.Areas.{
  sync_stack_lem, IsSupported, Outside, HasIdentity, init_areas_lem, every_rank_lem,
}

-- The calls one after the other.
all_run :
    (P : PageSet) (mpi : Mpi) (fuel : ℕ) (e : Entry) (w w1 w2 w3 : World) (s : Requests Chunk)
    → verify_reduces_no_overlap e.reduces ≡ none
    → sync_stack mpi e.fake_stack e.root_rank w ≡ some w1
    → sync_heap P e.page_size e.lanes e.entries e.waitany_heap e.madvise fuel e.leader_heaps
        e.reduces e.root_rank w1
      ≡ some w2
    → every_rank e.comm_size (λ k. init_reduces e.root_rank e.reduces k (w2 k)) w2 ≡ some w3
    → sync_fortran_global_variables e.waitany_variables e.variables ≡ some s
    → enter_section P mpi fuel e w ≡ some (replay e.root_rank s.issued w3)
unfolding enter_section
all_run P mpi fuel e w w1 w2 w3 s h h1 h2 h3 h4 =
    rw (enter_section, h) (rw h1 (rw h2 (rw h3 (rw h4 refl))))

verified_apart :
    (reduces : List ReduceArea)
    → All IsFilled reduces
    → verify_reduces_no_overlap reduces ≡ none
    → AllDisjoint reduces
verified_apart reduces filled e = elim (verify_reduces_no_overlap_lem reduces filled) [
  | inl (_, apart) ↦ apart
  | inr (error, e', _) ↦ absurd (cc)
]

module _ (e : Entry) where
  -- A rank that goes on: the leader with its memory as it is, a worker with the initial values.
  record Started (k : ℕ) (before after : Bytes) : Type 0 where
    kept : (x : ℕ) → Outside e.reduces x → after x ≡ before x
    there : k ≢ e.root_rank → HasIdentity e.reduces after
    leader : k ≡ e.root_rank → after ≡ before

  rank-Started :
      (k : ℕ) (mem : Bytes)
      → All IsSupported e.reduces
      → AllDisjoint e.reduces
      → (mem' : Bytes) × (init_reduces e.root_rank e.reduces k mem ≡ initialised mem')
        × Started k mem mem'
  unfolding init_reduces
  rank-Started k mem supported apart = elim (Bool-cases (k == e.root_rank)) [
    | inl same ↦ (
      mem,
      rw same refl,
      record {
        kept = λ x o. refl;
        there = λ other. absurd (other (==→eq k e.root_rank same));
        leader = λ h. refl;
      },
    )
    | inr other ↦
        let (mem', run, kept, there) = init_areas_lem e.reduces mem supported apart in
        (
          mem',
          rw other run,
          record { kept = kept; there = λ h. there; leader = λ h. absurd (ground arith) },
        )
  ]

  -- The memory of all ranks when the section begins, from the memory before.
  pub record Begun (w w' : World) : Type 0 where
    pub leader : (x : ℕ) → w' e.root_rank x ≡ w e.root_rank x
    pub variables :
        (k x : ℕ)
        → k < e.comm_size
        → in_areas (areas e.variables) x ≡ true
        → w' k x ≡ w e.root_rank x
    pub initial :
        (k : ℕ)
        → k < e.comm_size
        → k ≢ e.root_rank
        → All
            (λ r.
              (x : ℕ)
              → IsByte r x
              → in_areas (areas e.variables) x ≡ false
              → identity r.type r.op ≡ some (w' k x))
            e.reduces
    pub shared :
        (k p j : ℕ)
        → k < e.comm_size
        → j < e.page_size
        → IsShared e p j
        → Outside e.reduces (e.page_size * p + j)
        → w' k (e.page_size * p + j) ≡ w e.root_rank (e.page_size * p + j)
    pub others :
        (k p j : ℕ)
        → k < e.comm_size
        → j < e.page_size
        → in_area e.fake_stack (e.page_size * p + j) ≡ false
        → (is_malloc_page e.page_size e.leader_heaps p ≡ false) ⊎ (is_reduced e.reduces p ≡ true)
        → Outside e.reduces (e.page_size * p + j)
        → in_areas (areas e.variables) (e.page_size * p + j) ≡ false
        → w' k (e.page_size * p + j) ≡ w k (e.page_size * p + j)

  begun :
      (usable : IsUsable e) (w w2 w3 w4 : World)
      → Transferred e w w2
      → ((k : ℕ) → k < e.comm_size → Started k (w2 k) (w3 k))
      → ((k x : ℕ) → w4 k x ≡ (if in_areas (areas e.variables) x then w3 e.root_rank x else w3 k x))
      → Begun w w4
  begun usable w w2 w3 w4 moved started copied =
      let root = e.root_rank in
      let root3 : (x : ℕ) → w3 root x ≡ w root x =
        λ x. ap (λ (m : Bytes). m x) ((started root usable.root).leader refl) ∙ moved.leader x in
      record {
        leader = λ x. copied root x ∙ either (in_areas (areas e.variables) x) refl ∙ root3 x;
        variables = λ k x lt v. copied k x ∙ rw v (root3 x);
        initial = λ k lt other.
            All-map _ _ (λ r there x i v. there x i ∙ ap some (sym (copied k x ∙ rw v refl)))
              e.reduces ((started k lt).there other);
        shared = λ k p j lt ltj h o.
            copied k _
            ∙ either (in_areas (areas e.variables) _)
                ((started k lt).kept _ o ∙ moved.shared k p j ltj h ∙ sym (root3 _))
            ∙ root3 _;
        others = λ k p j lt ltj s h o v.
            copied k _ ∙ rw v ((started k lt).kept _ o ∙ moved.others k p j ltj s h);
      }

module _ (P : PageSet) (doc_set : PageSetDocumented P) {mpi : Mpi}
    {op_combine : ℕ → Datatype → Combine} (doc : MpiDocumented mpi op_combine) (e : Entry)
    (usable : IsUsable e) (dont_need : DontNeed e.madvise) where
  -- A section is entered without an exception, and then: the leader's memory is what it was; every
  -- rank has the leader's bytes in the Fortran variables, and, outside the reduce areas, in the stack
  -- and in every page that meets a block of a heap and lies in no reduce area's inner range; every
  -- worker has in each reduce area, outside the Fortran variables, the initial value of the area's
  -- type and operation; and all other bytes of every rank are what they were. Conditions: the areas
  -- passed the test for overlaps, are of at least one byte, do not wrap and are of supported types and
  -- operations; the entry's sizes are usable; the areas that are sent are below 2^64 less the largest
  -- int, with fuel for one round more than each has full chunks, rounded up; and the clean pages of
  -- blocks agree beforehand.
  pub section_entered :
      (fuel : ℕ) (w : World)
      → verify_reduces_no_overlap e.reduces ≡ none
      → All IsFilled e.reduces
      → All IsSupported e.reduces
      → All
          (λ mem. (mem.size + int_max < word) × (mem.size ≤ fuel * int_max))
          (sent_areas P e (w e.root_rank))
      → CleanAgree e.page_size e.entries e.leader_heaps e.reduces e.root_rank w
      → (w' : World) × (enter_section P mpi (suc fuel) e w ≡ some w') × Begun e w w'
  section_entered fuel w verified filled supported sizes agree =
      let apart = verified_apart e.reduces filled verified in
      let (w1, run1, there1) = sync_stack_lem doc e.fake_stack e.root_rank w usable.stack in
      let (w2, run2, moved) =
        stack_then_heap P doc_set doc e usable dont_need fuel w w1 there1 sizes agree in
      let started = λ (k : ℕ). rank-Started e k (w2 k) supported apart in
      let (w3, run3, there3) =
        every_rank_lem e.comm_size (λ k. init_reduces e.root_rank e.reduces k (w2 k))
          (λ k. (started k).0) w2 (λ k lt. (started k).1) in
      let (s, run4, empty, waited, copied) =
        sync_globals_whole e.waitany_variables e.variables usable.waits_variables
          usable.variables in
      (
        replay e.root_rank s.issued w3,
        all_run P mpi (suc fuel) e w w1 w2 w3 s verified run1 run2 run3 run4,
        begun e usable w w2 w3 (replay e.root_rank s.issued w3) moved
            (λ k lt. subst (Started e k (w2 k)) (sym (there3 k lt)) (started k).2)
            (λ k x.
              ap (λ (v : World). v k x) (copied e.root_rank w3)
              ∙ copy_areas_at e.root_rank (areas e.variables) w3 k x),
      )
