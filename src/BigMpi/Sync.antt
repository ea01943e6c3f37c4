-- ===== src/BigMpi/Sync.antt =====
-- sync_areas waits for every request it starts, and its requests add up to the areas.
use mathlib.Core.List.{Perm, perm_middle}
use mathlib.Core.List.Perm
use simple_parallel.Prelude.{
  ℕ, zero, suc, ◌+◌, ◌-◌, ◌*◌, ◌≤◌, ◌<◌, min, Option, some, List, [], ◌∷◌, ◌++◌, ◌≡◌, refl, sym, ap,
  ◌∙◌, ap₂, arith, length, length-append, length-set, get_elem?, set, ltb, ◌==◌, int_max, word,
  add64_lem, Bool-cases, inl, inr, ltb→lt, ltb→le, ==→eq, append-nil, append_assoc, All, subst₂,
}
use native.Mathlib.Nat.{mul-one, add-zero, sub-zero}
use simple_parallel.Types.{MemArea}
use simple_parallel.Mpi.{World, elementwise, everybody, from_root}
use simple_parallel.BigMpi.Whole.{rest_step, elementwise_none}
use simple_parallel.BigMpi.Requests.{
  capacity, Requests, async_wait_request, waitall, Chunk, issue_area, issue_areas, sync_areas,
}

-- The bytes of a chunk, from the root to everybody.
abbrev pub copy_bytes : ℕ → ℕ → ℕ → World → World
copy_bytes root at n w = elementwise 1 everybody (from_root root) at n w

-- What the broadcasts do to the memory, in the order in which they were started.
abbrev pub replay : ℕ → List Chunk → World → World
replay root [] w = w
replay root (c ∷ cs) w = replay root cs (copy_bytes root c.begin c.count w)

-- Every area copied whole.
abbrev pub copy_areas : ℕ → List MemArea → World → World
copy_areas root [] w = w
copy_areas root (mem ∷ mems) w = copy_areas root mems (copy_bytes root mem.addr mem.size w)

pub replay-append :
    (root : ℕ) (cs ds : List Chunk) (w : World)
    → replay root (cs ++ ds) w ≡ replay root ds (replay root cs w)
replay-append root [] ds w = refl
replay-append root (c ∷ cs) ds w = replay-append root cs ds (copy_bytes root c.begin c.count w)

module _ {A : Type 0} where
  get_elem?-total : (xs : List A) (i : ℕ) → i < length xs → (x : A) × (get_elem? xs i ≡ some x)
  get_elem?-total [] i h = elim h [ ]
  get_elem?-total (x ∷ xs) zero h = (x, refl)
  get_elem?-total (x ∷ xs) (suc i) h = get_elem?-total xs i (omega arith)

  set-perm :
      (xs : List A) (i : ℕ) (old new : A)
      → get_elem? xs i ≡ some old
      → Perm (old ∷ set xs i new) (new ∷ xs)
  set-perm [] i old new e = absurd (cc)
  set-perm (x ∷ xs) zero old new e = let same : x ≡ old = cc in rw same (Perm.swap new old xs)
  set-perm (x ∷ xs) (suc i) old new e =
      Perm.trans (Perm.swap x old (set xs i new))
        (Perm.trans (Perm.cons x (set-perm xs i old new e)) (Perm.swap new x xs))

  reused :
      (waited buffer : List A) (i : ℕ) (old new : A)
      → get_elem? buffer i ≡ some old
      → Perm ((waited ++ old ∷ []) ++ set buffer i new) ((waited ++ buffer) ++ new ∷ [])
  reused waited buffer i old new e =
      rw (append_assoc waited (old ∷ []) (set buffer i new), append_assoc waited buffer (new ∷ []))
        (Perm.append_left waited (
          Perm.trans (set-perm buffer i old new e)
            (Perm.symm (rw (append-nil buffer) at (perm_middle {a = new} buffer [])))))

  -- The requests in the buffer and those waited for are those started.
  pub record IsBalanced (s : Requests A) : Type 0 where
    pub within : length s.buffer ≤ capacity
    pub balanced : Perm (s.waited ++ s.buffer) s.issued

  module _ (waitany : ℕ → ℕ) (in_range : (k : ℕ) → waitany k < capacity) where
    pub async_wait_total :
        (r : A) (s : Requests A)
        → IsBalanced s
        → (s' : Requests A) × (async_wait_request waitany r s ≡ some s')
          × IsBalanced s'
          × (s'.issued ≡ s.issued ++ r ∷ [])
    unfolding async_wait_request
    async_wait_total r s b = elim (Bool-cases (length s.buffer == capacity)) [
      | inl full ↦
          let at = waitany (length s.waited) in
          let (old, e) = get_elem?-total s.buffer at (rw (==→eq _ _ full) (in_range _)) in
          (
            record {
              buffer = set s.buffer at r;
              issued = s.issued ++ r ∷ [];
              waited = s.waited ++ old ∷ [];
            },
            ground arith,
            record {
              within = omega (arith, length-set s.buffer at r, b.within);
              balanced =
                  Perm.trans (reused s.waited s.buffer at old r e)
                    (Perm.append_right (r ∷ []) b.balanced);
            },
            refl,
          )
      | inr room ↦ (
        record { buffer = s.buffer ++ r ∷ []; issued = s.issued ++ r ∷ []; waited = s.waited },
        ground arith,
        record {
          within = ground (arith, length-append s.buffer (r ∷ []), b.within);
          balanced =
              rw (← append_assoc s.waited s.buffer (r ∷ []))
                (Perm.append_right (r ∷ []) b.balanced);
        },
        refl,
      )
    ]

-- A chunk and then the rest is all that was left.
copy_step :
    (root at sent count : ℕ) (v : World)
    → sent < count
    → copy_bytes root
        (at + (sent + int_max))
        (count - (sent + int_max))
        (copy_bytes root (at + sent) (min int_max (count - sent)) v)
      ≡ copy_bytes root (at + sent) (count - sent) v
copy_step root at sent count v lt =
    subst₂
      (λ a b.
        copy_bytes root (at + b) (count - (sent + int_max))
          (copy_bytes root (at + a) (min int_max (count - sent)) v)
        ≡ copy_bytes root (at + a) (count - sent) v)
      (mul-one sent) (mul-one (sent + int_max))
      (rest_step 1 everybody (from_root root) at (omega arith) sent count v lt)

abbrev first_chunk : MemArea → ℕ → Chunk
first_chunk mem sent = record { begin = mem.addr + sent; count = min int_max (mem.size - sent) }

module _ (waitany : ℕ → ℕ) (fuel : ℕ) (mem : MemArea) (sent : ℕ) (s : Requests Chunk) where
  area_done : mem.size ≤ sent → issue_area waitany (suc fuel) mem sent s ≡ some s
  unfolding issue_area
  area_done h = ground arith

  area_more :
      {s' : Requests Chunk}
      → mem.size + int_max < word
      → sent < mem.size
      → async_wait_request waitany (first_chunk mem sent) s ≡ some s'
      → issue_area waitany (suc fuel) mem sent s ≡ issue_area waitany fuel mem (sent + int_max) s'
  unfolding issue_area
  area_more {s'} small lt e = ground (arith, add64_lem sent int_max (omega arith))

unfoldable pub nothing : Requests Chunk
nothing = record { buffer = []; issued = []; waited = [] }

pub nothing-IsBalanced : IsBalanced nothing
unfolding nothing
nothing-IsBalanced = record { within = omega arith; balanced = Perm.refl [] }

module _ (waitany : ℕ → ℕ) (in_range : (k : ℕ) → waitany k < capacity) where
  -- A state that a part of the work may leave behind, with the memory that its requests give.
  abbrev Leads : Option (Requests Chunk) → (ℕ → World → World) → Type 0
  Leads r f =
      (s' : Requests Chunk) × (r ≡ some s')
      × IsBalanced s'
      × ((root : ℕ) (w : World) → replay root s'.issued w ≡ f root w)

  issue_done :
      (fuel : ℕ) (mem : MemArea) (sent : ℕ) (s : Requests Chunk)
      → IsBalanced s
      → mem.size ≤ sent
      → Leads
          (issue_area waitany (suc fuel) mem sent s)
          (λ root w. copy_bytes root (mem.addr + sent) (mem.size - sent) (replay root s.issued w))
  issue_done fuel mem sent s b over =
      let none_left : mem.size - sent ≡ 0 = omega arith in
      (
        s,
        area_done waitany fuel mem sent s over,
        b,
        λ root w.
            sym (rw none_left (elementwise_none 1 everybody (from_root root) (mem.addr + sent) _)),
      )

  issue_area_total :
      (fuel : ℕ) (mem : MemArea) (sent : ℕ) (s : Requests Chunk)
      → IsBalanced s
      → mem.size + int_max < word
      → mem.size - sent ≤ fuel * int_max
      → Leads
          (issue_area waitany (suc fuel) mem sent s)
          (λ root w. copy_bytes root (mem.addr + sent) (mem.size - sent) (replay root s.issued w))
  issue_area_total zero mem sent s b small enough = issue_done zero mem sent s b (omega arith)
  issue_area_total (suc fuel) mem sent s b small enough = elim (Bool-cases (ltb sent mem.size)) [
    | inr over ↦ issue_done (suc fuel) mem sent s b (ltb→le _ _ over)
    | inl more ↦
        let lt = ltb→lt sent mem.size more in
        let (s1, e1, b1, i1) = async_wait_total waitany in_range (first_chunk mem sent) s b in
        let (s2, e2, b2, r2) =
          issue_area_total fuel mem (sent + int_max) s1 b1 small (omega arith) in
        (
          s2,
          area_more waitany (suc fuel) mem sent s small lt e1 ∙ e2,
          b2,
          λ root w.
              r2 root w
              ∙ rw (i1, replay-append root s.issued (first_chunk mem sent ∷ []) w)
                  (copy_step root mem.addr sent mem.size (replay root s.issued w) lt),
        )
  ]

  issue_areas_total :
      (fuel : ℕ) (mems : List MemArea) (s : Requests Chunk)
      → IsBalanced s
      → All (λ mem. (mem.size + int_max < word) × (mem.size ≤ fuel * int_max)) mems
      → Leads
          (issue_areas waitany (suc fuel) mems s)
          (λ root w. copy_areas root mems (replay root s.issued w))
  unfolding issue_areas
  issue_areas_total fuel [] s b h = (s, refl, b, λ root w. refl)
  issue_areas_total fuel (mem ∷ mems) s b h =
      let (s1, e1, b1, r1) = issue_area_total fuel mem 0 s b h.0.0 (omega arith) in
      let (s2, e2, b2, r2) = issue_areas_total fuel mems s1 b1 h.1 in
      (
        s2,
        rw (e1, issue_areas) e2,
        b2,
        λ root w.
            r2 root w
            ∙ ap (copy_areas root mems) (
                r1 root w
                ∙ ap₂ (λ a n. copy_bytes root a n (replay root s.issued w)) (add-zero mem.addr)
                    (sub-zero mem.size)),
      )

-- Whatever requests `MPI_Waitany` reports, the loop over areas whose sizes are below 2^64 less the
-- largest int ends, with fuel for one round more than the largest area has full chunks, rounded up;
-- the buffer of 256 requests is never overfull, every request that was started is waited for
-- exactly once and none is left in the buffer; and the broadcasts that were started copy, on every
-- rank, each area from the root, and nothing else.
pub sync_areas_whole :
    (waitany : ℕ → ℕ) (fuel : ℕ) (mems : List MemArea)
    → ((k : ℕ) → waitany k < capacity)
    → All (λ mem. (mem.size + int_max < word) × (mem.size ≤ fuel * int_max)) mems
    → (s : Requests Chunk) × (sync_areas waitany (suc fuel) mems ≡ some s)
      × (s.buffer ≡ [])
      × Perm s.waited s.issued
      × ((root : ℕ) (w : World) → replay root s.issued w ≡ copy_areas root mems w)
unfolding sync_areas waitall nothing
sync_areas_whole waitany fuel mems in_range h =
    let (s, e, b, r) = issue_areas_total waitany in_range fuel mems nothing nothing-IsBalanced h in
    (waitall s, rw (e, sync_areas), refl, b.balanced, r)
