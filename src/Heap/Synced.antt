-- ===== src/Heap/Synced.antt =====
-- After the transfer of the heap, the workers' heap is the leader's.
use simple_parallel.Prelude.{
  ℕ, suc, ◌+◌, ◌*◌, ◌≤◌, ◌<◌, ◌≡◌, ◌⊎◌, refl, ◌∙◌, sym, ap, Bool, true, false, not, ◌&&◌, Option,
  some, List, ◌==◌, if◌then◌else◌, Bool-cases, inl, inr, ==→eq, ==_refl, All, word, int_max,
}
use simple_parallel.Types.{MemArea, ReduceArea}
use simple_parallel.Mpi.{World}
use simple_parallel.Pages.{Pte, is_dirty, is_touched}
use simple_parallel.BigMpi.Requests.{capacity}
use simple_parallel.BigMpi.Sync.{copy_areas, replay, sync_areas_whole}
use simple_parallel.Heap.{memareas, recv_zero_page, Scanned, sync_heap, get_zero_and_dirty_pages}
use simple_parallel.Heap.ZeroPage.{Bytes, is_zeroed_pg_simd, is_zeroed_iff}
use simple_parallel.Heap.Transfer.{DontNeed, in_areas, copy_areas_at, page_of_areas, zeroed_ranges}
use simple_parallel.Heap.Scan.{is_wanted, is_reduced, scanned_pages}
use simple_parallel.Heap.Blocks.{is_malloc_page}
use simple_parallel.Heap.Sets.{PageSet, PageSetDocumented}

-- What makes a worker's heap differ from the leader's is in pages that are dirty and touched: the
-- other pages of blocks, outside the reduce areas, are the same on all ranks.
abbrev pub CleanAgree : ℕ → (ℕ → Pte) → List (List MemArea) → List ReduceArea → ℕ → World → Type 0
CleanAgree page_size entries heaps reduces root w =
    (k p j : ℕ)
    → j < page_size
    → is_malloc_page page_size heaps p ≡ true
    → is_reduced reduces p ≡ false
    → (is_dirty (entries p) && is_touched (entries p)) ≡ false
    → w k (page_size * p + j) ≡ w root (page_size * p + j)

module _ (P : PageSet) (doc : PageSetDocumented P) (page_size lanes rounds : ℕ) (pos : 0 < lanes)
    (some_round : 0 < rounds) (e : page_size ≡ 8 * (rounds * lanes)) (entries : ℕ → Pte)
    (heaps : List (List MemArea)) (reduces : List ReduceArea) (root : ℕ) (w : World) where
  abbrev is_zeroed : ℕ → Bool
  is_zeroed = is_zeroed_pg_simd page_size lanes (w root)

  abbrev is_sent : ℕ → Bool
  is_sent p = is_malloc_page page_size heaps p && is_wanted entries (is_reduced reduces p) p

  abbrev received : ℕ → ℕ → ℕ → ℕ
  received p root_byte old =
      if is_sent p && is_zeroed p
      then 0
      else if is_sent p && not (is_zeroed p)
      then root_byte
      else old

  -- A page that is sent ends as the root's, the others stay.
  received_lem :
      (k p j : ℕ)
      → j < page_size
      → received p (w root (page_size * p + j)) (w k (page_size * p + j))
        ≡ (if is_sent p then w root (page_size * p + j) else w k (page_size * p + j))
  received_lem k p j lt =
      by_cases (w root (page_size * p + j)) (w k (page_size * p + j)) (is_sent p) (is_zeroed p)
        (λ z. sym ((is_zeroed_iff lanes rounds pos some_round (w root) page_size p e).0 z j lt))
    where
      by_cases :
          (r v : ℕ) (s z : Bool)
          → (z ≡ true → 0 ≡ r)
          → (if s && z then 0 else if s && not z then r else v) ≡ (if s then r else v)
      by_cases r v true true h = h refl
      by_cases r v true false h = refl
      by_cases r v false z h = refl

  either : (b c : Bool) (u v : ℕ) → v ≡ u → (if b then u else v) ≡ (if c then u else v)
  either true true u v h = refl
  either true false u v h = sym h
  either false true u v h = h
  either false false u v h = refl

  abbrev scanned : Scanned P
  scanned = get_zero_and_dirty_pages P entries is_zeroed page_size heaps reduces

  module _ (madvise : MemArea → Bytes → Option Bytes) (dont_need : DontNeed madvise) where
    -- What rank `k` has once the areas are copied and the zeroed ranges are received.
    abbrev at_end : ℕ → Bytes → Bytes
    at_end k mem =
        if k == root
        then mem
        else recv_zero_page page_size madvise (P.ranges scanned.zero_pages) mem

    at_end_lem :
        (k p j : ℕ)
        → j < page_size
        → at_end k
            (copy_areas root (memareas page_size (P.ranges scanned.dirty_pages)) w k)
            (page_size * p + j)
          ≡ (if is_sent p then w root (page_size * p + j) else w k (page_size * p + j))
    at_end_lem k p j lt =
        let x = page_size * p + j in
        let areas = memareas page_size (P.ranges scanned.dirty_pages) in
        let (d, z) = scanned_pages P doc entries is_zeroed page_size heaps reduces p in
        let copied : copy_areas root areas w k x
            ≡ (if is_sent p && not (is_zeroed p) then w root x else w k x) =
          copy_areas_at root areas w k x
          ∙ ap (λ b. if b then w root x else w k x)
              (page_of_areas page_size p j lt (P.ranges scanned.dirty_pages) ∙ d) in
        elim (Bool-cases (k == root)) [
          | inl same ↦ rw same (copied ∙ either _ _ _ _ (ap (λ i. w i x) (==→eq k root same)))
          | inr other ↦ rw other (
              zeroed_ranges page_size madvise dont_need p j lt (P.ranges scanned.zero_pages) _
              ∙ rw (z, copied) (received_lem k p j lt))
        ]

    sent_or_same :
        (m d t r : Bool) (u v : ℕ)
        → m ≡ true
        → r ≡ false
        → ((d && t) ≡ false → v ≡ u)
        → (if m && (d && t && not r) then u else v) ≡ u
    sent_or_same true true true false u v a b h = refl
    sent_or_same true true false false u v a b h = h refl
    sent_or_same true false t false u v a b h = h refl
    sent_or_same true d t true u v a b h = absurd (cc)
    sent_or_same false d t r u v a b h = absurd (cc)

    not_sent :
        (m d t r : Bool) (u v : ℕ)
        → (m ≡ false) ⊎ (r ≡ true)
        → (if m && (d && t && not r) then u else v) ≡ v
    not_sent false d t r u v h = refl
    not_sent true true true true u v h = refl
    not_sent true true true false u v h = absurd (elim h [ inl a ↦ cc | inr a ↦ cc ])
    not_sent true true false r u v h = refl
    not_sent true false t r u v h = refl

    -- The transfer of the heap ends and no rank's memory is left out: when the clean pages of blocks
    -- agree beforehand, then afterwards every rank has the leader's bytes in every page that meets
    -- a block of a heap and lies in no reduce area's inner range; the leader's own bytes, and on
    -- every rank the bytes of all other pages, are what they were. Pages are of a size that the
    -- vectors divide, with at least one word in a vector; a zeroed page's advice to the system
    -- succeeds or not; and every area of dirty pages is below 2^64 less the largest int, with fuel
    -- for one round more than it has full chunks, rounded up.
    pub heap_synced :
        (waitany : ℕ → ℕ) (fuel : ℕ)
        → ((k : ℕ) → waitany k < capacity)
        → All
            (λ mem. (mem.size + int_max < word) × (mem.size ≤ fuel * int_max))
            (memareas page_size (P.ranges scanned.dirty_pages))
        → CleanAgree page_size entries heaps reduces root w
        → (w' : World) × (sync_heap P page_size lanes entries waitany madvise
              (suc fuel)
              heaps
              reduces
              root
              w
            ≡ some w')
          × ((x : ℕ) → w' root x ≡ w root x)
          × ((k p j : ℕ)
              → j < page_size
              → is_malloc_page page_size heaps p ≡ true
              → is_reduced reduces p ≡ false
              → w' k (page_size * p + j) ≡ w root (page_size * p + j))
          × ((k p j : ℕ)
              → j < page_size
              → (is_malloc_page page_size heaps p ≡ false) ⊎ (is_reduced reduces p ≡ true)
              → w' k (page_size * p + j) ≡ w k (page_size * p + j))
    unfolding sync_heap is_wanted
    heap_synced waitany fuel bounded sizes agree =
        let areas = memareas page_size (P.ranges scanned.dirty_pages) in
        let (sent, e', empty, waited, copied) = sync_areas_whole waitany fuel areas bounded sizes in
        let there = λ (k p j : ℕ) (lt : j < page_size).
          ap (λ v. at_end k (v k) (page_size * p + j)) (copied root w) ∙ at_end_lem k p j lt in
        (
          (λ rank. at_end rank (replay root sent.issued w rank)),
          rw (e', sync_heap) refl,
          (λ x. rw (==_refl root) (
              ap (λ v. v root x) (copied root w)
              ∙ copy_areas_at root areas w root x
              ∙ either (in_areas areas x) true (w root x) (w root x) refl)),
          (λ k p j lt m r.
              there k p j lt
              ∙ sent_or_same (is_malloc_page page_size heaps p) (is_dirty (entries p))
                  (is_touched (entries p)) (is_reduced reduces p) _ _ m r (agree k p j lt m r)),
          λ k p j lt h.
              there k p j lt
              ∙ not_sent (is_malloc_page page_size heaps p) (is_dirty (entries p))
                  (is_touched (entries p)) (is_reduced reduces p) _ _ h,
        )
