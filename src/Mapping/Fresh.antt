-- ===== src/Mapping/Fresh.antt =====
-- What proxy_mmap hands out.
use simple_parallel.Prelude.{
  ℕ, zero, suc, ◌+◌, ◌*◌, ◌%◌, ◌≤◌, ◌<◌, ◌≡◌, ◌≢◌, ◌⊎◌, refl, ◌∙◌, sym, ap, subst, false, Option,
  none, some, List, [], ◌∷◌, ◌++◌, arith, ltb, ◌==◌, Bool-cases, inl, inr, Option-cases, ltb→lt,
  ltb→le, ==→eq, All, All-append,
}
use simple_parallel.Types.{MemArea}
use simple_parallel.Mapping.{MemOp, step, Mapper, round_up, Placed, place, placed, proxy_mmap}

round_up_lem :
    (n : ℕ) → (n ≤ round_up n step) × (round_up n step < n + step) × (round_up n step % step ≡ 0)
unfolding round_up
round_up_lem n = elim (Bool-cases (n % step == 0)) [
  | inl exact ↦ rw exact (omega arith, omega arith, ground arith)
  | inr rest ↦ rw rest (omega arith, ground arith, ground arith)
]

failed_apart : {o : Option ℕ} {a : ℕ} → o ≡ none → o ≡ some a → ⊥
failed_apart f e = cc

elsewhere : {o : Option ℕ} {res a : ℕ} → o ≡ some res → (res == a) ≡ false → o ≡ some a → ⊥
elsewhere {res = res} {a = a} e other e' =
    let both : some res ≡ some a = sym e ∙ e' in let same : res ≡ a = cc in ground arith

-- The first `k` addresses from `begin` on, whole steps apart, are not given as asked.
abbrev pub Refused : (ℕ → Option ℕ) → ℕ → ℕ → Type 0
Refused answer begin k = (j : ℕ) → j < k → answer (begin + j * step) ≢ some (begin + j * step)

-- Where the loop ends from `begin` on: at the first address, by whole steps, that the kernel gave as
-- it was asked, in the heap; or past the heap's end, when it gave none in the heap.
abbrev Ends : (ℕ → Option ℕ) → MemArea → ℕ → ℕ → Option Placed → Type 0
Ends answer heap len begin r =
    ((k : ℕ) × (r ≡ some (Placed.at (begin + k * step)))
      × (answer (begin + k * step) ≡ some (begin + k * step))
      × (begin + k * step + len ≤ heap.addr + heap.size)
      × Refused answer begin k)
    ⊎ ((k : ℕ) × (r ≡ some Placed.overflow)
        × (heap.addr + heap.size < begin + k * step + len)
        × Refused answer begin k)

one_more :
    (answer : ℕ → Option ℕ) (begin k : ℕ)
    → answer begin ≢ some begin
    → Refused answer (begin + step) k
    → Refused answer begin (suc k)
one_more answer begin k here rest zero lt e =
    let same : begin + 0 * step ≡ begin = omega arith in
    here (subst (λ a. answer a ≡ some a) same e)
one_more answer begin k here rest (suc j) lt e =
    let same : begin + suc j * step ≡ begin + step + j * step = omega arith in
    rest j (omega (arith, lt)) (subst (λ a. answer a ≡ some a) same e)

module _ (answer : ℕ → Option ℕ) (heap : MemArea) (len : ℕ) where
  further :
      (begin : ℕ) (r : Option Placed)
      → answer begin ≢ some begin
      → Ends answer heap len (begin + step) r
      → Ends answer heap len begin r
  further begin r here (inr (k, e, past, refused)) =
      inr (suc k, e, omega (arith, past), one_more answer begin k here refused)
  further begin r here (inl (k, e, given, fits, refused)) =
      let same : begin + step + k * step ≡ begin + suc k * step = omega arith in
      inl (
        suc k,
        subst (λ a. r ≡ some (Placed.at a)) same e,
        subst (λ a. answer a ≡ some a) same given,
        omega (arith, fits),
        one_more answer begin k here refused,
      )

  module _ (fuel begin : ℕ) where
    place_past :
        heap.addr + heap.size < begin + len
        → place answer heap len (suc fuel) begin ≡ some Placed.overflow
    unfolding place
    place_past past = ground arith

    place_failed :
        begin + len ≤ heap.addr + heap.size
        → answer begin ≡ none
        → place answer heap len (suc fuel) begin ≡ place answer heap len fuel (begin + step)
    unfolding place
    place_failed fits failed = ground arith

    place_elsewhere :
        (res : ℕ)
        → begin + len ≤ heap.addr + heap.size
        → answer begin ≡ some res
        → (res == begin) ≡ false
        → place answer heap len (suc fuel) begin ≡ place answer heap len fuel (begin + step)
    unfolding place
    place_elsewhere res fits e other = ground arith

    place_there :
        begin + len ≤ heap.addr + heap.size
        → answer begin ≡ some begin
        → place answer heap len (suc fuel) begin ≡ some (Placed.at begin)
    unfolding place
    place_there fits e = ground arith

  here :
      (begin : ℕ) (r : Option Placed)
      → begin + len ≤ heap.addr + heap.size
      → answer begin ≡ some begin
      → r ≡ some (Placed.at begin)
      → Ends answer heap len begin r
  here begin r fits given e =
      let same : begin ≡ begin + 0 * step = omega arith in
      inl (
        0,
        subst (λ a. r ≡ some (Placed.at a)) same e,
        subst (λ a. answer a ≡ some a) same given,
        omega (arith, fits),
        λ j lt. absurd (omega (arith, lt)),
      )

  past_end :
      (begin : ℕ) (r : Option Placed)
      → heap.addr + heap.size < begin + len
      → r ≡ some Placed.overflow
      → Ends answer heap len begin r
  past_end begin r past e = inr (0, e, omega (arith, past), λ j lt. absurd (omega (arith, lt)))

  place_lem :
      (fuel begin : ℕ)
      → heap.addr + heap.size < begin + fuel * step
      → Ends answer heap len begin (place answer heap len (suc fuel) begin)
  place_lem zero begin enough = past_end begin _ (omega arith) (place_past 0 begin (omega arith))
  place_lem (suc fuel) begin enough =
      let ih = place_lem fuel (begin + step) (omega arith) in
      elim (Bool-cases (ltb (heap.addr + heap.size) (begin + len))) [
        | inl past ↦
            let over = ltb→lt (heap.addr + heap.size) (begin + len) past in
            past_end begin _ over (place_past (suc fuel) begin over)
        | inr in_heap ↦
            let fits = ltb→le (heap.addr + heap.size) (begin + len) in_heap in
            elim (Option-cases (answer begin)) [
              | inl failed ↦
                  further begin _ (λ e. absurd (failed_apart failed e))
                    (rw (place_failed (suc fuel) begin fits failed) ih)
              | inr (res, e) ↦ elim (Bool-cases (res == begin)) [
                | inl same ↦
                    let given : answer begin ≡ some begin = e ∙ ap some (==→eq res begin same) in
                    here begin _ fits given (place_there (suc fuel) begin fits given)
                | inr other ↦
                    further begin _ (λ e'. elsewhere e other e')
                      (rw (place_elsewhere (suc fuel) begin res fits e other) ih)
              ]
            ]
      ]

-- The mapping ends at or before an address.
abbrev pub EndsBefore : ℕ → MemOp → Type 0
EndsBefore b (MemOp.mmap addr len prot flags fd offset) = addr + len ≤ b
EndsBefore b (MemOp.munmap addr len) = Unit
EndsBefore b (MemOp.madvise addr len advice) = Unit

-- All recorded mappings lie below `begin`, which is not below the heap.
abbrev pub IsBelow : MemArea → Mapper → Type 0
IsBelow heap m = (heap.addr ≤ m.begin) × All (EndsBefore m.begin) m.memory_operations

EndsBefore-le :
    (a b : ℕ) → a ≤ b → (ops : List MemOp) → All (EndsBefore a) ops → All (EndsBefore b) ops
EndsBefore-le a b le [] h = tt
EndsBefore-le a b le (MemOp.mmap addr len prot flags fd offset ∷ ops) h =
    (omega (arith, h.0), EndsBefore-le a b le ops h.1)
EndsBefore-le a b le (MemOp.munmap addr len ∷ ops) h = (tt, EndsBefore-le a b le ops h.1)
EndsBefore-le a b le (MemOp.madvise addr len advice ∷ ops) h = (tt, EndsBefore-le a b le ops h.1)

-- When all recorded mappings lie below `begin`, and with fuel for the steps from there past the end
-- of the reserved heap, proxy_mmap ends. Either the kernel gave none of the addresses that are whole
-- steps from `begin` on and at which the mapping fits into the reserved heap, and nothing is recorded;
-- or it returns the first of them that the kernel gave as asked, the mapping lies in the reserved heap
-- and after every mapping that was recorded before, it is recorded last, the next search begins after
-- it by less than a step, and the recorded mappings lie below that again.
pub mmap_fresh :
    (answer : ℕ → Option ℕ) (heap : MemArea) (fuel len prot flags fd offset : ℕ) (m : Mapper)
    → IsBelow heap m
    → heap.addr + heap.size < m.begin + fuel * step
    → ((k : ℕ) × (proxy_mmap answer heap (suc fuel) len prot flags fd offset m ≡ some (none, m))
        × (heap.addr + heap.size < m.begin + k * step + len)
        × Refused answer m.begin k)
      ⊎ ((k : ℕ) × (m' : Mapper) × let res = m.begin + k * step in
            (proxy_mmap answer heap (suc fuel) len prot flags fd offset m ≡ some (some res, m'))
            × (answer res ≡ some res)
            × Refused answer m.begin k
            × (res + len ≤ heap.addr + heap.size)
            × All (EndsBefore res) m.memory_operations
            × (m'.memory_operations
                ≡ m.memory_operations ++ MemOp.mmap res len prot flags fd offset ∷ [])
            × (res + len ≤ m'.begin)
            × (m'.begin < res + len + step)
            × IsBelow heap m')
unfolding proxy_mmap placed
mmap_fresh answer heap fuel len prot flags fd offset m below enough =
    elim (place_lem answer heap len fuel m.begin enough) [
      | inr (k, past, over, refused) ↦ inl (k, rw (past, placed) refl, over, refused)
      | inl (k, e, given, fits, refused) ↦
          let res = m.begin + k * step in
          let (up, near, whole) = round_up_lem len in
          let before = EndsBefore-le m.begin res (omega arith) m.memory_operations below.1 in
          inr (
            k,
            record {
              begin = res + round_up len step;
              memory_operations =
                  m.memory_operations ++ MemOp.mmap res len prot flags fd offset ∷ [];
            },
            (
              rw (e, placed) refl,
              given,
              refused,
              fits,
              before,
              refl,
              omega (arith, up),
              omega (arith, near),
              (
                omega (arith, below.0),
                All-append _ m.memory_operations _
                    (EndsBefore-le m.begin _ (omega arith) m.memory_operations below.1)
                    (omega (arith, up), tt),
              ),
            ),
          )
    ]
