-- ===== src/Rpc/Reserve.antt =====
-- src/simple_parallel/worker.cc, reserve_heap_area: a worker keeps the addresses of the reserved
-- heap for itself. What the kernel answers to the attempts is a parameter.
use simple_parallel.Prelude.{
  ℕ, zero, suc, ◌+◌, ◌≤◌, ◌<◌, ◌≡◌, ◌≢◌, ◌⊎◌, refl, ◌∙◌, ap, sym, true, false, Option, none, some,
  ltb, ◌==◌, ==_refl, arith, Bool-cases, Option-cases, inl, inr, ==→eq, subst,
}

-- How it ends: with the heap reserved at that attempt, or with the one exception or the other.
pub data Reserved : Type 0 where
  reserved : ℕ → Reserved
  failed_mmap : Reserved
  not_at_expected : Reserved

-- The loop: `answer k` is the answer to the attempt number `k`, `none` for `MAP_FAILED`; a block
-- elsewhere is unmapped again. Out of fuel it gives `none`.
unfoldable pub reserve_heap_area : (ℕ → Option ℕ) → ℕ → ℕ → ℕ → Option Reserved
reserve_heap_area answer heap zero loop_count = none
reserve_heap_area answer heap (suc fuel) loop_count = elim (answer (loop_count + 1)) [
  | none ↦ elim (ltb 16 (loop_count + 1)) [
    | true ↦ some failed_mmap
    | false ↦ reserve_heap_area answer heap fuel (loop_count + 1)
  ]
  | some ptr ↦ elim (ptr == heap) [
    | true ↦ some (reserved (loop_count + 1))
    | false ↦ elim (ltb 16 (loop_count + 1)) [
      | true ↦ some not_at_expected
      | false ↦ reserve_heap_area answer heap fuel (loop_count + 1)
    ]
  ]
]

module _ (answer : ℕ → Option ℕ) (heap : ℕ) where
  -- The loop ends with the first attempt that is answered as asked, or with an exception when none
  -- up to the 17th is.
  abbrev pub Ends : ℕ → Option Reserved → Type 0
  Ends loop_count r =
      ((n : ℕ) × (r ≡ some (reserved n))
        × (answer n ≡ some heap)
        × (n ≤ 17)
        × ((k : ℕ) → loop_count < k → k < n → answer k ≢ some heap))
      ⊎ ((r ≡ some failed_mmap) ⊎ (r ≡ some not_at_expected))
        × ((k : ℕ) → loop_count < k → k ≤ 17 → answer k ≢ some heap)

  module _ (fuel loop_count : ℕ) where
    there :
        answer (loop_count + 1) ≡ some heap
        → reserve_heap_area answer heap (suc fuel) loop_count ≡ some (reserved (loop_count + 1))
    unfolding reserve_heap_area
    there e = rw (e, reserve_heap_area) (rw (==_refl heap) refl)

    again :
        answer (loop_count + 1) ≢ some heap
        → loop_count + 1 ≤ 16
        → reserve_heap_area answer heap (suc fuel) loop_count
          ≡ reserve_heap_area answer heap fuel (loop_count + 1)
    unfolding reserve_heap_area
    again other le = ground arith

    gives_up :
        answer (loop_count + 1) ≢ some heap
        → 16 < loop_count + 1
        → (reserve_heap_area answer heap (suc fuel) loop_count ≡ some failed_mmap)
          ⊎ (reserve_heap_area answer heap (suc fuel) loop_count ≡ some not_at_expected)
    unfolding reserve_heap_area
    gives_up other gt = ground arith

  as_asked : (k : ℕ) → (answer k ≡ some heap) ⊎ (answer k ≢ some heap)
  as_asked k = elim (Option-cases (answer k)) [
    | inl failed ↦ inr (λ e. cc)
    | inr (ptr, given) ↦ elim (Bool-cases (ptr == heap)) [
      | inl same ↦ inl (given ∙ ap some (==→eq ptr heap same))
      | inr other ↦ inr (λ e. let same : ptr ≡ heap = cc in ground arith)
    ]
  ]

  -- An attempt in vain, before the attempts of which the statement is known.
  in_vain :
      {P : ℕ → Type 0}
      → (loop_count : ℕ) → answer (loop_count + 1) ≢ some heap
      → ((k : ℕ) → loop_count + 1 < k → P k → answer k ≢ some heap)
      → (k : ℕ) → loop_count < k
      → P k
      → answer k ≢ some heap
  in_vain loop_count other h k lt p = elim (Bool-cases (k == loop_count + 1)) [
    | inl same ↦ subst (λ i. answer i ≢ some heap) (sym (==→eq k (loop_count + 1) same)) other
    | inr later ↦ h k (ground arith) p
  ]

  further :
      (loop_count : ℕ) (r : Option Reserved)
      → answer (loop_count + 1) ≢ some heap
      → Ends (loop_count + 1) r
      → Ends loop_count r
  further loop_count r other (inl (n, e, given, le, before)) =
      inl (n, e, given, le, in_vain {P = λ k. k < n} loop_count other before)
  further loop_count r other (inr (threw, before)) =
      inr (threw, in_vain {P = λ k. k ≤ 17} loop_count other before)

  first_try :
      (fuel loop_count : ℕ)
      → loop_count + 1 ≤ 17
      → answer (loop_count + 1) ≡ some heap
      → Ends loop_count (reserve_heap_area answer heap (suc fuel) loop_count)
  first_try fuel loop_count le given =
      inl (loop_count + 1, there fuel loop_count given, given, le, λ k lt gt. absurd (omega arith))

  attempts :
      (fuel loop_count : ℕ)
      → loop_count + suc fuel ≡ 17
      → Ends loop_count (reserve_heap_area answer heap (suc fuel) loop_count)
  attempts zero loop_count e = elim (as_asked (loop_count + 1)) [
    | inl given ↦ first_try 0 loop_count (omega arith) given
    | inr other ↦ inr (
      gives_up 0 loop_count other (omega arith),
      λ k lt le.
          let same : loop_count + 1 ≡ k = omega arith in
          subst (λ i. answer i ≢ some heap) same other,
    )
  ]
  attempts (suc fuel) loop_count e = elim (as_asked (loop_count + 1)) [
    | inl given ↦ first_try (suc fuel) loop_count (omega arith) given
    | inr other ↦ further loop_count _ other (
        rw (again (suc fuel) loop_count other (omega arith))
          (attempts fuel (loop_count + 1) (omega arith)))
  ]

  -- Whatever the kernel answers, the loop ends within 17 attempts: with the first one that is
  -- answered as asked, or else with one of its exceptions, and then all 17 were in vain.
  pub reserve_heap_area_lem : Ends 0 (reserve_heap_area answer heap 17 0)
  reserve_heap_area_lem = attempts 16 0 refl
