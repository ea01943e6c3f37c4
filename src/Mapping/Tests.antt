-- ===== src/Mapping/Tests.antt =====
-- Two mappings in a reserved heap, the second one refused where it was asked first.
use simple_parallel.Prelude.{
  ℕ, ◌+◌, ◌*◌, ◌≤◌, ◌<◌, ◌≡◌, ◌≢◌, ◌⊎◌, refl, sym, ap, bit_or, true, Option, none, some, List, [],
  ◌∷◌, ◌++◌, ◌==◌, arith, if◌then◌else◌, All,
}
use simple_parallel.Types.{MemArea}
use simple_parallel.Mapping.{MemOp, Mapper, step, place, placed, round_up, proxy_mmap}
use simple_parallel.Mapping.Replay.{
  Kernel, KernelDocumented, perform_all, all_on_leader, in_span, Mirrors, replay-Mirrors,
}
use simple_parallel.Mapping.Fresh.{Refused, EndsBefore, IsBelow, mmap_fresh}

abbrev heap : MemArea
heap = record { addr = 4096; size = 8 * step }

abbrev mapper : Mapper
mapper = record {
  begin = 4096 + step;
  memory_operations = MemOp.mmap 4096 100 3 34 0 0 ∷ MemOp.munmap 4096 50 ∷ [];
}

abbrev taken : ℕ → Option ℕ
taken a = if a == 4096 + step then none else some a

taken_run :
    proxy_mmap taken heap 9 200 3 34 0 0 mapper
    ≡ some (
      some (4096 + 2 * step),
      record {
        begin = 4096 + 3 * step;
        memory_operations =
            mapper.memory_operations ++ MemOp.mmap (4096 + 2 * step) 200 3 34 0 0 ∷ [];
      },
    )
unfolding proxy_mmap place placed round_up
taken_run = refl

mmap_fresh_example :
    ((k : ℕ) × (proxy_mmap taken heap 9 200 3 34 0 0 mapper ≡ some (none, mapper))
      × (heap.addr + heap.size < mapper.begin + k * step + 200)
      × Refused taken mapper.begin k)
    ⊎ ((k : ℕ) × (m' : Mapper) × let res = mapper.begin + k * step in
          (proxy_mmap taken heap 9 200 3 34 0 0 mapper ≡ some (some res, m'))
          × (taken res ≡ some res)
          × Refused taken mapper.begin k
          × (res + 200 ≤ heap.addr + heap.size)
          × All (EndsBefore res) mapper.memory_operations
          × (m'.memory_operations ≡ mapper.memory_operations ++ MemOp.mmap res 200 3 34 0 0 ∷ [])
          × (res + 200 ≤ m'.begin)
          × (m'.begin < res + 200 + step)
          × IsBelow heap m')
mmap_fresh_example =
    mmap_fresh taken heap 8 200 3 34 0 0 mapper (omega arith, (omega arith, (tt, tt))) (omega arith)

abbrev mapped : (addr len prot flags offset : ℕ) → (ℕ → Option ℕ) → ℕ → Option ℕ
mapped addr len prot flags offset s x = if in_span addr len x then some prot else s x

-- A kernel that maps wherever it is asked.
abbrev kernel : Kernel
kernel = record {
  Space = ℕ → Option ℕ;
  protection = λ s x. s x;
  mmap = λ addr len prot flags offset s. some (mapped addr len prot flags offset s);
  madvise = λ addr len advice s. some s;
}

kernel-KernelDocumented : KernelDocumented kernel
kernel-KernelDocumented = record {
  mmap_lem = λ addr len prot flags offset s s' e x.
      let same : mapped addr len prot (bit_or flags 16) offset s ≡ s' = cc in
      ap (λ f. f x) (sym same);
  madvise_lem = λ addr len advice s s' e x. let same : s ≡ s' = cc in ap (λ f. f x) (sym same);
}

abbrev some_ops : List MemOp
some_ops = MemOp.mmap 4096 8192 3 34 0 0 ∷ MemOp.munmap 8192 4096 ∷ MemOp.madvise 4096 4096 4 ∷ []

replay-Mirrors_example :
    ((s' : ℕ → Option ℕ)
      → perform_all kernel true some_ops (λ x. some 0) ≡ some s'
      → Mirrors kernel kernel-KernelDocumented true heap s' (all_on_leader some_ops (λ x. none)))
    × (true ≡ true
        → ((addr len prot flags offset : ℕ) (t : ℕ → Option ℕ)
            → some (mapped addr len prot flags offset t) ≢ none)
        → (s' : ℕ → Option ℕ) × (perform_all kernel true some_ops (λ x. some 0) ≡ some s'))
replay-Mirrors_example =
    replay-Mirrors kernel kernel-KernelDocumented true heap some_ops (λ x. some 0) (λ x. none)
      (λ x within. refl)
