-- ===== src/Mapping/Replay.antt =====
-- The operations as the workers repeat them: the call operators of mmap_params, munmap_params and
-- madvise_params in src/simple_parallel/include/leader.h, one after the other as in
-- recv_and_perform_mem_ops of worker.cc. The kernel is an interface.
use simple_parallel.Prelude.{
  ℕ, ◌+◌, ◌≡◌, ◌≢◌, refl, ◌∙◌, sym, ap, subst, Bool, true, false, ◌&&◌, Option, none, some, List,
  [], ◌∷◌, leb, ltb, bit_or, if◌then◌else◌, Bool-cases, Option-cases, inl, inr,
}
use simple_parallel.Types.{MemArea}
use simple_parallel.Mapping.{MemOp}

abbrev pub prot_none : ℕ
prot_none = 0

abbrev pub map_fixed : ℕ
map_fixed = 0x10

-- `MAP_PRIVATE | MAP_ANONYMOUS | MAP_NORESERVE | MAP_FIXED`
abbrev pub occupy_flags : ℕ
occupy_flags = 0x4032

abbrev pub madv_normal : ℕ
madv_normal = 0

-- A process's address space, and its calls: `none` for `MAP_FAILED` and for -1.
pub record Kernel : Type 1 where
  pub Space : Type 0
  -- the protection of the mapping at an address, if there is one
  pub protection : Space → ℕ → Option ℕ
  pub mmap : (addr len prot flags offset : ℕ) → Space → Option Space
  pub madvise : (addr len advice : ℕ) → Space → Option Space

abbrev pub in_span : ℕ → ℕ → ℕ → Bool
in_span addr len x = leb addr x && ltb x (addr + len)

-- With MAP_FIXED, a successful mmap replaces what was in the span and nothing else; advice maps and
-- unmaps nothing.
pub record KernelDocumented (K : Kernel) : Type 0 where
  pub mmap_lem :
      (addr len prot flags offset : ℕ) (s s' : K.Space)
      → K.mmap addr len prot (bit_or flags map_fixed) offset s ≡ some s'
      → (x : ℕ) → K.protection s' x ≡ (if in_span addr len x then some prot else K.protection s x)
  pub madvise_lem :
      (addr len advice : ℕ) (s s' : K.Space)
      → K.madvise addr len advice s ≡ some s'
      → (x : ℕ) → K.protection s' x ≡ K.protection s x

module _ (K : Kernel) (ndebug : Bool) where
  -- `operator()`; `none` for an exception or `std::terminate`. Without assertions a failing advice
  -- is passed over.
  unfoldable pub perform : MemOp → K.Space → Option K.Space
  perform (MemOp.mmap addr len prot flags fd offset) s =
      K.mmap addr len prot (bit_or flags map_fixed) offset s
  perform (MemOp.munmap addr len) s = K.mmap addr len prot_none occupy_flags 0 s
  perform (MemOp.madvise addr len advice) s =
      if ndebug
      then elim (K.madvise addr len advice s) [ none ↦ some s | some s' ↦ some s' ]
      else K.madvise addr len madv_normal s

  unfoldable pub perform_all : List MemOp → K.Space → Option K.Space
  unfolding perform
  perform_all [] s = some s
  perform_all (op ∷ ops) s = elim (perform op s) [ none ↦ none | some s' ↦ perform_all ops s' ]

-- What the operations mean on the leader: the protection of each address, if it is mapped.
abbrev pub on_leader : MemOp → (ℕ → Option ℕ) → ℕ → Option ℕ
on_leader (MemOp.mmap addr len prot flags fd offset) f x =
    if in_span addr len x then some prot else f x
on_leader (MemOp.munmap addr len) f x = if in_span addr len x then none else f x
on_leader (MemOp.madvise addr len advice) f x = f x

abbrev pub all_on_leader : List MemOp → (ℕ → Option ℕ) → ℕ → Option ℕ
all_on_leader [] f = f
all_on_leader (op ∷ ops) f = all_on_leader ops (on_leader op f)

-- A worker keeps the addresses that the leader has not mapped.
abbrev pub kept : Option ℕ → Option ℕ
kept none = some prot_none
kept (some prot) = some prot

module _ (K : Kernel) (doc : KernelDocumented K) (ndebug : Bool) (heap : MemArea) where
  -- In the reserved heap the worker has the leader's mappings, and keeps the other addresses.
  abbrev pub Mirrors : K.Space → (ℕ → Option ℕ) → Type 0
  Mirrors s f = (x : ℕ) → in_span heap.addr heap.size x ≡ true → K.protection s x ≡ kept (f x)

  kept-if : (b : Bool) (u v : Option ℕ) → kept (if b then u else v) ≡ (if b then kept u else kept v)
  kept-if true u v = refl
  kept-if false u v = refl

  perform-Mirrors :
      (op : MemOp) (s s' : K.Space) (f : ℕ → Option ℕ)
      → Mirrors s f
      → perform K ndebug op s ≡ some s'
      → Mirrors s' (on_leader op f)
  unfolding perform
  perform-Mirrors (MemOp.mmap addr len prot flags fd offset) s s' f h e x within =
      doc.mmap_lem addr len prot flags offset s s' e x
      ∙ ap (λ v. if in_span addr len x then some prot else v) (h x within)
      ∙ sym (kept-if (in_span addr len x) (some prot) (f x))
  perform-Mirrors (MemOp.munmap addr len) s s' f h e x within =
      doc.mmap_lem addr len prot_none 0x4022 0 s s' e x
      ∙ ap (λ v. if in_span addr len x then some prot_none else v) (h x within)
      ∙ sym (kept-if (in_span addr len x) none (f x))
  perform-Mirrors (MemOp.madvise addr len advice) s s' f h e x within = elim (Bool-cases ndebug) [
    | inr checked ↦
        let e' : K.madvise addr len madv_normal s ≡ some s' = rw checked at e in
        doc.madvise_lem addr len madv_normal s s' e' x ∙ h x within
    | inl passed ↦ elim (Option-cases (K.madvise addr len advice s)) [
      | inl failed ↦
          let same : some s ≡ some s' = rw (passed, failed) at e in
          let same' : s ≡ s' = cc in ap (λ v. K.protection v x) (sym same') ∙ h x within
      | inr (s1, e1) ↦
          let same : some s1 ≡ some s' = rw (passed, e1) at e in
          let same' : s1 ≡ s' = cc in
          ap (λ v. K.protection v x) (sym same')
          ∙ doc.madvise_lem addr len advice s s1 e1 x
          ∙ h x within
    ]
  ]

  never_fails :
      (op : MemOp) (s : K.Space)
      → ndebug ≡ true
      → ((addr len prot flags offset : ℕ) (t : K.Space)
          → K.mmap addr len prot flags offset t ≢ none)
      → perform K ndebug op s ≢ none
  unfolding perform
  never_fails (MemOp.mmap addr len prot flags fd offset) s nd total e = total _ _ _ _ _ s e
  never_fails (MemOp.munmap addr len) s nd total e = total _ _ _ _ _ s e
  never_fails (MemOp.madvise addr len advice) s nd total e =
      elim (Option-cases (K.madvise addr len advice s)) [
        | inl failed ↦ let z : some s ≡ none = rw (nd, failed) at e in cc
        | inr (s1, e1) ↦ let z : some s1 ≡ none = rw (nd, e1) at e in cc
      ]

  -- A worker that has the leader's mappings in the reserved heap, and keeps its other addresses, does
  -- so again after it has performed the operations that the leader recorded, if it gets through them
  -- without an exception; and it gets through them if the kernel refuses no mapping and the worker
  -- passes over advice.
  pub replay-Mirrors :
      (ops : List MemOp) (s : K.Space) (f : ℕ → Option ℕ)
      → Mirrors s f
      → ((s' : K.Space) → perform_all K ndebug ops s ≡ some s' → Mirrors s' (all_on_leader ops f))
        × (ndebug ≡ true
            → ((addr len prot flags offset : ℕ) (t : K.Space)
                → K.mmap addr len prot flags offset t ≢ none)
            → (s' : K.Space) × (perform_all K ndebug ops s ≡ some s'))
  unfolding perform_all
  replay-Mirrors [] s f h =
      ((λ s' e. let same : s ≡ s' = cc in subst (λ v. Mirrors v f) same h), λ _ _. (s, refl))
  replay-Mirrors (op ∷ ops) s f h = elim (Option-cases (perform K ndebug op s)) [
    | inl failed ↦ (
      (λ s' e. let z : none ≡ some s' = rw (perform_all, failed) at e in absurd (cc)),
      λ nd total. absurd (never_fails op s nd total failed),
    )
    | inr (s1, e1) ↦
        let (after, through) =
          replay-Mirrors ops s1 (on_leader op f) (perform-Mirrors op s s1 f h e1) in
        (
          (λ s' e. after s' (rw (perform_all, e1) at e)),
          λ nd total. let (s', e') = through nd total in (s', rw (perform_all, e1) e'),
        )
  ]
