-- ===== src/Start/Aslr.antt =====
-- What the check of address randomisation says.
use simple_parallel.Prelude.{
  ℕ, suc, ◌+◌, ◌≡◌, refl, Bool, true, false, none, some, List, [], ◌∷◌, Bool-cases, inl, inr, arith,
  get_elem?, All, ◌⊎◌,
}
use simple_parallel.Start.{aslr_messages, all_disabled, check_aslr_disabled}

-- Every rank that says so has it disabled.
messages-Disabled :
    (rank : ℕ) (ranks : List Bool)
    → All
        (λ k. (i : ℕ) × (k ≡ rank + i) × (get_elem? ranks i ≡ some true))
        (aslr_messages rank ranks)
unfolding aslr_messages
messages-Disabled rank [] = tt
messages-Disabled rank (true ∷ rest) =
    ((0, omega arith, refl), shifted _ (messages-Disabled (rank + 1) rest))
  where
    shifted :
        (ks : List ℕ)
        → All (λ k. (i : ℕ) × (k ≡ rank + 1 + i) × (get_elem? rest i ≡ some true)) ks
        → All (λ k. (i : ℕ) × (k ≡ rank + i) × (get_elem? (true ∷ rest) i ≡ some true)) ks
    shifted [] h = tt
    shifted (k ∷ ks) h = ((suc h.0.0, omega (arith, h.0.1), h.0.2), shifted ks h.1)
messages-Disabled rank (false ∷ rest) = shifted _ (messages-Disabled (rank + 1) rest)
  where
    shifted :
        (ks : List ℕ)
        → All (λ k. (i : ℕ) × (k ≡ rank + 1 + i) × (get_elem? rest i ≡ some true)) ks
        → All (λ k. (i : ℕ) × (k ≡ rank + i) × (get_elem? (false ∷ rest) i ≡ some true)) ks
    shifted [] h = tt
    shifted (k ∷ ks) h = ((suc h.0.0, omega (arith, h.0.1), h.0.2), shifted ks h.1)

all_disabled_lem : (ranks : List Bool) → all_disabled ranks ≡ true → All (λ b. b ≡ true) ranks
unfolding all_disabled
all_disabled_lem [] e = tt
all_disabled_lem (true ∷ rest) e = (refl, all_disabled_lem rest e)
all_disabled_lem (false ∷ rest) e = absurd (cc)

-- Either randomisation is disabled on all ranks and the check passes; or the check aborts, and every
-- rank that says that it is not disabled there is one where it is disabled.
pub check_aslr_disabled_lem :
    (ranks : List Bool)
    → ((check_aslr_disabled ranks ≡ none) × All (λ b. b ≡ true) ranks)
      ⊎ ((said : List ℕ) × (check_aslr_disabled ranks ≡ some said)
          × All (λ k. get_elem? ranks k ≡ some true) said)
unfolding check_aslr_disabled
check_aslr_disabled_lem ranks = elim (Bool-cases (all_disabled ranks)) [
  | inl all ↦ inl (rw all refl, all_disabled_lem ranks all)
  | inr some_not ↦ inr (
    aslr_messages 0 ranks,
    rw some_not refl,
    at_rank (aslr_messages 0 ranks) (messages-Disabled 0 ranks),
  )
]
  where
    at_rank :
        (ks : List ℕ)
        → All (λ k. (i : ℕ) × (k ≡ 0 + i) × (get_elem? ranks i ≡ some true)) ks
        → All (λ k. get_elem? ranks k ≡ some true) ks
    at_rank [] h = tt
    at_rank (k ∷ ks) h =
        let same : k ≡ h.0.0 = omega (arith, h.0.1) in (rw same h.0.2, at_rank ks h.1)
