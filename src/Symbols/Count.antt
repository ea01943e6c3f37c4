-- ===== src/Symbols/Count.antt =====
-- The GNU hash table gives the number of symbols.
use simple_parallel.Prelude.{
  ℕ, zero, suc, ◌+◌, ◌-◌, ◌*◌, ◌%◌, ◌^◌, ◌≤◌, ◌<◌, ◌≡◌, ◌≢◌, ◌⊎◌, refl, ◌∙◌, sym, ap, subst, false,
  some, ltb, ◌==◌, if◌then◌else◌, bit_and, arith, Bool-cases, inl, inr, ltb→lt, ltb→le, ==→eq,
}
use simple_parallel.Symbols.{last_symbol, walk, header_at, get_sym_num_from_gnu_hash}

module _ (words : ℕ → ℕ) where
  -- The largest of a number and the buckets.
  last_symbol_lem :
      (n a last : ℕ)
      → let r = last_symbol words n a last in
        (last ≤ r)
        × ((i : ℕ) → i < n → words (a + 4 * i) ≤ r)
        × ((r ≡ last) ⊎ ((i : ℕ) × (i < n) × (words (a + 4 * i) ≡ r)))
  unfolding last_symbol
  last_symbol_lem zero a last = (omega arith, (λ i lt. absurd (omega arith)), inl refl)
  last_symbol_lem (suc n) a last =
      let next = if ltb last (words a) then words a else last in
      let (ge, all, one) = last_symbol_lem n (a + 4) next in
      let first : a + 4 * 0 ≡ a = omega arith in
      let at_first : words (a + 4 * 0) ≡ words a = ap words first in
      let shift : (i : ℕ) → a + 4 + 4 * i ≡ a + 4 * suc i = λ i. omega arith in
      (
        ground (arith, ge),
        elim [
          | zero ↦ λ lt. ground (arith, ge, at_first)
          | suc i ↦ λ lt.
              subst (λ k. words k ≤ last_symbol words n (a + 4) next) (shift i)
                (all i (omega arith))
        ],
        elim one [
          | inr (i, lt, e) ↦ inr (suc i, omega (arith, lt), sym (ap words (shift i)) ∙ e)
          | inl e ↦ elim (Bool-cases (ltb last (words a))) [
            | inl more ↦
                let e' : next ≡ words a = rw more refl in
                inr (0, omega arith, at_first ∙ sym e' ∙ sym e)
            | inr le ↦ let e' : next ≡ last = rw le refl in inl (e ∙ e')
          ]
        ],
      )

  -- A chain from a symbol that ends at the last one before `n`.
  pub record IsChain (base off last n : ℕ) : Type 0 where
    pub within : last < n
    pub open_until : (k : ℕ) → last ≤ k → k + 1 < n → bit_and (words (base + (k - off) * 4)) 1 ≡ 0
    pub closed : bit_and (words (base + (n - 1 - off) * 4)) 1 ≢ 0

  module _ (fuel base off last : ℕ) (small : last + 1 < 2 ^ 32) where
    walk_more :
        bit_and (words (base + (last - off) * 4)) 1 ≡ 0
        → walk words (suc fuel) base off last ≡ walk words fuel base off (last + 1)
    unfolding walk
    walk_more e =
        let low : (last + 1) % 2 ^ 32 ≡ last + 1 = omega arith in
        rw (e, walk) (ap (walk words fuel base off) low)

    walk_end :
        bit_and (words (base + (last - off) * 4)) 1 ≢ 0
        → walk words (suc fuel) base off last ≡ some (last + 1)
    unfolding walk
    walk_end odd =
        let low : (last + 1) % 2 ^ 32 ≡ last + 1 = omega arith in
        elim (Bool-cases (bit_and (words (base + (last - off) * 4)) 1 == 0)) [
          | inl even ↦ absurd (odd (==→eq _ 0 even))
          | inr not_even ↦ rw (not_even, walk) (ap some low)
        ]

  IsChain-next :
      (base off last n : ℕ) → last + 1 < n → IsChain base off last n → IsChain base off (last + 1) n
  IsChain-next base off last n lt chain = record {
    within = lt;
    open_until = λ k le. chain.open_until k (omega arith);
    closed = chain.closed;
  }

  walk_lem :
      (fuel base off last n : ℕ)
      → IsChain base off last n
      → n < 2 ^ 32
      → n - last ≤ fuel
      → walk words fuel base off last ≡ some n
  walk_lem zero base off last n chain small enough = absurd (omega (arith, chain.within))
  walk_lem (suc fuel) base off last n chain small enough =
      let within = chain.within in
      elim (Bool-cases (ltb (last + 1) n)) [
        | inl more ↦
            let lt = ltb→lt (last + 1) n more in
            walk_more fuel base off last (omega arith) (chain.open_until last (omega arith) lt)
            ∙ walk_lem fuel base off (last + 1) n (IsChain-next base off last n lt chain) small
                (omega arith)
        | inr over ↦
            let last_one : n - 1 ≡ last = omega (arith, ltb→le (last + 1) n over) in
            let count : last + 1 ≡ n = omega (arith, ltb→le (last + 1) n over) in
            walk_end fuel base off last (omega arith)
              (subst (λ k. bit_and (words (base + (k - off) * 4)) 1 ≢ 0) last_one chain.closed)
            ∙ ap some count
      ]

  -- A GNU hash table at `a` of a file with `n` symbols: the buckets hold the first symbols of their
  -- chains or 0, `largest` is the largest of them and a hashed symbol, and the last symbol ends its
  -- chain.
  pub record IsTable (a largest n : ℕ) : Type 0 where
    pub below : (i : ℕ) → i < words a → words (a + 16 + 8 * words (a + 8) + 4 * i) ≤ largest
    pub attained : (i : ℕ) × (i < words a) × (words (a + 16 + 8 * words (a + 8) + 4 * i) ≡ largest)
    pub hashed : words (a + 4) ≤ largest
    pub chain : IsChain (a + 16 + 8 * words (a + 8) + 4 * words a) (words (a + 4)) largest n

  -- For the GNU hash table of a file with fewer than 2^32 symbols, of which some are hashed, and
  -- with fuel for the symbols from the largest bucket on, the result is the number of symbols.
  pub gnu_hash_lem :
      (fuel a largest n : ℕ)
      → IsTable a largest n
      → n < 2 ^ 32
      → n - largest ≤ fuel
      → get_sym_num_from_gnu_hash words fuel a ≡ some n
  unfolding get_sym_num_from_gnu_hash header_at
  gnu_hash_lem fuel a largest n table small enough =
      let buckets = a + 16 + 8 * words (a + 8) in
      let (ge, all, one) = last_symbol_lem (words a) buckets 0 in
      let (i, lt, e) = table.attained in
      let up : largest ≤ last_symbol words (words a) buckets 0 = omega (arith, all i lt, e) in
      let found : last_symbol words (words a) buckets 0 ≡ largest = elim one [
        | inl none_there ↦ omega (arith, none_there, up)
        | inr (k, ltk, ek) ↦ omega (arith, ek, up, table.below k ltk)
      ] in
      let hashed : ltb largest (words (a + 4)) ≡ false = ground (arith, table.hashed) in
      rw (found, hashed) (walk_lem fuel _ (words (a + 4)) largest n table.chain small enough)
