-- ===== src/Prelude/Family.antt =====
-- Families indexed by the ranks: a change at one index, and sums over the first `n`.
use Prim.Native.Nat.{ℕ, zero, suc, ◌+◌, ◌≤◌, ◌<◌}
use mathlib.Core.Path.{◌≡◌, refl, subst}
use mathlib.Core.Logic.{inl, inr}
use native.Mathlib.Omega.{arith}
use simple_parallel.Prelude.Tests.{◌==◌, if◌then◌else◌, ==→eq, Bool-cases}

-- `f` with the value at `i` replaced.
abbrev pub put {ℓ} : {A : Type ℓ} → (ℕ → A) → ℕ → A → ℕ → A
put f i a j = if i == j then a else f j

module _ {A : Type 0} (weight : A → ℕ) where
  -- The weights of the first `n` members together.
  unfoldable pub total : ℕ → (ℕ → A) → ℕ
  total zero f = 0
  total (suc n) f = weight (f n) + total n f

  total-put_beyond : (n i : ℕ) (f : ℕ → A) (a : A) → n ≤ i → total n (put f i a) ≡ total n f
  unfolding total
  total-put_beyond zero i f a h = refl
  total-put_beyond (suc n) i f a h = ground (arith, total-put_beyond n i f a)

  -- A member that is replaced takes its weight along.
  pub total-put :
      (n i : ℕ) (f : ℕ → A) (a : A)
      → i < n
      → weight (f i) + total n (put f i a) ≡ weight a + total n f
  unfolding total
  total-put zero i f a h = absurd (omega arith)
  total-put (suc n) i f a h = ground (arith, total-put n i f a, total-put_beyond n i f a)

  pub total-ext :
      (n : ℕ) (f g : ℕ → A)
      → ((i : ℕ) → i < n → weight (f i) ≡ weight (g i))
      → total n f ≡ total n g
  unfolding total
  total-ext zero f g h = refl
  total-ext (suc n) f g h =
      omega (arith, h n (omega arith), total-ext n f g (λ i lt. h i (omega arith)))

  pub total-eq-zero : (n : ℕ) (f : ℕ → A) → ((i : ℕ) → weight (f i) ≡ 0) → total n f ≡ 0
  unfolding total
  total-eq-zero zero f h = refl
  total-eq-zero (suc n) f h = omega (arith, h n, total-eq-zero n f h)

-- A statement about every member below `n` survives a change at one index.
pub put_all {ℓ κ} :
    {A : Type ℓ} (P : ℕ → A → Type κ) (n i : ℕ) (f : ℕ → A) (a : A)
    → P i a
    → ((j : ℕ) → j < n → P j (f j))
    → (j : ℕ) → j < n
    → P j (put f i a j)
put_all P n i f a new old j lt = elim (Bool-cases (i == j)) [
  | inl same ↦ rw same (subst (λ k. P k a) (==→eq i j same) new)
  | inr other ↦ rw other (old j lt)
]

-- Two weights that agree on the members have the same total.
pub total-weights :
    {A : Type 0} (v w : A → ℕ) (n : ℕ) (f : ℕ → A)
    → ((i : ℕ) → i < n → v (f i) ≡ w (f i))
    → total v n f ≡ total w n f
unfolding total
total-weights v w zero f h = refl
total-weights v w (suc n) f h =
    omega (arith, h n (omega arith), total-weights v w n f (λ i lt. h i (omega arith)))
