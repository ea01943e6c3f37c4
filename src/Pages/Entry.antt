-- ===== src/Pages/Entry.antt =====
-- Which bits of a page table entry the tests read.
use Prim.Native.Nat.{bit_and-bitwise, digits}
use native.Mathlib.Nat.{pow-succ', div-div-eq-div-mul, zero-div}
use simple_parallel.Prelude.{
  ℕ, zero, suc, ◌*◌, ◌/◌, ◌%◌, ◌^◌, ◌≤◌, min, ◌≡◌, ◌↔◌, ◌⊎◌, refl, ◌∙◌, true, arith, bit_and,
}
use simple_parallel.Pages.{Pte, is_dirty, is_present, is_swapped, is_touched}

-- The conjunction digit by digit, with a bound on the digits of the first number.
abbrev conj : ℕ → ℕ → ℕ → ℕ
conj fuel x y = digits (λ _. 0) min fuel x y

conj_enough : (x y f g : ℕ) → x ≤ f → x ≤ g → conj f x y ≡ conj g x y
conj_enough zero y zero zero _ _ = refl
conj_enough zero y zero (suc g) _ _ = refl
conj_enough zero y (suc f) zero _ _ = refl
conj_enough zero y (suc f) (suc g) _ _ = refl
conj_enough (suc x) y zero g le _ = absurd (omega arith)
conj_enough (suc x) y (suc f) zero _ le = absurd (omega arith)
conj_enough (suc x) y (suc f) (suc g) le le' =
    omega (arith, conj_enough (suc x / 2) (y / 2) f g (omega arith) (omega arith))

conj-zero : (f x : ℕ) → conj f x 0 ≡ 0
conj-zero zero x = refl
conj-zero (suc f) zero = refl
conj-zero (suc f) (suc x) = omega (arith, conj-zero f (suc x / 2))

no_bit : (q r : ℕ) → 0 ≡ 0 / q % 2 * r
no_bit q r = rw (zero-div q) (omega arith)

-- A conjunction with one power of two reads that bit.
conj-pow : (k f x : ℕ) → x ≤ f → conj f x (2 ^ k) ≡ x / 2 ^ k % 2 * 2 ^ k
conj-pow zero zero zero le = refl
conj-pow zero zero (suc x) le = absurd (omega arith)
conj-pow zero (suc f) zero le = refl
conj-pow zero (suc f) (suc x) le = omega (arith, conj-zero f (suc x / 2))
conj-pow (suc k) zero zero le = no_bit (2 ^ suc k) (2 ^ suc k)
conj-pow (suc k) zero (suc x) le = absurd (omega arith)
conj-pow (suc k) (suc f) zero le = no_bit (2 ^ suc k) (2 ^ suc k)
conj-pow (suc k) (suc f) (suc x) le =
    let half : 2 * 2 ^ k / 2 ≡ 2 ^ k = omega arith in
    let even : 2 * 2 ^ k % 2 ≡ 0 = omega arith in
    rw
      (
        pow-succ' 2 k,
        half,
        even,
        conj-pow k f (suc x / 2) (omega arith),
        div-div-eq-div-mul (suc x) 2 (2 ^ k),
      )
      (omega arith)

pub bit_and-pow : (k x : ℕ) → bit_and x (2 ^ k) ≡ x / 2 ^ k % 2 * 2 ^ k
bit_and-pow k x = bit_and-bitwise x (2 ^ k) ∙ conj-pow k x x (omega arith)

-- An entry is dirty exactly when bit 55 of its number is set, and touched exactly when bit 63 or bit
-- 62 is.
pub entry_bits :
    (p : Pte)
    → ((is_dirty p ≡ true) ↔ (p.entry / 2 ^ 55 % 2 ≡ 1))
      × ((is_touched p ≡ true) ↔ ((p.entry / 2 ^ 63 % 2 ≡ 1) ⊎ (p.entry / 2 ^ 62 % 2 ≡ 1)))
unfolding is_dirty is_touched is_present is_swapped
entry_bits p =
    let d = bit_and-pow 55 p.entry in
    let r = bit_and-pow 63 p.entry in
    let s = bit_and-pow 62 p.entry in
    (
      ((λ h. ground (arith, h, d)), λ h. ground (arith, h, d)),
      ((λ h. ground (arith, h, r, s)), λ h. ground (arith, h, r, s)),
    )
