-- ===== src/Heap/ZeroPage.antt =====
-- src/simple_parallel/leader.cc, is_zeroed_pg_simd: whether all words of a page are zero. The number
-- of lanes of a vector is the machine's.
use Prim.Native.Nat.{bit_or-bitwise, digits}
use native.Mathlib.Nat.{div-add-mod', mod-lt, div-mul-le_self}
use simple_parallel.Prelude.{
  ℕ, zero, suc, ◌+◌, ◌-◌, ◌*◌, ◌/◌, ◌%◌, ◌≤◌, ◌<◌, max, bit_or, Bool, true, false, not, ◌||◌, ◌≡◌,
  ◌↔◌, refl, ◌∙◌, sym, ltb→lt, ltb→le, ap₂, subst, ==→eq, arith, ltb, ◌==◌, if◌then◌else◌,
  Bool-cases, inl, inr,
}

-- Memory of one rank, by address.
abbrev pub Bytes : Type 0
Bytes = ℕ → ℕ

-- A `uint64_t` in memory, least byte first.
abbrev pub load64 : Bytes → ℕ → ℕ
load64 mem a =
    mem a
    + 0x100 * mem (a + 1)
    + 0x1_0000 * mem (a + 2)
    + 0x100_0000 * mem (a + 3)
    + 0x1_0000_0000 * mem (a + 4)
    + 0x100_0000_0000 * mem (a + 5)
    + 0x1_0000_0000_0000 * mem (a + 6)
    + 0x100_0000_0000_0000 * mem (a + 7)

-- `for (size_t i = 0; i < size; i += lanes)`, which joins the vectors into `res`, lane by lane.
unfoldable pub or_words : ℕ → ℕ → (ℕ → ℕ) → ℕ → ℕ → (ℕ → ℕ) → ℕ → ℕ
or_words zero lanes words i size res = res
or_words (suc fuel) lanes words i size res = elim (ltb i size) [
  | true ↦ or_words fuel lanes words (i + lanes) size (λ l. bit_or (res l) (words (i + l)))
  | false ↦ res
]

-- `AllTrue(Eq(res, Zero))`
unfoldable pub all_zero : ℕ → (ℕ → ℕ) → Bool
all_zero zero res = true
all_zero (suc n) res = if res n == 0 then all_zero n res else false

-- The fast test of two words first, then all of them.
unfoldable pub is_zeroed_pg_simd : ℕ → ℕ → Bytes → ℕ → Bool
unfolding or_words all_zero
is_zeroed_pg_simd page_size lanes mem page_num =
    let words = λ (k : ℕ). load64 mem (page_size * page_num + 8 * k) in
    let size = page_size / 8 in
    if not (words 0 == 0) || not (words (size / 2) == 0)
    then false
    else all_zero lanes (or_words size lanes words 0 size (λ _. 0))

bit_or_fuel : (fuel x y : ℕ) → x ≤ fuel → digits (λ b. b) max fuel x y ≡ 0 → (x ≡ 0) × (y ≡ 0)
bit_or_fuel zero zero y le e = (refl, e)
bit_or_fuel zero (suc x) y le e = absurd (omega arith)
bit_or_fuel (suc fuel) zero y le e = (refl, e)
bit_or_fuel (suc fuel) (suc x) y le e =
    let (a, b) = bit_or_fuel fuel (suc x / 2) (y / 2) (omega arith) (omega arith) in
    absurd (omega arith)

-- A disjunction is zero exactly when both numbers are.
bit_or-eq-zero : (x y : ℕ) → (bit_or x y ≡ 0) ↔ ((x ≡ 0) × (y ≡ 0))
bit_or-eq-zero x y =
    ((λ e. bit_or_fuel x x y (omega arith) (sym (bit_or-bitwise x y) ∙ e)), λ h. ap₂ bit_or h.0 h.1)

all_zero_iff : (n : ℕ) (res : ℕ → ℕ) → (all_zero n res ≡ true) ↔ ((l : ℕ) → l < n → res l ≡ 0)
unfolding all_zero
all_zero_iff zero res = ((λ e l lt. absurd (omega arith)), λ h. refl)
all_zero_iff (suc n) res = (
  (λ e l lt. elim (Bool-cases (l == n)) [
    | inl last ↦ subst (λ k. res k ≡ 0) (sym (==→eq l n last)) (ground arith)
    | inr other ↦ (all_zero_iff n res).0 (ground arith) l (ground arith)
  ]),
  λ h. ground (arith, h n (omega arith), (all_zero_iff n res).1 (λ l lt. h l (omega arith))),
)

module _ (lanes : ℕ) (words : ℕ → ℕ) (size : ℕ) (pos : 0 < lanes) where
  whole_round :
      (rounds m l : ℕ)
      → size ≡ rounds * lanes
      → l < lanes
      → 0 + m * lanes < size
      → 0 + m * lanes + l < size
  whole_round rounds m l e lt b = elim (Bool-cases (ltb m rounds)) [
    | inl more ↦ grind (arith, ltb→lt m rounds more)
    | inr over ↦ absurd (grind (arith, ltb→le m rounds over))
  ]

  -- The words of lane `l` from index `i` on.
  abbrev LaneZero : ℕ → ℕ → Type 0
  LaneZero i l = (m : ℕ) → i + m * lanes < size → words (i + m * lanes + l) ≡ 0

  lane_split : (i l : ℕ) → i < size → LaneZero i l ↔ ((words (i + l) ≡ 0) × LaneZero (i + lanes) l)
  lane_split i l lt = (
    (λ h. (
      subst (λ k. words (k + l) ≡ 0) (let z : i + 0 * lanes ≡ i = omega arith in z)
          (h 0 (omega arith)),
      λ m b.
          subst (λ k. words (k + l) ≡ 0)
            (let s : i + suc m * lanes ≡ i + lanes + m * lanes = omega arith in s)
            (h (suc m) (omega arith)),
    )),
    λ (z, h). elim [
      | zero ↦ λ b. subst (λ k. words (k + l) ≡ 0) (let e : i ≡ i + 0 * lanes = omega arith in e) z
      | suc m ↦ λ b.
          subst (λ k. words (k + l) ≡ 0)
            (let s : i + lanes + m * lanes ≡ i + suc m * lanes = omega arith in s)
            (h m (omega arith))
    ],
  )

  module _ (fuel i l : ℕ) (res : ℕ → ℕ) where
    words_done : size ≤ i → or_words (suc fuel) lanes words i size res l ≡ res l
    unfolding or_words
    words_done h = ground arith

    words_more :
        i < size
        → or_words (suc fuel) lanes words i size res l
          ≡ or_words fuel lanes words (i + lanes) size (λ k. bit_or (res k) (words (i + k))) l
    unfolding or_words
    words_more h = ground arith

  or_words_iff :
      (fuel i l : ℕ) (res : ℕ → ℕ)
      → size - i ≤ fuel
      → (or_words fuel lanes words i size res l ≡ 0) ↔ ((res l ≡ 0) × LaneZero i l)
  unfolding or_words
  or_words_iff zero i l res le = ((λ e. (e, λ m b. absurd (omega arith))), λ h. h.0)
  or_words_iff (suc fuel) i l res le = elim (Bool-cases (ltb i size)) [
    | inr over ↦ (
      (λ e. (
        sym (words_done fuel i l res (ltb→le i size over)) ∙ e,
        λ m b. absurd (omega (arith, ltb→le i size over)),
      )),
      λ h. words_done fuel i l res (ltb→le i size over) ∙ h.0,
    )
    | inl more ↦
        let lt = ltb→lt i size more in
        let next = words_more fuel i l res lt in
        let ih =
          or_words_iff fuel (i + lanes) l (λ k. bit_or (res k) (words (i + k))) (omega arith) in
        let both = bit_or-eq-zero (res l) (words (i + l)) in
        let split = lane_split i l lt in
        (
          (λ e. let (o, h) = ih.0 (sym next ∙ e) in let (a, b) = both.0 o in (a, split.1 (b, h))),
          λ h. let (b, r) = split.0 h.1 in next ∙ ih.1 (both.1 (h.0, b), r),
        )
  ]

  -- The lanes together hold all words, when they divide the page.
  lanes_iff :
      (rounds : ℕ)
      → size ≡ rounds * lanes
      → ((l : ℕ) → l < lanes → LaneZero 0 l) ↔ ((k : ℕ) → k < size → words k ≡ 0)
  lanes_iff rounds e = (
    (λ h k lt.
        subst (λ j. words j ≡ 0)
          (let s : 0 + k / lanes * lanes + k % lanes ≡ k = omega (arith, div-add-mod' k lanes) in s)
          (h (k % lanes) (mod-lt k pos) (k / lanes) (omega (arith, div-mul-le_self k lanes)))),
    λ h l lt m b. h (0 + m * lanes + l) (whole_round rounds m l e lt b),
  )

byte_of : (mem : Bytes) (a b : ℕ) → load64 mem a ≡ 0 → b < 8 → mem (a + b) ≡ 0
byte_of mem a zero e lt = let z : a + 0 ≡ a = omega arith in rw z (omega arith)
byte_of mem a (suc zero) e lt = omega arith
byte_of mem a (suc (suc zero)) e lt = omega arith
byte_of mem a (suc (suc (suc zero))) e lt = omega arith
byte_of mem a (suc (suc (suc (suc zero)))) e lt = omega arith
byte_of mem a (suc (suc (suc (suc (suc zero))))) e lt = omega arith
byte_of mem a (suc (suc (suc (suc (suc (suc zero)))))) e lt = omega arith
byte_of mem a (suc (suc (suc (suc (suc (suc (suc zero))))))) e lt = omega arith
byte_of mem a (suc (suc (suc (suc (suc (suc (suc (suc b)))))))) e lt = absurd (omega arith)

word_of : (mem : Bytes) (a : ℕ) → ((b : ℕ) → b < 8 → mem (a + b) ≡ 0) → load64 mem a ≡ 0
word_of mem a h =
    let z : a + 0 ≡ a = omega arith in
    omega (
      arith,
      rw z at (h 0 (omega arith)),
      h 1 (omega arith),
      h 2 (omega arith),
      h 3 (omega arith),
      h 4 (omega arith),
      h 5 (omega arith),
      h 6 (omega arith),
      h 7 (omega arith),
    )

words_bytes :
    (mem : Bytes) (base size : ℕ)
    → ((k : ℕ) → k < size → load64 mem (base + 8 * k) ≡ 0)
      ↔ ((j : ℕ) → j < 8 * size → mem (base + j) ≡ 0)
words_bytes mem base size = (
  (λ h j lt.
      subst (λ x. mem x ≡ 0) (let s : base + 8 * (j / 8) + j % 8 ≡ base + j = omega arith in s)
        (byte_of mem (base + 8 * (j / 8)) (j % 8) (h (j / 8) (omega arith)) (omega arith))),
  λ h k lt. word_of mem (base + 8 * k) (λ b lb.
      subst (λ x. mem x ≡ 0) (let s : base + (8 * k + b) ≡ base + 8 * k + b = omega arith in s)
        (h (8 * k + b) (omega arith))),
)

module _ (lanes rounds : ℕ) (pos : 0 < lanes) (some_round : 0 < rounds) where
  -- The SIMD test of a page holds exactly when every byte of the page is zero, on a machine whose
  -- vectors of at least one word divide the page.
  pub is_zeroed_iff :
      (mem : Bytes) (page_size page_num : ℕ)
      → page_size ≡ 8 * (rounds * lanes)
      → (is_zeroed_pg_simd page_size lanes mem page_num ≡ true)
        ↔ ((j : ℕ) → j < page_size → mem (page_size * page_num + j) ≡ 0)
  unfolding is_zeroed_pg_simd
  is_zeroed_iff mem page_size page_num e =
      let size = page_size / 8 in
      let words = λ (k : ℕ). load64 mem (page_size * page_num + 8 * k) in
      let whole : size ≡ rounds * lanes = omega arith in
      let back : 8 * size ≡ page_size = omega arith in
      let some_word : 0 < size = rw whole (grind arith) in
      let res = or_words size lanes words 0 size (λ _. 0) in
      let all = all_zero_iff lanes res in
      let lane = λ (l : ℕ). or_words_iff lanes words size pos size 0 l (λ _. 0) (omega arith) in
      let joined = lanes_iff lanes words size pos rounds whole in
      let bytes = words_bytes mem (page_size * page_num) size in
      (
        (λ t j lt.
            bytes.0 (joined.0 (λ l ll. ((lane l).0 (all.0 (ground (arith, t)) l ll)).1)) j
              (omega arith)),
        λ h.
            let w = bytes.1 (λ j lt. h j (omega arith)) in
            let a = all.1 (λ l ll. (lane l).1 (refl, joined.1 w l ll)) in
            ground (arith, w 0 some_word, w (size / 2) (omega arith), a),
      )
