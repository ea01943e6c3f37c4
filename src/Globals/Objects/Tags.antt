-- ===== src/Globals/Objects/Tags.antt =====
-- The dynamic tags and the hash table of an object, entry by entry.
use simple_parallel.Prelude.{
  ℕ, zero, suc, ◌+◌, ◌-◌, ◌*◌, ◌≤◌, ◌<◌, ◌≡◌, ◌≢◌, refl, ◌∙◌, sym, ap, subst, true, false, none,
  some, List, [], ◌∷◌, arith, ◌==◌, ◌^◌,
}
use simple_parallel.Symbols.{DynamicTag, find, sym_cnt, get_sym_cnt}
use simple_parallel.Symbols.Count.{IsTable, gnu_hash_lem}
use simple_parallel.Globals.Objects.{Image, tags_from}

module _ (image : Image) where
  -- Entry `j` of the array of tags; an entry has 16 bytes.
  abbrev pub entry : ℕ → ℕ → DynamicTag
  entry address j = image.tag_at (address + 16 * j)

  -- An array of `m` tags before the one that ends it.
  pub record IsTagArray (address m : ℕ) : Type 0 where
    pub open_until : (j : ℕ) → j < m → (entry address j).d_tag ≢ 0
    pub closed : (entry address m).d_tag ≡ 0

  -- The first entry with the tag has the value.
  pub record HasTag (address m tag v : ℕ) : Type 0 where
    pub index : ℕ
    pub within : index < m
    pub is_tag : (entry address index).d_tag ≡ tag
    pub value : (entry address index).d_ptr ≡ v
    pub first : (j : ℕ) → j < index → (entry address j).d_tag ≢ tag

  abbrev pub LacksTag : ℕ → ℕ → ℕ → Type 0
  LacksTag address m tag = (j : ℕ) → j < m → (entry address j).d_tag ≢ tag

  -- The number of symbols: the second word of the hash table, or that of the GNU hash table.
  pub data HasCount (address m n fuel : ℕ) : Type 0 where
    by_hash : (h : ℕ) → HasTag address m 4 h → image.word_at (h + 4) ≡ n → HasCount address m n fuel
    by_gnu_hash :
        (g largest : ℕ)
        → LacksTag address m 4
        → HasTag address m 0x6fff_fef5 g
        → IsTable image.word_at g largest n
        → n < 2 ^ 32
        → n - largest ≤ fuel
        → HasCount address m n fuel

  abbrev pub tag_list : ℕ → ℕ → List DynamicTag
  tag_list zero address = []
  tag_list (suc m) address = image.tag_at address ∷ tag_list m (address + 16)

  shift : (address j : ℕ) → entry (address + 16) j ≡ entry address (suc j)
  shift address j =
      let same : address + 16 + 16 * j ≡ address + 16 * suc j = omega arith in
      ap (λ a. image.tag_at a) same

  at_first : (address : ℕ) → entry address 0 ≡ image.tag_at address
  at_first address =
      let same : address + 16 * 0 ≡ address = omega arith in ap (λ a. image.tag_at a) same

  pub tags_from_lem :
      (m fuel address : ℕ)
      → ((j : ℕ) → j < m → (entry address j).d_tag ≢ 0)
      → (entry address m).d_tag ≡ 0
      → m < fuel
      → tags_from image fuel address ≡ some (tag_list m address)
  unfolding tags_from
  tags_from_lem m zero address before after lt = absurd (omega (arith, lt))
  tags_from_lem zero (suc fuel) address before after lt =
      let null : (image.tag_at address).d_tag ≡ 0 =
        subst (λ (t : DynamicTag). t.d_tag ≡ 0) (at_first address) after in
      let ends : ((image.tag_at address).d_tag == 0) ≡ true = ground (arith, null) in
      rw (tags_from, ends) refl
  tags_from_lem (suc m) (suc fuel) address before after lt =
      let some_tag : (image.tag_at address).d_tag ≢ 0 =
        subst (λ (t : DynamicTag). t.d_tag ≢ 0) (at_first address) (before 0 (omega arith)) in
      let goes_on : ((image.tag_at address).d_tag == 0) ≡ false = ground (arith, some_tag) in
      let rest =
        tags_from_lem m fuel (address + 16)
          (λ j ltj.
            subst (λ (t : DynamicTag). t.d_tag ≢ 0) (sym (shift address j))
              (before (suc j) (omega (arith, ltj))))
          (subst (λ (t : DynamicTag). t.d_tag ≡ 0) (sym (shift address m)) after)
          (omega (arith, lt)) in
      rw (tags_from, goes_on, rest) refl

  find_at :
      (tag m j address : ℕ)
      → j < m
      → (entry address j).d_tag ≡ tag
      → ((i : ℕ) → i < j → (entry address i).d_tag ≢ tag)
      → find tag (tag_list m address) ≡ some (entry address j).d_ptr
  unfolding find
  find_at tag zero j address lt e first = absurd (omega (arith, lt))
  find_at tag (suc m) zero address lt e first =
      let here : (image.tag_at address).d_tag ≡ tag =
        subst (λ (t : DynamicTag). t.d_tag ≡ tag) (at_first address) e in
      let is : ((image.tag_at address).d_tag == tag) ≡ true = ground (arith, here) in
      rw (find, is) (ap (λ (t : DynamicTag). some t.d_ptr) (sym (at_first address)))
  find_at tag (suc m) (suc j) address lt e first =
      let other : (image.tag_at address).d_tag ≢ tag =
        subst (λ (t : DynamicTag). t.d_tag ≢ tag) (at_first address) (first 0 (omega arith)) in
      let differs : ((image.tag_at address).d_tag == tag) ≡ false = ground (arith, other) in
      let rest =
        find_at tag m j (address + 16) (omega (arith, lt))
          (subst (λ (t : DynamicTag). t.d_tag ≡ tag) (sym (shift address j)) e)
          (λ i lti.
            subst (λ (t : DynamicTag). t.d_tag ≢ tag) (sym (shift address i))
              (first (suc i) (omega (arith, lti)))) in
      rw (find, differs) (rest ∙ ap (λ (t : DynamicTag). some t.d_ptr) (shift address j))

  pub find-HasTag :
      (tag m address v : ℕ) → HasTag address m tag v → find tag (tag_list m address) ≡ some v
  find-HasTag tag m address v h =
      find_at tag m h.index address h.within h.is_tag h.first ∙ ap some h.value

  find-LacksTag :
      (tag m address : ℕ) → LacksTag address m tag → find tag (tag_list m address) ≡ none
  unfolding find
  find-LacksTag tag zero address h = refl
  find-LacksTag tag (suc m) address h =
      let other : (image.tag_at address).d_tag ≢ tag =
        subst (λ (t : DynamicTag). t.d_tag ≢ tag) (at_first address) (h 0 (omega arith)) in
      let differs : ((image.tag_at address).d_tag == tag) ≡ false = ground (arith, other) in
      rw (find, differs)
        (find-LacksTag tag m (address + 16) (λ j lt.
          subst (λ (t : DynamicTag). t.d_tag ≢ tag) (sym (shift address j))
            (h (suc j) (omega (arith, lt)))))

  pub get_sym_cnt-HasCount :
      (m n address fuel : ℕ)
      → HasCount address m n fuel
      → get_sym_cnt image.word_at fuel (tag_list m address) ≡ sym_cnt n
  unfolding get_sym_cnt
  get_sym_cnt-HasCount m n address fuel (HasCount.by_hash h at e) =
      rw (get_sym_cnt, find-HasTag 4 m address h at, e) refl
  get_sym_cnt-HasCount m n address fuel
        (HasCount.by_gnu_hash g largest lacks at table small enough) =
      rw
        (
          get_sym_cnt,
          find-LacksTag 4 m address lacks,
          find-HasTag 0x6fff_fef5 m address g at,
          gnu_hash_lem image.word_at fuel g largest n table small enough,
        )
        refl
