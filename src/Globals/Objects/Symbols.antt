-- ===== src/Globals/Objects/Symbols.antt =====
-- The symbols of an object's table, entry by entry, and the variables of them.
use simple_parallel.Prelude.{
  ℕ, zero, suc, ◌+◌, ◌*◌, ◌<◌, ◌≡◌, ◌≢◌, ◌↔◌, ◌⊎◌, refl, ◌∙◌, ap, sym, subst, false, some, List, [],
  ◌∷◌, Bool-cases, inl, inr, Any, All, arith, ◌==◌,
}
use simple_parallel.Globals.{Sym, GlobalVariableInfo, Names, get_symbol_from_symtab, is_chosen}
use simple_parallel.Globals.Choice.{IsGlobal, Listed, symtab_iff, chosen_iff}
use simple_parallel.Globals.Objects.{Image, symbol_name_2_addr, symbols_from}

abbrev pub IsIn : GlobalVariableInfo → List GlobalVariableInfo → Type 0
IsIn v vars = Any (λ u. u ≡ v) vars

module _ (image : Image) (names : Names) (sections : List ℕ) (fuel : ℕ) where
  abbrev pub Global : Sym → Type 0
  Global s = IsGlobal names sections (symbol_name_2_addr image) s

  -- What dlsym gives for the name; a null pointer counts when dlerror reports no error.
  abbrev pub HasAddress : ℕ → ℕ → Type 0
  HasAddress name a = (image.dlsym name ≡ a) × ((a ≢ 0) ⊎ (image.dlerror name ≡ false))

  address_iff : (name a : ℕ) → (symbol_name_2_addr image name ≡ some a) ↔ HasAddress name a
  unfolding symbol_name_2_addr
  address_iff name a = elim (Bool-cases (image.dlsym name == 0)) [
    | inr found ↦ rw found (
      (λ e. let same : image.dlsym name ≡ a = cc in (same, inl (ground (arith, same)))),
      λ h. ap some h.0,
    )
    | inl null ↦ elim (Bool-cases (image.dlerror name)) [
      | inl error ↦
          rw (null, error)
            (
              (λ e. absurd (cc)),
              λ h. elim h.1 [
                | inl some_address ↦ absurd (ground (arith, h.0, some_address))
                | inr fine ↦ absurd (ground (arith, fine))
              ],
            )
      | inr fine ↦
          let zero_there : image.dlsym name ≡ 0 = ground arith in
          rw (null, fine)
            (
              (λ e. let same : 0 ≡ a = cc in (zero_there ∙ same, inr refl)),
              λ h. ap some (sym zero_there ∙ h.0),
            )
    ]
  ]

  -- The variable of a symbol: a global one that has an address.
  abbrev pub OfSymbol : Sym → GlobalVariableInfo → Type 0
  OfSymbol s v =
      (a : ℕ) × Global s
      × HasAddress s.st_name a
      × (record { name = s.st_name; area = record { addr = a; size = s.st_size } } ≡ v)

  -- The same in the words of the code.
  abbrev AtSymbol : Sym → GlobalVariableInfo → Type 0
  AtSymbol s v =
      (a : ℕ) × Global s
      × (symbol_name_2_addr image s.st_name ≡ some a)
      × (record { name = s.st_name; area = record { addr = a; size = s.st_size } } ≡ v)

  listed_iff :
      (ss : List Sym) (vars : List GlobalVariableInfo)
      → Listed names sections (symbol_name_2_addr image) ss vars
      → (v : GlobalVariableInfo) → IsIn v vars ↔ Any (λ s. AtSymbol s v) ss
  listed_iff [] [] Listed.done v = ((λ h. h), λ h. h)
  listed_iff [] (u ∷ vars) l v = elim l [ ]
  listed_iff (s ∷ ss) vars (Listed.skip no_global rest) v =
      let (to, from) = listed_iff ss vars rest v in
      ((λ h. inr (to h)), λ h. elim h [ inl i ↦ absurd (no_global i.1) | inr j ↦ from j ])
  listed_iff (s ∷ ss) (u ∷ vars) (Listed.take {a = a} global e rest) v =
      let (to, from) = listed_iff ss vars rest v in
      (
        (λ h. elim h [ inl i ↦ inl (a, global, e, i) | inr j ↦ inr (to j) ]),
        λ h. elim h [
          | inl (b, g, e', i) ↦
              let same : a ≡ b = cc in
              inl (
                ap (λ c. record { name = s.st_name; area = record { addr = c; size = s.st_size } })
                  same
                ∙ i)
          | inr j ↦ inr (from j)
        ],
      )

  -- The variables of symbols that all have an address when they are global.
  symbols_listed :
      (ss : List Sym)
      → All (λ s. Global s → (a : ℕ) × HasAddress s.st_name a) ss
      → (vars : List GlobalVariableInfo) × (get_symbol_from_symtab names sections
            (symbol_name_2_addr image)
            ss
          ≡ some vars)
  unfolding get_symbol_from_symtab
  symbols_listed [] h = ([], refl)
  symbols_listed (s ∷ ss) h =
      let (vars, rest) = symbols_listed ss h.1 in
      elim (Bool-cases (is_chosen names sections (symbol_name_2_addr image) s)) [
        | inr left ↦ (vars, rw (get_symbol_from_symtab, left) rest)
        | inl chosen ↦
            let (a, has) =
              h.0 ((chosen_iff names sections (symbol_name_2_addr image) s).0 chosen) in
            let at = (address_iff s.st_name a).1 has in
            (
              record { name = s.st_name; area = record { addr = a; size = s.st_size } } ∷ vars,
              rw (get_symbol_from_symtab, chosen, at, rest) refl,
            )
      ]

  -- Symbol `i` of a table, of 24 bytes, with its name from the string table.
  abbrev pub symbol_of : (symtab strtab i : ℕ) → Sym
  symbol_of symtab strtab i =
      let s = image.sym_at (symtab + 24 * i) in
      record s { st_name = image.string_at (strtab + s.st_name) }

  next_symbol :
      (symtab strtab i : ℕ) → symbol_of (symtab + 24) strtab i ≡ symbol_of symtab strtab (suc i)
  next_symbol symtab strtab i =
      let same : symtab + 24 + 24 * i ≡ symtab + 24 * suc i = omega arith in
      ap
        (λ a. record (image.sym_at a) {
          st_name = image.string_at (strtab + (image.sym_at a).st_name);
        })
        same

  first_symbol :
      (symtab strtab : ℕ)
      → symbol_of symtab strtab 0 ≡ record (image.sym_at symtab) {
        st_name = image.string_at (strtab + (image.sym_at symtab).st_name);
      }
  first_symbol symtab strtab =
      let same : symtab + 24 * 0 ≡ symtab = omega arith in
      ap
        (λ a. record (image.sym_at a) {
          st_name = image.string_at (strtab + (image.sym_at a).st_name);
        })
        same

  symbols_iff :
      (P : Sym → Type 0) (n symtab strtab : ℕ)
      → Any P (symbols_from image strtab symtab n)
        ↔ ((i : ℕ) × (i < n) × P (symbol_of symtab strtab i))
  unfolding symbols_from
  symbols_iff P zero symtab strtab =
      ((λ h. absurd h), λ h. let (_, lt, _) = h in absurd (omega (arith, lt)))
  symbols_iff P (suc n) symtab strtab =
      let (to, from) = symbols_iff P n (symtab + 24) strtab in
      (
        (λ h. elim h [
          | inl here ↦ (0, omega arith, subst P (sym (first_symbol symtab strtab)) here)
          | inr there ↦
              let (i, lt, p) = to there in
              (suc i, omega (arith, lt), subst P (next_symbol symtab strtab i) p)
        ]),
        λ h. let (i, lt, p) = h in at_index from i lt p,
      )
    where
      at_index :
          (((i : ℕ) × (i < n) × P (symbol_of (symtab + 24) strtab i))
            → Any P (symbols_from image strtab (symtab + 24) n))
          → (i : ℕ) → i < suc n
          → P (symbol_of symtab strtab i)
          → Any P (symbols_from image strtab symtab (suc n))
      at_index from zero lt p = inl (subst P (first_symbol symtab strtab) p)
      at_index from (suc i) lt p =
          inr (from (i, omega (arith, lt), subst P (sym (next_symbol symtab strtab i)) p))

  symbols_all :
      (P : Sym → Type 0) (n symtab strtab : ℕ)
      → ((i : ℕ) → i < n → P (symbol_of symtab strtab i))
      → All P (symbols_from image strtab symtab n)
  unfolding symbols_from
  symbols_all P zero symtab strtab h = tt
  symbols_all P (suc n) symtab strtab h = (
    subst P (first_symbol symtab strtab) (h 0 (omega arith)),
    symbols_all P n (symtab + 24) strtab
        (λ i lt. subst P (sym (next_symbol symtab strtab i)) (h (suc i) (omega (arith, lt)))),
  )

  Any-map : (P Q : Sym → Type 0) → ((s : Sym) → P s → Q s) → (ss : List Sym) → Any P ss → Any Q ss
  Any-map P Q f [] h = h
  Any-map P Q f (s ∷ ss) (inl p) = inl (f s p)
  Any-map P Q f (s ∷ ss) (inr h) = inr (Any-map P Q f ss h)

  -- The variables of a symbol table: there are some, and they are those of its symbols.
  pub table_listed :
      (n symtab strtab : ℕ)
      → ((i : ℕ)
          → i < n
          → Global (symbol_of symtab strtab i)
          → (a : ℕ) × HasAddress (symbol_of symtab strtab i).st_name a)
      → (vars : List GlobalVariableInfo) × (get_symbol_from_symtab names sections
            (symbol_name_2_addr image)
            (symbols_from image strtab symtab n)
          ≡ some vars)
        × ((v : GlobalVariableInfo)
            → IsIn v vars ↔ ((i : ℕ) × (i < n) × OfSymbol (symbol_of symtab strtab i) v))
  table_listed n symtab strtab addresses =
      let ss = symbols_from image strtab symtab n in
      let (vars, found) = symbols_listed ss (
        symbols_all (λ s. Global s → (a : ℕ) × HasAddress s.st_name a) n symtab strtab addresses) in
      let listed = (symtab_iff names sections (symbol_name_2_addr image) ss vars).0 found in
      (
        vars,
        found,
        λ v.
            let (to, from) = listed_iff ss vars listed v in
            let (at, back) = symbols_iff (λ s. OfSymbol s v) n symtab strtab in
            (
              (λ h. at (
                  Any-map (λ s. AtSymbol s v) (λ s. OfSymbol s v)
                    (λ s p. (p.0, p.1, (address_iff s.st_name p.0).0 p.2, p.3)) ss (to h))),
              λ h. from (
                  Any-map (λ s. OfSymbol s v) (λ s. AtSymbol s v)
                    (λ s p. (p.0, p.1, (address_iff s.st_name p.0).1 p.2, p.3)) ss (back h)),
            ),
      )
