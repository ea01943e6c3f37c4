-- ===== src/Globals/Choice.antt =====
-- Which symbols are listed as Fortran global variables.
use simple_parallel.Prelude.{
  ℕ, ◌≡◌, ◌≢◌, ◌↔◌, ◌⊎◌, refl, ◌∙◌, sym, subst, true, false, Option, none, some, List, [], ◌∷◌,
  arith, Bool-cases, Option-cases, inl, inr,
}
use simple_parallel.Globals.{
  Sym, GlobalVariableInfo, Names, stt_object, is_fortran_global_variable, find_section, is_chosen,
  get_symbol_from_symtab,
}

module _ (names : Names) (sections : List ℕ) (address : ℕ → Option ℕ) where
  -- An object in one of the sections, with a name that one of the compilers gives to a global
  -- variable, but neither of the two of libgfortran.
  pub record IsGlobal (s : Sym) : Type 0 where
    pub object : s.st_type ≡ stt_object
    pub in_section : find_section sections s.st_shndx ≡ true
    pub not_usual : s.st_name ≢ names.ieee_usual
    pub not_all : s.st_name ≢ names.ieee_all
    pub by_compiler :
        (names.gfort s.st_name ≡ true)
        ⊎ ((names.ifx s.st_name ≡ true) ⊎ (names.flang s.st_name ≡ true))

  -- The variables of the symbols, in order: the global ones, each with its address.
  pub data Listed : List Sym → List GlobalVariableInfo → Type 0 where
    done : Listed [] []
    skip :
        {s : Sym} {ss : List Sym} {vars : List GlobalVariableInfo}
        → (IsGlobal s → ⊥)
        → Listed ss vars
        → Listed (s ∷ ss) vars
    take :
        {s : Sym} {ss : List Sym} {vars : List GlobalVariableInfo} {a : ℕ}
        → IsGlobal s
        → address s.st_name ≡ some a
        → Listed ss vars
        → Listed
            (s ∷ ss)
            (record { name = s.st_name; area = record { addr = a; size = s.st_size } } ∷ vars)

  fortran_iff :
      (n : ℕ)
      → (is_fortran_global_variable names n ≡ true) ↔ (
          (n ≢ names.ieee_usual)
          × (n ≢ names.ieee_all)
          × ((names.gfort n ≡ true) ⊎ ((names.ifx n ≡ true) ⊎ (names.flang n ≡ true))))
  unfolding is_fortran_global_variable
  fortran_iff n = ((λ e. ground arith), λ h. ground (arith, h))

  pub chosen_iff : (s : Sym) → (is_chosen names sections address s ≡ true) ↔ IsGlobal s
  unfolding is_chosen
  chosen_iff s =
      let f = fortran_iff s.st_name in
      (
        (λ e.
            let object : s.st_type ≡ stt_object = ground (arith, e) in
            let in_section : find_section sections s.st_shndx ≡ true = ground (arith, e) in
            let h = f.0 (ground (arith, e)) in
            record {
              object = object;
              in_section = in_section;
              not_usual = h.0;
              not_all = h.1;
              by_compiler = h.2;
            }),
        λ g.
            let named = f.1 (g.not_usual, g.not_all, g.by_compiler) in
            ground (arith, g.object, g.in_section, named),
      )

  -- One symbol that is chosen or not, before the others.
  module _ (s : Sym) (ss : List Sym) where
    not_chosen :
        is_chosen names sections address s ≡ false
        → get_symbol_from_symtab names sections address (s ∷ ss)
          ≡ get_symbol_from_symtab names sections address ss
    unfolding get_symbol_from_symtab
    not_chosen e = rw (get_symbol_from_symtab, e) refl

    chosen_at :
        {a : ℕ} {vars : List GlobalVariableInfo}
        → is_chosen names sections address s ≡ true
        → address s.st_name ≡ some a
        → get_symbol_from_symtab names sections address ss ≡ some vars
        → get_symbol_from_symtab names sections address (s ∷ ss)
          ≡ some (record { name = s.st_name; area = record { addr = a; size = s.st_size } } ∷ vars)
    unfolding get_symbol_from_symtab
    chosen_at {a} {vars} e at rest = rw (get_symbol_from_symtab, e, at, rest) refl

    chosen_fails :
        is_chosen names sections address s ≡ true
        → (address s.st_name ≡ none) ⊎ (get_symbol_from_symtab names sections address ss ≡ none)
        → get_symbol_from_symtab names sections address (s ∷ ss) ≡ none
    unfolding get_symbol_from_symtab
    chosen_fails e (inl at) = rw (get_symbol_from_symtab, e, at) refl
    chosen_fails e (inr rest) = elim (Option-cases (address s.st_name)) [
      | inl at ↦ rw (get_symbol_from_symtab, e, at) refl
      | inr (a, at) ↦ rw (get_symbol_from_symtab, e, at, rest) refl
    ]

  Listed-found :
      (ss : List Sym) (vars : List GlobalVariableInfo)
      → Listed ss vars
      → get_symbol_from_symtab names sections address ss ≡ some vars
  unfolding get_symbol_from_symtab
  Listed-found [] [] done = refl
  Listed-found [] (v ∷ vars) h = elim h [ ]
  Listed-found (s ∷ ss) vars (skip other h) =
      elim (Bool-cases (is_chosen names sections address s)) [
        | inl chosen ↦ absurd (other ((chosen_iff s).0 chosen))
        | inr left ↦ not_chosen s ss left ∙ Listed-found ss vars h
      ]
  Listed-found (s ∷ ss) (v ∷ vars) (take g at h) =
      chosen_at s ss ((chosen_iff s).1 g) at (Listed-found ss vars h)

  found-Listed :
      (ss : List Sym) (vars : List GlobalVariableInfo)
      → get_symbol_from_symtab names sections address ss ≡ some vars
      → Listed ss vars
  unfolding get_symbol_from_symtab
  found-Listed [] vars e = let same : [] ≡ vars = cc in subst (Listed []) same done
  found-Listed (s ∷ ss) vars e = elim (Bool-cases (is_chosen names sections address s)) [
    | inr left ↦
        skip
          (λ g. let chosen : is_chosen names sections address s ≡ true = (chosen_iff s).1 g in cc)
          (found-Listed ss vars (sym (not_chosen s ss left) ∙ e))
    | inl chosen ↦ elim (Option-cases (address s.st_name)) [
      | inl at ↦
          let fails : none ≡ some vars = sym (chosen_fails s ss chosen (inl at)) ∙ e in absurd (cc)
      | inr (a, at) ↦ elim (Option-cases (get_symbol_from_symtab names sections address ss)) [
        | inl rest ↦
            let fails : none ≡ some vars = sym (chosen_fails s ss chosen (inr rest)) ∙ e in
            absurd (cc)
        | inr (vars', rest) ↦
            let all : some (
                  record { name = s.st_name; area = record { addr = a; size = s.st_size } } ∷ vars')
                ≡ some vars =
              sym (chosen_at s ss chosen at rest) ∙ e in
            let same : record { name = s.st_name; area = record { addr = a; size = s.st_size } }
                  ∷ vars'
                ≡ vars =
              cc in
            subst (Listed (s ∷ ss)) same
              (take ((chosen_iff s).0 chosen) at (found-Listed ss vars' rest))
      ]
    ]
  ]

  -- The list that is made of a symbol table is exactly that of its global variables, in order and
  -- each with its address; there is none when a global variable has no address.
  pub symtab_iff :
      (ss : List Sym) (vars : List GlobalVariableInfo)
      → (get_symbol_from_symtab names sections address ss ≡ some vars) ↔ Listed ss vars
  symtab_iff ss vars = (found-Listed ss vars, Listed-found ss vars)
