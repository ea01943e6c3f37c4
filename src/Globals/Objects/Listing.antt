-- ===== src/Globals/Objects/Listing.antt =====
-- Which variables the walk over the loaded objects lists.
use simple_parallel.Prelude.{
  ℕ, ◌+◌, ◌≡◌, ◌≢◌, ◌↔◌, ◌⊎◌, refl, true, false, List, [], ◌∷◌, ◌++◌, inl, inr, Any-append, All,
  arith, ◌==◌,
}
use simple_parallel.Globals.{GlobalVariableInfo, Names}
use simple_parallel.Globals.Objects.{
  ProgramHeader, DlPhdrInfo, Image, Walked, walked, and_then, from_headers, retrieve_symbolnames,
  get_all_fortran_global_variables,
}
use simple_parallel.Globals.Objects.Symbols.{IsIn}
use simple_parallel.Globals.Objects.Header.{Tables, OfTables, header_listed}

and_then_lem :
    (a b : Walked) (xs ys : List GlobalVariableInfo)
    → a ≡ walked xs
    → b ≡ walked ys
    → and_then a b ≡ walked (xs ++ ys)
unfolding and_then
and_then_lem a b xs ys ea eb = rw (ea, eb) refl

appended_iff :
    (xs ys : List GlobalVariableInfo) (v : GlobalVariableInfo) (A B : Type 0)
    → (IsIn v xs ↔ A)
    → (IsIn v ys ↔ B)
    → IsIn v (xs ++ ys) ↔ (A ⊎ B)
appended_iff xs ys v A B (to_a, from_a) (to_b, from_b) =
    let (to, from) = Any-append (λ u. u ≡ v) xs ys in
    (
      (λ h. elim (to h) [ inl i ↦ inl (to_a i) | inr j ↦ inr (to_b j) ]),
      λ h. elim h [ inl a ↦ from (inl (from_a a)) | inr b ↦ from (inr (from_b b)) ],
    )

nothing_more :
    (vars : List GlobalVariableInfo) (v : GlobalVariableInfo) (A B : Type 0)
    → (A → ⊥)
    → (IsIn v vars ↔ B)
    → IsIn v vars ↔ (A ⊎ B)
nothing_more vars v A B none_of (to, from) =
    ((λ h. inr (to h)), λ h. elim h [ inl a ↦ absurd (none_of a) | inr b ↦ from b ])

module _ (image : Image) (names : Names) (sections : List ℕ) (fuel : ℕ) where
  -- A header that is not dynamic, or that leads to tables.
  pub data Readable (dlpi_addr : ℕ) (h : ProgramHeader) : Type 0 where
    other : h.p_type ≢ 2 → Readable dlpi_addr h
    dynamic :
        h.p_type ≡ 2
        → Tables image names sections fuel (dlpi_addr + h.p_vaddr)
        → Readable dlpi_addr h

  abbrev pub OfHeader :
      (dlpi_addr : ℕ) (h : ProgramHeader) → Readable dlpi_addr h → GlobalVariableInfo → Type 0
  OfHeader dlpi_addr h (other p) v = ⊥
  OfHeader dlpi_addr h (dynamic p t) v =
      OfTables image names sections fuel (dlpi_addr + h.p_vaddr) t v

  abbrev pub OfHeaders :
      (dlpi_addr : ℕ) (hs : List ProgramHeader)
      → All (Readable dlpi_addr) hs
      → GlobalVariableInfo
      → Type 0
  OfHeaders dlpi_addr [] r v = ⊥
  OfHeaders dlpi_addr (h ∷ hs) r v = OfHeader dlpi_addr h r.0 v ⊎ OfHeaders dlpi_addr hs r.1 v

  -- An object that is the vdso or libgfortran, or whose headers can be read.
  pub data Loaded (info : DlPhdrInfo) : Type 0 where
    vdso : image.is_vdso info.dlpi_name ≡ true → Loaded info
    libgfortran :
        image.is_vdso info.dlpi_name ≡ false
        → image.has_libgfortran info.dlpi_name ≡ true
        → Loaded info
    program :
        image.is_vdso info.dlpi_name ≡ false
        → image.has_libgfortran info.dlpi_name ≡ false
        → All (Readable info.dlpi_addr) info.dlpi_phdr
        → Loaded info

  -- A variable of an object that is neither.
  abbrev pub OfObject : (info : DlPhdrInfo) → Loaded info → GlobalVariableInfo → Type 0
  OfObject info (vdso a) v = ⊥
  OfObject info (libgfortran a b) v = ⊥
  OfObject info (program a b r) v = OfHeaders info.dlpi_addr info.dlpi_phdr r v

  abbrev pub OfObjects : (infos : List DlPhdrInfo) → All Loaded infos → GlobalVariableInfo → Type 0
  OfObjects [] r v = ⊥
  OfObjects (info ∷ infos) r v = OfObject info r.0 v ⊎ OfObjects infos r.1 v

  -- A list of variables that a part of the walk gives, and whose they are.
  abbrev Lists : Walked → (GlobalVariableInfo → Type 0) → Type 0
  Lists w Whose =
      (vars : List GlobalVariableInfo) × (w ≡ walked vars)
      × ((v : GlobalVariableInfo) → IsIn v vars ↔ Whose v)

  headers_listed :
      (dlpi_addr : ℕ) (hs : List ProgramHeader) (r : All (Readable dlpi_addr) hs)
      → Lists (from_headers image names sections fuel dlpi_addr hs) (OfHeaders dlpi_addr hs r)
  unfolding from_headers
  headers_listed dlpi_addr [] r = ([], refl, λ v. ((λ h. h), λ h. h))
  headers_listed dlpi_addr (h ∷ hs) (other p, r) =
      let (ys, ey, iff_y) = headers_listed dlpi_addr hs r in
      let differs : (h.p_type == 2) ≡ false = ground (arith, p) in
      (
        ys,
        rw (from_headers, differs) ey,
        λ v. nothing_more ys v ⊥ (OfHeaders dlpi_addr hs r v) (λ o. o) (iff_y v),
      )
  headers_listed dlpi_addr (h ∷ hs) (dynamic p t, r) =
      let (ys, ey, iff_y) = headers_listed dlpi_addr hs r in
      let (xs, ex, iff_x) = header_listed image names sections fuel (dlpi_addr + h.p_vaddr) t in
      let is : (h.p_type == 2) ≡ true = ground (arith, p) in
      (
        xs ++ ys,
        rw (from_headers, is) (and_then_lem _ _ xs ys ex ey),
        λ v. appended_iff xs ys v _ _ (iff_x v) (iff_y v),
      )

  object_listed :
      (info : DlPhdrInfo) (r : Loaded info)
      → Lists (retrieve_symbolnames image names sections fuel info) (OfObject info r)
  unfolding retrieve_symbolnames
  object_listed info (vdso a) = ([], rw (retrieve_symbolnames, a) refl, λ v. ((λ h. h), λ h. h))
  object_listed info (libgfortran a b) =
      ([], rw (retrieve_symbolnames, a, b) refl, λ v. ((λ h. h), λ h. h))
  object_listed info (program a b r) =
      let (vars, e, iff) = headers_listed info.dlpi_addr info.dlpi_phdr r in
      (vars, rw (retrieve_symbolnames, a, b) e, iff)

  -- The walk over the loaded objects ends with a list, when each object is the vdso, or is
  -- libgfortran, or has only headers that are not dynamic or that lead to a symbol table, a string
  -- table and a hash table, with fuel for the tags and the symbols and an address for every global
  -- variable. The list has exactly the variables of the objects that are neither: of the symbols in
  -- the table of a dynamic header, of as many as its hash table says, those that are Fortran global
  -- variables, with their names, sizes and addresses.
  pub variables_listed :
      (infos : List DlPhdrInfo) (r : All Loaded infos)
      → (vars : List GlobalVariableInfo) × (get_all_fortran_global_variables image names sections
            fuel infos
          ≡ walked vars)
        × ((v : GlobalVariableInfo) → IsIn v vars ↔ OfObjects infos r v)
  unfolding get_all_fortran_global_variables
  variables_listed [] r = ([], refl, λ v. ((λ h. h), λ h. h))
  variables_listed (info ∷ infos) (r, rs) =
      let (xs, ex, iff_x) = object_listed info r in
      let (ys, ey, iff_y) = variables_listed infos rs in
      (
        xs ++ ys,
        and_then_lem _ _ xs ys ex ey,
        λ v. appended_iff xs ys v (OfObject info r v) (OfObjects infos rs v) (iff_x v) (iff_y v),
      )
