-- ===== src/Globals/Sections/Collected.antt =====
-- The loop over the sections: the numbers of those with one of the three names.
use simple_parallel.Prelude.{
  ℕ, ◌%◌, ◌^◌, ◌≡◌, ◌↔◌, ◌⊎◌, refl, ◌∙◌, sym, Bool, true, false, none, some, List, [], ◌∷◌, ◌++◌,
  ◌==◌, if◌then◌else◌, All, Any, inl, inr, Bool-cases, Option-cases, ==→eq, arith,
}
use simple_parallel.Globals.{find_section}
use simple_parallel.Globals.Sections.{
  ElfSection, SectionNames, ElfFailure, returned, thrown, is_desired, desired_from,
}

pub refute : (b : Bool) → b ≡ false → b ≡ true → ⊥
refute b f t = ground arith

abbrev pub IsReadable : ElfSection → Type 0
IsReadable s = (s.gelf_getshdr ≡ true) × ((name : ℕ) × (s.elf_strptr ≡ some name))

-- A section with one of the three names and the number, on 16 bits.
abbrev pub IsDesired : SectionNames → ℕ → ElfSection → Type 0
IsDesired names n s =
    (name : ℕ) × (s.elf_strptr ≡ some name)
    × ((name ≡ names.data_name) ⊎ ((name ≡ names.bss_name) ⊎ (name ≡ names.dynamic_name)))
    × (s.elf_ndxscn % 2 ^ 16 ≡ n)

find_section-append :
    (ss : List ℕ) (m n : ℕ)
    → (find_section (ss ++ m ∷ []) n ≡ true) ↔ ((find_section ss n ≡ true) ⊎ (m ≡ n))
unfolding find_section
find_section-append [] m n = elim (Bool-cases (m == n)) [
  | inl at ↦ ((λ e. inr (==→eq m n at)), λ h. rw at refl)
  | inr ne ↦
      (rw ne (λ e. inl e), λ h. elim h [ inl e ↦ rw ne e | inr e ↦ absurd (ground (arith, e)) ])
]
find_section-append (s ∷ ss) m n = elim (Bool-cases (s == n)) [
  | inl at ↦ (rw at (λ e. inl e), λ h. rw at refl)
  | inr ne ↦ rw ne (find_section-append ss m n)
]

desired_iff :
    (names : SectionNames) (name : ℕ)
    → (is_desired names name ≡ true)
      ↔ ((name ≡ names.data_name) ⊎ ((name ≡ names.bss_name) ⊎ (name ≡ names.dynamic_name)))
unfolding is_desired
desired_iff names name = ((λ e. ground (arith, e)), λ h. ground (arith, h))

-- The desired sections are in the list after those that were in it.
module _ (names : SectionNames) where
  abbrev pub Numbered : List ElfSection → List ℕ → List ℕ → Type 0
  Numbered ss ret ns =
      (n : ℕ)
      → (find_section ns n ≡ true) ↔ ((find_section ret n ≡ true) ⊎ Any (IsDesired names n) ss)

  added_iff :
      (s : ElfSection) (name : ℕ) (ret : List ℕ) (n : ℕ)
      → s.elf_strptr ≡ some name
      → (find_section (if is_desired names name then ret ++ s.elf_ndxscn % 2 ^ 16 ∷ [] else ret) n
          ≡ true)
        ↔ ((find_section ret n ≡ true) ⊎ IsDesired names n s)
  added_iff s name ret n named = elim (Bool-cases (is_desired names name)) [
    | inl desired ↦
        let (to, from) = find_section-append ret (s.elf_ndxscn % 2 ^ 16) n in
        rw desired (
          (λ e. elim (to e) [
            | inl e ↦ inl e
            | inr e ↦ inr (name, named, (desired_iff names name).0 desired, e)
          ]),
          λ h. from (elim h [ inl e ↦ inl e | inr i ↦ let (_, _, _, e) = i in inr e ]),
        )
    | inr other ↦ rw other (
      (λ e. inl e),
      λ h. elim h [
        | inl e ↦ e
        | inr i ↦
            let (name', named', desired', e) = i in
            let desired = (desired_iff names name').1 desired' in
            let same : some name ≡ some name' = sym named ∙ named' in
            absurd (wrong name name' same other desired)
      ],
    )
  ]
    where
      wrong :
          (name name' : ℕ)
          → some name ≡ some name'
          → is_desired names name ≡ false
          → is_desired names name' ≡ true
          → ⊥
      wrong name name' same other desired =
          let at : name' ≡ name = cc in refute (is_desired names name) other (rw at at desired)

  pub desired_from_lem :
      (ss : List ElfSection) (ret : List ℕ)
      → ((ns : List ℕ) × (desired_from names ss ret ≡ returned ns)
          × All IsReadable ss
          × Numbered ss ret ns)
        ⊎ ((e : ElfFailure) × (desired_from names ss ret ≡ thrown e) × (All IsReadable ss → ⊥))
  unfolding desired_from
  desired_from_lem [] ret =
      inl (ret, refl, tt, λ n. ((λ e. inl e), λ h. elim h [ inl e ↦ e | inr i ↦ absurd i ]))
  desired_from_lem (s ∷ ss) ret = elim (Bool-cases s.gelf_getshdr) [
    | inr fails ↦ inr (
      ElfFailure.getshdr_failed,
      rw (desired_from, fails) refl,
      λ h. refute s.gelf_getshdr fails h.0.0,
    )
    | inl read ↦ elim (Option-cases s.elf_strptr) [
      | inl unnamed ↦ inr (
        ElfFailure.strptr_failed,
        rw (desired_from, read, unnamed) refl,
        λ h.
            let (name, named) = h.0.1 in
            let both : none ≡ some name = sym unnamed ∙ named in absurd (ground (arith, both)),
      )
      | inr (name, named) ↦
          elim (desired_from_lem ss
            (if is_desired names name then ret ++ s.elf_ndxscn % 2 ^ 16 ∷ [] else ret)) [
              | inr (e, throws, unreadable) ↦
                  inr (e, rw (desired_from, read, named) throws, λ h. unreadable h.1)
              | inl (ns, returns, readable, numbered) ↦ inl (
                ns,
                rw (desired_from, read, named) returns,
                ((read, (name, named)), readable),
                λ n.
                    let (to, from) = numbered n in
                    let (split, join) = added_iff s name ret n named in
                    (
                      (λ e. elim (to e) [
                        | inl e ↦ elim (split e) [ inl e ↦ inl e | inr i ↦ inr (inl i) ]
                        | inr i ↦ inr (inr i)
                      ]),
                      λ h. from (elim h [
                        | inl e ↦ inl (join (inl e))
                        | inr j ↦ elim j [ inl i ↦ inl (join (inr i)) | inr i ↦ inr i ]
                      ]),
                    ),
              )
            ]
    ]
  ]
