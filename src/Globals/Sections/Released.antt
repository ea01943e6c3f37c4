-- ===== src/Globals/Sections/Released.antt =====
-- What the reading of the sections comes to, and that it leaves nothing open.
use simple_parallel.Prelude.{
  ℕ, ◌≡◌, ◌↔◌, ◌⊎◌, refl, true, false, List, [], ◌∷◌, ◌++◌, All, Any, inl, inr, Bool-cases,
}
use simple_parallel.Globals.{find_section}
use simple_parallel.Globals.Sections.{
  ElfFile, SectionNames, ElfFailure, Outcome, returned, thrown, Resource, ElfEvent, acquired,
  released, read_sections, finally_release, get_desired_section_num,
}
use simple_parallel.Globals.Sections.Collected.{refute, IsReadable, IsDesired, desired_from_lem}

-- Everything that was acquired is released, the last first.
pub data Released : List ElfEvent → Type 0 where
  nothing : Released []
  around :
      {r : Resource} {es : List ElfEvent}
      → Released es
      → Released (acquired r ∷ es ++ released r ∷ [])

-- Every call succeeds.
pub record IsAnswered (file : ElfFile) : Type 0 where
  pub version : file.elf_version ≡ true
  pub opened : file.open_exe ≡ true
  pub begun : file.elf_begin ≡ true
  pub kind : file.elf_kind ≡ true
  pub strings : file.elf_getshdrstrndx ≡ true
  pub readable : All IsReadable file.sections

module _ (names : SectionNames) where
  -- How the reading ends, from the test of the file's kind on and as a whole.
  abbrev Outcomes : Outcome → ElfFile → Type 0 → Type 0
  Outcomes outcome file Answered =
      (Answered
        × ((ns : List ℕ) × (outcome ≡ returned ns)
            × ((n : ℕ) → (find_section ns n ≡ true) ↔ Any (IsDesired names n) file.sections)))
      ⊎ ((e : ElfFailure) × (outcome ≡ thrown e) × (Answered → ⊥))

  read_lem :
      (file : ElfFile)
      → Outcomes
          (read_sections names file)
          file
          ((file.elf_kind ≡ true) × (file.elf_getshdrstrndx ≡ true) × All IsReadable file.sections)
  unfolding read_sections find_section
  read_lem file = elim (Bool-cases file.elf_kind) [
    | inr other ↦ inr (
      ElfFailure.not_an_elf,
      rw other refl,
      λ h. let (kind, _, _) = h in refute file.elf_kind other kind,
    )
    | inl kind ↦ elim (Bool-cases file.elf_getshdrstrndx) [
      | inr fails ↦ inr (
        ElfFailure.getshdrstrndx_failed,
        rw (kind, fails) refl,
        λ h. let (_, strings, _) = h in refute file.elf_getshdrstrndx fails strings,
      )
      | inl strings ↦ elim (desired_from_lem names file.sections []) [
        | inr (e, throws, unreadable) ↦
            inr (e, rw (kind, strings) throws, λ h. let (_, _, readable) = h in unreadable readable)
        | inl (ns, returns, readable, numbered) ↦ inl (
          (kind, strings, readable),
          (
            ns,
            rw (kind, strings) returns,
            λ n. (
              (λ e. elim ((numbered n).0 e) [
                | inl e ↦ absurd (refute (find_section [] n) refl e)
                | inr i ↦ i
              ]),
              λ i. (numbered n).1 (inr i),
            ),
          ),
        )
      ]
    ]
  ]

  -- Whatever libelf and the system answer: everything that was opened is closed again, the last
  -- first; and either every call succeeded, and the numbers returned are exactly those, on 16 bits, of
  -- the sections with one of the three names; or the function throws, and some call failed.
  pub sections_read :
      (file : ElfFile)
      → Released (get_desired_section_num names file).events
        × ((IsAnswered file
              × ((ns : List ℕ) × ((get_desired_section_num names file).outcome ≡ returned ns)
                  × ((n : ℕ) → (find_section ns n ≡ true) ↔ Any (IsDesired names n) file.sections)))
            ⊎ ((e : ElfFailure) × ((get_desired_section_num names file).outcome ≡ thrown e)
                × (IsAnswered file → ⊥)))
  unfolding get_desired_section_num finally_release
  sections_read file = elim (Bool-cases file.elf_version) [
    | inr fails ↦
        rw fails
          (nothing, inr (ElfFailure.initialization_failed, refl, λ h. refute false refl h.version))
    | inl version ↦ elim (Bool-cases file.open_exe) [
      | inr fails ↦
          rw (version, fails)
            (nothing, inr (ElfFailure.failed_to_open, refl, λ h. refute false refl h.opened))
      | inl opened ↦ elim (Bool-cases file.elf_begin) [
        | inr fails ↦
            rw (version, opened, fails)
              (
                around nothing,
                inr (ElfFailure.elf_begin_failed, refl, λ h. refute false refl h.begun),
              )
        | inl begun ↦
            rw (version, opened, begun)
              (
                around (around nothing),
                elim (read_lem file) [
                  | inl ((kind, strings, readable), rest) ↦ inl (
                    record {
                      version = refl;
                      opened = refl;
                      begun = refl;
                      kind = kind;
                      strings = strings;
                      readable = readable;
                    },
                    rest,
                  )
                  | inr (e, throws, unanswered) ↦
                      inr (e, throws, λ h. unanswered (h.kind, h.strings, h.readable))
                ],
              )
      ]
    ]
  ]
