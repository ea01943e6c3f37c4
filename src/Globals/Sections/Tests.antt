-- ===== src/Globals/Sections/Tests.antt =====
-- A program with a section of code, one of data and one of zeros; then a header that cannot be read.
use simple_parallel.Prelude.{ℕ, ◌≡◌, ◌↔◌, ◌⊎◌, refl, true, false, some, none, List, [], ◌∷◌, Any}
use simple_parallel.Globals.{find_section}
use simple_parallel.Globals.Sections.{
  ElfFile, SectionNames, ElfFailure, returned, thrown, acquired, released, my_exe_fd, elf,
  is_desired, desired_from, read_sections, finally_release, get_desired_section_num,
}
use simple_parallel.Globals.Sections.Collected.{IsDesired}
use simple_parallel.Globals.Sections.Released.{Released, IsAnswered, sections_read}

abbrev section_names : SectionNames
section_names = record { data_name = 1; bss_name = 2; dynamic_name = 3 }

abbrev program : ElfFile
program = record {
  elf_version = true;
  open_exe = true;
  elf_begin = true;
  elf_kind = true;
  elf_getshdrstrndx = true;
  sections =
      record { gelf_getshdr = true; elf_strptr = some 7; elf_ndxscn = 14 }
      ∷ record { gelf_getshdr = true; elf_strptr = some 1; elf_ndxscn = 24 }
      ∷ record { gelf_getshdr = true; elf_strptr = some 2; elf_ndxscn = 25 }
      ∷ [];
}

program_run : get_desired_section_num section_names program ≡ record {
  outcome = returned (24 ∷ 25 ∷ []);
  events = acquired my_exe_fd ∷ acquired elf ∷ released elf ∷ released my_exe_fd ∷ [];
}
unfolding get_desired_section_num finally_release read_sections desired_from is_desired
program_run = refl

unreadable_run :
    get_desired_section_num section_names (record program {
      sections = record { gelf_getshdr = false; elf_strptr = none; elf_ndxscn = 1 } ∷ [];
    })
    ≡ record {
      outcome = thrown ElfFailure.getshdr_failed;
      events = acquired my_exe_fd ∷ acquired elf ∷ released elf ∷ released my_exe_fd ∷ [];
    }
unfolding get_desired_section_num finally_release read_sections desired_from is_desired
unreadable_run = refl

sections_read_example :
    Released (get_desired_section_num section_names program).events
    × ((IsAnswered program
          × ((ns : List ℕ) × ((get_desired_section_num section_names program).outcome ≡ returned ns)
              × ((n : ℕ)
                  → (find_section ns n ≡ true) ↔ Any (IsDesired section_names n) program.sections)))
        ⊎ ((e : ElfFailure) × ((get_desired_section_num section_names program).outcome ≡ thrown e)
            × (IsAnswered program → ⊥)))
sections_read_example = sections_read section_names program
