-- ===== src/Globals/Sections.antt =====
-- src/simple_parallel/sync_fortran_global_vars.cc, get_desired_section_num: the numbers of the
-- sections that hold variables, read from the program's own file by libelf, whose answers are
-- parameters. A `gsl::finally` runs on every way out of the block it stands in.
pub mod Collected
pub mod Released
mod Tests
use simple_parallel.Prelude.{
  ℕ, ◌%◌, ◌^◌, ◌≡◌, Bool, true, not, ◌||◌, Option, none, some, List, [], ◌∷◌, ◌++◌, ◌==◌,
  if◌then◌else◌,
}

-- What libelf answers for a section; a name stands for a string.
pub record ElfSection : Type 0 where
  pub gelf_getshdr : Bool
  pub elf_strptr : Option ℕ
  pub elf_ndxscn : ℕ

-- Whether the calls before the loop succeed, and the sections that `elf_nextscn` walks over.
pub record ElfFile : Type 0 where
  pub elf_version : Bool
  pub open_exe : Bool
  pub elf_begin : Bool
  pub elf_kind : Bool
  pub elf_getshdrstrndx : Bool
  pub sections : List ElfSection

-- The three names.
pub record SectionNames : Type 0 where
  pub data_name : ℕ
  pub bss_name : ℕ
  pub dynamic_name : ℕ

-- The exceptions, by their messages.
pub data ElfFailure : Type 0 where
  initialization_failed failed_to_open elf_begin_failed not_an_elf : ElfFailure
  getshdrstrndx_failed getshdr_failed strptr_failed : ElfFailure

pub data Outcome : Type 0 where
  returned : List ℕ → Outcome
  thrown : ElfFailure → Outcome

pub data Resource : Type 0 where
  my_exe_fd elf : Resource

pub data ElfEvent : Type 0 where
  acquired released : Resource → ElfEvent

pub record Reading : Type 0 where
  pub outcome : Outcome
  pub events : List ElfEvent

unfoldable pub is_desired : SectionNames → ℕ → Bool
is_desired names name =
    (name == names.data_name) || ((name == names.bss_name) || (name == names.dynamic_name))

-- The loop; `Elf64_Section` has 16 bits.
unfoldable pub desired_from : SectionNames → List ElfSection → List ℕ → Outcome
unfolding is_desired
desired_from names [] ret = returned ret
desired_from names (s ∷ ss) ret =
    if not s.gelf_getshdr then thrown ElfFailure.getshdr_failed else elim s.elf_strptr [
      | none ↦ thrown ElfFailure.strptr_failed
      | some name ↦
          desired_from names ss
            (if is_desired names name then ret ++ (s.elf_ndxscn % 2 ^ 16) ∷ [] else ret)
    ]

-- From the test of the file's kind on.
unfoldable pub read_sections : SectionNames → ElfFile → Outcome
unfolding desired_from
read_sections names file =
    if not file.elf_kind
    then thrown ElfFailure.not_an_elf
    else if not file.elf_getshdrstrndx
    then thrown ElfFailure.getshdrstrndx_failed
    else desired_from names file.sections []

-- `gsl::finally` for what was acquired before it.
unfoldable pub finally_release : Resource → Reading → Reading
finally_release resource reading = record {
  outcome = reading.outcome;
  events = acquired resource ∷ reading.events ++ released resource ∷ [];
}

unfoldable pub get_desired_section_num : SectionNames → ElfFile → Reading
unfolding read_sections finally_release
get_desired_section_num names file =
    if not file.elf_version
    then record { outcome = thrown ElfFailure.initialization_failed; events = [] }
    else if not file.open_exe
    then record { outcome = thrown ElfFailure.failed_to_open; events = [] }
    else finally_release my_exe_fd (
        if not file.elf_begin
        then record { outcome = thrown ElfFailure.elf_begin_failed; events = [] }
        else finally_release elf (record { outcome = read_sections names file; events = [] }))
