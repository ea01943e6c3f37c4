-- ===== src/Globals/Tests.antt =====
-- A symbol table with a variable, a function and a variable of libgfortran.
use mathlib.Core.List.{Perm}
use simple_parallel.Prelude.{
  zero, suc, ◌<◌, ◌≢◌, All, inl, ℕ, ◌*◌, ◌-◌, ◌==◌, if◌then◌else◌, false, ◌≡◌, ◌↔◌, refl, true,
  false, some, List, [], ◌∷◌, arith,
}
use simple_parallel.Mpi.{World}
use simple_parallel.BigMpi.Requests.{Requests, Chunk}
use simple_parallel.BigMpi.Sync.{replay, copy_areas}
use simple_parallel.Globals.{
  Sym, Names, GlobalVariableInfo, get_symbol_from_symtab, sync_fortran_global_variables, is_chosen,
  find_section, is_fortran_global_variable,
}
use simple_parallel.Globals.Sync.{areas, sync_globals_whole}
use simple_parallel.Globals.Choice.{Listed, symtab_iff}
use simple_parallel.Symbols.{find, get_sym_cnt}
use simple_parallel.Globals.Objects.{
  DlPhdrInfo, Image, walked, symbol_name_2_addr, get_strtab, tags_from, symbols_from,
  retrieve_symbolnames, get_all_fortran_global_variables,
}
use simple_parallel.Globals.Objects.Tags.{entry, HasCount}
use simple_parallel.Globals.Objects.Symbols.{IsIn, HasAddress, symbol_of}
use simple_parallel.Globals.Objects.Header.{Tables}
use simple_parallel.Globals.Objects.Listing.{
  Loaded, vdso, program, other, dynamic, OfObjects, variables_listed,
}

abbrev gfortran : Names
gfortran = record {
  gfort = λ n. true;
  ifx = λ n. false;
  flang = λ n. false;
  ieee_usual = 8;
  ieee_all = 9;
}

abbrev table : List Sym
table =
    record { st_type = 1; st_shndx = 25; st_name = 3; st_size = 40 }
    ∷ record { st_type = 2; st_shndx = 12; st_name = 4; st_size = 100 }
    ∷ record { st_type = 1; st_shndx = 25; st_name = 8; st_size = 4 }
    ∷ []

abbrev variables : List GlobalVariableInfo
variables = record { name = 3; area = record { addr = 3000; size = 40 } } ∷ []

table_run :
    get_symbol_from_symtab gfortran (24 ∷ 25 ∷ []) (λ n. some (n * 1000)) table ≡ some variables
unfolding get_symbol_from_symtab is_chosen find_section is_fortran_global_variable
table_run = refl

symtab_iff_example :
    (get_symbol_from_symtab gfortran (24 ∷ 25 ∷ []) (λ n. some (n * 1000)) table ≡ some variables)
    ↔ Listed gfortran (24 ∷ 25 ∷ []) (λ n. some (n * 1000)) table variables
symtab_iff_example = symtab_iff gfortran (24 ∷ 25 ∷ []) (λ n. some (n * 1000)) table variables

sync_globals_example :
    (s : Requests Chunk) × (sync_fortran_global_variables (λ k. 0) variables ≡ some s)
    × (s.buffer ≡ [])
    × Perm s.waited s.issued
    × ((root : ℕ) (w : World) → replay root s.issued w ≡ copy_areas root (areas variables) w)
sync_globals_example = sync_globals_whole (λ k. 0) variables (λ k. omega arith) (omega arith, tt)

-- The vdso, and a program with one dynamic header; the hash table tells three symbols.
abbrev image : Image
image = record {
  tag_at = λ a.
      if a == 1064
      then record { d_tag = 4; d_ptr = 2000 }
      else if a == 1080
      then record { d_tag = 5; d_ptr = 4000 }
      else if a == 1096
      then record { d_tag = 6; d_ptr = 5000 }
      else record { d_tag = 0; d_ptr = 0 };
  sym_at = λ a.
      if a == 5024
      then record { st_type = 1; st_shndx = 25; st_name = 3; st_size = 40 }
      else record { st_type = 2; st_shndx = 12; st_name = 4; st_size = 100 };
  string_at = λ a. a - 4000;
  word_at = λ a. if a == 2004 then 3 else 0;
  is_vdso = λ n. n == 1;
  has_libgfortran = λ n. false;
  dlsym = λ n. n * 1000;
  dlerror = λ n. true;
}

abbrev objects : List DlPhdrInfo
objects =
    record { dlpi_addr = 0; dlpi_name = 1; dlpi_phdr = record { p_type = 2; p_vaddr = 0 } ∷ [] }
    ∷ record {
      dlpi_addr = 1000;
      dlpi_name = 2;
      dlpi_phdr = record { p_type = 1; p_vaddr = 0 } ∷ record { p_type = 2; p_vaddr = 64 } ∷ [];
    }
    ∷ []

objects_run :
    get_all_fortran_global_variables image gfortran (24 ∷ 25 ∷ []) 9 objects ≡ walked variables
unfolding get_all_fortran_global_variables get_symbol_from_symtab is_chosen find_section
    is_fortran_global_variable retrieve_symbolnames tags_from symbols_from get_sym_cnt find
    symbol_name_2_addr get_strtab
objects_run = refl

upto_two : (P : ℕ → Type 0) → P 0 → P 1 → P 2 → (j : ℕ) → j < 3 → P j
upto_two P p q r zero lt = p
upto_two P p q r (suc zero) lt = q
upto_two P p q r (suc (suc zero)) lt = r
upto_two P p q r (suc (suc (suc j))) lt = absurd (omega arith)

abbrev program_tables : Tables image gfortran (24 ∷ 25 ∷ []) 9 1064
program_tables = record {
  m = 3;
  n = 3;
  symtab = 5000;
  strtab = 4000;
  array = record {
    open_until =
        upto_two (λ j. (entry image 1064 j).d_tag ≢ 0) (omega arith) (omega arith) (omega arith);
    closed = refl;
  };
  enough = omega arith;
  at_symtab = record {
    index = 2;
    within = omega arith;
    is_tag = refl;
    value = refl;
    first = λ j lt.
        upto_two (λ j. j < 2 → (entry image 1064 j).d_tag ≢ 6) (λ h. omega arith) (λ h. omega arith)
          (λ h. absurd (omega (arith, h))) j (omega (arith, lt)) lt;
  };
  at_strtab = record {
    index = 1;
    within = omega arith;
    is_tag = refl;
    value = refl;
    first = λ j lt.
        upto_two (λ j. j < 1 → (entry image 1064 j).d_tag ≢ 5) (λ h. omega arith)
          (λ h. absurd (omega (arith, h))) (λ h. absurd (omega (arith, h))) j (omega (arith, lt))
          lt;
  };
  count =
      HasCount.by_hash 2000
        (record {
          index = 0;
          within = omega arith;
          is_tag = refl;
          value = refl;
          first = λ j lt. absurd (omega (arith, lt));
        })
        refl;
  addresses = λ i lt global.
      upto_two
        (λ i.
          (a : ℕ) × HasAddress image gfortran (24 ∷ 25 ∷ []) 9
            (symbol_of image gfortran (24 ∷ 25 ∷ []) 9 5000 4000 i).st_name a)
        (4000, (refl, inl (omega arith))) (3000, (refl, inl (omega arith)))
        (4000, (refl, inl (omega arith))) i lt;
}

abbrev objects_loaded : All (Loaded image gfortran (24 ∷ 25 ∷ []) 9) objects
objects_loaded =
    (vdso refl, (program refl refl (other (omega arith), (dynamic refl program_tables, tt)), tt))

variables_listed_example :
    (vars : List GlobalVariableInfo) × (get_all_fortran_global_variables image gfortran
        (24 ∷ 25 ∷ [])
        9
        objects
      ≡ walked vars)
    × ((v : GlobalVariableInfo)
        → IsIn v vars ↔ OfObjects image gfortran (24 ∷ 25 ∷ []) 9 objects objects_loaded v)
variables_listed_example = variables_listed image gfortran (24 ∷ 25 ∷ []) 9 objects objects_loaded
