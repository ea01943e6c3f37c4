-- ===== src/Globals/Objects.antt =====
-- src/simple_parallel/sync_fortran_global_vars.cc: the walk over the loaded objects, from their
-- program headers and dynamic tags to the symbols of each. The memory of the objects is a parameter,
-- read entry by entry; a name stands for a string.
pub mod Tags
pub mod Symbols
pub mod Header
pub mod Listing
use simple_parallel.Prelude.{
  ℕ, zero, suc, ◌+◌, Bool, true, false, Option, none, some, List, [], ◌∷◌, ◌++◌, ◌==◌,
  if◌then◌else◌,
}
use simple_parallel.Symbols.{DynamicTag, find, SymCnt, sym_cnt, no_hash, endless, get_sym_cnt}
use simple_parallel.Globals.{Sym, GlobalVariableInfo, Names, get_symbol_from_symtab}

abbrev pub dt_null : ℕ
dt_null = 0

abbrev pub dt_strtab : ℕ
dt_strtab = 5

abbrev pub dt_symtab : ℕ
dt_symtab = 6

abbrev pub pt_dynamic : ℕ
pt_dynamic = 2

pub record ProgramHeader : Type 0 where
  pub p_type : ℕ
  pub p_vaddr : ℕ

-- `dl_phdr_info`
pub record DlPhdrInfo : Type 0 where
  pub dlpi_addr : ℕ
  pub dlpi_name : ℕ
  pub dlpi_phdr : List ProgramHeader

-- What the walk reads: the dynamic tags, symbols, strings and words at their addresses, and what it
-- asks of the names; what dlsym gives for a name, and whether dlerror then reports an error.
pub record Image : Type 0 where
  pub tag_at : ℕ → DynamicTag
  pub sym_at : ℕ → Sym
  pub string_at : ℕ → ℕ
  pub word_at : ℕ → ℕ
  pub is_vdso : ℕ → Bool
  pub has_libgfortran : ℕ → Bool
  pub dlsym : ℕ → ℕ
  pub dlerror : ℕ → Bool

-- The exceptions, and a list of tags or a chain of a hash table that does not end.
pub data Failure : Type 0 where
  no_hash_table no_symtab no_strtab no_address never_ends : Failure

pub data Walked : Type 0 where
  walked : List GlobalVariableInfo → Walked
  failed : Failure → Walked

unfoldable pub symbol_name_2_addr : Image → ℕ → Option ℕ
symbol_name_2_addr image name =
    if image.dlsym name == 0
    then (if image.dlerror name then none else some 0)
    else some (image.dlsym name)

unfoldable pub get_strtab : List DynamicTag → Option ℕ
get_strtab dynamic_tags = find dt_strtab dynamic_tags

-- The tags from an address on, up to the one that ends them; an entry has 16 bytes.
unfoldable pub tags_from : Image → ℕ → ℕ → Option (List DynamicTag)
tags_from image zero address = none
tags_from image (suc fuel) address = elim ((image.tag_at address).d_tag == dt_null) [
  | true ↦ some []
  | false ↦ elim (tags_from image fuel (address + 16)) [
    | none ↦ none
    | some tags ↦ some (image.tag_at address ∷ tags)
  ]
]

-- A symbol table of `n` entries of 24 bytes; the names are offsets in the string table.
unfoldable pub symbols_from : Image → ℕ → ℕ → ℕ → List Sym
symbols_from image strtab address zero = []
symbols_from image strtab address (suc n) =
    let sym = image.sym_at address in
    record sym { st_name = image.string_at (strtab + sym.st_name) }
    ∷ symbols_from image strtab (address + 24) n

-- The variables so far and those of another part.
unfoldable pub and_then : Walked → Walked → Walked
and_then (walked vars) (walked more) = walked (vars ++ more)
and_then (walked vars) (failed e) = failed e
and_then (failed e) w = failed e

module _ (image : Image) (names : Names) (shndx_to_include : List ℕ) (fuel : ℕ) where
  unfoldable pub from_symtab : Option (List GlobalVariableInfo) → Walked
  from_symtab none = failed no_address
  from_symtab (some vars) = walked vars

  unfoldable pub from_tables : ℕ → Option ℕ → Option ℕ → Walked
  unfolding from_symtab
  from_tables n none strtab = failed no_symtab
  from_tables n (some symtab) none = failed no_strtab
  from_tables n (some symtab) (some strtab) = from_symtab (
      get_symbol_from_symtab names shndx_to_include (symbol_name_2_addr image)
        (symbols_from image strtab symtab n))

  unfoldable pub counted : List DynamicTag → SymCnt → Walked
  unfolding from_tables
  counted dynamic_tags no_hash = failed no_hash_table
  counted dynamic_tags endless = failed never_ends
  counted dynamic_tags (sym_cnt n) =
      from_tables n (find dt_symtab dynamic_tags) (get_strtab dynamic_tags)

  unfoldable pub get_symbol_from_dynamic_tags : List DynamicTag → Walked
  unfolding counted
  get_symbol_from_dynamic_tags dynamic_tags =
      counted dynamic_tags (get_sym_cnt image.word_at fuel dynamic_tags)

  unfoldable pub from_tags : Option (List DynamicTag) → Walked
  unfolding get_symbol_from_dynamic_tags
  from_tags none = failed never_ends
  from_tags (some tags) = get_symbol_from_dynamic_tags tags

  -- The loop over the dynamic headers of an object.
  unfoldable pub from_headers : ℕ → List ProgramHeader → Walked
  unfolding from_tags and_then
  from_headers dlpi_addr [] = walked []
  from_headers dlpi_addr (h ∷ hs) =
      let rest = from_headers dlpi_addr hs in
      if h.p_type == pt_dynamic
      then and_then (from_tags (tags_from image fuel (dlpi_addr + h.p_vaddr))) rest
      else rest

  unfoldable pub retrieve_symbolnames : DlPhdrInfo → Walked
  unfolding from_headers
  retrieve_symbolnames info =
      if image.is_vdso info.dlpi_name
      then walked []
      else if image.has_libgfortran info.dlpi_name
      then walked []
      else from_headers info.dlpi_addr info.dlpi_phdr

  -- `dl_iterate_phdr` calls the function for each object, since it returns 0.
  unfoldable pub get_all_fortran_global_variables : List DlPhdrInfo → Walked
  unfolding retrieve_symbolnames
  get_all_fortran_global_variables [] = walked []
  get_all_fortran_global_variables (info ∷ infos) =
      and_then (retrieve_symbolnames info) (get_all_fortran_global_variables infos)
