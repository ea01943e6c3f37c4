-- ===== src/Globals.antt =====
-- src/simple_parallel/sync_fortran_global_vars.cc: which symbols are Fortran global variables, and
-- their broadcast at the start of a section. The matches of the three regular expressions, the
-- sections' numbers and the addresses of the symbols are parameters.
pub mod Sync
pub mod Choice
pub mod Objects
pub mod Verified
pub mod Sections
mod Tests
use simple_parallel.Prelude.{
  ℕ, zero, suc, ◌+◌, Bool, true, false, ◌||◌, Option, none, some, List, [], ◌∷◌, ltb, ◌==◌,
  if◌then◌else◌, int_max, ◌>>=◌,
}
use simple_parallel.Types.{MemArea}
use simple_parallel.BigMpi.Requests.{Requests, Chunk, async_wait_request, waitall}

-- A symbol: its type, its section, its name and its size; a name stands for a string.
pub record Sym : Type 0 where
  pub st_type : ℕ
  pub st_shndx : ℕ
  pub st_name : ℕ
  pub st_size : ℕ

pub record GlobalVariableInfo : Type 0 where
  pub name : ℕ
  pub area : MemArea

abbrev pub stt_object : ℕ
stt_object = 1

-- The regular expressions of the three compilers, and the two names that are left out.
pub record Names : Type 0 where
  pub gfort : ℕ → Bool
  pub ifx : ℕ → Bool
  pub flang : ℕ → Bool
  pub ieee_usual : ℕ
  pub ieee_all : ℕ

unfoldable pub is_fortran_global_variable : Names → ℕ → Bool
is_fortran_global_variable names symbol_name =
    if (symbol_name == names.ieee_usual) || (symbol_name == names.ieee_all)
    then false
    else if names.gfort symbol_name
    then true
    else if names.ifx symbol_name
    then true
    else if names.flang symbol_name
    then true
    else false

unfoldable pub find_section : List ℕ → ℕ → Bool
find_section [] shndx = false
find_section (s ∷ ss) shndx = if s == shndx then true else find_section ss shndx

-- The loop over the symbols, without the assertion on the offset of a name; `none` is the exception for a symbol without an address.
module _ (names : Names) (shndx_to_include : List ℕ) (symbol_name_2_addr : ℕ → Option ℕ) where
  unfoldable pub is_chosen : Sym → Bool
  unfolding find_section is_fortran_global_variable
  is_chosen sym =
      if sym.st_type == stt_object
      then if find_section shndx_to_include sym.st_shndx
        then is_fortran_global_variable names sym.st_name
        else false
      else false

  unfoldable pub get_symbol_from_symtab : List Sym → Option (List GlobalVariableInfo)
  get_symbol_from_symtab [] = some []
  get_symbol_from_symtab (sym ∷ syms) = elim (is_chosen sym) [
    | false ↦ get_symbol_from_symtab syms
    | true ↦ do
      addr ← symbol_name_2_addr sym.st_name
      vars ← get_symbol_from_symtab syms
      some (record { name = sym.st_name; area = record { addr = addr; size = sym.st_size } } ∷ vars)
  ]

-- A size that is no int fails the assertion of the loop; `gsl::narrow_cast` itself does not check it.
unfoldable pub sync_variables :
    (ℕ → ℕ) → List GlobalVariableInfo → Requests Chunk → Option (Requests Chunk)
sync_variables waitany [] s = some s
sync_variables waitany (i ∷ is) s = elim (ltb int_max i.area.size) [
  | true ↦ none
  | false ↦ do
    s' ← async_wait_request waitany (record { begin = i.area.addr; count = i.area.size }) s
    sync_variables waitany is s'
]

unfoldable pub sync_fortran_global_variables :
    (ℕ → ℕ) → List GlobalVariableInfo → Option (Requests Chunk)
unfolding sync_variables
sync_fortran_global_variables waitany vars = do
  s ← sync_variables waitany vars (record { buffer = []; issued = []; waited = [] })
  some (waitall s)
