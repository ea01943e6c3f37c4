-- ===== src/Globals/Objects/Header.antt =====
-- The variables of one dynamic header.
use simple_parallel.Prelude.{ℕ, ◌<◌, ◌≡◌, ◌↔◌, refl, List}
use simple_parallel.Globals.{GlobalVariableInfo, Names}
use simple_parallel.Globals.Objects.{
  Image, walked, get_strtab, tags_from, from_symtab, from_tables, counted,
  get_symbol_from_dynamic_tags, from_tags,
}
use simple_parallel.Globals.Objects.Tags.{
  IsTagArray, HasTag, HasCount, tags_from_lem, find-HasTag, get_sym_cnt-HasCount,
}
use simple_parallel.Globals.Objects.Symbols.{
  IsIn, Global, HasAddress, OfSymbol, symbol_of, table_listed,
}

module _ (image : Image) (names : Names) (sections : List ℕ) (fuel : ℕ) where
  -- The tables that an array of dynamic tags leads to: of `m` tags, for which there is fuel, with a
  -- symbol table of `n` symbols, a string table, and an address for every global variable.
  pub record Tables (address : ℕ) : Type 0 where
    pub m : ℕ
    pub n : ℕ
    pub symtab : ℕ
    pub strtab : ℕ
    pub array : IsTagArray image address m
    pub enough : m < fuel
    pub at_symtab : HasTag image address m 6 symtab
    pub at_strtab : HasTag image address m 5 strtab
    pub count : HasCount image address m n fuel
    pub addresses :
        (i : ℕ)
        → i < n
        → Global image names sections fuel (symbol_of image names sections fuel symtab strtab i)
        → (a : ℕ) × HasAddress image names sections fuel
            (symbol_of image names sections fuel symtab strtab i).st_name
            a

  -- The variable of one of the symbols.
  abbrev pub OfTables : (address : ℕ) → Tables address → GlobalVariableInfo → Type 0
  OfTables address t v =
      (i : ℕ) × (i < t.n)
      × OfSymbol image names sections fuel (symbol_of image names sections fuel t.symtab t.strtab i)
          v

  pub header_listed :
      (address : ℕ) (t : Tables address)
      → (vars : List GlobalVariableInfo) × (from_tags image names sections fuel
            (tags_from image fuel address)
          ≡ walked vars)
        × ((v : GlobalVariableInfo) → IsIn v vars ↔ OfTables address t v)
  unfolding from_tags get_symbol_from_dynamic_tags counted from_tables from_symtab get_strtab
  header_listed address t =
      let (vars, found, iff) =
        table_listed image names sections fuel t.n t.symtab t.strtab t.addresses in
      (
        vars,
        rw
            (
              tags_from_lem image t.m fuel address t.array.open_until t.array.closed t.enough,
              get_sym_cnt-HasCount image t.m t.n address fuel t.count,
              find-HasTag image 6 t.m address t.symtab t.at_symtab,
              find-HasTag image 5 t.m address t.strtab t.at_strtab,
              found,
            )
            refl,
        iff,
      )
