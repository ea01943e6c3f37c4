-- ===== src/Symbols.antt =====
-- src/simple_parallel/sync_fortran_global_vars.cc: the number of symbols of an ELF file, from its
-- hash tables. The memory of the tables is a parameter, read in 32-bit words; the assertions are left
-- out, as in a build with NDEBUG.
pub mod Count
mod Tests
use simple_parallel.Prelude.{
  ℕ, zero, suc, ◌+◌, ◌-◌, ◌*◌, ◌%◌, Bool, true, false, Option, none, some, List, [], ◌∷◌, ltb, ◌==◌,
  if◌then◌else◌, bit_and, ◌^◌,
}

-- The header of a GNU hash table
pub record Header : Type 0 where
  pub nbuckets : ℕ
  pub symoffset : ℕ
  pub bloom_size : ℕ
  pub bloom_shift : ℕ

-- The loop over the buckets, with `n` of them left: the largest one.
unfoldable pub last_symbol : (ℕ → ℕ) → ℕ → ℕ → ℕ → ℕ
last_symbol words zero bucket_address last = last
last_symbol words (suc n) bucket_address last =
    let bucket = words bucket_address in
    last_symbol words n (bucket_address + 4) (if ltb last bucket then bucket else last)

-- The walk along the chain; a chain that does not end uses up the fuel.
unfoldable pub walk : (ℕ → ℕ) → ℕ → ℕ → ℕ → ℕ → Option ℕ
walk words zero chain_base symoffset last = none
walk words (suc fuel) chain_base symoffset last =
    elim (bit_and (words (chain_base + (last - symoffset) * 4)) 1 == 0) [
      | true ↦ walk words fuel chain_base symoffset ((last + 1) % 2 ^ 32)
      | false ↦ some ((last + 1) % 2 ^ 32)
    ]

unfoldable pub header_at : (ℕ → ℕ) → ℕ → Header
header_at words a = record {
  nbuckets = words a;
  symoffset = words (a + 4);
  bloom_size = words (a + 8);
  bloom_shift = words (a + 12);
}

unfoldable pub get_sym_num_from_gnu_hash : (ℕ → ℕ) → ℕ → ℕ → Option ℕ
unfolding last_symbol walk header_at
get_sym_num_from_gnu_hash words fuel gnu_hash_address =
    let header = header_at words gnu_hash_address in
    let buckets_address = gnu_hash_address + 16 + 8 * header.bloom_size in
    let last = last_symbol words header.nbuckets buckets_address 0 in
    if ltb last header.symoffset
    then some header.symoffset
    else walk words fuel (buckets_address + 4 * header.nbuckets) header.symoffset last

-- A dynamic tag: its number and its value.
pub record DynamicTag : Type 0 where
  pub d_tag : ℕ
  pub d_ptr : ℕ

unfoldable pub find : ℕ → List DynamicTag → Option ℕ
find tag [] = none
find tag (t ∷ ts) = if t.d_tag == tag then some t.d_ptr else find tag ts

abbrev pub dt_hash : ℕ
dt_hash = 4

abbrev pub dt_gnu_hash : ℕ
dt_gnu_hash = 0x6fff_fef5

-- The number of symbols, or the exception for a file without a hash table.
pub data SymCnt : Type 0 where
  sym_cnt : ℕ → SymCnt
  no_hash : SymCnt
  endless : SymCnt

unfoldable pub get_sym_cnt : (ℕ → ℕ) → ℕ → List DynamicTag → SymCnt
unfolding find get_sym_num_from_gnu_hash
get_sym_cnt words fuel dynamic_tags = elim (find dt_hash dynamic_tags) [
  | some hash ↦ sym_cnt (words (hash + 4))
  | none ↦ elim (find dt_gnu_hash dynamic_tags) [
    | none ↦ no_hash
    | some gnu_hash ↦ elim (get_sym_num_from_gnu_hash words fuel gnu_hash) [
      | none ↦ endless
      | some n ↦ sym_cnt n
    ]
  ]
]
