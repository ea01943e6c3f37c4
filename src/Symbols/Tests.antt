-- ===== src/Symbols/Tests.antt =====
-- A table with one bucket, whose chain has the symbols 2 and 3.
use simple_parallel.Prelude.{ℕ, ◌≡◌, refl, some, [], ◌∷◌, ◌==◌, if◌then◌else◌, arith}
use simple_parallel.Symbols.{
  SymCnt, get_sym_num_from_gnu_hash, last_symbol, walk, header_at, get_sym_cnt, find,
}
use simple_parallel.Symbols.Count.{IsTable, IsChain, gnu_hash_lem}

abbrev words : ℕ → ℕ
words x =
    if x == 0
    then 1
    else if x == 4
    then 1
    else if x == 16
    then 2
    else if x == 24
    then 6
    else if x == 28
    then 7
    else 0

sym_cnt_run :
    get_sym_cnt words 9
      (record { d_tag = 5; d_ptr = 0 } ∷ record { d_tag = 0x6fff_fef5; d_ptr = 0 } ∷ [])
    ≡ SymCnt.sym_cnt 4
unfolding get_sym_cnt find get_sym_num_from_gnu_hash last_symbol walk header_at
sym_cnt_run = refl

words-IsChain : IsChain words 20 1 2 4
words-IsChain = record {
  within = omega arith;
  open_until = λ k le lt. let two : k ≡ 2 = omega arith in rw two refl;
  closed = λ e. absurd (cc);
}

words-IsTable : IsTable words 0 2 4
words-IsTable = record {
  below = λ i lt. let first : i ≡ 0 = omega arith in rw first (omega arith);
  attained = (0, omega arith, refl);
  hashed = omega arith;
  chain = words-IsChain;
}

gnu_hash_example : get_sym_num_from_gnu_hash words 2 0 ≡ some 4
gnu_hash_example = gnu_hash_lem words 2 0 2 4 words-IsTable (omega arith) (omega arith)
