-- ===== src/Globals/Verified/Compared.antt =====
-- When the assertions on the ranks' variables hold.
use simple_parallel.Prelude.{
  ℕ, suc, zero, ◌<◌, ◌≡◌, ◌↔◌, refl, ◌∙◌, sym, ap, subst, Bool, true, false, Option, none, some,
  List, [], ◌∷◌, ◌==◌, arith, length, Bool-cases, inl, inr, ==→eq, ==_refl,
}
use simple_parallel.Globals.Verified.{
  Gathered, same_info, all_ranks, head?, after_head, verify_each,
  verify_fortran_global_variables_synced,
}

all_ranks_iff :
    (n : ℕ) (test : ℕ → Bool) → (all_ranks n test ≡ true) ↔ ((q : ℕ) → q < n → test q ≡ true)
unfolding all_ranks
all_ranks_iff zero test = ((λ e q lt. absurd (omega (arith, lt))), λ h. refl)
all_ranks_iff (suc n) test =
    let rest = all_ranks_iff n test in
    (
      (λ e q lt.
          let before : all_ranks n test ≡ true = ground (arith, e) in
          let last : test n ≡ true = ground (arith, e) in
          elim (Bool-cases (q == n)) [
            | inl at ↦ subst (λ k. test k ≡ true) (sym (==→eq q n at)) last
            | inr ne ↦ rest.0 before q (ground (arith, ne, lt))
          ]),
      λ h. rw (rest.1 (λ q lt. h q (omega (arith, lt))), h n (omega arith)) refl,
    )

same_self : (i : Gathered) → same_info i (some i) ≡ true
unfolding same_info
same_self i =
    rw (==_refl i.data_address, ==_refl i.size_bytes, ==_refl i.name_data, ==_refl i.name_size) refl

same_iff : (i : Gathered) (o : Option Gathered) → (same_info i o ≡ true) ↔ (o ≡ some i)
unfolding same_info
same_iff i none = ((λ e. ground (arith, e)), λ e. cc)
same_iff i (some j) = (
  (λ e.
      let e0 : j.data_address ≡ i.data_address = ground (arith, e) in
      let e1 : j.size_bytes ≡ i.size_bytes = ground (arith, e) in
      let e2 : j.name_data ≡ i.name_data = ground (arith, e) in
      let e3 : j.name_size ≡ i.name_size = ground (arith, e) in
      λ k.
        some
          (record { data_address = e0 k; size_bytes = e1 k; name_data = e2 k; name_size = e3 k })),
  λ e. subst (λ o. same_info i o ≡ true) (sym e) (same_self i),
)

head_lem : (i : Gathered) (is : List Gathered) → head? is ≡ some i → is ≡ i ∷ after_head is
unfolding head? after_head
head_lem i [] e = absurd (ground (arith, e))
head_lem i (j ∷ is) e = let same : j ≡ i = cc in rw same refl

length-zero : (is : List Gathered) → length is ≡ 0 → is ≡ []
length-zero [] e = refl
length-zero (i ∷ is) e = absurd (omega (arith, e))

length-after_head : (is : List Gathered) (n : ℕ) → length is ≡ suc n → length (after_head is) ≡ n
unfolding after_head
length-after_head [] n e = absurd (omega (arith, e))
length-after_head (i ∷ is) n e = omega (arith, e)

verify_each_iff :
    (n : ℕ) (is : List Gathered) (ranks : ℕ → List Gathered)
    → ((q : ℕ) → q < n → length (ranks q) ≡ length is)
    → (verify_each n ranks is ≡ true) ↔ ((q : ℕ) → q < n → ranks q ≡ is)
unfolding verify_each
verify_each_iff n [] ranks same = ((λ e q lt. length-zero (ranks q) (same q lt)), λ h. refl)
verify_each_iff n (i ∷ is) ranks same =
    let heads = all_ranks_iff n (λ q. same_info i (head? (ranks q))) in
    let rest =
      verify_each_iff n is (λ q. after_head (ranks q))
        (λ q lt. length-after_head (ranks q) (length is) (same q lt)) in
    elim (Bool-cases (all_ranks n (λ q. same_info i (head? (ranks q))))) [
      | inl all ↦ (
        (λ e q lt.
            let others : verify_each n (λ q. after_head (ranks q)) is ≡ true =
              rw (verify_each, all) at e in
            head_lem i (ranks q) ((same_iff i (head? (ranks q))).0 (heads.0 all q lt))
            ∙ ap (λ l. i ∷ l) (rest.0 others q lt)),
        λ h. rw (verify_each, all) (rest.1 (λ q lt. ap after_head (h q lt))),
      )
      | inr some_other ↦ (
        (λ e.
            let wrong : false ≡ true = rw (verify_each, some_other) at e in absurd (ground arith)),
        λ h.
            let all = heads.1 (λ q lt. (same_iff i (head? (ranks q))).1 (ap head? (h q lt))) in
            absurd (ground arith),
      )
    ]

-- The assertions hold on a rank exactly when every rank's variables are its own.
pub verify_iff :
    (n : ℕ) (ranks : ℕ → List Gathered) (rank : ℕ)
    → (verify_fortran_global_variables_synced n ranks rank ≡ true)
      ↔ ((q : ℕ) → q < n → ranks q ≡ ranks rank)
unfolding verify_fortran_global_variables_synced
verify_iff n ranks rank =
    let counts = all_ranks_iff n (λ q. length (ranks q) == length (ranks rank)) in
    (
      (λ e.
          let counted : all_ranks n (λ q. length (ranks q) == length (ranks rank)) ≡ true =
            ground arith in
          let each : verify_each n ranks (ranks rank) ≡ true = ground arith in
          (verify_each_iff n (ranks rank) ranks
              (λ q lt. ==→eq (length (ranks q)) (length (ranks rank)) (counts.0 counted q lt))).0
            each),
      λ h.
          let counted = counts.1 (λ q lt. rw (h q lt) (==_refl (length (ranks rank)))) in
          let each = (verify_each_iff n (ranks rank) ranks (λ q lt. ap length (h q lt))).1 h in
          rw (counted, each) refl,
    )
