-- ===== src/Schedule/Threads/Collapse2.antt =====
-- The index pairs of the tasks of two collapsed loops.
use simple_parallel.Prelude.{
  ℕ, zero, suc, ◌-◌, ◌≤◌, ◌≡◌, ◌≢◌, ap, ap₂, true, false, List, [], ◌∷◌, arith,
}
use simple_parallel.Schedule.Gss.Collapse2.{IjPoint, Collapse2Task, GenFunc, Walks}
use simple_parallel.Schedule.Threads.{collapse_2_loop}
use simple_parallel.Schedule.Threads.Once.{Visits}

module _ (gen_func : GenFunc) (final_end : IjPoint) where
  -- `k` pairs from `p` on.
  unfoldable pub pairs_from : IjPoint → ℕ → List IjPoint
  pairs_from p zero = []
  pairs_from p (suc k) = p ∷ pairs_from ((collapse_2_loop gen_func final_end).advance p) k

  module _ (pos : IjPoint → ℕ) (total : ℕ) (walk : Walks gen_func final_end pos total)
      (numbers : (p q : IjPoint) → pos p ≤ total → pos p ≡ pos q → p ≡ q) where
    abbrev pub IsUpTo : Collapse2Task → IjPoint → Type 0
    IsUpTo t p = (pos p ≤ pos t.ij_end) × (pos t.ij_end ≤ total)

    stops_lem :
        (t : Collapse2Task) (p : IjPoint)
        → (collapse_2_loop gen_func final_end).more t p ≡ false
        → pos p ≡ pos t.ij_end
    stops_lem t p e =
        let same_i : p.i ≡ t.ij_end.i = ground arith in
        let same_j : p.j ≡ t.ij_end.j = ground arith in
        ap₂ (λ i j. pos (record { i = i; j = j })) same_i same_j

    goes_lem :
        (t : Collapse2Task) (p : IjPoint)
        → IsUpTo t p
        → (collapse_2_loop gen_func final_end).more t p ≡ true
        → pos p ≢ pos t.ij_end
    goes_lem t p f e h =
        let same = numbers p t.ij_end (omega (arith, f)) h in
        let same_i : p.i ≡ t.ij_end.i = ap (λ (q : IjPoint). q.i) same in
        let same_j : p.j ≡ t.ij_end.j = ap (λ (q : IjPoint). q.j) same in absurd (ground arith)

    pub collapse_2_stops :
        (t : Collapse2Task) (p : IjPoint)
        → (collapse_2_loop gen_func final_end).more t p ≡ false
        → pairs_from p (pos t.ij_end - pos p) ≡ []
    unfolding pairs_from
    collapse_2_stops t p e =
        let none_left : pos t.ij_end - pos p ≡ 0 = omega (arith, stops_lem t p e) in
        ap (pairs_from p) none_left

    pub collapse_2_goes :
        (t : Collapse2Task) (p : IjPoint)
        → IsUpTo t p
        → (collapse_2_loop gen_func final_end).more t p ≡ true
        → let next = (collapse_2_loop gen_func final_end).advance p in
          (pairs_from p (pos t.ij_end - pos p) ≡ p ∷ pairs_from next (pos t.ij_end - pos next))
          × IsUpTo t next
    unfolding pairs_from
    collapse_2_goes t p f e =
        let ne = goes_lem t p f e in
        let moves = walk.moves p 1 (omega (arith, f, ne)) (omega arith) (omega (arith, f, ne)) in
        let next = (collapse_2_loop gen_func final_end).advance p in
        let one_more : pos t.ij_end - pos p ≡ suc (pos t.ij_end - pos next) =
          omega (arith, f, ne, moves) in
        (ap (pairs_from p) one_more, (omega (arith, f, ne, moves), f.1))

    -- With a callback that walks over the pairs as it promises, and positions up to the last that
    -- tell the pairs apart, the loop over a task visits the pairs from the first to the one before
    -- the end.
    unfoldable pub collapse_2_visits : Visits (collapse_2_loop gen_func final_end)
    collapse_2_visits = record {
      Fits = IsUpTo;
      visits = λ t p. pairs_from p (pos t.ij_end - pos p);
      stops = λ t p f e. collapse_2_stops t p e;
      goes = λ t p f e. collapse_2_goes t p f e;
    }
