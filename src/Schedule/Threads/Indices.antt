-- ===== src/Schedule/Threads/Indices.antt =====
-- The indices of the tasks of guided self-scheduling.
use simple_parallel.Prelude.{
  ℕ, zero, suc, ◌+◌, ◌-◌, ◌≤◌, ◌<◌, ◌≡◌, refl, ◌∙◌, ap, true, false, List, [], ◌∷◌, arith, add64,
  add64_lem, All, word,
}
use simple_parallel.Schedule.Gss.{SimpleTask}
use simple_parallel.Schedule.Gss.Partition.{Tiles}
use simple_parallel.Schedule.Dynamic.Conserve.{sum_of}
use simple_parallel.Schedule.Threads.{gss_loop}
use simple_parallel.Schedule.Threads.Once.{Visits, FitsTask, of_task}

-- The indices from `a` on, `k` of them.
unfoldable pub indices_from : ℕ → ℕ → List ℕ
indices_from a zero = []
indices_from a (suc k) = a ∷ indices_from (suc a) k

pub gss_stops :
    (t : SimpleTask) (i : ℕ) → gss_loop.more t i ≡ false → indices_from i (t.end - i) ≡ []
unfolding indices_from
gss_stops t i e = let none_left : t.end - i ≡ 0 = ground arith in ap (indices_from i) none_left

pub gss_goes :
    (t : SimpleTask) (i : ℕ)
    → t.end < word
    → gss_loop.more t i ≡ true
    → indices_from i (t.end - i) ≡ i ∷ indices_from (add64 i 1) (t.end - add64 i 1)
unfolding indices_from
gss_goes t i f e =
    let one_more : t.end - i ≡ suc (t.end - suc i) = ground arith in
    let up : add64 i 1 ≡ suc i = add64_lem i 1 (ground arith) ∙ omega arith in
    rw (one_more, up) refl

-- The loop over a task that ends below 2^64 visits its indices from the first to the one before the
-- end.
unfoldable pub gss_visits : Visits gss_loop
gss_visits = record {
  Fits = λ t i. t.end < word;
  visits = λ t i. indices_from i (t.end - i);
  stops = λ t i f e. gss_stops t i e;
  goes = λ t i f e. (gss_goes t i f e, f);
}

module _ (weight : ℕ → ℕ) where
  abbrev from : ℕ → ℕ → ℕ
  from a k = sum_of weight (indices_from a k)

  sum_from :
      (a k m : ℕ)
      → sum_of weight (indices_from a (k + m))
        ≡ sum_of weight (indices_from a k) + sum_of weight (indices_from (a + k) m)
  unfolding sum_of indices_from
  sum_from a zero m =
      let same_count : 0 + m ≡ m = omega arith in
      let same_start : a + 0 ≡ a = omega arith in
      omega (arith, ap (from a) same_count, ap (λ x. from x m) same_start)
  sum_from a (suc k) m =
      let count : suc k + m ≡ suc (k + m) = omega arith in
      let start : a + suc k ≡ suc a + k = omega arith in
      omega (arith, ap (from a) count, ap (λ x. from x m) start, sum_from (suc a) k m)

  -- Consecutive tasks have the indices of the whole range.
  pub Tiles-sum :
      (a b : ℕ) (ts : List SimpleTask)
      → Tiles a b ts
      → (a ≤ b)
        × (sum_of (of_task gss_loop gss_visits weight) ts ≡ sum_of weight (indices_from a (b - a)))
  unfolding sum_of indices_from gss_visits
  Tiles-sum a b [] h =
      let none_left : b - a ≡ 0 = omega (arith, h) in
      (omega (arith, h), omega (arith, ap (from a) none_left))
  Tiles-sum a b (t ∷ ts) (first, lt, rest) =
      let (le, e) = Tiles-sum t.end b ts rest in
      let parts : t.end - a + (b - t.end) ≡ b - a = omega arith in
      let middle : a + (t.end - a) ≡ t.end = omega arith in
      (
        omega arith,
        omega (
          arith,
          e,
          ap (λ x. from x (t.end - x)) first,
          sum_from a (t.end - a) (b - t.end),
          ap (from a) parts,
          ap (λ x. from x (b - t.end)) middle,
        ),
      )

-- Consecutive tasks end at the end of the range at most.
pub Tiles-Fits :
    (a b : ℕ) (ts : List SimpleTask)
    → b < word
    → Tiles a b ts
    → All (FitsTask gss_loop gss_visits) ts
unfolding gss_visits
Tiles-Fits a b [] w h = tt
Tiles-Fits a b (t ∷ ts) w (first, lt, rest) =
    let (le, e) = Tiles-sum (λ _. 0) t.end b ts rest in (omega arith, Tiles-Fits t.end b ts w rest)
