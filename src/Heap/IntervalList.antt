-- ===== src/Heap/IntervalList.antt =====
-- An interval set is what its interface documents when it is the list of what was added.
use simple_parallel.Prelude.{ℕ, ◌+◌, ◌-◌, ◌≡◌, refl, ap, ◌&&◌, ◌||◌, List, [], ◌∷◌, arith, ltb, leb}
use simple_parallel.Types.{PteRange}
use simple_parallel.Heap.Sets.{PageSet, PageSetDocumented, has}

-- The set as the list of the intervals that were added.
abbrev pub interval_list : PageSet
interval_list = record {
  Carrier = List PteRange;
  none_yet = [];
  add = λ s lower upper. record { begin = lower; count = upper - lower } ∷ s;
  ranges = λ s. s;
}

pub interval_list-PageSetDocumented : PageSetDocumented interval_list
interval_list-PageSetDocumented = record {
  none_lem = λ p. refl;
  add_lem = λ s lower upper p. ap (λ b. b || has s p) (same_interval lower upper p);
}
  where
    same_interval :
        (lower upper p : ℕ)
        → (leb lower p && ltb p (lower + (upper - lower))) ≡ (leb lower p && ltb p upper)
    same_interval lower upper p = ground arith
