-- ===== src/Heap/Sets.antt =====
-- The sets of page numbers of src/simple_parallel/leader.cc, `my_interval_set<pgnum>`: an interval
-- set of right-open intervals, of a library, as an interface.
use simple_parallel.Prelude.{ℕ, ◌+◌, ◌≡◌, Bool, false, ◌&&◌, ◌||◌, List, [], ◌∷◌, ltb, leb}
use simple_parallel.Types.{PteRange}

-- Whether a page number lies in a range.
abbrev pub in_range : PteRange → ℕ → Bool
in_range rng p = leb rng.begin p && ltb p (rng.begin + rng.count)

abbrev pub has : List PteRange → ℕ → Bool
has [] p = false
has (rng ∷ rngs) p = in_range rng p || has rngs p

pub record PageSet : Type 1 where
  pub Carrier : Type 0
  pub none_yet : Carrier
  -- `add` of the interval from its lower to its upper bound, the upper one not included.
  pub add : Carrier → ℕ → ℕ → Carrier
  -- The intervals in the order in which the set is run through.
  pub ranges : Carrier → List PteRange

-- The empty set has no member, and an interval adds its members.
pub record PageSetDocumented (P : PageSet) : Type 0 where
  pub none_lem : (p : ℕ) → has (P.ranges P.none_yet) p ≡ false
  pub add_lem :
      (s : P.Carrier) (lower upper p : ℕ)
      → has (P.ranges (P.add s lower upper)) p
        ≡ ((leb lower p && ltb p upper) || has (P.ranges s) p)
