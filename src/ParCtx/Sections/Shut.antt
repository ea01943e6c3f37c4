-- ===== src/ParCtx/Sections/Shut.antt =====
-- After an exception from the test of the reduce areas, `in_parallel` stays set.
use simple_parallel.Prelude.{
  ℕ, ◌+◌, ◌≡◌, refl, ap, subst, Bool, true, false, not, ◌||◌, Option, none, some, List, arith, ◌==◌,
  Bool-cases, inl, inr,
}
use simple_parallel.Types.{ReduceArea}
use simple_parallel.ParCtx.{
  Error, ParCtx, Calls, do_enter_parallel, entering, verified, do_exit_parallel,
  verify_reduces_no_overlap,
}
use simple_parallel.ParCtx.Sections.{
  Leader, Operation, constructed, construct_par_ctx, take_out, destroy, destruct_par_ctx, operate,
  run, entered,
}
use simple_parallel.ParCtx.Sections.Exclusive.{
  entered-cons, take_out-entered, destructed_lem, run_keeps,
}

-- `in_parallel` is set, and no context has entered.
abbrev pub IsShut : Leader → Type 0
IsShut l = (l.in_parallel ≡ true) × (entered l.contexts ≡ 0)

-- A constructor that is asked to enter throws.
shut_nested :
    (size : ℕ) (calls : Calls) (reduces : List ReduceArea) (l : Leader)
    → (size == 1) ≡ false
    → l.in_parallel ≡ true
    → construct_par_ctx size calls true reduces l ≡ (some Error.nested_parallel, l)
unfolding construct_par_ctx do_enter_parallel constructed
shut_nested size calls reduces l many shut = rw (many, shut) refl

abbrev alone_ctx : List ReduceArea → ParCtx
alone_ctx reduces = record { comm_size = 1; reduces = reduces; entered_parallel = false }

construct-IsShut :
    (size : ℕ) (calls : Calls) (enter : Bool) (reduces : List ReduceArea) (l : Leader)
    → IsShut l
    → IsShut (construct_par_ctx size calls enter reduces l).1
unfolding construct_par_ctx do_enter_parallel constructed
construct-IsShut size calls enter reduces l h = elim (Bool-cases (not enter || (size == 1))) [
  | inl alone ↦ rw alone (h.0, omega (arith, entered-cons (alone_ctx reduces) l.contexts, h.1))
  | inr other ↦ rw (other, h.0) (refl, h.1)
]

destruct-IsShut :
    (calls : Calls) (i : ℕ) (l l' : Leader)
    → IsShut l
    → destruct_par_ctx calls i l ≡ some l'
    → IsShut l'
unfolding destruct_par_ctx destroy do_exit_parallel
destruct-IsShut calls i l l' h e = by_found (take_out i l.contexts) refl e
  where
    by_found :
        (o : Option (ParCtx × List ParCtx))
        → take_out i l.contexts ≡ o
        → destroy calls l.in_parallel o ≡ some l'
        → IsShut l'
    by_found none there e' = absurd (cc)
    by_found (some (ctx, others)) there e' =
        let count = take_out-entered i l.contexts others ctx there in
        let same = destructed_lem others (do_exit_parallel calls ctx l.in_parallel) l' e' in
        rw same (elim (Bool-cases ctx.entered_parallel) [
          | inl was_in ↦
              let one : entered l.contexts ≡ 1 + entered others = rw was_in at count in
              absurd (omega (arith, one, h.1))
          | inr was_out ↦
              let rest : entered l.contexts ≡ 0 + entered others = rw was_out at count in
              rw was_out (h.0, omega (arith, rest, h.1))
        ])

operate-IsShut :
    (size : ℕ) (op : Operation) (l l' : Leader) → IsShut l → operate size op l ≡ some l' → IsShut l'
unfolding operate
operate-IsShut size (Operation.construct calls enter reduces) l l' h e =
    let same : (construct_par_ctx size calls enter reduces l).1 ≡ l' = cc in
    subst IsShut same (construct-IsShut size calls enter reduces l h)
operate-IsShut size (Operation.destruct calls i) l l' h e = destruct-IsShut calls i l l' h e

-- The constructor that throws because of the reduce areas sets `in_parallel` before that.
overlap-IsShut :
    (size : ℕ) (calls : Calls) (reduces : List ReduceArea) (e : Error) (l : Leader)
    → (size == 1) ≡ false
    → calls.getcontext ≡ true
    → l.in_parallel ≡ false
    → entered l.contexts ≡ 0
    → verify_reduces_no_overlap reduces ≡ some e
    → (construct_par_ctx size calls true reduces l).1
      ≡ record { in_parallel = true; contexts = l.contexts }
unfolding construct_par_ctx do_enter_parallel constructed entering verified
overlap-IsShut size calls reduces e l many ok out empty found = rw (many, out, ok, found) refl

-- With more than one rank, no section open and a getcontext that succeeds: a constructor that is
-- asked to enter with reduce areas that the test refuses throws the test's exception, and whatever
-- contexts are constructed and destroyed after that, every later constructor that is asked to enter
-- throws that nested sections are not supported.
pub overlap_shuts :
    (size : ℕ) (calls : Calls) (reduces : List ReduceArea) (e : Error) (l : Leader)
    → (size == 1) ≡ false
    → calls.getcontext ≡ true
    → l.in_parallel ≡ false
    → entered l.contexts ≡ 0
    → verify_reduces_no_overlap reduces ≡ some e
    → ((construct_par_ctx size calls true reduces l).0 ≡ some e)
      × ((ops : List Operation) (l' : Leader) (calls' : Calls) (reduces' : List ReduceArea)
          → run size ops (construct_par_ctx size calls true reduces l).1 ≡ some l'
          → (construct_par_ctx size calls' true reduces' l').0 ≡ some Error.nested_parallel)
unfolding construct_par_ctx do_enter_parallel constructed entering verified
overlap_shuts size calls reduces e l many ok out empty found = (
  rw (many, out, ok, found) refl,
  λ ops l' calls' reduces' ran.
      let shut : IsShut (construct_par_ctx size calls true reduces l).1 =
        rw (overlap-IsShut size calls reduces e l many ok out empty found) (refl, empty) in
      let (still, none_in) = run_keeps IsShut size (operate-IsShut size) ops _ l' shut ran in
      ap (λ r. r.0) (shut_nested size calls' reduces' l' many still),
)
