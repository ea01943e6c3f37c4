-- ===== src/ParCtx/Sections/Exclusive.antt =====
-- At most one parallel section is open at a time.
use simple_parallel.Prelude.{
  ℕ, zero, suc, ◌+◌, ◌≤◌, ◌≡◌, ◌≢◌, ◌⊎◌, refl, ap, subst, Bool, true, false, not, ◌||◌, Option,
  none, some, List, [], ◌∷◌, arith, ◌==◌, if◌then◌else◌, Bool-cases, inl, inr, Option-cases,
}
use simple_parallel.Types.{ReduceArea}
use simple_parallel.ParCtx.{ParCtx, Calls, Called, do_enter_parallel, entering, do_exit_parallel}
use simple_parallel.ParCtx.Sections.{
  Leader, Operation, constructed, construct_par_ctx, keep, take_out, destructed, destroy,
  destruct_par_ctx, operate, run, entered, start,
}

abbrev pub at_most : Bool → ℕ
at_most true = 1
at_most false = 0

-- No more contexts have entered than `in_parallel` allows.
abbrev pub IsExclusive : Leader → Type 0
IsExclusive l = entered l.contexts ≤ at_most l.in_parallel

pub entered-cons :
    (c : ParCtx) (cs : List ParCtx) → entered (c ∷ cs) ≡ at_most c.entered_parallel + entered cs
unfolding entered
entered-cons c cs = by_entered c.entered_parallel
  where
    by_entered : (b : Bool) → (if b then suc (entered cs) else entered cs) ≡ at_most b + entered cs
    by_entered true = omega arith
    by_entered false = omega arith

pub take_out-entered :
    (i : ℕ) (ctxs others : List ParCtx) (ctx : ParCtx)
    → take_out i ctxs ≡ some (ctx, others)
    → entered ctxs ≡ at_most ctx.entered_parallel + entered others
unfolding take_out keep
take_out-entered i [] others ctx e = absurd (cc)
take_out-entered zero (c ∷ ctxs) others ctx e =
    let same : c ≡ ctx = cc in
    let rest : ctxs ≡ others = cc in rw (same, rest) (entered-cons ctx others)
take_out-entered (suc i) (c ∷ ctxs) others ctx e =
    kept (take_out-entered i ctxs) (take_out i ctxs) refl e
  where
    kept :
        ((os : List ParCtx) (x : ParCtx)
          → take_out i ctxs ≡ some (x, os)
          → entered ctxs ≡ at_most x.entered_parallel + entered os)
        → (o : Option (ParCtx × List ParCtx)) → take_out i ctxs ≡ o
        → keep c o ≡ some (ctx, others)
        → entered (c ∷ ctxs) ≡ at_most ctx.entered_parallel + entered others
    kept ih none e' h = absurd (cc)
    kept ih (some (found, left)) e' h =
        let same : found ≡ ctx = cc in
        let rest : c ∷ left ≡ others = cc in
        omega (
          arith,
          ih left ctx (let there : take_out i ctxs ≡ some (ctx, left) = rw (← same) e' in there),
          entered-cons c ctxs,
          entered-cons c left,
          ap entered rest,
        )

new_ctx : ℕ → List ReduceArea → ParCtx
new_ctx size reduces = record { comm_size = size; reduces = reduces; entered_parallel = false }

-- There is room for a context that enters, and a failure takes no room away.
enter_room :
    (calls : Calls) (enter : Bool) (size : ℕ) (reduces : List ReduceArea) (b : Bool)
    → let r = do_enter_parallel calls enter (new_ctx size reduces) b in
      at_most r.ctx.entered_parallel + at_most b ≤ at_most r.in_parallel
      ⊎ (r.error ≢ none) × (at_most b ≤ at_most r.in_parallel)
unfolding new_ctx do_enter_parallel entering
enter_room calls enter size reduces b = elim (Bool-cases (not enter || (size == 1))) [
  | inl alone ↦ inl (rw (alone, do_enter_parallel) (omega arith))
  | inr other ↦ nested b other
]
  where
    nested :
        (b : Bool)
        → (not enter || (size == 1)) ≡ false
        → let r = do_enter_parallel calls enter (new_ctx size reduces) b in
          at_most r.ctx.entered_parallel + at_most b ≤ at_most r.in_parallel
          ⊎ (r.error ≢ none) × (at_most b ≤ at_most r.in_parallel)
    nested true h = rw h (inr ((λ e. cc), omega arith))
    nested false h = elim (Bool-cases calls.getcontext) [
      | inl ok ↦ rw (h, ok) (inl (omega arith))
      | inr failed ↦ rw (h, failed) (inl (omega arith))
    ]

construct-IsExclusive :
    (size : ℕ) (calls : Calls) (enter : Bool) (reduces : List ReduceArea) (l : Leader)
    → IsExclusive l
    → IsExclusive (construct_par_ctx size calls enter reduces l).1
unfolding construct_par_ctx new_ctx
construct-IsExclusive size calls enter reduces l h =
    by_error (do_enter_parallel calls enter (new_ctx size reduces) l.in_parallel)
      (enter_room calls enter size reduces l.in_parallel)
  where
    by_error :
        (r : Called)
        → at_most r.ctx.entered_parallel + at_most l.in_parallel ≤ at_most r.in_parallel
          ⊎ (r.error ≢ none) × (at_most l.in_parallel ≤ at_most r.in_parallel)
        → IsExclusive (constructed l.contexts r).1
    by_error r room = elim (Option-cases r.error) [
      | inl fine ↦
          rw (fine, constructed)
            (elim room [
              | inl fits ↦ omega (arith, entered-cons r.ctx l.contexts, h, fits)
              | inr (failed, le) ↦ absurd (failed fine)
            ])
      | inr (e, threw) ↦
          rw (threw, constructed)
            (elim room [
              | inl fits ↦ omega (arith, h, fits)
              | inr (failed, le) ↦ omega (arith, h, le)
            ])
    ]

at_most_one : (b : Bool) → at_most b ≤ 1
at_most_one true = omega arith
at_most_one false = omega arith

pub exit_room :
    (calls : Calls) (ctx : ParCtx) (others : List ParCtx) (b : Bool)
    → at_most ctx.entered_parallel + entered others ≤ at_most b
    → entered others ≤ at_most (do_exit_parallel calls ctx b).in_parallel
unfolding do_exit_parallel
exit_room calls ctx others b h = elim (Bool-cases ctx.entered_parallel) [
  | inl was_in ↦
      let one : 1 + entered others ≤ at_most b = rw was_in at h in
      rw was_in (omega (arith, one, at_most_one b))
  | inr was_out ↦
      let none_in : 0 + entered others ≤ at_most b = rw was_out at h in
      rw was_out (omega (arith, none_in))
]

pub destructed_lem :
    (others : List ParCtx) (r : Called) (l' : Leader)
    → destructed others r ≡ some l'
    → l' ≡ record { in_parallel = r.in_parallel; contexts = others }
unfolding destructed
destructed_lem others r l' e = elim (Option-cases r.error) [
  | inl fine ↦
      let z : some (record { in_parallel = r.in_parallel; contexts = others }) ≡ some l' =
        rw (fine, destructed) at e in
      cc
  | inr (er, threw) ↦ let z : none ≡ some l' = rw (threw, destructed) at e in absurd (cc)
]

destruct-IsExclusive :
    (calls : Calls) (i : ℕ) (l l' : Leader)
    → IsExclusive l
    → destruct_par_ctx calls i l ≡ some l'
    → IsExclusive l'
unfolding destruct_par_ctx destroy
destruct-IsExclusive calls i l l' h e = by_found (take_out i l.contexts) refl e
  where
    by_found :
        (o : Option (ParCtx × List ParCtx))
        → take_out i l.contexts ≡ o
        → destroy calls l.in_parallel o ≡ some l'
        → IsExclusive l'
    by_found none there e' = absurd (cc)
    by_found (some (ctx, others)) there e' =
        let count = take_out-entered i l.contexts others ctx there in
        rw (destructed_lem others (do_exit_parallel calls ctx l.in_parallel) l' e')
          (exit_room calls ctx others l.in_parallel (omega (arith, count, h)))

operate-IsExclusive :
    (size : ℕ) (op : Operation) (l l' : Leader)
    → IsExclusive l
    → operate size op l ≡ some l'
    → IsExclusive l'
unfolding operate
operate-IsExclusive size (Operation.construct calls enter reduces) l l' h e =
    let same : (construct_par_ctx size calls enter reduces l).1 ≡ l' = cc in
    subst IsExclusive same (construct-IsExclusive size calls enter reduces l h)
operate-IsExclusive size (Operation.destruct calls i) l l' h e =
    destruct-IsExclusive calls i l l' h e

-- What an operation keeps, a run keeps.
pub run_keeps :
    (P : Leader → Type 0) (size : ℕ)
    → ((op : Operation) (l l' : Leader) → P l → operate size op l ≡ some l' → P l')
    → (ops : List Operation) (l l' : Leader) → P l
    → run size ops l ≡ some l'
    → P l'
unfolding run
run_keeps P size keeps [] l l' h e = let same : l ≡ l' = cc in subst P same h
run_keeps P size keeps (op ∷ ops) l l' h e = elim (Option-cases (operate size op l)) [
  | inl over ↦ let z : none ≡ some l' = rw (over, run) at e in absurd (cc)
  | inr (next, e1) ↦
      let e2 : run size ops next ≡ some l' = rw (e1, run) at e in
      run_keeps P size keeps ops next l' (keeps op l next h e1) e2
]

-- However contexts are constructed and destroyed, in any order, with any failures of the calls: at
-- most one of the living contexts has entered a parallel section, and none has while `in_parallel`
-- is false.
pub one_section :
    (size : ℕ) (ops : List Operation) (l : Leader)
    → run size ops start ≡ some l
    → (entered l.contexts ≤ 1) × (l.in_parallel ≡ false → entered l.contexts ≡ 0)
unfolding entered
one_section size ops l e =
    let h = run_keeps IsExclusive size (operate-IsExclusive size) ops start l start-IsExclusive e in
    (
      omega (arith, h, at_most_one l.in_parallel),
      λ out. let z : entered l.contexts ≤ 0 = rw out at h in omega arith,
    )
  where
    start-IsExclusive : IsExclusive start
    start-IsExclusive = omega arith
