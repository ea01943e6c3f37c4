-- ===== src/ParCtx/Sections.antt =====
-- The parallel sections of a program: contexts that come and go in any order.
pub mod Exclusive
pub mod Shut
use simple_parallel.Prelude.{
  ℕ, zero, suc, ◌+◌, ◌-◌, ◌≤◌, ◌<◌, ◌≡◌, ◌≢◌, ◌⊎◌, refl, ◌∙◌, sym, ap, Bool, true, false, not, ◌||◌,
  Option, none, some, List, [], ◌∷◌, arith, ◌==◌, if◌then◌else◌, Bool-cases, inl, inr, Option-cases,
}
use simple_parallel.Types.{ReduceArea}
use simple_parallel.ParCtx.{
  Error, ParCtx, Calls, Called, do_enter_parallel, entering, do_exit_parallel,
  verify_reduces_no_overlap,
}

-- The leader: `in_parallel` and the contexts that are constructed and not yet destroyed.
pub record Leader : Type 0 where
  pub in_parallel : Bool
  pub contexts : List ParCtx

pub data Operation : Type 0 where
  construct : Calls → Bool → List ReduceArea → Operation
  destruct : Calls → ℕ → Operation

-- A constructor that throws leaves no context, and no destructor runs for it.
unfoldable pub constructed : List ParCtx → Called → Option Error × Leader
constructed contexts called = elim called.error [
  | none ↦ (none, record { in_parallel = called.in_parallel; contexts = called.ctx ∷ contexts })
  | some e ↦ (some e, record { in_parallel = called.in_parallel; contexts = contexts })
]

-- `par_ctx::par_ctx`, with the size of the world
unfoldable pub construct_par_ctx :
    ℕ → Calls → Bool → List ReduceArea → Leader → Option Error × Leader
unfolding constructed
construct_par_ctx size calls enter_parallel reduces l = constructed l.contexts (
    do_enter_parallel calls enter_parallel
      (record { comm_size = size; reduces = reduces; entered_parallel = false }) l.in_parallel)

unfoldable pub keep : ParCtx → Option (ParCtx × List ParCtx) → Option (ParCtx × List ParCtx)
keep ctx none = none
keep ctx (some (found, others)) = some (found, ctx ∷ others)

-- The context at an index, and the others.
unfoldable pub take_out : ℕ → List ParCtx → Option (ParCtx × List ParCtx)
unfolding keep
take_out i [] = none
take_out zero (ctx ∷ ctxs) = some (ctx, ctxs)
take_out (suc i) (ctx ∷ ctxs) = keep ctx (take_out i ctxs)

-- An exception that leaves a destructor terminates the program.
unfoldable pub destructed : List ParCtx → Called → Option Leader
destructed contexts called = elim called.error [
  | none ↦ some (record { in_parallel = called.in_parallel; contexts = contexts })
  | some e ↦ none
]

unfoldable pub destroy : Calls → Bool → Option (ParCtx × List ParCtx) → Option Leader
unfolding destructed
destroy calls in_parallel none = none
destroy calls in_parallel (some (ctx, others)) =
    destructed others (do_exit_parallel calls ctx in_parallel)

-- `par_ctx::~par_ctx`
unfoldable pub destruct_par_ctx : Calls → ℕ → Leader → Option Leader
unfolding destroy take_out
destruct_par_ctx calls i l = destroy calls l.in_parallel (take_out i l.contexts)

unfoldable pub operate : ℕ → Operation → Leader → Option Leader
unfolding construct_par_ctx destruct_par_ctx
operate size (Operation.construct calls enter reduces) l =
    some (construct_par_ctx size calls enter reduces l).1
operate size (Operation.destruct calls i) l = destruct_par_ctx calls i l

unfoldable pub run : ℕ → List Operation → Leader → Option Leader
run size [] l = some l
run size (op ∷ ops) l = elim (operate size op l) [ none ↦ none | some l' ↦ run size ops l' ]

-- How many contexts have entered a section.
unfoldable pub entered : List ParCtx → ℕ
entered [] = 0
entered (ctx ∷ ctxs) = if ctx.entered_parallel then suc (entered ctxs) else entered ctxs

abbrev pub start : Leader
start = record { in_parallel = false; contexts = [] }
