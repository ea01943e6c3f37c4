-- ===== src/ParCtx/Fortran.antt =====
-- src/fortran_binding/fortran_binding.cc, par_ctx_fortran_binding: a context that is entered and
-- left by calls, at most once. With the context, how often it called the base class.
use simple_parallel.Prelude.{
  ℕ, suc, ◌+◌, ◌≤◌, ◌≡◌, refl, Bool, true, false, Option, none, some, List, [], ◌∷◌, ◌++◌, arith,
  if◌then◌else◌, Bool-cases, inl, inr,
}
use simple_parallel.Types.{ReduceArea}
use simple_parallel.ParCtx.{Error, ParCtx, Calls, do_enter_parallel, do_exit_parallel}

pub record FortranCtx : Type 0 where
  pub base : ParCtx
  pub m_in_parallel : Bool
  pub m_ever_entered_parallel : Bool
  -- the calls of the base class
  pub enters : ℕ
  pub exits : ℕ

-- The exception or none, the context and `in_parallel`.
pub record Answer : Type 0 where
  pub error : Option Error
  pub ctx : FortranCtx
  pub in_parallel : Bool

unfoldable pub add_reduce_area : ReduceArea → FortranCtx → FortranCtx
add_reduce_area area ctx = record ctx {
  base = record (ctx.base) { reduces = ctx.base.reduces ++ area ∷ [] };
}

unfoldable pub enter_parallel : Calls → Bool → FortranCtx → Bool → Answer
enter_parallel calls enter ctx in_parallel =
    if ctx.m_in_parallel
    then record { error = some Error.recursively_enter; ctx = ctx; in_parallel = in_parallel }
    else if ctx.m_ever_entered_parallel
    then record { error = some Error.re_enter; ctx = ctx; in_parallel = in_parallel }
    else let called = do_enter_parallel calls enter ctx.base in_parallel in
      record {
        error = called.error;
        ctx = record {
          base = called.ctx;
          m_in_parallel = true;
          m_ever_entered_parallel = true;
          enters = suc ctx.enters;
          exits = ctx.exits;
        };
        in_parallel = called.in_parallel;
      }

unfoldable pub exit_parallel : Calls → FortranCtx → Bool → Answer
exit_parallel calls ctx in_parallel =
    if ctx.m_in_parallel
    then (let called = do_exit_parallel calls ctx.base in_parallel in
        record {
          error = called.error;
          ctx = record ctx { base = called.ctx; m_in_parallel = false; exits = suc ctx.exits };
          in_parallel = called.in_parallel;
        })
    else record { error = none; ctx = ctx; in_parallel = in_parallel }

-- What the Fortran program may call; the destructor is a last call of `leave`.
pub data Call : Type 0 where
  reduce : ReduceArea → Call
  enter : Calls → Bool → Call
  leave : Calls → Call

-- Calls one after the other, from a value of `in_parallel`, whether they throw or not.
unfoldable pub use_ctx : List Call → FortranCtx → Bool → FortranCtx
unfolding add_reduce_area enter_parallel exit_parallel
use_ctx [] ctx in_parallel = ctx
use_ctx (Call.reduce area ∷ calls) ctx in_parallel =
    use_ctx calls (add_reduce_area area ctx) in_parallel
use_ctx (Call.enter c b ∷ calls) ctx in_parallel =
    let answer = enter_parallel c b ctx in_parallel in use_ctx calls answer.ctx answer.in_parallel
use_ctx (Call.leave c ∷ calls) ctx in_parallel =
    let answer = exit_parallel c ctx in_parallel in use_ctx calls answer.ctx answer.in_parallel

abbrev pub new_fortran_ctx : ℕ → FortranCtx
new_fortran_ctx size = record {
  base = record { comm_size = size; reduces = []; entered_parallel = false };
  m_in_parallel = false;
  m_ever_entered_parallel = false;
  enters = 0;
  exits = 0;
}

abbrev pub as_number : Bool → ℕ
as_number true = 1
as_number false = 0

-- The flags count the calls.
abbrev IsCounted : FortranCtx → Type 0
IsCounted ctx =
    (ctx.enters ≡ as_number ctx.m_ever_entered_parallel)
    × (ctx.exits + as_number ctx.m_in_parallel ≡ ctx.enters)

enter-IsCounted :
    (c : Calls) (b : Bool) (ctx : FortranCtx) (in_parallel : Bool)
    → IsCounted ctx
    → IsCounted (enter_parallel c b ctx in_parallel).ctx
unfolding enter_parallel
enter-IsCounted c b ctx in_parallel h = elim (Bool-cases ctx.m_in_parallel) [
  | inl within ↦
      let inside : ctx.exits + 1 ≡ ctx.enters = rw within at h.1 in rw within (h.0, inside)
  | inr out ↦
      let outside : ctx.exits + 0 ≡ ctx.enters = rw out at h.1 in
      elim (Bool-cases ctx.m_ever_entered_parallel) [
        | inl once ↦ let one : ctx.enters ≡ 1 = rw once at h.0 in rw (out, once) (one, outside)
        | inr never ↦
            let no_enter : ctx.enters ≡ 0 = rw never at h.0 in
            rw (out, never) (omega (arith, no_enter), omega (arith, outside))
      ]
]

exit-IsCounted :
    (c : Calls) (ctx : FortranCtx) (in_parallel : Bool)
    → IsCounted ctx
    → IsCounted (exit_parallel c ctx in_parallel).ctx
unfolding exit_parallel
exit-IsCounted c ctx in_parallel h = elim (Bool-cases ctx.m_in_parallel) [
  | inl within ↦
      let inside : ctx.exits + 1 ≡ ctx.enters = rw within at h.1 in
      rw within (h.0, omega (arith, inside))
  | inr out ↦ let outside : ctx.exits + 0 ≡ ctx.enters = rw out at h.1 in rw out (h.0, outside)
]

use_ctx-IsCounted :
    (calls : List Call) (ctx : FortranCtx) (in_parallel : Bool)
    → IsCounted ctx
    → IsCounted (use_ctx calls ctx in_parallel)
unfolding use_ctx add_reduce_area
use_ctx-IsCounted [] ctx in_parallel h = h
use_ctx-IsCounted (Call.reduce area ∷ calls) ctx in_parallel h =
    use_ctx-IsCounted calls (add_reduce_area area ctx) in_parallel h
use_ctx-IsCounted (Call.enter c b ∷ calls) ctx in_parallel h =
    use_ctx-IsCounted calls _ _ (enter-IsCounted c b ctx in_parallel h)
use_ctx-IsCounted (Call.leave c ∷ calls) ctx in_parallel h =
    use_ctx-IsCounted calls _ _ (exit-IsCounted c ctx in_parallel h)

-- Whatever a Fortran program calls on a new context, in any order, and whatever throws: the base
-- class is entered at most once, and is left as often as it is entered, but for the one time that
-- the context is still inside, when the destructor leaves it.
pub entered_once :
    (calls : List Call) (size : ℕ) (in_parallel : Bool)
    → let ctx = use_ctx calls (new_fortran_ctx size) in_parallel in
      (ctx.enters ≤ 1) × (ctx.exits + as_number ctx.m_in_parallel ≡ ctx.enters)
entered_once calls size in_parallel =
    let h = use_ctx-IsCounted calls (new_fortran_ctx size) in_parallel (refl, omega arith) in
    (
      omega (
        arith,
        h.0,
        at_most_one (use_ctx calls (new_fortran_ctx size) in_parallel).m_ever_entered_parallel,
      ),
      h.1,
    )
  where
    at_most_one : (b : Bool) → as_number b ≤ 1
    at_most_one true = omega arith
    at_most_one false = omega arith
