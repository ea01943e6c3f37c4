-- ===== src/Start/Info.antt =====
-- src/simple_parallel/init.cc, get_mpi_info_from_env, with its static variables as a state.
use simple_parallel.Prelude.{
  ◌≡◌, refl, Bool, true, false, List, [], ◌∷◌, if◌then◌else◌, All, ◌⊎◌, inl, inr,
}

-- An environment variable: missing, a text that `stoi` does not read, or one that it does.
pub data Variable (A : Type 0) : Type 0 where
  missing unreadable : Variable A
  number : A → Variable A

pub record MpiInfo (A : Type 0) : Type 0 where
  pub world_size : A
  pub world_rank : A

pub record Statics (A : Type 0) : Type 0 where
  pub initialized : Bool
  pub info : MpiInfo A

-- The int 1 and the int 0.
module _ {A : Type 0} (one none_of : A) where
  abbrev pub single_rank : MpiInfo A
  single_rank = record { world_size = one; world_rank = none_of }

  -- The local function that forgets what was read.
  unfoldable pub ret_single_rank : Statics A → MpiInfo A × Statics A
  ret_single_rank s = (single_rank, record s { info = single_rank })

  -- The second `try`: the rank, when the size has been assigned.
  unfoldable pub read_rank : Variable A → Statics A → MpiInfo A × Statics A
  unfolding ret_single_rank
  read_rank (number rank) s =
      let s' = record s { info = record (s.info) { world_rank = rank } } in (s'.info, s')
  read_rank _ s = ret_single_rank s

  -- The test for both variables, and the first `try`.
  unfoldable pub read_variables : Variable A → Variable A → Statics A → MpiInfo A × Statics A
  unfolding ret_single_rank read_rank
  read_variables missing rank s = ret_single_rank s
  read_variables size missing s = ret_single_rank s
  read_variables unreadable rank s = ret_single_rank s
  read_variables (number size) rank s =
      read_rank rank (record s { info = record (s.info) { world_size = size } })

  unfoldable pub get_mpi_info_from_env : Variable A → Variable A → Statics A → MpiInfo A × Statics A
  unfolding read_variables
  get_mpi_info_from_env size rank s =
      if s.initialized
      then (s.info, s)
      else read_variables size rank (record s { initialized = true })

  abbrev pub at_start : Statics A
  at_start = record { initialized = false; info = single_rank }

  -- Calls one after the other, each with what the environment holds then: their answers.
  unfoldable pub answers : List (Variable A × Variable A) → Statics A → List (MpiInfo A)
  unfolding get_mpi_info_from_env
  answers [] s = []
  answers ((size, rank) ∷ envs) s =
      let (info, s') = get_mpi_info_from_env size rank s in info ∷ answers envs s'

  answers_cached :
      (envs : List (Variable A × Variable A)) (s : Statics A)
      → s.initialized ≡ true
      → All (λ i. i ≡ s.info) (answers envs s)
  unfolding answers get_mpi_info_from_env
  answers_cached [] s e = tt
  answers_cached ((size, rank) ∷ envs) s e =
      rw e (refl, answers_cached envs (record s { initialized = true }) refl)

  -- The variable is not there, or `stoi` does not read it.
  abbrev pub IsUnread : Variable A → Type 0
  IsUnread missing = Unit
  IsUnread unreadable = Unit
  IsUnread (number a) = ⊥

  from_first :
      (size rank : Variable A) (envs : List (Variable A × Variable A)) (i : MpiInfo A)
      → read_variables size rank (record { initialized = true; info = single_rank })
        ≡ (i, record { initialized = true; info = i })
      → All (λ a. a ≡ i) (answers ((size, rank) ∷ envs) at_start)
  unfolding answers get_mpi_info_from_env
  from_first size rank envs i e =
      rw e (refl, answers_cached envs (record { initialized = true; info = i }) refl)

  -- Whatever the environment holds later: when stoi reads both variables at the first call, every call
  -- answers with that size and that rank; and when one of them is missing or not read, every call
  -- answers with size 1 and rank 0.
  pub answers_lem :
      (size rank : Variable A) (envs : List (Variable A × Variable A))
      → ((n r : A)
          → size ≡ number n
          → rank ≡ number r
          → All
              (λ i. i ≡ record { world_size = n; world_rank = r })
              (answers ((size, rank) ∷ envs) at_start))
        × (IsUnread size ⊎ IsUnread rank
            → All
                (λ i. i ≡ record { world_size = one; world_rank = none_of })
                (answers ((size, rank) ∷ envs) at_start))
  unfolding read_variables read_rank ret_single_rank
  answers_lem size rank envs = (
    (λ n r es er. rw (es, er) (from_first (number n) (number r) envs _ (both_read n r))),
    λ h. from_first size rank envs single_rank (unread size rank h),
  )
    where
      both_read :
          (n r : A)
          → read_variables (number n) (number r) (record { initialized = true; info = single_rank })
            ≡ (
              record { world_size = n; world_rank = r },
              record { initialized = true; info = record { world_size = n; world_rank = r } },
            )
      both_read n r = refl

      unread :
          (size rank : Variable A)
          → IsUnread size ⊎ IsUnread rank
          → read_variables size rank (record { initialized = true; info = single_rank })
            ≡ (single_rank, record { initialized = true; info = single_rank })
      unread missing rank h = refl
      unread unreadable missing h = refl
      unread unreadable unreadable h = refl
      unread unreadable (number r) h = refl
      unread (number n) missing h = refl
      unread (number n) unreadable h = refl
      unread (number n) (number r) (inl h) = absurd h
      unread (number n) (number r) (inr h) = absurd h
