-- ===== src/Jobs/States.antt =====
-- cad2ml/jobs/states.py: the states of a job and the transitions between them.
pub mod Runs
use cad2ml.Prelude.{
  ℕ, zero, suc, ◌≡◌, refl, ap, sym, ◌∙◌, Bool, List, [], ◌∷◌, ◌++◌, any, ◌==◌, ==_iff, true,
}

pub data JobState : Type 0 where
  received validated queued parsing normalizing extracting validating_outputs training : JobState
  completed rejected failed_retryable failed_terminal timed_out quarantined : JobState

-- The position of a state in the enumeration, by which states are compared.
abbrev rank : JobState → ℕ
rank received = 0
rank validated = 1
rank queued = 2
rank parsing = 3
rank normalizing = 4
rank extracting = 5
rank validating_outputs = 6
rank training = 7
rank completed = 8
rank rejected = 9
rank failed_retryable = 10
rank failed_terminal = 11
rank timed_out = 12
rank quarantined = 13

of_rank : ℕ → List JobState → JobState
of_rank n [] = received
of_rank zero (s ∷ ss) = s
of_rank (suc n) (s ∷ ss) = of_rank n ss

abbrev pub all_states : List JobState
all_states =
    received ∷ validated ∷ queued ∷ parsing ∷ normalizing ∷ extracting ∷ validating_outputs
    ∷ training ∷ completed ∷ rejected ∷ failed_retryable ∷ failed_terminal ∷ timed_out ∷ quarantined
    ∷ []

of_rank-rank : (s : JobState) → of_rank (rank s) all_states ≡ s
unfolding of_rank
of_rank-rank received = refl
of_rank-rank _ = refl

unfoldable pub same : JobState → JobState → Bool
same a b = rank a == rank b

pub same→eq : (a b : JobState) → same a b ≡ true → a ≡ b
unfolding same
same→eq a b h =
    sym (of_rank-rank a)
    ∙ ap (λ n. of_rank n all_states) ((==_iff (rank a) (rank b)).0 h)
    ∙ of_rank-rank b

pub same_refl : (a : JobState) → same a a ≡ true
unfolding same
same_refl a = (==_iff (rank a) (rank a)).1 refl

abbrev pub is_in : JobState → List JobState → Bool
is_in s ss = any (same s) ss

unfoldable pub in_flight : List JobState
in_flight = parsing ∷ normalizing ∷ extracting ∷ validating_outputs ∷ training ∷ []

unfoldable pub terminal : List JobState
terminal = completed ∷ rejected ∷ failed_terminal ∷ timed_out ∷ quarantined ∷ []

-- `_FAIL` of the source.
unfoldable pub fail : List JobState
fail = rejected ∷ failed_retryable ∷ failed_terminal ∷ timed_out ∷ quarantined ∷ []

unfoldable pub transitions : JobState → List JobState
unfolding fail
transitions received = validated ∷ rejected ∷ failed_terminal ∷ []
transitions validated = queued ∷ failed_terminal ∷ []
transitions queued = (parsing ∷ training ∷ completed ∷ []) ++ fail
transitions training = (completed ∷ []) ++ fail
transitions parsing = (normalizing ∷ completed ∷ []) ++ fail
transitions normalizing = (extracting ∷ []) ++ fail
transitions extracting = (validating_outputs ∷ []) ++ fail
transitions validating_outputs = (completed ∷ []) ++ fail
transitions failed_retryable = queued ∷ failed_terminal ∷ []
transitions completed = []
transitions rejected = []
transitions failed_terminal = []
transitions timed_out = []
transitions quarantined = []

-- `check_transition` returns on `true` and raises `IllegalTransition` on `false`.
unfoldable pub check_transition : JobState → JobState → Bool
unfolding transitions same
check_transition src dst = is_in dst (transitions src)

unfoldable pub is_terminal : JobState → Bool
unfolding terminal same
is_terminal state = is_in state terminal

unfoldable pub is_in_flight : JobState → Bool
unfolding in_flight same
is_in_flight state = is_in state in_flight
