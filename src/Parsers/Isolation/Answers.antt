-- ===== src/Parsers/Isolation/Answers.antt =====
-- The parent's answer beside the child's ending, for cad2ml/parsers/isolation.py.
use Prim.Native.String.{◌++◌ as append}
use cad2ml.Prelude.{
  ◌≡◌, ◌≤◌, ◌<◌, ◌⊎◌, inl, inr, refl, true, false, List, [], ◌∷◌, ◌++◌, none, some, All, arith,
}
use cad2ml.Errors.{PipelineError, child_crashed, internal_error}
use cad2ml.Pipeline.{Run, returned, failed, prefix}
use cad2ml.Parsers.Isolation.{
  Message, progress, Ending, returns, raises, out_of_memory, raises_other, dies, Turn, Limits,
  suffix, last_message, child_messages, is_late, run_isolated,
}

-- The child's messages arrive one by one, and then the end of the pipe.
abbrev pub Arrives : {P R : Type 0} → List (Message P R) → List (Turn P R) → Type 0
Arrives [] [] = ⊥
Arrives [] (t ∷ rest) = t.event ≡ none
Arrives (m ∷ ms) [] = ⊥
Arrives (m ∷ ms) (t ∷ rest) = (t.event ≡ some m) × Arrives ms rest

-- Turns that bring progress alone.
abbrev pub Reports : {P R : Type 0} → List P → List (Turn P R) → Type 0
Reports [] [] = Unit
Reports [] (t ∷ rest) = ⊥
Reports (p ∷ ps) [] = ⊥
Reports (p ∷ ps) (t ∷ rest) = (t.event ≡ some (progress p)) × Reports ps rest

-- What each ending of the child means for the caller.
abbrev pub answer_to : {R : Type 0} → Limits → Ending R → Run R
answer_to limits (returns r) = returned r
answer_to limits (raises e) = failed e
answer_to limits out_of_memory =
    failed (record { code = child_crashed; message = "memory limit exceeded"; stage = "isolated" })
answer_to limits (raises_other type_ message traceback) = failed (record {
  code = internal_error;
  message =
      append type_
        (append ": " (append (prefix 2000 message) (append "\n" (suffix 4000 traceback))));
  stage = limits.stage;
})
answer_to limits dies = failed (record {
  code = child_crashed;
  message = append "child exited with code " (append limits.exit_text " without result");
  stage = limits.stage;
})

-- The error of the hard timeout, under the code and the stage that the caller gives.
abbrev pub timeout_error : Limits → PipelineError
timeout_error limits = record {
  code = limits.timeout_code;
  message = append "exceeded " (append limits.timeout_text "s hard timeout");
  stage = limits.stage;
}

module _ {P R : Type 0} (limits : Limits) where
  -- The clock is before the deadline at the head of each round, and what the round brings is there at the
  -- deadline at the latest.
  abbrev pub InTime : List (Turn P R) → Type 0
  InTime = All (λ (t : Turn P R). (t.clock < limits.deadline) × (t.arrival ≤ limits.deadline))

  abbrev pub IsLate : Turn P R → Type 0
  IsLate t = (limits.deadline ≤ t.clock) ⊎ (limits.deadline < t.arrival)

  is_late-in_time :
      (t : Turn P R)
      → t.clock < limits.deadline
      → t.arrival ≤ limits.deadline
      → is_late limits t ≡ false
  unfolding is_late
  is_late-in_time t c a = ground arith

  is_late-late : (t : Turn P R) → IsLate t → is_late limits t ≡ true
  unfolding is_late
  is_late-late t (inl c) = ground arith
  is_late-late t (inr a) = ground arith

  run_last :
      (end_ : Ending R) (ts : List (Turn P R))
      → Arrives (last_message end_) ts
      → InTime ts
      → run_isolated limits ts ≡ ([], answer_to limits end_)
  unfolding run_isolated last_message
  run_last (returns r) [] a h = absurd a
  run_last (raises e) [] a h = absurd a
  run_last out_of_memory [] a h = absurd a
  run_last (raises_other x y z) [] a h = absurd a
  run_last dies [] a h = absurd a
  run_last (returns r) (t ∷ rest) a h = rw (is_late-in_time t h.0.0 h.0.1, a.0) refl
  run_last (raises e) (t ∷ rest) a h = rw (is_late-in_time t h.0.0 h.0.1, a.0) refl
  run_last out_of_memory (t ∷ rest) a h = rw (is_late-in_time t h.0.0 h.0.1, a.0) refl
  run_last (raises_other x y z) (t ∷ rest) a h = rw (is_late-in_time t h.0.0 h.0.1, a.0) refl
  run_last dies (t ∷ rest) a h = rw (is_late-in_time t h.0.0 h.0.1, a) refl

  -- When each round starts before the deadline and what the child sends arrives by it, the parent hands
  -- on all its reports, in order, and answers as the child ended: with its value, with its own error,
  -- with CHILD_CRASHED for a kill or a lack of memory, and with INTERNAL_ERROR for any other exception,
  -- under its type, the start of its message and the end of its traceback.
  pub run_isolated_answers :
      (reports : List P) (end_ : Ending R) (ts : List (Turn P R))
      → Arrives (child_messages reports end_) ts
      → InTime ts
      → run_isolated limits ts ≡ (reports, answer_to limits end_)
  unfolding run_isolated child_messages
  run_isolated_answers [] end_ ts a h = run_last end_ ts a h
  run_isolated_answers (p ∷ ps) end_ [] a h = absurd a
  run_isolated_answers (p ∷ ps) end_ (t ∷ rest) a h =
      rw (is_late-in_time t h.0.0 h.0.1, a.0, run_isolated_answers ps end_ rest a.1 h.1) refl

  -- After reports in time, a round that starts at the deadline or later, or that brings nothing by the
  -- deadline, is the last: whatever it would bring, the reports before it have been handed on and the
  -- answer is an error with the code of the timeout, its message and the stage that the caller gave.
  pub run_isolated_late :
      (reports : List P) (before : List (Turn P R)) (t : Turn P R) (after : List (Turn P R))
      → Reports reports before
      → InTime before
      → IsLate t
      → run_isolated limits (before ++ t ∷ after) ≡ (reports, failed (timeout_error limits))
  unfolding run_isolated
  run_isolated_late [] [] t after a h late = rw (is_late-late t late) refl
  run_isolated_late (p ∷ ps) [] t after a h late = absurd a
  run_isolated_late [] (u ∷ us) t after a h late = absurd a
  run_isolated_late (p ∷ ps) (u ∷ us) t after a h late =
      rw (is_late-in_time u h.0.0 h.0.1, a.0, run_isolated_late ps us t after a.1 h.1 late) refl
