-- ===== src/Parsers/Isolation.antt =====
-- cad2ml/parsers/isolation.py: what the child sends, and the parent's loop over what arrives. Pipes,
-- processes and clocks are not part of the repository: what arrives, and when, is an argument.
pub mod Answers
use cad2ml.Prelude.{
  ℕ, Bool, true, false, List, [], ◌∷◌, ◌++◌, Option, none, some, String, if◌then◌else◌, leb, ltb,
  ◌||◌, map, zero, suc, ◌-◌,
}
use Prim.Native.String.{◌++◌ as append}
use cad2ml.Errors.{ErrorCode, PipelineError, child_crashed, internal_error}
use cad2ml.Pipeline.{Run, returned, failed, prefix}

-- `P` is what a progress message carries, `R` what the child's function returns.
pub data Message (P R : Type 0) : Type 0 where
  progress : P → Message P R
  ok : R → Message P R
  pipeline_error : ErrorCode → String → String → Message P R
  exception : String → String → String → Message P R

-- How the child's function ends: the last case is a kill or a native crash, which sends nothing.
pub data Ending (R : Type 0) : Type 0 where
  returns : R → Ending R
  raises : PipelineError → Ending R
  out_of_memory : Ending R
  raises_other : String → String → String → Ending R
  dies : Ending R

-- One round of the parent's loop: the clock at its head, and what makes the pipe readable, at what
-- time; an end of the pipe is `none`.
pub record Turn (P R : Type 0) : Type 0 where
  pub clock : ℕ
  pub arrival : ℕ
  pub event : Option (Message P R)

abbrev text_length : String → ℕ
text_length String.[] = 0
text_length (String.◌∷◌ ch t) = suc (text_length t)

abbrev drop_text : ℕ → String → String
drop_text zero t = t
drop_text (suc n) String.[] = ""
drop_text (suc n) (String.◌∷◌ ch t) = drop_text n t

-- The last characters of a text, `t[-n:]`.
unfoldable pub suffix : ℕ → String → String
suffix n t = drop_text (text_length t - n) t

-- The last message of `_child`.
unfoldable pub last_message : {P R : Type 0} → Ending R → List (Message P R)
last_message (returns r) = ok r ∷ []
last_message (raises e) = pipeline_error e.code e.message e.stage ∷ []
last_message out_of_memory = pipeline_error child_crashed "memory limit exceeded" "isolated" ∷ []
last_message (raises_other type_ message traceback) =
    exception type_ (prefix 2000 message) (suffix 4000 traceback) ∷ []
last_message dies = []

-- What a child sends: its reports, then its last message.
unfoldable pub child_messages : {P R : Type 0} → List P → Ending R → List (Message P R)
unfolding last_message
child_messages reports end_ = map progress reports ++ last_message end_

-- The arguments of `run_isolated`, with the texts of numbers that its messages hold.
pub record Limits : Type 0 where
  pub deadline : ℕ
  pub stage : String
  pub timeout_code : ErrorCode
  pub timeout_text : String
  pub exit_text : String

module _ (limits : Limits) where
  abbrev pub timed_out : {R : Type 0} → Run R
  timed_out = failed (record {
    code = limits.timeout_code;
    message = append "exceeded " (append limits.timeout_text "s hard timeout");
    stage = limits.stage;
  })

  abbrev pub died : {R : Type 0} → Run R
  died = failed (record {
    code = child_crashed;
    message = append "child exited with code " (append limits.exit_text " without result");
    stage = limits.stage;
  })

  -- A child whose function raised something else.
  abbrev pub broken : {R : Type 0} → String → String → String → Run R
  broken type_ message traceback = failed (record {
    code = internal_error;
    message = append type_ (append ": " (append message (append "\n" traceback)));
    stage = limits.stage;
  })

  -- `remaining <= 0 or not parent.poll(remaining)`
  unfoldable pub is_late : {P R : Type 0} → Turn P R → Bool
  is_late t = leb limits.deadline t.clock || ltb limits.deadline t.arrival

  -- One message: progress goes on with the loop, and any other message ends it.
  abbrev pub on_message : {P R : Type 0} → Message P R → List P × Run R → List P × Run R
  on_message (progress p) later = (p ∷ later.0, later.1)
  on_message (ok r) later = ([], returned r)
  on_message (pipeline_error code message at_) later =
      ([], failed (record { code = code; message = message; stage = at_ }))
  on_message (exception type_ message traceback) later = ([], broken type_ message traceback)

  abbrev pub on_event : {P R : Type 0} → Option (Message P R) → List P × Run R → List P × Run R
  on_event none later = ([], died)
  on_event (some m) later = on_message m later

  -- The loop: the payloads handed to `on_progress`, in order, and the answer. When nothing arrives
  -- any more, the poll runs into the deadline.
  unfoldable pub run_isolated : {P R : Type 0} → List (Turn P R) → List P × Run R
  unfolding is_late
  run_isolated [] = ([], timed_out)
  run_isolated (t ∷ rest) =
      let later = run_isolated rest in if is_late t then ([], timed_out) else on_event t.event later
