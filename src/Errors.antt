-- ===== src/Errors.antt =====
-- cad2ml/errors.py: the error codes with their outcome and retry classification.
use cad2ml.Prelude.{String, Bool, true, false}

pub data Outcome : Type 0 where
  rejected quarantined failed_terminal failed_retryable timed_out : Outcome

pub record ErrorSpec : Type 0 where
  pub outcome : Outcome
  pub retryable : Bool

-- The keys of `ERROR_CODES`; the constructor of `PipelineError` refuses any other text.
pub data ErrorCode : Type 0 where
  empty_file file_too_large unsupported_extension not_step_content : ErrorCode
  step_parse_failed step_no_shapes unsupported_assembly unsupported_tessellated : ErrorCode
  multi_body no_solid invalid_geometry repair_deviation_exceeded : ErrorCode
  degenerate_geometry tessellation_failed output_invariant_violation : ErrorCode
  parser_timeout processing_timeout child_crashed : ErrorCode
  storage_io_error worker_lost internal_error : ErrorCode

abbrev pub never : Outcome → ErrorSpec
never o = record { outcome = o; retryable = false }

unfoldable pub error_codes : ErrorCode → ErrorSpec
error_codes empty_file = never rejected
error_codes file_too_large = never rejected
error_codes unsupported_extension = never rejected
error_codes not_step_content = never rejected
error_codes step_parse_failed = never rejected
error_codes step_no_shapes = never rejected
error_codes unsupported_assembly = never rejected
error_codes unsupported_tessellated = never rejected
error_codes multi_body = never rejected
error_codes no_solid = never quarantined
error_codes invalid_geometry = never quarantined
error_codes repair_deviation_exceeded = never quarantined
error_codes degenerate_geometry = never quarantined
error_codes tessellation_failed = never quarantined
error_codes output_invariant_violation = never failed_terminal
error_codes parser_timeout = never timed_out
error_codes processing_timeout = never timed_out
error_codes child_crashed = never quarantined
error_codes storage_io_error = record { outcome = failed_retryable; retryable = true }
error_codes worker_lost = record { outcome = failed_retryable; retryable = true }
error_codes internal_error = never failed_terminal

pub record PipelineError : Type 0 where
  pub code : ErrorCode
  pub message : String
  pub stage : String

unfoldable pub spec : PipelineError → ErrorSpec
unfolding error_codes
spec e = error_codes e.code
