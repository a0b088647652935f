-- ===== src/Converters/Failures/Decode.antt =====
-- temporalio/converter/_failure_converter.py: `from_failure`, of failures of the API to exceptions.
use sdk_python.Prelude.{
  ℕ, zero, suc, Bool, true, false, Option, some, none, get_or, List, [], ◌∷◌, string_eq,
  if◌then◌else◌, option_eq,
}
use sdk_python.Prelude.Options.{pure, ◌>>=◌}
use sdk_python.Converters.Errors.{
  application, timed_out, cancelled, terminated, server, activity, child_workflow, nexus_operation,
  plain, FailureInfo, application_failure, timeout_failure, canceled_failure, terminated_failure,
  server_failure, activity_failure, child_failure, nexus_handler_failure, nexus_operation_failure,
  reset_workflow_failure, no_info, FailureBody, Failure, failure, caused, ErrorClass, failure_error,
  handler_error, Error, error, error_from, to_category, to_timeout, to_retry_state, TimeoutType,
  RetryState,
}
use sdk_python.Converters.Failures.Base.{
  text_or, set_text, head?, PayloadConverter, Library, get_delay,
}
use sdk_python.Converters.Failures.Encode.{to_nexus_failure}

unfoldable pub retryable_override_of : ℕ → Option Bool
retryable_override_of (suc zero) = some true
retryable_override_of (suc (suc zero)) = some false
retryable_override_of _ = none

unfoldable pub optional_retry_state : ℕ → Option (Option RetryState)
unfolding to_retry_state
optional_retry_state zero = some none
optional_retry_state (suc n) = do state ← to_retry_state (suc n); pure (some state)

unfoldable pub optional_timeout : ℕ → Option (Option TimeoutType)
unfolding to_timeout
optional_timeout zero = some none
optional_timeout (suc n) = do type ← to_timeout (suc n); pure (some type)

module _ {V P : Type 0} (conv : PayloadConverter V P) where
  -- `from_payloads_wrapper`
  unfoldable pub details_from : List P → Option (List V)
  details_from [] = some []
  details_from (p ∷ ps) = conv.from_payloads (p ∷ ps)

module _ {V P D : Type 0} (conv : PayloadConverter V P) (lib : Library V P D) where
  -- What the encoded attributes say of the message and of the stack trace; whatever is raised on
  -- the way is dropped.
  unfoldable pub decode_attributes : FailureBody P → FailureBody P
  decode_attributes b =
      elim (do p ← b.encoded_attributes; vs ← conv.from_payloads (p ∷ []); head? vs) [
        | none ↦ b
        | some v ↦ record b {
          message = get_or (lib.attribute v "message") b.message;
          stack_trace = get_or (lib.attribute v "stack_trace") b.stack_trace;
        }
      ]

  -- The exception, by the information of the failure `f` whose own fields are `b`.
  unfoldable pub info_to_error :
      FailureInfo P → FailureBody P → Failure P → Option (ErrorClass V P D)
  unfolding text_or set_text details_from get_delay to_category optional_timeout
      optional_retry_state retryable_override_of to_nexus_failure
  info_to_error (application_failure type non_retryable ps delay category) b f = do
    details ← details_from conv ps
    c ← to_category category
    pure (
        failure_error (text_or b.message "Application error")
          (application (set_text type) non_retryable details (get_delay delay) c) (some f))
  info_to_error (timeout_failure type ps) b f = do
    t ← optional_timeout type
    details ← details_from conv ps
    pure (failure_error (text_or b.message "Timeout") (timed_out t details) (some f))
  info_to_error (canceled_failure ps) b f = do
    details ← details_from conv ps
    pure (failure_error (text_or b.message "Cancelled") (cancelled details) (some f))
  info_to_error terminated_failure b f =
      some (failure_error (text_or b.message "Terminated") (terminated []) (some f))
  info_to_error (server_failure non_retryable) b f =
      some (failure_error (text_or b.message "Server error") (server non_retryable) (some f))
  info_to_error (activity_failure info state) b f = do
    s ← optional_retry_state state
    pure (failure_error (text_or b.message "Activity error") (activity info s) (some f))
  info_to_error (child_failure info state) b f = do
    s ← optional_retry_state state
    pure (failure_error (text_or b.message "Child workflow error") (child_workflow info s) (some f))
  info_to_error (nexus_handler_failure type behavior) b f = some (
      handler_error (record {
        message = text_or b.message "Nexus handler error";
        type = if lib.is_handler_type type then type else "INTERNAL";
        retryable_override = retryable_override_of behavior;
        stack_trace = set_text b.stack_trace;
        original_failure = some (to_nexus_failure conv lib f);
      }))
  info_to_error (nexus_operation_failure info) b f =
      some
        (failure_error (text_or b.message "Nexus operation error") (nexus_operation info) (some f))
  info_to_error reset_workflow_failure b f =
      some (failure_error (text_or b.message "Failure error") plain (some f))
  info_to_error no_info b f =
      some (failure_error (text_or b.message "Failure error") plain (some f))

  unfoldable pub from_failure : Failure P → Option (Error V P D)
  unfolding decode_attributes info_to_error
  from_failure (failure b) =
      let d = decode_attributes b in
      do
        class ← info_to_error d.info d (failure d)
        pure (error (record { class = class; traceback = none }))
  from_failure (caused b cause) =
      let d = decode_attributes b in
      let behind = from_failure cause in
      do
        class ← info_to_error d.info d (caused d cause)
        c ← behind
        pure (error_from (record { class = class; traceback = none }) c)
