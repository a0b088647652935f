-- ===== src/Converters/Failures/Encode.antt =====
-- temporalio/converter/_failure_converter.py: `to_failure`, of exceptions to failures of the API.
use sdk_python.Prelude.{
  ℕ, String, Bool, true, false, not, Option, some, none, List, [], ◌∷◌, string_eq, ◌==◌,
  if◌then◌else◌, option_eq,
}
use sdk_python.Prelude.Options.{pure, ◌>>=◌}
use sdk_python.Converters.Errors.{
  ErrorKind, application, timed_out, cancelled, terminated, server, activity, child_workflow,
  nexus_operation, plain, FailureInfo, application_failure, timeout_failure, canceled_failure,
  terminated_failure, server_failure, activity_failure, child_failure, nexus_handler_failure,
  nexus_operation_failure, no_info, Failure, failure, NexusFailure, HandlerError, ErrorClass,
  failure_error, handler_error, other_error, Error, error, error_from, error_in, category_value,
  unspecified,
}
use sdk_python.Converters.Failures.Base.{
  text_of, head?, PayloadConverter, Library, body, set_body, set_texts, with_cause, set_delay,
  timeout_or_zero, retry_state_or_zero,
}

module _ {V P : Type 0} (conv : PayloadConverter V P) where
  -- Details are converted only where there are some.
  unfoldable pub details_to : List V → Option (List P)
  details_to [] = some []
  details_to (v ∷ vs) = conv.to_payloads (v ∷ vs)

  -- The information of the failure, by the class of the exception.
  unfoldable pub error_info : ErrorKind V → Option (FailureInfo P)
  unfolding text_of set_delay timeout_or_zero retry_state_or_zero category_value
  error_info (application type non_retryable details delay category) = do
    ps ← details_to details
    pure (
        application_failure (text_of type) non_retryable ps (set_delay delay)
          (category_value category))
  error_info (timed_out type details) = do
    ps ← details_to details
    pure (timeout_failure (timeout_or_zero type) ps)
  error_info (cancelled details) = do ps ← details_to details; pure (canceled_failure ps)
  error_info (terminated _) = some terminated_failure
  error_info (server non_retryable) = some (server_failure non_retryable)
  error_info (activity info state) = some (activity_failure info (retry_state_or_zero state))
  error_info (child_workflow info state) = some (child_failure info (retry_state_or_zero state))
  error_info (nexus_operation info) = some (nexus_operation_failure info)
  error_info plain = some no_info

module _ {V P D : Type 0} (conv : PayloadConverter V P) (lib : Library V P D) where
  -- `_error_to_failure`. `cause` is the failure of the exception behind this one, none where there
  -- is none.
  unfoldable pub error_to_failure :
      String
      → ErrorKind V
      → Option (Failure P)
      → Option String
      → Option (Option (Failure P))
      → Option (Failure P)
  unfolding error_info with_cause text_of
  error_to_failure message kind (some underlying) traceback cause = some underlying
  error_to_failure message kind none traceback cause = do
    c ← cause
    info ← error_info conv kind
    pure (
        with_cause c (record {
          message = message;
          stack_trace = text_of traceback;
          encoded_attributes = none;
          info = info;
        }))

  -- `_temporal_failure_to_nexus_failure`
  unfoldable pub to_nexus_failure : Failure P → NexusFailure D
  unfolding body set_texts
  to_nexus_failure f = record {
    message = (body f).message;
    stack_trace = some (body f).stack_trace;
    type = some "temporal.api.failure.v1.Failure";
    details = lib.message_to_dict (set_texts "" "" f);
  }

  -- `_nexus_failure_to_temporal_failure`
  unfoldable pub to_temporal_failure : NexusFailure D → (retryable : Bool) → Option (Failure P)
  unfolding set_texts text_of
  to_temporal_failure n retryable = do
    f ← if n.type == some "temporal.api.failure.v1.Failure" then lib.parse_dict n.details else (do
      p ← lib.dump_failure (record n { message = "" })
      pure (
          failure (record {
            message = "";
            stack_trace = "";
            encoded_attributes = none;
            info = application_failure "NexusFailure" (not retryable) (p ∷ []) none 0;
          })))
    pure (set_texts n.message (text_of n.stack_trace) f)

  -- The stack trace that a handler error brings, or else its own traceback.
  unfoldable pub handler_stack : Option String → Option String → String
  unfolding text_of
  handler_stack stack_trace traceback =
      if text_of stack_trace == "" then text_of traceback else text_of stack_trace

  unfoldable pub retry_behavior_of : Option Bool → ℕ
  retry_behavior_of none = 0
  retry_behavior_of (some true) = 1
  retry_behavior_of (some false) = 2

  -- `_nexus_handler_error_to_failure`
  unfoldable pub handler_error_to_failure :
      HandlerError D → Option String → Option (Option (Failure P)) → Option (Failure P)
  unfolding to_temporal_failure with_cause handler_stack retry_behavior_of
  handler_error_to_failure h traceback cause = elim h.original_failure [
    | some original ↦ to_temporal_failure original (lib.is_retryable h.type h.retryable_override)
    | none ↦ (do
      c ← cause
      pure (
          with_cause c (record {
            message = h.message;
            stack_trace = handler_stack h.stack_trace traceback;
            encoded_attributes = none;
            info = nexus_handler_failure h.type (retry_behavior_of h.retryable_override);
          })))
  ]

  -- `to_failure`, up to the encoding of attributes: `cause` is the failure of `__cause__`, and
  -- `behind` that of the exception from which a `FailureError` takes its cause.
  unfoldable pub class_to_failure :
      ErrorClass V P D
      → Option String
      → (cause behind : Option (Option (Failure P))) → Option (Failure P)
  unfolding error_to_failure handler_error_to_failure
  class_to_failure (failure_error message kind underlying) traceback cause behind =
      error_to_failure message kind underlying traceback behind
  class_to_failure (handler_error h) traceback cause behind =
      handler_error_to_failure h traceback cause
  class_to_failure (other_error text class_name) traceback cause behind =
      error_to_failure text (application (some class_name) false [] none unspecified) none traceback
        cause

  -- The message and the stack trace move to the encoded attributes.
  unfoldable pub encode_attributes : Failure P → Option (Failure P)
  unfolding body set_body
  encode_attributes f = do
    ps ← conv.to_payloads (lib.attributes (body f).message (body f).stack_trace ∷ [])
    p ← head? ps
    pure (
        set_body f (record (body f) {
          message = "Encoded failure";
          stack_trace = "";
          encoded_attributes = some p;
        }))

-- `encode` is `encode_common_attributes`.
module _ {V P D : Type 0} (conv : PayloadConverter V P) (lib : Library V P D) (encode : Bool) where
  unfoldable pub seal : Option (Failure P) → Option (Failure P)
  unfolding encode_attributes
  seal m = do f ← m; if encode then encode_attributes conv lib f else some f

  unfoldable pub to_failure : Error V P D → Option (Failure P)
  unfolding seal class_to_failure
  to_failure (error b) =
      seal (class_to_failure conv lib b.class b.traceback (some none) (some none))
  to_failure (error_from b cause) =
      let c = do f ← to_failure cause; pure (some f)
      in seal (class_to_failure conv lib b.class b.traceback c c)
  to_failure (error_in b suppress_context context) =
      let c = do f ← to_failure context; pure (some f)
      in seal (
        class_to_failure conv lib b.class b.traceback (some none)
          (if suppress_context then some none else c))
