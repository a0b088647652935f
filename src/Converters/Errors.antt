-- ===== src/Converters/Errors.antt =====
-- temporalio/exceptions.py, and the failures of the API into which the exceptions turn. The values
-- `V`, the payloads `P` and the details `D` of a Nexus failure are never looked into.
use sdk_python.Prelude.{ℕ, zero, suc, String, Bool, Option, some, none, List}

pub data ErrorCategory : Type 0 where
  unspecified benign : ErrorCategory

pub data TimeoutType : Type 0 where
  start_to_close schedule_to_start schedule_to_close heartbeat : TimeoutType

pub data RetryState : Type 0 where
  in_progress non_retryable_failure timeout maximum_attempts_reached retry_policy_not_set :
      RetryState
  internal_server_error cancel_requested : RetryState

-- The numbers of the enumerations in the API, and what a number of theirs stands for; another
-- number raises.
unfoldable pub category_value : ErrorCategory → ℕ
category_value unspecified = 0
category_value benign = 1

unfoldable pub to_category : ℕ → Option ErrorCategory
to_category zero = some unspecified
to_category (suc zero) = some benign
to_category _ = none

unfoldable pub timeout_value : TimeoutType → ℕ
timeout_value start_to_close = 1
timeout_value schedule_to_start = 2
timeout_value schedule_to_close = 3
timeout_value heartbeat = 4

unfoldable pub to_timeout : ℕ → Option TimeoutType
to_timeout (suc zero) = some start_to_close
to_timeout (suc (suc zero)) = some schedule_to_start
to_timeout (suc (suc (suc zero))) = some schedule_to_close
to_timeout (suc (suc (suc (suc zero)))) = some heartbeat
to_timeout _ = none

unfoldable pub retry_state_value : RetryState → ℕ
retry_state_value in_progress = 1
retry_state_value non_retryable_failure = 2
retry_state_value timeout = 3
retry_state_value maximum_attempts_reached = 4
retry_state_value retry_policy_not_set = 5
retry_state_value internal_server_error = 6
retry_state_value cancel_requested = 7

unfoldable pub to_retry_state : ℕ → Option RetryState
to_retry_state (suc zero) = some in_progress
to_retry_state (suc (suc zero)) = some non_retryable_failure
to_retry_state (suc (suc (suc zero))) = some timeout
to_retry_state (suc (suc (suc (suc zero)))) = some maximum_attempts_reached
to_retry_state (suc (suc (suc (suc (suc zero))))) = some retry_policy_not_set
to_retry_state (suc (suc (suc (suc (suc (suc zero)))))) = some internal_server_error
to_retry_state (suc (suc (suc (suc (suc (suc (suc zero))))))) = some cancel_requested
to_retry_state _ = none

pub record ActivityInfo : Type 0 where
  pub scheduled_event_id : ℕ
  pub started_event_id : ℕ
  pub identity : String
  pub activity_type : String
  pub activity_id : String

pub record ChildInfo : Type 0 where
  pub namespace : String
  pub workflow_id : String
  pub run_id : String
  pub workflow_type : String
  pub initiated_event_id : ℕ
  pub started_event_id : ℕ

pub record NexusInfo : Type 0 where
  pub scheduled_event_id : ℕ
  pub endpoint : String
  pub service : String
  pub operation : String
  pub operation_token : String

-- The classes below `FailureError`, with their fields; `plain` is any that has no information of
-- its own. A delay is a number of nanoseconds.
pub data ErrorKind (V : Type 0) : Type 0 where
  application :
      (type : Option String) (non_retryable : Bool) (details : List V) (next_retry_delay : Option ℕ)
      (category : ErrorCategory)
      → ErrorKind V
  timed_out : (type : Option TimeoutType) (last_heartbeat_details : List V) → ErrorKind V
  cancelled : (details : List V) → ErrorKind V
  terminated : (details : List V) → ErrorKind V
  server : (non_retryable : Bool) → ErrorKind V
  activity : ActivityInfo → (retry_state : Option RetryState) → ErrorKind V
  child_workflow : ChildInfo → (retry_state : Option RetryState) → ErrorKind V
  nexus_operation : NexusInfo → ErrorKind V
  plain : ErrorKind V

-- `failure_info` of the API's `Failure`, where a text that is not set is empty.
pub data FailureInfo (P : Type 0) : Type 0 where
  application_failure :
      (type : String) (non_retryable : Bool) (details : List P) (next_retry_delay : Option ℕ)
      (category : ℕ)
      → FailureInfo P
  timeout_failure : (timeout_type : ℕ) (last_heartbeat_details : List P) → FailureInfo P
  canceled_failure : (details : List P) → FailureInfo P
  terminated_failure : FailureInfo P
  server_failure : (non_retryable : Bool) → FailureInfo P
  activity_failure : ActivityInfo → (retry_state : ℕ) → FailureInfo P
  child_failure : ChildInfo → (retry_state : ℕ) → FailureInfo P
  nexus_handler_failure : (type : String) (retry_behavior : ℕ) → FailureInfo P
  nexus_operation_failure : NexusInfo → FailureInfo P
  reset_workflow_failure no_info : FailureInfo P

pub record FailureBody (P : Type 0) : Type 0 where
  pub message : String
  pub stack_trace : String
  pub encoded_attributes : Option P
  pub info : FailureInfo P

-- The API's `Failure`, with or without a cause.
pub data Failure (P : Type 0) : Type 0 where
  failure : FailureBody P → Failure P
  caused : FailureBody P → Failure P → Failure P

-- `nexusrpc.Failure`; `type` is `metadata.get("type")`.
pub record NexusFailure (D : Type 0) : Type 0 where
  pub message : String
  pub stack_trace : Option String
  pub type : Option String
  pub details : D

-- `nexusrpc.HandlerError`; `type` is the name of its type.
pub record HandlerError (D : Type 0) : Type 0 where
  pub message : String
  pub type : String
  pub retryable_override : Option Bool
  pub stack_trace : Option String
  pub original_failure : Option (NexusFailure D)

-- An exception by its class: a `FailureError`, with its message, its fields and the failure that it
-- was made of, if it was; a `HandlerError`; any other, with its text and the name of its class.
pub data ErrorClass (V P D : Type 0) : Type 0 where
  failure_error : (message : String) → ErrorKind V → Option (Failure P) → ErrorClass V P D
  handler_error : HandlerError D → ErrorClass V P D
  other_error : (text : String) (class_name : String) → ErrorClass V P D

-- `traceback` is `__traceback__`, formatted.
pub record ErrorBody (V P D : Type 0) : Type 0 where
  pub class : ErrorClass V P D
  pub traceback : Option String

-- An exception has no exception behind it, or a `__cause__`, or, with no cause, a `__context__` and
-- `__suppress_context__`.
pub data Error (V P D : Type 0) : Type 0 where
  error : ErrorBody V P D → Error V P D
  error_from : ErrorBody V P D → Error V P D → Error V P D
  error_in : ErrorBody V P D → (suppress_context : Bool) → Error V P D → Error V P D
