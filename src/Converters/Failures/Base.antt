-- ===== src/Converters/Failures/Base.antt =====
-- What the two directions of temporalio/converter/_failure_converter.py share: the interface of the
-- payload converter, the libraries, and the parts of a failure.
use sdk_python.Prelude.{
  ℕ, zero, suc, String, Bool, Option, some, none, List, [], ◌∷◌, string_eq, ◌==◌, if◌then◌else◌,
  option_eq,
}
use sdk_python.Converters.Errors.{
  FailureBody, Failure, failure, caused, NexusFailure, timeout_value, retry_state_value,
  TimeoutType, RetryState,
}

-- A text that is not set is empty in the API.
unfoldable pub text_or : String → String → String
text_or text default = if text == "" then default else text

unfoldable pub text_of : Option String → String
text_of none = ""
text_of (some text) = text

unfoldable pub set_text : String → Option String
set_text text = if text == "" then none else some text

unfoldable pub head? : {A : Type 0} → List A → Option A
head? [] = none
head? (a ∷ _) = some a

-- A payload converter: of values to payloads and back.
pub record PayloadConverter (V P : Type 0) : Type 0 where
  pub to_payloads : List V → Option (List P)
  pub from_payloads : List P → Option (List V)

-- What the code calls elsewhere: `attributes` makes the dictionary of a message and a stack trace,
-- and `attribute` is its text at a key, none where the value is no dictionary or has no text there;
-- `message_to_dict` and `parse_dict` are the JSON form of a message; `dump_failure` is the payload
-- made of a Nexus failure; `is_handler_type` knows the names of nexusrpc's error types, and
-- `is_retryable` is what that library takes such an error for.
pub record Library (V P D : Type 0) : Type 0 where
  pub attributes : (message stack_trace : String) → V
  pub attribute : V → String → Option String
  pub message_to_dict : Failure P → D
  pub parse_dict : D → Option (Failure P)
  pub dump_failure : NexusFailure D → Option P
  pub is_handler_type : String → Bool
  pub is_retryable : (type : String) (retryable_override : Option Bool) → Bool

module _ {P : Type 0} where
  unfoldable pub body : Failure P → FailureBody P
  body (failure b) = b
  body (caused b _) = b

  unfoldable pub set_body : Failure P → FailureBody P → Failure P
  set_body (failure _) b = failure b
  set_body (caused _ cause) b = caused b cause

  unfoldable pub set_texts : String → String → Failure P → Failure P
  unfolding body set_body
  set_texts message stack_trace f =
      set_body f (record (body f) { message = message; stack_trace = stack_trace })

  unfoldable pub with_cause : Option (Failure P) → FailureBody P → Failure P
  with_cause none b = failure b
  with_cause (some cause) b = caused b cause

unfoldable pub set_delay : Option ℕ → Option ℕ
set_delay none = none
set_delay (some zero) = none
set_delay (some (suc n)) = some (suc n)

-- `ToTimedelta()` of a duration that is not set is no time at all.
unfoldable pub get_delay : Option ℕ → Option ℕ
get_delay none = some 0
get_delay (some n) = some n

unfoldable pub timeout_or_zero : Option TimeoutType → ℕ
unfolding timeout_value
timeout_or_zero none = 0
timeout_or_zero (some type) = timeout_value type

unfoldable pub retry_state_or_zero : Option RetryState → ℕ
unfolding retry_state_value
retry_state_or_zero none = 0
retry_state_or_zero (some state) = retry_state_value state
