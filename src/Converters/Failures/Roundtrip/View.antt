-- ===== src/Converters/Failures/Roundtrip/View.antt =====
-- temporalio/converter/_failure_converter.py, on the way to the round trip of exceptions: what is compared, and
-- what is asked of the payload converter.
use sdk_python.Prelude.{
  ℕ, ◌≡◌, ◌==◌, String, Bool, true, false, not, ◌||◌, Option, some, none, List, [], ◌∷◌, length,
  if◌then◌else◌, string_eq,
}
use sdk_python.Converters.Errors.{
  ErrorKind, application, timed_out, cancelled, terminated, server, activity, child_workflow,
  nexus_operation, plain, unspecified, ErrorClass, failure_error, handler_error, other_error, Error,
  error, error_from, error_in,
}
use sdk_python.Converters.Failures.Base.{PayloadConverter, Library}

-- What is compared of an exception: the message and the fields of its class.
pub data Seen (V : Type 0) : Type 0 where
  failed : (message : String) → ErrorKind V → Seen V
  handler_failed : (message : String) (type : String) (retryable_override : Option Bool) → Seen V

module _ {V P D : Type 0} where
  unfoldable pub seen_class : ErrorClass V P D → Seen V
  seen_class (failure_error message kind _) = failed message kind
  seen_class (handler_error h) = handler_failed h.message h.type h.retryable_override
  seen_class (other_error text class_name) =
      failed text (application (some class_name) false [] none unspecified)

  -- The chain of causes.
  unfoldable pub seen : Error V P D → List (Seen V)
  unfolding seen_class
  seen (error b) = seen_class b.class ∷ []
  seen (error_from b cause) = seen_class b.class ∷ seen cause
  seen (error_in b _ _) = seen_class b.class ∷ []

  unfoldable pub is_failure_error : ErrorClass V P D → Bool
  is_failure_error (failure_error _ _ _) = true
  is_failure_error _ = false

unfoldable pub message_back : String → String → String
message_back message default = if message == "" then default else message

unfoldable pub type_back : Option String → Option String
type_back none = none
type_back (some type) = if type == "" then none else some type

unfoldable pub delay_back : Option ℕ → Option ℕ
delay_back none = some 0
delay_back (some delay) = some delay

module _ {V : Type 0} where
  unfoldable pub default_message : ErrorKind V → String
  default_message (application _ _ _ _ _) = "Application error"
  default_message (timed_out _ _) = "Timeout"
  default_message (cancelled _) = "Cancelled"
  default_message (terminated _) = "Terminated"
  default_message (server _) = "Server error"
  default_message (activity _ _) = "Activity error"
  default_message (child_workflow _ _) = "Child workflow error"
  default_message (nexus_operation _) = "Nexus operation error"
  default_message plain = "Failure error"

  -- The fields of an exception that comes back, against those of the one that was raised: an empty
  -- type is none, a delay that is none is a delay of zero, and the details of a termination are
  -- gone. All other fields are the same.
  unfoldable pub normal : ErrorKind V → ErrorKind V
  unfolding type_back delay_back
  normal (application type non_retryable details delay category) =
      application (type_back type) non_retryable details (delay_back delay) category
  normal (terminated _) = terminated []
  normal kind = kind

  unfoldable pub normal_seen : Seen V → Seen V
  unfolding message_back default_message normal
  normal_seen (failed message kind) =
      failed (message_back message (default_message kind)) (normal kind)
  normal_seen (handler_failed message type override) =
      handler_failed (message_back message "Nexus handler error") type override

module _ {V P D : Type 0} where
  -- The causes of `raise … from`, and, behind a `FailureError`, an exception that was being handled
  -- and is not suppressed.
  unfoldable pub expected : Error V P D → List (Seen V)
  unfolding seen_class normal_seen is_failure_error
  expected (error b) = normal_seen (seen_class b.class) ∷ []
  expected (error_from b cause) = normal_seen (seen_class b.class) ∷ expected cause
  expected (error_in b suppress_context context) =
      let behind = expected context in
      normal_seen (seen_class b.class)
      ∷ (if suppress_context || not (is_failure_error b.class) then [] else behind)

module _ {V P D : Type 0} (lib : Library V P D) where
  -- Not made of a failure, and of a type that nexusrpc knows.
  unfoldable pub IsFreshClass : ErrorClass V P D → Type 0
  IsFreshClass (failure_error _ _ underlying) = underlying ≡ none
  IsFreshClass (handler_error h) = (h.original_failure ≡ none) × (lib.is_handler_type h.type ≡ true)
  IsFreshClass (other_error _ _) = Unit

  unfoldable pub IsFresh : Error V P D → Type 0
  unfolding IsFreshClass
  IsFresh (error b) = IsFreshClass b.class
  IsFresh (error_from b cause) = IsFreshClass b.class × IsFresh cause
  IsFresh (error_in b _ context) = IsFreshClass b.class × IsFresh context

-- What is asked of the payload converter and of the library: one payload is made of each value,
-- what was written is read back, and the dictionary of a message holds the message.
pub record ConverterLaws {V P D : Type 0} (conv : PayloadConverter V P) (lib : Library V P D)
    : Type 0 where
  pub same_length :
      (vs : List V) (ps : List P) → conv.to_payloads vs ≡ some ps → length ps ≡ length vs
  pub reads_back :
      (vs : List V) (ps : List P) → conv.to_payloads vs ≡ some ps → conv.from_payloads ps ≡ some vs
  pub keeps_message :
      (m stack_trace : String) → lib.attribute (lib.attributes m stack_trace) "message" ≡ some m
