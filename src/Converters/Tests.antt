-- ===== src/Converters/Tests.antt =====
-- The theorems on temporalio/converter at concrete inputs.
mod Kept
use sdk_python.Prelude.{
  ℕ, suc, arith, nat_eq, option_eq, true, ◌≡◌, refl, sym, ap, length, String, true, false, Option,
  some, none, List, [], ◌∷◌, string_eq, ◌==◌, if◌then◌else◌, some-injective,
}
use sdk_python.Converters.Errors.{
  activity, ActivityInfo, in_progress, FailureBody, Failure, FailureInfo, failure, caused,
  activity_failure, application_failure, nexus_handler_failure, failure_error, handler_error,
  other_error, Error, error, error_in,
}
use sdk_python.Converters.Failures.Base.{
  PayloadConverter, Library, head?, body, set_body, set_texts,
}
use sdk_python.Converters.Failures.Encode.{details_to, to_failure, seal}
use sdk_python.Converters.Failures.Decode.{from_failure, decode_attributes}
use sdk_python.Converters.Failures.Relay.{relay}
use sdk_python.Converters.Failures.Roundtrip.{Returns, from_failure-to_failure}
use sdk_python.Converters.Failures.Roundtrip.View.{ConverterLaws, IsFresh, expected}
use sdk_python.Prelude.Result.{ok}
use sdk_python.Converters.Payloads.{
  Value as Convertible, raw_value, value, Encodings, set_converters, to_payloads, from_payloads,
  with_context,
}
use sdk_python.Converters.Payloads.Returned.{EncodingLaws, hints_of, from_payloads-to_payloads}
use sdk_python.Converters.Payloads.Context.{map_context, with_context-set_converters}

-- Values are lists of texts, and each is its own payload; a failure is its own JSON form.
abbrev Value : Type 0
Value = List String

abbrev same_payloads : PayloadConverter Value Value
same_payloads = record { to_payloads = some; from_payloads = some }

abbrev text_at : Value → String → Option String
text_at (m ∷ s ∷ []) key =
    if key == "message" then some m else if key == "stack_trace" then some s else none
text_at _ key = none

abbrev texts : {P : Type 0} → Library Value P (Failure P)
texts = record {
  attributes = λ m s. m ∷ s ∷ [];
  attribute = text_at;
  message_to_dict = λ f. f;
  parse_dict = some;
  dump_failure = λ n. none;
  is_handler_type = λ type. type == "NOT_FOUND";
  is_retryable = λ type retryable_override. false;
}

texts_laws : ConverterLaws same_payloads texts
unfolding string_eq
texts_laws = record {
  same_length = λ vs ps h. ap length (sym (some-injective _ _ h));
  reads_back = λ vs ps h. ap some (sym (some-injective _ _ h));
  keeps_message = λ m s. refl;
}

abbrev info : ActivityInfo
info = record {
  scheduled_event_id = 5;
  started_event_id = 6;
  identity = "worker";
  activity_type = "Charge";
  activity_id = "1";
}

-- An activity error that was raised while a `KeyError` was handled.
abbrev chain : Error Value Value (Failure Value)
chain =
    error_in
      (record {
        class = failure_error "" (activity info (some in_progress)) none;
        traceback = some "line 3";
      })
      false (error (record { class = other_error "no card" "KeyError"; traceback = none }))

abbrev sealed : Value → FailureInfo Value → FailureBody Value
sealed attributes info = record {
  message = "Encoded failure";
  stack_trace = "";
  encoded_attributes = some attributes;
  info = info;
}

abbrev chain_failure : Failure Value
chain_failure =
    caused (sealed ("" ∷ "line 3" ∷ []) (activity_failure info 1))
      (failure (sealed ("no card" ∷ "" ∷ []) (application_failure "KeyError" false [] none 0)))

from_failure-to_failure_example : Returns same_payloads texts chain_failure (expected chain)
unfolding string_eq expected IsFresh to_failure details_to head?
from_failure-to_failure_example =
    from_failure-to_failure same_payloads texts texts_laws true chain chain_failure (refl, tt) refl

-- A Nexus handler's failure, as another SDK sends it.
abbrev gone : Failure Value
gone = failure (record {
  message = "gone";
  stack_trace = "line 9";
  encoded_attributes = none;
  info = nexus_handler_failure "NOT_FOUND" 2;
})

abbrev gone_error : Error Value Value (Failure Value)
gone_error = error (record {
  class = handler_error (record {
    message = "gone";
    type = "NOT_FOUND";
    retryable_override = some false;
    stack_trace = some "line 9";
    original_failure = some (record {
      message = "gone";
      stack_trace = some "line 9";
      type = some "temporal.api.failure.v1.Failure";
      details = set_texts "" "" gone;
    });
  });
  traceback = none;
})

relay_example :
    to_failure same_payloads texts true gone_error
    ≡ seal same_payloads texts true
        (some (set_body gone (decode_attributes same_payloads texts (body gone))))
unfolding string_eq from_failure
relay_example = relay same_payloads texts (λ f. refl) true gone gone_error refl

-- Converter 0 takes the empty list only; any other takes all values, and is another converter in a
-- context.
abbrev kinds : Encodings ℕ Value (String × Value) String String ℕ
kinds = record {
  encoding = λ c. if c == 0 then "binary/null" else "json/plain";
  to_payload = λ c v.
      if c == 0
      then elim v [ [] ↦ ok (some ("binary/null", [])) | _ ∷ _ ↦ ok none ]
      else ok (some ("json/plain", v));
  from_payload = λ c p hint. if c == 0 then ok [] else ok p.1;
  with_context = λ c. if c == 0 then none else some (λ context. suc context);
  is_runtime_error = λ x. true;
  payload_encoding = λ p. some p.0;
}

kinds_marks :
    (c : ℕ) (v : Value) (p : String × Value)
    → kinds.to_payload c v ≡ ok (some p)
    → kinds.payload_encoding p ≡ some (kinds.encoding c)
kinds_marks c [] p h = ground arith
kinds_marks c (text ∷ v) p h = ground arith

kinds_reads :
    (c : ℕ) (v : Value) (p : String × Value)
    → kinds.to_payload c v ≡ ok (some p)
    → kinds.from_payload c p none ≡ ok v
kinds_reads c [] p h = ground arith
kinds_reads c (text ∷ v) p h = ground arith

kinds_laws : EncodingLaws kinds
kinds_laws = record { marks = kinds_marks; reads = kinds_reads }

abbrev three_values : List (Convertible Value (String × Value))
three_values = value [] ∷ value ("a" ∷ []) ∷ raw_value (some ("raw", [])) ∷ []

abbrev three_payloads : List (String × Value)
three_payloads = ("binary/null", []) ∷ ("json/plain", "a" ∷ []) ∷ ("raw", []) ∷ []

from_payloads-to_payloads_example :
    (length three_payloads ≡ length three_values)
    × (from_payloads kinds
          (set_converters kinds (0 ∷ 1 ∷ []))
          three_payloads
          (hints_of three_values)
        ≡ ok three_values)
unfolding string_eq nat_eq to_payloads set_converters
from_payloads-to_payloads_example =
    from_payloads-to_payloads kinds kinds_laws (0 ∷ 1 ∷ []) three_values three_payloads refl

with_context-set_converters_example :
    let d = set_converters kinds (0 ∷ 1 ∷ []) in
    with_context kinds 4 d ≡ set_converters kinds (map_context kinds 4 d)
with_context-set_converters_example = with_context-set_converters kinds 4 (0 ∷ 1 ∷ [])
