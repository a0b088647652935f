-- ===== src/Converters/Failures/Roundtrip/Kinds.antt =====
-- temporalio/converter/_failure_converter.py, on the way to the round trip of exceptions: the fields of each
-- class.
use sdk_python.Prelude.{
  ◌≡◌, refl, sym, ap, ℕ, String, Option, some, arith, List, [], ◌∷◌, some-injective, string_eq,
}
use sdk_python.Prelude.Options.{bind-some}
use sdk_python.Converters.Errors.{
  ErrorKind, application, timed_out, cancelled, activity, child_workflow, ErrorCategory,
  TimeoutType, RetryState, category_value, to_category, FailureInfo, application_failure,
  timeout_failure, canceled_failure, FailureBody, Failure, failure_error,
}
use sdk_python.Converters.Failures.Base.{
  PayloadConverter, Library, text_or, text_of, set_text, set_delay, get_delay, timeout_or_zero,
  retry_state_or_zero,
}
use sdk_python.Converters.Failures.Encode.{details_to, error_info}
use sdk_python.Converters.Failures.Decode.{
  details_from, info_to_error, optional_timeout, optional_retry_state,
}
use sdk_python.Converters.Failures.Roundtrip.View.{
  default_message, normal, type_back, delay_back, ConverterLaws,
}

set_text-text_of : (type : Option String) → set_text (text_of type) ≡ type_back type
unfolding set_text text_of type_back
set_text-text_of type = ground arith

get_delay-set_delay : (d : Option ℕ) → get_delay (set_delay d) ≡ delay_back d
unfolding get_delay set_delay delay_back
get_delay-set_delay d = ground arith

category_lem : (c : ErrorCategory) → to_category (category_value c) ≡ some c
unfolding to_category category_value
category_lem c = ground arith

timeout_lem : (t : Option TimeoutType) → optional_timeout (timeout_or_zero t) ≡ some t
unfolding optional_timeout timeout_or_zero
timeout_lem t = ground arith

retry_state_lem : (t : Option RetryState) → optional_retry_state (retry_state_or_zero t) ≡ some t
unfolding optional_retry_state retry_state_or_zero
retry_state_lem t = ground arith

module _ {V P D : Type 0} (conv : PayloadConverter V P) (lib : Library V P D)
    (laws : ConverterLaws conv lib) where
  details_from-details_to :
      (vs : List V) (ps : List P) → details_to conv vs ≡ some ps → details_from conv ps ≡ some vs
  unfolding details_to details_from
  details_from-details_to [] ps h = ap (details_from conv) (sym (some-injective _ _ h))
  details_from-details_to (v ∷ vs) [] h = absurd (omega (arith, laws.same_length (v ∷ vs) [] h))
  details_from-details_to (v ∷ vs) (p ∷ ps) h = laws.reads_back (v ∷ vs) (p ∷ ps) h

  pub error_info-back :
      (k : ErrorKind V) (i : FailureInfo P) (b : FailureBody P) (f : Failure P)
      → error_info conv k ≡ some i
      → info_to_error conv lib i b f
        ≡ some (failure_error (text_or b.message (default_message k)) (normal k) (some f))
  unfolding error_info info_to_error default_message normal
  error_info-back (application type non_retryable details delay category) i b f h =
      let (ps, converted, made) =
        bind-some (details_to conv details)
          (λ ps. some (
            application_failure (text_of type) non_retryable ps (set_delay delay)
              (category_value category)))
          i h in
      rw
        (
          sym (some-injective _ _ made),
          details_from-details_to details ps converted,
          get_delay-set_delay delay,
          set_text-text_of type,
          category_lem category,
        )
        refl
  error_info-back (timed_out type details) i b f h =
      let (ps, converted, made) =
        bind-some (details_to conv details) (λ ps. some (timeout_failure (timeout_or_zero type) ps))
          i h in
      rw
        (
          sym (some-injective _ _ made),
          details_from-details_to details ps converted,
          timeout_lem type,
        )
        refl
  error_info-back (cancelled details) i b f h =
      let (ps, converted, made) =
        bind-some (details_to conv details) (λ ps. some (canceled_failure ps)) i h in
      rw (sym (some-injective _ _ made), details_from-details_to details ps converted) refl
  error_info-back (activity info state) i b f h =
      rw (sym (some-injective _ _ h), retry_state_lem state) refl
  error_info-back (child_workflow info state) i b f h =
      rw (sym (some-injective _ _ h), retry_state_lem state) refl
  error_info-back k i b f h = ground arith
