-- ===== src/Converters/Failures/Roundtrip/Bodies.antt =====
-- temporalio/converter/_failure_converter.py, on the way to the round trip of exceptions: the failure that is
-- made of one exception.
use sdk_python.Prelude.{
  ◌≡◌, refl, sym, ap, ◌∙◌, String, Bool, false, Option, some, none, arith, [], some-injective,
  subst, if◌then◌else◌, string_eq,
}
use sdk_python.Prelude.Options.{bind-some, ◌>>=◌}
use sdk_python.Converters.Errors.{
  ErrorKind, application, unspecified, FailureInfo, nexus_handler_failure, HandlerError,
  FailureBody, Failure, ErrorClass, failure_error, handler_error, other_error,
}
use sdk_python.Converters.Failures.Base.{PayloadConverter, Library, text_or, text_of, with_cause}
use sdk_python.Converters.Failures.Encode.{
  error_info, error_to_failure, handler_error_to_failure, class_to_failure, handler_stack,
  retry_behavior_of,
}
use sdk_python.Converters.Failures.Decode.{info_to_error, retryable_override_of}
use sdk_python.Converters.Failures.Roundtrip.View.{
  seen_class, is_failure_error, default_message, normal, normal_seen, message_back, IsFreshClass,
  ConverterLaws,
}
use sdk_python.Converters.Failures.Roundtrip.Kinds.{error_info-back}

module _ {V P D : Type 0} (conv : PayloadConverter V P) (lib : Library V P D) where
  -- Failures with this message and this information become an exception that looks like `class`.
  unfoldable pub Remembers : FailureBody P → ErrorClass V P D → Type 0
  Remembers b class =
      (c : FailureBody P) (f : Failure P)
      → c.info ≡ b.info
      → c.message ≡ b.message
      → (made : ErrorClass V P D) × (info_to_error conv lib c.info c f ≡ some made)
        × (seen_class made ≡ normal_seen (seen_class class))

  unfoldable pub Written :
      ErrorClass V P D → (cause behind : Option (Option (Failure P))) → Failure P → Type 0
  unfolding Remembers
  Written class cause behind f =
      (c : Option (Failure P)) × (b : FailureBody P) × ((if is_failure_error class
          then behind
          else cause)
        ≡ some c)
      × (f ≡ with_cause c b)
      × (b.encoded_attributes ≡ none)
      × Remembers b class

module _ {V P D : Type 0} (conv : PayloadConverter V P) (lib : Library V P D)
    (laws : ConverterLaws conv lib) where
  retry_behavior_lem : (r : Option Bool) → retryable_override_of (retry_behavior_of conv lib r) ≡ r
  unfolding retryable_override_of retry_behavior_of
  retry_behavior_lem r = ground arith

  error_to_failure-Written :
      (message : String) (kind : ErrorKind V) (traceback : Option String)
      (cause : Option (Option (Failure P))) (f : Failure P)
      → error_to_failure conv lib message kind none traceback cause ≡ some f
      → (c : Option (Failure P)) × (b : FailureBody P) × (cause ≡ some c)
        × (f ≡ with_cause c b)
        × (b.encoded_attributes ≡ none)
        × ((d : FailureBody P) (g : Failure P)
            → d.info ≡ b.info
            → d.message ≡ b.message
            → info_to_error conv lib d.info d g
              ≡ some
                  (failure_error (text_or message (default_message kind)) (normal kind) (some g)))
  unfolding error_to_failure
  error_to_failure-Written message kind traceback cause f h =
      let body_of : FailureInfo P → FailureBody P = λ info. record {
        message = message;
        stack_trace = text_of traceback;
        encoded_attributes = none;
        info = info;
      } in
      let (c, caused_by, rest) =
        bind-some cause (λ c. error_info conv kind >>= λ info. some (with_cause c (body_of info))) f
          h in
      let (info, made, built) =
        bind-some (error_info conv kind) (λ info. some (with_cause c (body_of info))) f rest in
      (
        c,
        body_of info,
        caused_by,
        sym (some-injective _ _ built),
        refl,
        λ d g same_info same_message.
            ap (λ i. info_to_error conv lib i d g) same_info
            ∙ error_info-back conv lib laws kind info d g made
            ∙ ap
                (λ m.
                  some (failure_error (text_or m (default_message kind)) (normal kind) (some g)))
                same_message,
      )

  handler_body : HandlerError D → Option String → FailureBody P
  handler_body e traceback = record {
    message = e.message;
    stack_trace = handler_stack conv lib e.stack_trace traceback;
    encoded_attributes = none;
    info = nexus_handler_failure e.type (retry_behavior_of conv lib e.retryable_override);
  }

  handler_error_to_failure-lem :
      (e : HandlerError D) (traceback : Option String) (cause : Option (Option (Failure P)))
      (f : Failure P)
      → e.original_failure ≡ none
      → handler_error_to_failure conv lib e traceback cause ≡ some f
      → (c : Option (Failure P)) × (cause ≡ some c) × (f ≡ with_cause c (handler_body e traceback))
  unfolding handler_body handler_error_to_failure
  handler_error_to_failure-lem e traceback none f fresh h = absurd (ground arith)
  handler_error_to_failure-lem e traceback (some c) f fresh h = (c, refl, ground arith)

  pub class_to_failure-Written :
      (class : ErrorClass V P D) (traceback : Option String)
      (cause behind : Option (Option (Failure P))) (f : Failure P)
      → IsFreshClass lib class
      → class_to_failure conv lib class traceback cause behind ≡ some f
      → Written conv lib class cause behind f
  unfolding Written Remembers IsFreshClass class_to_failure is_failure_error seen_class normal_seen
      message_back text_or handler_body info_to_error
  class_to_failure-Written (failure_error message kind underlying) traceback cause behind f fresh
        h =
      let (c, b, caused_by, made, plain_body, back) =
        error_to_failure-Written message kind traceback behind f (
          subst (λ u. error_to_failure conv lib message kind u traceback behind ≡ some f) fresh
            h) in
      (c, b, caused_by, made, plain_body, λ d g i m. (_, back d g i m, refl))
  class_to_failure-Written (other_error text class_name) traceback cause behind f fresh h =
      let (c, b, caused_by, made, plain_body, back) =
        error_to_failure-Written text (application (some class_name) false [] none unspecified)
          traceback cause f h in
      (c, b, caused_by, made, plain_body, λ d g i m. (_, back d g i m, refl))
  class_to_failure-Written (handler_error e) traceback cause behind f (fresh, known) h =
      let (c, caused_by, made) = handler_error_to_failure-lem e traceback cause f fresh h in
      (
        c,
        handler_body e traceback,
        caused_by,
        made,
        refl,
        λ d g same_info same_message. (
          _,
          ap (λ i. info_to_error conv lib i d g) same_info,
          rw (same_message, known, retry_behavior_lem e.retryable_override) refl,
        ),
      )
