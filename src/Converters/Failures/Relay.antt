-- ===== src/Converters/Failures/Relay.antt =====
-- temporalio/converter/_failure_converter.py: an exception made of a failure is turned into that
-- failure again.
use sdk_python.Prelude.{
  ◌≡◌, refl, ap, String, Bool, Option, some, none, arith, some-injective, subst, ==_refl, option_eq,
  string_eq,
}
use sdk_python.Prelude.Options.{bind-some, ◌>>=◌}
use sdk_python.Converters.Errors.{
  FailureInfo, nexus_handler_failure, FailureBody, Failure, failure, caused, ErrorClass, ErrorBody,
  Error, error, error_from,
}
use sdk_python.Converters.Failures.Base.{PayloadConverter, Library, body, set_body, set_texts}
use sdk_python.Converters.Failures.Encode.{
  error_to_failure, handler_error_to_failure, class_to_failure, to_nexus_failure,
  to_temporal_failure, seal, to_failure,
}
use sdk_python.Converters.Failures.Decode.{decode_attributes, info_to_error, from_failure}

module _ {V P D : Type 0} (conv : PayloadConverter V P) (lib : Library V P D) where
  -- The class carries the failure of which it was made.
  Carries : Failure P → ErrorClass V P D → Type 0
  Carries f class =
      (traceback : Option String) (cause behind : Option (Option (Failure P)))
      → class_to_failure conv lib class traceback cause behind ≡ some f

  module _ (parse : (f : Failure P) → lib.parse_dict (lib.message_to_dict f) ≡ some f) where
    nexus_relay :
        (f : Failure P) (retryable : Bool)
        → to_temporal_failure conv lib (to_nexus_failure conv lib f) retryable ≡ some f
    unfolding to_temporal_failure to_nexus_failure
    nexus_relay (failure b) retryable =
        rw
          (
            ==_refl {A = Option String} (some "temporal.api.failure.v1.Failure"),
            parse (set_texts "" "" (failure b)),
          )
          refl
    nexus_relay (caused b c) retryable =
        rw
          (
            ==_refl {A = Option String} (some "temporal.api.failure.v1.Failure"),
            parse (set_texts "" "" (caused b c)),
          )
          refl

    info_to_error-Carries :
        (i : FailureInfo P) (b : FailureBody P) (f : Failure P) (class : ErrorClass V P D)
        → info_to_error conv lib i b f ≡ some class
        → Carries f class
    unfolding Carries info_to_error class_to_failure error_to_failure handler_error_to_failure
    info_to_error-Carries (nexus_handler_failure _ _) b f class h traceback cause behind =
        subst (Carries f) (some-injective _ _ h) (λ _ _ _. nexus_relay f _) traceback cause behind
    info_to_error-Carries i b f class h traceback cause behind = ground arith

    -- An exception made of a failure is turned into that failure again, at every depth and by
    -- whichever class: the failure with its encoded attributes read, which are written anew where
    -- the converter encodes them. Its condition is that parsing the JSON form of a failure gives
    -- that failure.
    pub relay :
        (encode : Bool) (f : Failure P) (e : Error V P D)
        → from_failure conv lib f ≡ some e
        → to_failure conv lib encode e
          ≡ seal conv lib encode (some (set_body f (decode_attributes conv lib (body f))))
    unfolding from_failure to_failure set_body body Carries
    relay encode (failure b) e h =
        let d = decode_attributes conv lib b in
        let (class, made, rest) =
          bind-some (info_to_error conv lib d.info d (failure d))
            (λ class. some (error (record { class = class; traceback = none }))) e h in
        let goal = λ (e : Error V P D).
          to_failure conv lib encode e ≡ seal conv lib encode (some (failure d)) in
        subst goal (some-injective _ _ rest) (
          ap (seal conv lib encode)
            (info_to_error-Carries d.info d (failure d) class made none (some none) (some none)))
    relay encode (caused b c) e h =
        let d = decode_attributes conv lib b in
        let err : ErrorClass V P D → ErrorBody V P D =
          λ class. record { class = class; traceback = none } in
        let (class, made, rest) =
          bind-some (info_to_error conv lib d.info d (caused d c))
            (λ class. from_failure conv lib c >>= λ behind. some (error_from (err class) behind)) e
            h in
        let (behind, _, built) =
          bind-some (from_failure conv lib c) (λ behind. some (error_from (err class) behind)) e
            rest in
        let goal = λ (e : Error V P D).
          to_failure conv lib encode e ≡ seal conv lib encode (some (caused d c)) in
        let cause = to_failure conv lib encode behind >>= λ f. some (some f) in
        subst goal (some-injective _ _ built) (
          ap (seal conv lib encode)
            (info_to_error-Carries d.info d (caused d c) class made none cause cause))
