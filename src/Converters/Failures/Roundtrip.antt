-- ===== src/Converters/Failures/Roundtrip.antt =====
-- temporalio/converter/_failure_converter.py: what is left of a chain of exceptions after a failure
-- was made of it and an exception of the failure.
use sdk_python.Prelude.{
  ◌≡◌, refl, sym, ap, ◌∙◌, ℕ, zero, suc, String, Bool, true, false, not, ◌||◌, cond, Option, some,
  none, arith, List, [], ◌∷◌, length, some-injective, none-ne-some, subst, if◌then◌else◌,
  Option-cases, inl, inr, string_eq, ◌==◌,
}
use sdk_python.Prelude.Options.{bind-some, ◌>>=◌}
use sdk_python.Converters.Errors.{
  ErrorKind, application, timed_out, cancelled, terminated, server, activity, child_workflow,
  nexus_operation, plain, ErrorCategory, unspecified, benign, TimeoutType, RetryState,
  category_value, to_category, timeout_value, to_timeout, retry_state_value, to_retry_state,
  FailureInfo, application_failure, timeout_failure, canceled_failure, nexus_handler_failure,
  HandlerError, FailureBody, Failure, failure, caused, ErrorClass, ErrorBody, failure_error,
  handler_error, other_error, Error, error, error_from, error_in,
}
use sdk_python.Converters.Failures.Base.{
  PayloadConverter, Library, body, set_body, text_or, text_of, set_text, set_delay, get_delay,
  timeout_or_zero, retry_state_or_zero, with_cause, head?,
}
use sdk_python.Converters.Failures.Encode.{
  details_to, error_info, error_to_failure, handler_error_to_failure, class_to_failure,
  encode_attributes, handler_stack, retry_behavior_of, seal, to_failure,
}
use sdk_python.Converters.Failures.Decode.{
  details_from, decode_attributes, info_to_error, from_failure, retryable_override_of,
  optional_timeout, optional_retry_state,
}
use sdk_python.Converters.Failures.Roundtrip.View.{
  Seen, failed, handler_failed, seen_class, seen, is_failure_error, default_message, normal,
  normal_seen, expected, IsFreshClass, IsFresh, ConverterLaws,
}
use sdk_python.Converters.Failures.Roundtrip.Bodies.{Remembers, Written, class_to_failure-Written}
use sdk_python.Converters.Failures.Roundtrip.Attributes.{Sealed, seal-Sealed}
pub mod View
mod Kinds
mod Bodies
mod Attributes

module _ {V P D : Type 0} (conv : PayloadConverter V P) (lib : Library V P D) where
  -- The exceptions that come back look as they should.
  unfoldable pub Returns : Failure P → List (Seen V) → Type 0
  Returns f view = (e : Error V P D) × (from_failure conv lib f ≡ some e) × (seen e ≡ view)

  Behind : Option (Failure P) → List (Seen V) → Type 0
  Behind none view = view ≡ []
  Behind (some g) view = Returns g view

  with_cause-Returns :
      (c : Option (Failure P)) (d b : FailureBody P) (class : ErrorClass V P D)
      (view : List (Seen V))
      → Remembers conv lib b class
      → (decode_attributes conv lib d).info ≡ b.info
      → (decode_attributes conv lib d).message ≡ b.message
      → Behind c view
      → Returns (with_cause c d) (normal_seen (seen_class class) ∷ view)
  unfolding Remembers Behind Returns from_failure with_cause seen
  with_cause-Returns none d b class view remembers info message behind =
      let e = decode_attributes conv lib d in
      let (made, from, looks) = remembers e (failure e) info message in
      (error (record { class = made; traceback = none }), rw from refl, rw (behind, looks) refl)
  with_cause-Returns (some g) d b class view remembers info message (cause, read, sees) =
      let e = decode_attributes conv lib d in
      let (made, from, looks) = remembers e (caused e g) info message in
      (
        error_from (record { class = made; traceback = none }) cause,
        rw (from, read) refl,
        rw (sees, looks) refl,
      )

  -- The failure behind, as the rest of the chain gives it.
  Behind-nothing : (c : Option (Failure P)) → some none ≡ some c → Behind c []
  unfolding Behind
  Behind-nothing none h = refl
  Behind-nothing (some c) h = absurd (none-ne-some c (some-injective _ _ h))

  Behind-cause :
      (m : Option (Failure P)) (view : List (Seen V)) (c : Option (Failure P))
      → ((f : Failure P) → m ≡ some f → Returns f view)
      → (m >>= λ f. some (some f)) ≡ some c
      → Behind c view
  unfolding Behind
  Behind-cause m view c returns h =
      let (f, made, is) = bind-some m (λ f. some (some f)) c h in
      subst (λ c. Behind c view) (some-injective _ _ is) (returns f made)

  Behind-context :
      (suppress failure_class : Bool) (m : Option (Failure P)) (view : List (Seen V))
      (c : Option (Failure P))
      → ((f : Failure P) → m ≡ some f → Returns f view)
      → (if failure_class
          then (if suppress then some none else (m >>= λ f. some (some f)))
          else some none)
        ≡ some c
      → Behind c (if suppress || not failure_class then [] else view)
  Behind-context true true m view c returns h = Behind-nothing c h
  Behind-context true false m view c returns h = Behind-nothing c h
  Behind-context false true m view c returns h = Behind-cause m view c returns h
  Behind-context false false m view c returns h = Behind-nothing c h

  if_same : {A : Type 0} (b : Bool) (x y : A) → (if b then x else x) ≡ y → x ≡ y
  if_same true x y h = h
  if_same false x y h = h

module _ {V P D : Type 0} (conv : PayloadConverter V P) (lib : Library V P D)
    (laws : ConverterLaws conv lib) where
  Returns-one :
      (encode : Bool) (class : ErrorClass V P D) (traceback : Option String)
      (cause behind : Option (Option (Failure P))) (f : Failure P)
      → IsFreshClass lib class
      → seal conv lib encode (class_to_failure conv lib class traceback cause behind) ≡ some f
      → (c : Option (Failure P)) × ((if is_failure_error class then behind else cause) ≡ some c)
        × ((view : List (Seen V))
            → Behind conv lib c view
            → Returns conv lib f (normal_seen (seen_class class) ∷ view))
  unfolding Written Sealed seal
  Returns-one encode class traceback cause behind f fresh h =
      let (g, written, sealing) =
        bind-some (class_to_failure conv lib class traceback cause behind)
          (λ g. if encode then encode_attributes conv lib g else some g) f h in
      let (c, b, caused_by, made, plain_body, remembers) =
        class_to_failure-Written conv lib laws class traceback cause behind g fresh written in
      let (d, sealed_as, info, message) =
        seal-Sealed conv lib laws encode c b f plain_body
          (subst (λ g. seal conv lib encode (some g) ≡ some f) made sealing) in
      (
        c,
        caused_by,
        λ view behind.
            subst (λ f. Returns conv lib f (normal_seen (seen_class class) ∷ view)) (sym sealed_as)
              (with_cause-Returns conv lib c d b class view remembers info message behind),
      )

  pub from_failure-to_failure :
      (encode : Bool) (e : Error V P D) (f : Failure P)
      → IsFresh lib e
      → to_failure conv lib encode e ≡ some f
      → Returns conv lib f (expected e)
  unfolding to_failure expected IsFresh
  from_failure-to_failure encode (error b) f fresh h =
      let (c, caused_by, back) =
        Returns-one encode b.class b.traceback (some none) (some none) f fresh h in
      back []
        (Behind-nothing conv lib c (if_same conv lib (is_failure_error b.class) _ _ caused_by))
  from_failure-to_failure encode (error_from b cause) f (fresh, rest) h =
      let m = to_failure conv lib encode cause in
      let behind = m >>= λ f. some (some f) in
      let (c, caused_by, back) = Returns-one encode b.class b.traceback behind behind f fresh h in
      back (expected cause) (
        Behind-cause conv lib m (expected cause) c
          (λ g. from_failure-to_failure encode cause g rest)
          (if_same conv lib (is_failure_error b.class) _ _ caused_by))
  from_failure-to_failure encode (error_in b suppress cause) f (fresh, rest) h =
      let m = to_failure conv lib encode cause in
      let behind = if suppress then some none else (m >>= λ f. some (some f)) in
      let (c, caused_by, back) =
        Returns-one encode b.class b.traceback (some none) behind f fresh h in
      back _ (
        Behind-context conv lib suppress (is_failure_error b.class) m (expected cause) c
          (λ g. from_failure-to_failure encode cause g rest) caused_by)
