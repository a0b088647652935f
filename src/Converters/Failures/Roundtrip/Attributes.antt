-- ===== src/Converters/Failures/Roundtrip/Attributes.antt =====
-- temporalio/converter/_failure_converter.py, on the way to the round trip of exceptions: the encoded
-- attributes.
use sdk_python.Prelude.{
  ◌≡◌, refl, sym, Bool, true, false, Option, some, none, arith, List, [], ◌∷◌, some-injective,
  Option-cases, inl, inr, string_eq,
}
use sdk_python.Converters.Errors.{FailureBody, Failure}
use sdk_python.Converters.Failures.Base.{
  PayloadConverter, Library, body, set_body, with_cause, head?,
}
use sdk_python.Converters.Failures.Encode.{encode_attributes, seal}
use sdk_python.Converters.Failures.Decode.{decode_attributes}
use sdk_python.Converters.Failures.Roundtrip.View.{ConverterLaws}

module _ {V P D : Type 0} (conv : PayloadConverter V P) (lib : Library V P D) where
  -- What encoding the attributes hides, decoding them finds again.
  unfoldable pub Sealed : Option (Failure P) → FailureBody P → Failure P → Type 0
  Sealed c b f =
      (d : FailureBody P) × (f ≡ with_cause c d)
      × ((decode_attributes conv lib d).info ≡ b.info)
      × ((decode_attributes conv lib d).message ≡ b.message)

module _ {V P D : Type 0} (conv : PayloadConverter V P) (lib : Library V P D)
    (laws : ConverterLaws conv lib) where
  one-payload :
      (v : V) (ps : List P)
      → conv.to_payloads (v ∷ []) ≡ some ps
      → (p : P) × (ps ≡ p ∷ []) × (conv.from_payloads (p ∷ []) ≡ some (v ∷ []))
  one-payload v [] h = absurd (omega (arith, laws.same_length (v ∷ []) [] h))
  one-payload v (p ∷ []) h = (p, refl, laws.reads_back (v ∷ []) (p ∷ []) h)
  one-payload v (p ∷ q ∷ ps) h = absurd (omega (arith, laws.same_length (v ∷ []) (p ∷ q ∷ ps) h))

  sealed : FailureBody P → P → FailureBody P
  sealed b p = record b {
    message = "Encoded failure";
    stack_trace = "";
    encoded_attributes = some p;
  }

  attributes_of : FailureBody P → V
  attributes_of b = lib.attributes b.message b.stack_trace

  encode_attributes-sealed :
      (c : Option (Failure P)) (b : FailureBody P) (ps : List P) (p : P) (f : Failure P)
      → conv.to_payloads (attributes_of b ∷ []) ≡ some ps
      → ps ≡ p ∷ []
      → encode_attributes conv lib (with_cause c b) ≡ some f
      → f ≡ with_cause c (sealed b p)
  unfolding encode_attributes sealed attributes_of with_cause body set_body head?
  encode_attributes-sealed none b ps p f h one made = ground arith
  encode_attributes-sealed (some c) b ps p f h one made = ground arith

  to_payloads-some :
      (c : Option (Failure P)) (b : FailureBody P) (f : Failure P)
      → encode_attributes conv lib (with_cause c b) ≡ some f
      → (ps : List P) × (conv.to_payloads (attributes_of b ∷ []) ≡ some ps)
  unfolding encode_attributes attributes_of with_cause body set_body head?
  to_payloads-some none b f h = elim (Option-cases (conv.to_payloads (attributes_of b ∷ []))) [
    | inl raised ↦ absurd (ground arith)
    | inr made ↦ made
  ]
  to_payloads-some (some c) b f h = elim (Option-cases (conv.to_payloads (attributes_of b ∷ []))) [
    | inl raised ↦ absurd (ground arith)
    | inr made ↦ made
  ]

  decode_attributes-info : (b : FailureBody P) → (decode_attributes conv lib b).info ≡ b.info
  unfolding decode_attributes
  decode_attributes-info b = ground arith

  decode_attributes-sealed :
      (b : FailureBody P) (p : P)
      → conv.from_payloads (p ∷ []) ≡ some (attributes_of b ∷ [])
      → lib.attribute (attributes_of b) "message" ≡ some b.message
      → (decode_attributes conv lib (sealed b p)).message ≡ b.message
  unfolding sealed decode_attributes attributes_of head?
  decode_attributes-sealed b p decoded reads = rw (decode_attributes, decoded, reads) refl

  decode_attributes-plain :
      (b : FailureBody P) → b.encoded_attributes ≡ none → decode_attributes conv lib b ≡ b
  unfolding decode_attributes
  decode_attributes-plain b h = rw h refl

  encode_attributes-Sealed :
      (c : Option (Failure P)) (b : FailureBody P) (f : Failure P)
      → encode_attributes conv lib (with_cause c b) ≡ some f
      → Sealed conv lib c b f
  unfolding Sealed attributes_of sealed
  encode_attributes-Sealed c b f h =
      let (ps, converted) = to_payloads-some c b f h in
      let (p, one, decoded) = one-payload (attributes_of b) ps converted in
      (
        sealed b p,
        encode_attributes-sealed c b ps p f converted one h,
        decode_attributes-info (sealed b p),
        decode_attributes-sealed b p decoded (laws.keeps_message b.message b.stack_trace),
      )

  pub seal-Sealed :
      (encode : Bool) (c : Option (Failure P)) (b : FailureBody P) (f : Failure P)
      → b.encoded_attributes ≡ none
      → seal conv lib encode (some (with_cause c b)) ≡ some f
      → Sealed conv lib c b f
  unfolding seal Sealed
  seal-Sealed true c b f plain_body h = encode_attributes-Sealed c b f h
  seal-Sealed false c b f plain_body h = (
    b,
    sym (some-injective _ _ h),
    rw (decode_attributes-plain b plain_body) refl,
    rw (decode_attributes-plain b plain_body) refl,
  )
