-- ===== src/Converters/Payloads.antt =====
-- temporalio/converter/_payload_converter.py: the payload converter that is made of converters of
-- one encoding each. These are parameters: values of a type `C`, each taken to be without state.
use sdk_python.Prelude.{
  ℕ, suc, String, Bool, true, false, not, ◌&&◌, ◌||◌, Option, some, none, get_or, List, [], ◌∷◌,
  map, string_eq, Eq, ◌==◌, if◌then◌else◌,
}
use sdk_python.Prelude.Result.{Result, ok, err}
use sdk_python.Prelude.Dict.{Dict, lookup, insert}
pub mod Returned
pub mod Context

-- A value to be converted: `RawValue` stands for its payload, which may be missing.
pub data Value (V P : Type 0) : Type 0 where
  raw_value : (payload : Option P) → Value V P
  value : V → Value V P

pub data Hint (H : Type 0) : Type 0 where
  raw_hint : Hint H
  type_hint : H → Hint H

-- What is raised: the code's own errors, or what a converter raises, which is a `RuntimeError` or
-- not.
pub data ConversionError (X : Type 0) : Type 0 where
  no_converter : (index : ℕ) → ConversionError X
  unknown_encoding : String → ConversionError X
  no_payload : ConversionError X
  not_converted : (index : ℕ) (encoding : String) → X → ConversionError X
  raised : X → ConversionError X

-- A converter of one encoding. `with_context` is none where it takes no context.
pub record Encodings (C V P H X S : Type 0) : Type 0 where
  pub encoding : C → String
  pub to_payload : C → V → Result X (Option P)
  pub from_payload : C → P → Option H → Result X V
  pub with_context : C → Option (S → C)
  pub is_runtime_error : X → Bool
  pub payload_encoding : P → Option String

-- Past the end of the shorter list there is nothing.
unfoldable pub zip_longest : {A B : Type 0} → List A → List B → List (Option A × Option B)
zip_longest [] [] = []
zip_longest [] (b ∷ ys) = (none, some b) ∷ zip_longest [] ys
zip_longest (a ∷ xs) [] = (some a, none) ∷ zip_longest xs []
zip_longest (a ∷ xs) (b ∷ ys) = (some a, some b) ∷ zip_longest xs ys

module _ {C V P H X S : Type 0} (enc : Encodings C V P H X S) where
  -- `{c.encoding.encode(): c for c in converters}`
  unfoldable pub add_converters : List C → Dict String C → Dict String C
  unfolding insert
  add_converters [] d = d
  add_converters (c ∷ cs) d = add_converters cs (insert (enc.encoding c) c d)

  unfoldable pub set_converters : List C → Dict String C
  unfolding add_converters
  set_converters cs = add_converters cs []

  -- The payload of the first converter that makes one.
  unfoldable pub first_payload : Dict String C → V → Result X (Option P)
  first_payload [] v = ok none
  first_payload ((_, c) ∷ converters) v = elim (enc.to_payload c v) [
    | err e ↦ err e
    | ok (some p) ↦ ok (some p)
    | ok none ↦ first_payload converters v
  ]

  unfoldable pub value_payload : Dict String C → Value V P → Result X (Option P)
  unfolding first_payload
  value_payload converters (raw_value payload) = ok payload
  value_payload converters (value v) = first_payload converters v

  -- `to_payloads`, from the index on.
  unfoldable pub payloads_from :
      Dict String C → ℕ → List (Value V P) → Result (ConversionError X) (List P)
  unfolding value_payload
  payloads_from converters index [] = ok []
  payloads_from converters index (v ∷ vs) =
      let rest = payloads_from converters (suc index) vs in
      elim (value_payload converters v) [
        | err e ↦ err (raised e)
        | ok none ↦ err (no_converter index)
        | ok (some p) ↦ (elim rest [ err e ↦ err e | ok ps ↦ ok (p ∷ ps) ])
      ]

  unfoldable pub to_payloads :
      Dict String C → List (Value V P) → Result (ConversionError X) (List P)
  unfolding payloads_from
  to_payloads converters vs = payloads_from converters 0 vs

  -- A payload that is not to stay raw; a missing one has no metadata to read.
  unfoldable pub decode_payload :
      Dict String C → ℕ → Option P → Option H → Result (ConversionError X) (Value V P)
  unfolding lookup
  decode_payload converters index none hint = err no_payload
  decode_payload converters index (some p) hint =
      let encoding = get_or (enc.payload_encoding p) "<unknown>" in
      elim (lookup encoding converters) [
        | none ↦ err (unknown_encoding encoding)
        | some c ↦ (elim (enc.from_payload c p hint) [
          | ok v ↦ ok (value v)
          | err e ↦
              if enc.is_runtime_error e
              then err (not_converted index encoding e)
              else err (raised e)
        ])
      ]

  unfoldable pub payload_value :
      Dict String C → ℕ → Option P → Option (Hint H) → Result (ConversionError X) (Value V P)
  unfolding decode_payload
  payload_value converters index p none = decode_payload converters index p none
  payload_value converters index p (some raw_hint) = ok (raw_value p)
  payload_value converters index p (some (type_hint h)) = decode_payload converters index p (some h)

  unfoldable pub values_from :
      Dict String C
      → ℕ
      → List (Option P × Option (Option (Hint H)))
      → Result (ConversionError X) (List (Value V P))
  unfolding payload_value
  values_from converters index [] = ok []
  values_from converters index ((p, hint) ∷ items) =
      let rest = values_from converters (suc index) items in
      elim (payload_value converters index p (get_or hint none)) [
        | err e ↦ err e
        | ok v ↦ (elim rest [ err e ↦ err e | ok vs ↦ ok (v ∷ vs) ])
      ]

  unfoldable pub from_payloads :
      Dict String C
      → List P
      → List (Option (Hint H))
      → Result (ConversionError X) (List (Value V P))
  unfolding values_from zip_longest
  from_payloads converters ps hints = values_from converters 0 (zip_longest ps hints)

  module _ ⦃same : Eq C⦄ where
    unfoldable pub takes_context : C → Bool
    takes_context c = elim (enc.with_context c) [ none ↦ false | some _ ↦ true ]

    unfoldable pub any_takes_context : Dict String C → Bool
    unfolding takes_context
    any_takes_context [] = false
    any_takes_context ((_, c) ∷ converters) = takes_context c || any_takes_context converters

    unfoldable pub in_context : S → C → C
    in_context context c = elim (enc.with_context c) [ none ↦ c | some f ↦ f context ]

    -- The converters with the context set, and whether one of them is another object than it was.
    unfoldable pub set_context : S → Dict String C → List C × Bool
    unfolding in_context
    set_context context [] = ([], false)
    set_context context ((_, c) ∷ converters) =
        let rest = set_context context converters in
        let c' = in_context context c in (c' ∷ rest.0, not (c' == c) || rest.1)

    -- `get_converters_with_context`
    unfoldable pub converters_with_context : S → Dict String C → Option (List C)
    unfolding any_takes_context set_context
    converters_with_context context converters =
        let set = set_context context converters in
        if not (any_takes_context converters) then none else if set.1 then some set.0 else none

    -- The converters of the instance that `with_context` returns.
    unfoldable pub with_context : S → Dict String C → Dict String C
    unfolding converters_with_context set_converters
    with_context context converters = elim (converters_with_context context converters) [
      | none ↦ converters
      | some cs ↦ set_converters cs
    ]
