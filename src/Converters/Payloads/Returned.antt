-- ===== src/Converters/Payloads/Returned.antt =====
-- temporalio/converter/_payload_converter.py: the payloads that are made are read back.
use sdk_python.Prelude.{
  ◌≡◌, refl, sym, ap, ◌∙◌, ℕ, suc, String, Option, some, none, none-ne-some, List, [], ◌∷◌,
  string_eq, length, arith, ==_refl, inl, inr,
}
use sdk_python.Prelude.Result.{ok, Result-cases}
use sdk_python.Prelude.Dict.{
  Dict, lookup, insert, NodupKeys, insert-NodupKeys, lookup-nil, lookup-cons, lookup-insert,
}
use sdk_python.Converters.Payloads.{
  Value, raw_value, value, Hint, raw_hint, Encodings, add_converters, set_converters, first_payload,
  value_payload, payloads_from, to_payloads, decode_payload, payload_value, zip_longest,
  values_from, from_payloads,
}

module _ {C V P H X S : Type 0} (enc : Encodings C V P H X S) where
  -- Each converter is kept under its encoding.
  IsKeyed : Dict String C → Type 0
  IsKeyed d = (e : String) (c : C) → lookup e d ≡ some c → enc.encoding c ≡ e

  IsMade : Dict String C → Type 0
  IsMade d = NodupKeys d × IsKeyed d

  insert-IsKeyed : (c : C) (d : Dict String C) → IsKeyed d → IsKeyed (insert (enc.encoding c) c d)
  unfolding IsKeyed
  insert-IsKeyed c d keyed e b h = ground (arith, lookup-insert e (enc.encoding c) c d, keyed e b)

  add_converters-IsMade :
      (cs : List C) (d : Dict String C) → IsMade d → IsMade (add_converters enc cs d)
  unfolding IsMade add_converters
  add_converters-IsMade [] d made = made
  add_converters-IsMade (c ∷ cs) d (unique, keyed) =
      add_converters-IsMade cs (insert (enc.encoding c) c d)
        (insert-NodupKeys (enc.encoding c) c d unique, insert-IsKeyed c d keyed)

  set_converters-IsMade : (cs : List C) → IsMade (set_converters enc cs)
  unfolding IsMade IsKeyed set_converters
  set_converters-IsMade cs =
      add_converters-IsMade cs [] (tt, λ e c h. absurd (none-ne-some c (sym (lookup-nil e) ∙ h)))

  length-payloads_from :
      (d : Dict String C) (i : ℕ) (vs : List (Value V P)) (ps : List P)
      → payloads_from enc d i vs ≡ ok ps
      → length ps ≡ length vs
  unfolding payloads_from
  length-payloads_from d i [] ps h = ground arith
  length-payloads_from d i (v ∷ vs) [] h = ground arith
  length-payloads_from d i (v ∷ vs) (p ∷ ps) h =
      ground (arith, length-payloads_from d (suc i) vs ps)

  -- What is asked of the converters: a payload carries its converter's encoding, and the converter
  -- reads back what it wrote.
  pub record EncodingLaws : Type 0 where
    pub marks :
        (c : C) (v : V) (p : P)
        → enc.to_payload c v ≡ ok (some p)
        → enc.payload_encoding p ≡ some (enc.encoding c)
    pub reads :
        (c : C) (v : V) (p : P)
        → enc.to_payload c v ≡ ok (some p)
        → enc.from_payload c p none ≡ ok v

  first_payload-made :
      (d : Dict String C) (v : V) (p : P)
      → NodupKeys d
      → first_payload enc d v ≡ ok (some p)
      → (e : String) × (c : C) × (lookup e d ≡ some c) × (enc.to_payload c v ≡ ok (some p))
  unfolding first_payload
  first_payload-made [] v p unique h = absurd (ground arith)
  first_payload-made ((k, c) ∷ d) v p (fresh, unique) h = elim (Result-cases (enc.to_payload c v)) [
    | inr (e, fails) ↦ absurd (ground arith)
    | inl (some q, makes) ↦ (k, c, rw (lookup-cons k k c d, ==_refl k) refl, ground arith)
    | inl (none, skips) ↦
        (let (e, b, is, makes) = first_payload-made d v p unique (ground arith) in
          (e, b, ground (arith, lookup-cons e k c d), makes))
  ]

module _ {V P H : Type 0} where
  -- A value that is raw asks for a raw one again.
  unfoldable pub hint_of : Value V P → Option (Hint H)
  hint_of (raw_value _) = some raw_hint
  hint_of (value _) = none

  unfoldable pub hints_of : List (Value V P) → List (Option (Hint H))
  unfolding hint_of
  hints_of [] = []
  hints_of (v ∷ vs) = hint_of v ∷ hints_of vs

module _ {C V P H X S : Type 0} (enc : Encodings C V P H X S) (laws : EncodingLaws enc) where
  decode_payload-lem :
      (d : Dict String C) (i : ℕ) (p : P) (e : String) (c : C) (v : V)
      → enc.payload_encoding p ≡ some e
      → lookup e d ≡ some c
      → enc.from_payload c p none ≡ ok v
      → decode_payload enc d i (some p) none ≡ ok (value v)
  unfolding decode_payload
  decode_payload-lem d i p e c v marked is reads = ground arith

  payload_value-value_payload :
      (d : Dict String C) (i : ℕ) (v : Value V P) (p : P)
      → IsMade enc d
      → value_payload enc d v ≡ ok (some p)
      → payload_value enc d i (some p) (hint_of v) ≡ ok v
  unfolding value_payload payload_value hint_of IsMade IsKeyed decode_payload
  payload_value-value_payload d i (raw_value q) p made h = ground arith
  payload_value-value_payload d i (value v) p (unique, keyed) h =
      let (e, c, is, makes) = first_payload-made enc d v p unique h in
      let marked = laws.marks c v p makes ∙ ap some (keyed e c is) in
      decode_payload-lem d i p e c v marked is (laws.reads c v p makes)

  values_from-payloads_from :
      (d : Dict String C) (i j : ℕ) (vs : List (Value V P)) (ps : List P)
      → IsMade enc d
      → payloads_from enc d i vs ≡ ok ps
      → values_from enc d j (zip_longest ps (hints_of vs)) ≡ ok vs
  unfolding payloads_from values_from hints_of zip_longest
  values_from-payloads_from d i j [] [] made h = refl
  values_from-payloads_from d i j [] (p ∷ ps) made h = absurd (ground arith)
  values_from-payloads_from d i j (v ∷ vs) [] made h = absurd (ground arith)
  values_from-payloads_from d i j (v ∷ vs) (p ∷ ps) made h = ground (
    arith,
    values_from-payloads_from d (suc i) (suc j) vs ps made,
    payload_value-value_payload d j v p made,
  )

  -- Values that are converted by a composite converter, made of any converters, come back from their
  -- payloads in order, the raw ones where a raw one is asked for.
  pub from_payloads-to_payloads :
      (cs : List C) (vs : List (Value V P)) (ps : List P)
      → to_payloads enc (set_converters enc cs) vs ≡ ok ps
      → (length ps ≡ length vs)
        × (from_payloads enc (set_converters enc cs) ps (hints_of vs) ≡ ok vs)
  unfolding to_payloads from_payloads
  from_payloads-to_payloads cs vs ps h = (
    length-payloads_from enc (set_converters enc cs) 0 vs ps h,
    values_from-payloads_from (set_converters enc cs) 0 0 vs ps (set_converters-IsMade enc cs) h,
  )
