-- ===== src/Converters/Payloads/Context.antt =====
-- temporalio/converter/_payload_converter.py: a composite converter in a context has each of its
-- converters in that context.
use sdk_python.Prelude.{
  ◌≡◌, refl, sym, ap, ◌∙◌, String, true, false, none, some, List, [], ◌∷◌, ◌++◌, string_eq, Eq,
  ◌==◌, ==_eq, arith, Bool-cases, inl, inr, append_assoc, append-nil, subst,
}
use sdk_python.Prelude.Dict.{
  Dict, lookup, insert, NodupKeys, insert-NodupKeys, lookup-nil, lookup-cons,
}
use sdk_python.Converters.Payloads.{
  Encodings, add_converters, set_converters, takes_context, any_takes_context, in_context,
  set_context, converters_with_context, with_context,
}

module _ {C V P H X S : Type 0} (enc : Encodings C V P H X S) ⦃same : Eq C⦄ where
  values : Dict String C → List C
  values [] = []
  values ((_, c) ∷ d) = c ∷ values d

  -- The converters of a dictionary, each that takes a context made anew by it in this context.
  unfoldable pub map_context : S → Dict String C → List C
  map_context context [] = []
  map_context context ((_, c) ∷ d) =
      let rest = map_context context d in
      elim (enc.with_context c) [ none ↦ c ∷ rest | some made_in ↦ made_in context ∷ rest ]

  set_context-all :
      (context : S) (d : Dict String C) → (set_context enc context d).0 ≡ map_context context d
  unfolding set_context map_context in_context
  set_context-all context [] = refl
  set_context-all context ((_, c) ∷ d) = ground (arith, set_context-all context d)

  -- No converter is another than before.
  set_context-unchanged :
      (context : S) (d : Dict String C)
      → (set_context enc context d).1 ≡ false
      → map_context context d ≡ values d
  unfolding set_context map_context values in_context
  set_context-unchanged context [] h = refl
  set_context-unchanged context ((k, c) ∷ d) h =
      ground (arith, set_context-unchanged context d, ==_eq (in_context enc context c) c)

  takes_context-none :
      (context : S) (d : Dict String C)
      → any_takes_context enc d ≡ false
      → map_context context d ≡ values d
  unfolding any_takes_context takes_context map_context values in_context
  takes_context-none context [] h = refl
  takes_context-none context ((k, c) ∷ d) h = ground (arith, takes_context-none context d)

  AreKeyed : Dict String C → Type 0
  AreKeyed [] = Unit
  AreKeyed ((k, c) ∷ d) = (enc.encoding c ≡ k) × AreKeyed d

  insert-AreKeyed :
      (c : C) (d : Dict String C) → AreKeyed d → AreKeyed (insert (enc.encoding c) c d)
  unfolding AreKeyed insert
  insert-AreKeyed c [] keyed = (refl, tt)
  insert-AreKeyed c ((k, b) ∷ d) (is, keyed) = ground (arith, insert-AreKeyed c d keyed)

  IsMade : Dict String C → Type 0
  IsMade d = NodupKeys d × AreKeyed d

  add_converters-IsMade :
      (cs : List C) (d : Dict String C) → IsMade d → IsMade (add_converters enc cs d)
  unfolding IsMade add_converters
  add_converters-IsMade [] d made = made
  add_converters-IsMade (c ∷ cs) d (unique, keyed) =
      add_converters-IsMade cs (insert (enc.encoding c) c d)
        (insert-NodupKeys (enc.encoding c) c d unique, insert-AreKeyed c d keyed)

  lookup-none-append :
      (j k : String) (c : C) (d e : Dict String C)
      → lookup j (d ++ ((k, c) ∷ e)) ≡ none
      → (j == k) ≡ false
  lookup-none-append j k c [] e h = ground (arith, lookup-cons j k c e)
  lookup-none-append j k c ((l, b) ∷ d) e h =
      ground (arith, lookup-cons j l b (d ++ ((k, c) ∷ e)), lookup-none-append j k c d e)

  lookup-NodupKeys :
      (k : String) (c : C) (d e : Dict String C) → NodupKeys (d ++ ((k, c) ∷ e)) → lookup k d ≡ none
  lookup-NodupKeys k c [] e unique = lookup-nil k
  lookup-NodupKeys k c ((j, b) ∷ d) e (fresh, unique) = ground (
    arith,
    lookup-cons k j b d,
    lookup-NodupKeys k c d e unique,
    lookup-none-append j k c d e fresh,
  )

  insert-append :
      (k : String) (c : C) (d : Dict String C)
      → lookup k d ≡ none
      → insert k c d ≡ d ++ ((k, c) ∷ [])
  unfolding insert
  insert-append k c [] h = refl
  insert-append k c ((j, b) ∷ d) h = ground (arith, lookup-cons k j b d, insert-append k c d)

  add_converters-values :
      (d e : Dict String C)
      → NodupKeys (d ++ e)
      → AreKeyed e
      → add_converters enc (values e) d ≡ d ++ e
  unfolding add_converters values AreKeyed
  add_converters-values d [] unique keyed = sym (append-nil d)
  add_converters-values d ((k, c) ∷ e) unique (is, keyed) =
      let d' = d ++ ((k, c) ∷ []) in
      let grows = insert-append k c d (lookup-NodupKeys k c d e unique) in
      ap (add_converters enc (values e)) (ap (λ k. insert k c d) is ∙ grows)
      ∙ add_converters-values d' e (subst NodupKeys (sym (append_assoc d ((k, c) ∷ []) e)) unique)
          keyed
      ∙ append_assoc d ((k, c) ∷ []) e

  set_converters-IsMade : (cs : List C) → IsMade (set_converters enc cs)
  unfolding IsMade AreKeyed set_converters
  set_converters-IsMade cs = add_converters-IsMade cs [] (tt, tt)

  with_context-unused :
      (context : S) (d : Dict String C)
      → any_takes_context enc d ≡ false
      → with_context enc context d ≡ d
  unfolding with_context converters_with_context
  with_context-unused context d h = ground arith

  with_context-unchanged :
      (context : S) (d : Dict String C)
      → (set_context enc context d).1 ≡ false
      → with_context enc context d ≡ d
  unfolding with_context converters_with_context
  with_context-unchanged context d h = ground arith

  with_context-changed :
      (context : S) (d : Dict String C)
      → any_takes_context enc d ≡ true
      → (set_context enc context d).1 ≡ true
      → with_context enc context d ≡ set_converters enc (set_context enc context d).0
  unfolding with_context converters_with_context
  with_context-changed context d h k = ground arith

  -- In a context, a composite converter has the converters that one made anew of its converters
  -- would have, each that takes a context replaced by what it makes of itself in that context.
  pub with_context-set_converters :
      (context : S) (cs : List C)
      → let d = set_converters enc cs in
        with_context enc context d ≡ set_converters enc (map_context context d)
  unfolding IsMade set_converters
  with_context-set_converters context cs =
      let d = set_converters enc cs in
      let (unique, keyed) = set_converters-IsMade cs in
      let rebuilt = sym (add_converters-values [] d unique keyed) in
      elim (Bool-cases (any_takes_context enc d)) [
        | inr unused ↦
            with_context-unused context d unused
            ∙ rebuilt
            ∙ ap (set_converters enc) (sym (takes_context-none context d unused))
        | inl used ↦ (elim (Bool-cases (set_context enc context d).1) [
          | inr unchanged ↦
              with_context-unchanged context d unchanged
              ∙ rebuilt
              ∙ ap (set_converters enc) (sym (set_context-unchanged context d unchanged))
          | inl changed ↦
              with_context-changed context d used changed
              ∙ ap (set_converters enc) (set_context-all context d)
        ])
      ]
