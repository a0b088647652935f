-- ===== src/Streams/Subscribe/Answer.antt =====
-- What a turn of `subscribe` in _client.py makes of the items of an answer, those that raise included.
use sdk_python.Prelude.{
  ◌≡◌, refl, ap, subst, ◌⊎◌, inl, inr, Bool, not, ◌&&◌, Option, none, some, List, [], ◌∷◌, ◌++◌,
  Option-cases,
}
use sdk_python.Prelude.Int.{ℤ, pos}
use sdk_python.Streams.Types.{
  Codec, WorkflowStreamItem, WireItem, PollResult, StreamError, decode_error, convert_error,
}
use sdk_python.Streams.Subscribe.{
  Status, answered, polls_again, raises_after, yield_items, subscribe_turn,
}

module _ {P A : Type 0} (c : Codec P) (from_payload : P → Option A) where
  -- The items that the subscriber gets, against those of the answer: one for each, with its topic
  -- and its offset, and with the data of its payload.
  abbrev pub AreGiven : List WireItem → List (WorkflowStreamItem A) → Type 0
  AreGiven [] [] = Unit
  AreGiven (w ∷ wires) (i ∷ items) =
      (i.topic ≡ w.topic)
      × (i.offset ≡ w.offset)
      × ((p : P) × (c.decode w.payload ≡ some p) × (from_payload p ≡ some i.payload))
      × AreGiven wires items
  AreGiven [] (_ ∷ _) = ⊥
  AreGiven (_ ∷ _) [] = ⊥

  -- The item raises this: it is no encoding of a payload, or the payload does not convert.
  abbrev pub Fails : WireItem → StreamError → Type 0
  Fails w e =
      ((e ≡ decode_error) × (c.decode w.payload ≡ none))
      ⊎ ((e ≡ convert_error) × (p : P) × (c.decode w.payload ≡ some p) × (from_payload p ≡ none))

  -- All items were given, or those before the first that raises.
  abbrev Yields : List WireItem → List (WorkflowStreamItem A) × Option StreamError → Type 0
  Yields wires (given, none) = AreGiven wires given
  Yields wires (given, some e) =
      (before after : List WireItem) × (bad : WireItem) × (wires ≡ before ++ (bad ∷ after))
      × AreGiven before given
      × Fails bad e

  Yields-cons :
      (w : WireItem) (wires : List WireItem) (p : P) (a : A)
      (out : List (WorkflowStreamItem A) × Option StreamError)
      → c.decode w.payload ≡ some p
      → from_payload p ≡ some a
      → Yields wires out
      → Yields
          (w ∷ wires)
          (record { topic = w.topic; payload = a; offset = w.offset } ∷ out.0, out.1)
  Yields-cons w wires p a (given, none) d f h = (refl, refl, (p, d, f), h)
  Yields-cons w wires p a (given, some e) d f (before, after, bad, split, h, fails) =
      (w ∷ before, after, bad, ap (λ l. w ∷ l) split, (refl, refl, (p, d, f), h), fails)

  yield_items-Yields : (wires : List WireItem) → Yields wires (yield_items c from_payload wires)
  unfolding yield_items
  yield_items-Yields [] = tt
  yield_items-Yields (w ∷ wires) =
      let rest = yield_items-Yields wires in
      elim (Option-cases (c.decode w.payload)) [
        | inl d ↦ rw (yield_items, d) ([], wires, w, refl, tt, inl (refl, d))
        | inr (p, d) ↦ elim (Option-cases (from_payload p)) [
          | inl f ↦ rw (yield_items, d, f) ([], wires, w, refl, tt, inr (refl, p, d, f))
          | inr (a, f) ↦
              rw (yield_items, d, f)
                (Yields-cons w wires p a (yield_items c from_payload wires) d f rest)
        ]
      ]

  -- An answer to a poll is yielded whole, each item with its topic, its offset and the data of its
  -- payload, and the loop goes on from the next offset of the answer; or some item is no encoding
  -- or does not convert: then exactly the items before the first such one are yielded, and its
  -- exception ends the loop.
  pub answer_yields :
      (cools has_client : Bool) (described : Option Status) (offset : ℤ) (r : PollResult)
      → ((given : List (WorkflowStreamItem A)) × AreGiven r.items given
          × (subscribe_turn c from_payload cools has_client described offset (answered r)
              ≡ polls_again given (pos r.next_offset) (not r.more_ready && cools)))
        ⊎ ((given : List (WorkflowStreamItem A)) × (e : StreamError) × (before after : List
              WireItem)
            × (bad : WireItem) × (r.items ≡ before ++ (bad ∷ after))
            × AreGiven before given
            × Fails bad e
            × (subscribe_turn c from_payload cools has_client described offset (answered r)
                ≡ raises_after given e))
  unfolding subscribe_turn
  answer_yields cools has_client described offset r =
      let out = yield_items c from_payload r.items in
      let yields = yield_items-Yields r.items in
      elim (Option-cases out.1) [
        | inl n ↦
            inl
              (out.0, subst (λ o. Yields r.items (out.0, o)) n yields, rw (subscribe_turn, n) refl)
        | inr (e, raised) ↦
            let (before, after, bad, split, given, fails) =
              subst (λ o. Yields r.items (out.0, o)) raised yields in
            inr
              (out.0, e, before, after, bad, split, given, fails, rw (subscribe_turn, raised) refl)
      ]
