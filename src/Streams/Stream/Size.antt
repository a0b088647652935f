-- ===== src/Streams/Stream/Size.antt =====
-- The cap on the size of an answer to a poll, in _stream.py.
use sdk_python.Prelude.{
  ℕ, zero, suc, ◌+◌, ◌≤◌, ◌≡◌, refl, ap, Bool, true, false, ◌&&◌, List, [], ◌∷◌, map, take, drop,
  ltb, arith, Bool-cases, inl, inr, ◌⊎◌, ◌∙◌, String, Option, none, some,
}
use sdk_python.Streams.Types.{Codec, WorkflowStreamItem, WireItem}
use sdk_python.Streams.Stream.{
  WorkflowStream, candidates, payload_wire_size, wire_item, fill_response, page_result, respond,
  max_poll_response_bytes,
}

-- One more item in front: it was sent because it fits, or because it is the first.
grown :
    (size sz w n : ℕ) (started : Bool)
    → (ltb max_poll_response_bytes (size + sz) && started) ≡ false
    → (n ≡ 0 → w ≡ 0)
    → (n ≡ 0) ⊎ ((true ≡ false) × (n ≡ 1)) ⊎ (size + sz + w ≤ max_poll_response_bytes)
    → ((started ≡ false) × (suc n ≡ 1)) ⊎ (size + (sz + w) ≤ max_poll_response_bytes)
grown size sz w n true room empty (inl z) = inr (ground (arith, empty z))
grown size sz w n false room empty (inl z) = inl (refl, omega arith)
grown size sz w n started room empty (inr (inl h)) = cc
grown size sz w n started room empty (inr (inr h)) = inr (omega arith)

module _ {P : Type 0} (c : Codec P) where
  -- The size that the stream counts for these items.
  unfoldable pub wire_bytes : List (ℕ × WorkflowStreamItem P) → ℕ
  wire_bytes [] = 0
  wire_bytes ((off, item) ∷ rest) = payload_wire_size c item.payload item.topic + wire_bytes rest

  wire_bytes-take_none :
      (n : ℕ) (cands : List (ℕ × WorkflowStreamItem P)) → n ≡ 0 → wire_bytes (take n cands) ≡ 0
  unfolding wire_bytes
  wire_bytes-take_none zero cands h = refl
  wire_bytes-take_none (suc n) cands h = absurd (omega arith)

  -- The loop sends a first part of the candidates, which fits beside what was sent before; only
  -- the first item of all goes out whatever its size.
  Fits : ℕ → Bool → List (ℕ × WorkflowStreamItem P) → List WireItem → Type 0
  Fits size started cands sent =
      (n : ℕ) × (sent ≡ map (wire_item c) (take n cands))
      × ((n ≡ 0)
          ⊎ ((started ≡ false) × (n ≡ 1))
          ⊎ (size + wire_bytes (take n cands) ≤ max_poll_response_bytes))

  fill_response-Fits :
      (size : ℕ) (started : Bool) (cands : List (ℕ × WorkflowStreamItem P))
      → Fits size started cands (fill_response c size started cands).0
  unfolding fill_response wire_bytes Fits
  fill_response-Fits size started [] = (0, refl, inl refl)
  fill_response-Fits size started ((off, item) ∷ rest) =
      let sz = payload_wire_size c item.payload item.topic in
      elim (Bool-cases (ltb max_poll_response_bytes (size + sz) && started)) [
        | inl cut ↦ rw cut (0, refl, inl refl)
        | inr room ↦
            let (n, e, fit) = fill_response-Fits (size + sz) true rest in
            rw room (
              suc n,
              ap (λ l. wire_item c (off, item) ∷ l) e,
              inr (grown size sz _ n started room (wire_bytes-take_none n rest) fit),
            )
      ]

  items-page_result :
      (s : WorkflowStream P) (sent : List WireItem) (o : Option ℕ)
      → (page_result c s sent o).items ≡ sent
  unfolding page_result
  items-page_result s sent none = refl
  items-page_result s sent (some o) = refl

  -- The candidates that a poll looks through.
  abbrev pub poll_candidates : List String → ℕ → WorkflowStream P → List (ℕ × WorkflowStreamItem P)
  poll_candidates topics log_offset s =
      candidates topics (s.base_offset + log_offset) (drop log_offset s.log)

  -- An answer holds the first `n` of the candidates, for some `n`, and these count for at most
  -- `max_poll_response_bytes`, or are one item alone.
  pub respond_capped :
      (topics : List String) (log_offset : ℕ) (s : WorkflowStream P)
      → (n : ℕ) × ((respond c topics log_offset s).items
          ≡ map (wire_item c) (take n (poll_candidates topics log_offset s)))
        × ((n ≤ 1)
            ⊎ (wire_bytes (take n (poll_candidates topics log_offset s)) ≤ max_poll_response_bytes))
  unfolding respond Fits
  respond_capped topics log_offset s =
      let cands = poll_candidates topics log_offset s in
      let (n, e, fit) = fill_response-Fits 0 false cands in
      (n, items-page_result s _ _ ∙ e, ground arith)
