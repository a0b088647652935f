-- ===== src/Streams/Stream/Poll.antt =====
-- The answer to a poll of _stream.py: what a page holds, and where the next one goes on.
use sdk_python.Prelude.{
  ℕ, suc, ◌+◌, ◌-◌, ◌≤◌, ◌<◌, ◌≡◌, refl, ap, sym, subst, ◌∙◌, String, Bool, true, false, ◌&&◌, ◌==◌,
  string_eq, contains, if◌then◌else◌, Option, none, some, List, [], ◌∷◌, ◌++◌, append-nil, length,
  drop, drop-drop, drop-length, length-drop, ltb, arith, Bool-cases, inl, inr,
}
use sdk_python.Prelude.Int.{pos}
use sdk_python.Prelude.Result.{ok}
use sdk_python.Streams.Types.{Codec, WorkflowStreamItem, WireItem, PollInput, PollResult}
use sdk_python.Streams.Stream.{
  WorkflowStream, candidates, wanted, payload_wire_size, wire_item, fill_response, page_result,
  respond, finish_poll, on_poll, on_offset, max_poll_response_bytes,
}

is_among : List String → String → Bool
is_among [] topic = false
is_among (t ∷ topics) topic = let rest = is_among topics topic in if t == topic then true else rest

-- Whether an item of this topic is for a subscriber to `topics`: none of them stands for all.
unfoldable pub concerns : List String → String → Bool
unfolding is_among
concerns [] topic = true
concerns (t ∷ topics) topic = is_among (t ∷ topics) topic

contains-is_among :
    (topics : List String) (topic : String) → contains topics topic ≡ is_among topics topic
unfolding contains is_among
contains-is_among [] topic = refl
contains-is_among (t ∷ topics) topic = ground (arith, contains-is_among topics topic)

wanted-concerns :
    (topics : List String) (topic : String) → concerns topics topic ≡ wanted topics topic
unfolding wanted concerns
wanted-concerns [] topic = refl
wanted-concerns (t ∷ topics) topic = sym (contains-is_among (t ∷ topics) topic)

module _ {P : Type 0} (c : Codec P) where
  -- What a subscriber to `topics` is still to get, where `items` stand from the offset `off` on.
  unfoldable pub wire_from : List String → ℕ → List (WorkflowStreamItem P) → List WireItem
  wire_from topics off [] = []
  wire_from topics off (item ∷ items) =
      let rest = wire_from topics (suc off) items in
      if concerns topics item.topic
      then record { topic = item.topic; payload = c.encode item.payload; offset = off } ∷ rest
      else rest

  -- The whole stream from an offset that is not truncated.
  unfoldable pub available : List String → ℕ → WorkflowStream P → List WireItem
  unfolding wire_from
  available topics off s = wire_from topics off (drop (off - s.base_offset) s.log)

  -- How a page ends: with everything sent, or at an item `k` further on, from which the rest
  -- follows; not at the first item unless something was sent before.
  abbrev Split :
      List String → ℕ → List (WorkflowStreamItem P) → Bool → List WireItem → Option ℕ → Type 0
  Split topics off items started sent none = wire_from topics off items ≡ sent
  Split topics off items started sent (some o) =
      (k : ℕ) × (o ≡ off + k)
      × (k < length items)
      × (started ≡ false → 0 < k)
      × (wire_from topics off items ≡ sent ++ wire_from topics o (drop k items))

  module _ (topics : List String) (off : ℕ) (item : WorkflowStreamItem P)
      (items : List (WorkflowStreamItem P)) (started : Bool) (sent : List WireItem) where
    Split-skip :
        (o : Option ℕ)
        → concerns topics item.topic ≡ false
        → Split topics (suc off) items started sent o
        → Split topics off (item ∷ items) started sent o
    unfolding wire_from wire_item
    Split-skip none w h = rw w h
    Split-skip (some o) w (k, e, lt, fresh, eq) =
        (suc k, omega arith, omega arith, λ _. omega arith, rw w eq)

    Split-take :
        (o : Option ℕ)
        → concerns topics item.topic ≡ true
        → Split topics (suc off) items true sent o
        → Split topics off (item ∷ items) started (wire_item c (off, item) ∷ sent) o
    unfolding wire_from wire_item
    Split-take none w h = rw w (ap (λ l. wire_item c (off, item) ∷ l) h)
    Split-take (some o) w (k, e, lt, fresh, eq) = (
      suc k,
      omega arith,
      omega arith,
      λ _. omega arith,
      rw w (ap (λ l. wire_item c (off, item) ∷ l) eq),
    )

  fill_response-Split :
      (topics : List String) (off : ℕ) (items : List (WorkflowStreamItem P)) (size : ℕ)
      (started : Bool)
      → let page = fill_response c size started (candidates topics off items) in
        Split topics off items started page.0 page.1
  unfolding wire_from fill_response candidates
  fill_response-Split topics off [] size started = refl
  fill_response-Split topics off (item ∷ items) size started =
      elim (Bool-cases (wanted topics item.topic)) [
        | inl w ↦
            let sz = size + payload_wire_size c item.payload item.topic in
            rw w (elim (Bool-cases (ltb max_poll_response_bytes sz && started)) [
              | inl cut ↦ rw cut (0, omega arith, omega arith, λ fresh. ground arith, refl)
              | inr room ↦ rw room (
                  Split-take topics off item items started _ _
                    (wanted-concerns topics item.topic ∙ w)
                    (fill_response-Split topics (suc off) items sz true))
            ])
        | inr w ↦ rw w (
            Split-skip topics off item items started _ _ (wanted-concerns topics item.topic ∙ w)
              (fill_response-Split topics (suc off) items size started))
      ]

  -- The rest of the rest is the rest from the later offset.
  available-later :
      (topics : List String) (k j o : ℕ) (s : WorkflowStream P)
      → o ≡ s.base_offset + k + j
      → wire_from topics o (drop j (drop k s.log)) ≡ available topics o s
  unfolding available
  available-later topics k j o s e =
      ap (wire_from topics o) (drop-drop j k s.log ∙ ap (λ (n : ℕ). drop n s.log) (omega arith))

  -- What a page promises to a subscriber at `off`.
  pub record IsPage (topics : List String) (off : ℕ) (s : WorkflowStream P) (r : PollResult)
      : Type 0 where
    pub split : available topics off s ≡ r.items ++ available topics r.next_offset s
    pub forward : off ≤ r.next_offset
    pub within : r.next_offset ≤ on_offset s
    pub progress : r.more_ready ≡ true → off < r.next_offset
    pub caught_up : r.more_ready ≡ false → r.next_offset ≡ on_offset s

  available-end :
      (topics : List String) (s : WorkflowStream P)
      → available topics (s.base_offset + length s.log) s ≡ []
  unfolding available wire_from candidates
  available-end topics s = rw (
    ap (λ (n : ℕ). drop n s.log) {x = s.base_offset + length s.log - s.base_offset}
        {y = length s.log} (omega arith),
    drop-length s.log,
  )

  available-from :
      (topics : List String) (k : ℕ) (s : WorkflowStream P)
      → available topics (s.base_offset + k) s ≡ wire_from topics (s.base_offset + k) (drop k s.log)
  unfolding available
  available-from topics k s =
      ap (λ (n : ℕ). wire_from topics (s.base_offset + k) (drop n s.log)) (omega arith)

  page_result-IsPage :
      (topics : List String) (k : ℕ) (s : WorkflowStream P) (sent : List WireItem) (o : Option ℕ)
      → k ≤ length s.log
      → Split topics (s.base_offset + k) (drop k s.log) false sent o
      → IsPage topics (s.base_offset + k) s (page_result c s sent o)
  unfolding page_result on_offset
  page_result-IsPage topics k s sent none h eq = record {
    split = available-from topics k s ∙ eq ∙ rw (available-end topics s) (sym (append-nil sent));
    forward = omega arith;
    within = omega arith;
    progress = λ e. cc;
    caught_up = λ _. refl;
  }
  page_result-IsPage topics k s sent (some o) h (j, e, lt, fresh, eq) = record {
    split =
        available-from topics k s
        ∙ eq
        ∙ ap (λ rest. sent ++ rest) (available-later topics k j o s e);
    forward = omega arith;
    within = omega (arith, length-drop k s.log);
    progress = λ _. omega (arith, fresh refl);
    caught_up = λ f. cc;
  }

  respond-IsPage :
      (topics : List String) (k : ℕ) (s : WorkflowStream P)
      → k ≤ length s.log
      → IsPage topics (s.base_offset + k) s (respond c topics k s)
  unfolding respond
  respond-IsPage topics k s h =
      page_result-IsPage topics k s _ _ h
        (fill_response-Split topics (s.base_offset + k) (drop k s.log) 0 false)

  pub finish_poll-held :
      (payload : PollInput) (off : ℕ) (s : WorkflowStream P)
      → payload.from_offset ≡ pos off
      → s.base_offset ≤ off
      → finish_poll c payload s ≡ ok (respond c payload.topics (off - s.base_offset) s)
  unfolding finish_poll
  finish_poll-held payload off s e low = rw e (ground arith)

  -- A poll from an offset that is still held, however it came to return, answers with a page: its
  -- items, followed by what a poll from `next_offset` is to get, are what there is to get.
  pub on_poll-IsPage :
      (payload : PollInput) (off : ℕ) (s : WorkflowStream P) {r : PollResult}
      → payload.from_offset ≡ pos off
      → s.base_offset ≤ off
      → off ≤ on_offset s
      → on_poll c payload s ≡ some (ok r)
      → IsPage payload.topics off s r
  unfolding on_poll on_offset
  on_poll-IsPage payload off s {r} e low high h =
      let answer : respond c payload.topics (off - s.base_offset) s ≡ r =
        ground (arith, finish_poll-held payload off s e low) in
      subst (λ x. IsPage payload.topics off s x) answer
        (subst
          (λ (n : ℕ). IsPage payload.topics n s (respond c payload.topics (off - s.base_offset) s))
          (omega arith) (respond-IsPage payload.topics (off - s.base_offset) s (omega arith)))
