-- ===== src/Streams/Subscribe/Complete.antt =====
-- What a subscriber of _client.py gets from a stream of _stream.py that goes on changing.
use sdk_python.Prelude.{
  ℕ, suc, ◌+◌, ◌-◌, ◌≤◌, ◌≡◌, refl, sym, ap, ◌∙◌, String, Bool, true, false, Option, none, some,
  List, [], ◌∷◌, ◌++◌, append-nil, append_assoc, length, drop, drop-append, drop-drop,
  length-append, length-drop, arith, Bool-cases, Option-cases, if◌then◌else◌, inl, inr, string_eq,
}
use sdk_python.Prelude.Int.{ℤ, pos}
use sdk_python.Prelude.Result.{ok}
use sdk_python.Streams.Types.{
  Codec, IsLawful, WorkflowStreamItem, WireItem, PollInput, PollResult, stream_draining_error_type,
}
use sdk_python.Streams.Stream.{
  WorkflowStream, on_poll, on_offset, validate_poll, poll_ready, respond,
}
use sdk_python.Streams.Stream.Log.{Op, run_ops, run_ops_rule}
use sdk_python.Streams.Stream.Poll.{
  available, concerns, wire_from, finish_poll-held, IsPage, on_poll-IsPage,
}
use sdk_python.Streams.Subscribe.{
  update_failed, polls_again, returns, reraises, raises_after, yield_items, subscribe_turn,
  poll_stream,
}

module _ {P : Type 0} where
  -- From the offsets that `t` still holds, `t` has what `s` had, and then the same `extra` items.
  record Tail (s t : WorkflowStream P) : Type 0 where
    extra : List (WorkflowStreamItem P)
    tail :
        (n : ℕ)
        → t.base_offset ≤ n
        → n ≤ on_offset s
        → drop (n - t.base_offset) t.log ≡ drop (n - s.base_offset) s.log ++ extra
    base : s.base_offset ≤ t.base_offset
    end : on_offset s ≤ on_offset t

  Tail-append :
      (s t : WorkflowStream P) (items : List (WorkflowStreamItem P))
      → t.base_offset ≡ s.base_offset
      → t.log ≡ s.log ++ items
      → Tail s t
  unfolding on_offset
  Tail-append s t items b l = record {
    extra = items;
    tail = λ n low high. rw (b, l) (drop-append (n - s.base_offset) s.log items (omega arith));
    base = omega arith;
    end = rw (b, l) (omega (arith, length-append s.log items));
  }

  Tail-drop :
      (k : ℕ) (s : WorkflowStream P)
      → k ≤ length s.log
      → Tail s (record s { log = drop k s.log; base_offset = s.base_offset + k })
  unfolding on_offset
  Tail-drop k s h = record {
    extra = [];
    tail = λ n low high.
        drop-drop (n - (s.base_offset + k)) k s.log
        ∙ ap (λ (i : ℕ). drop i s.log) (omega arith)
        ∙ sym (append-nil _);
    base = omega arith;
    end = omega (arith, length-drop k s.log);
  }

  Tail-trans : (s t u : WorkflowStream P) → Tail s t → Tail t u → Tail s u
  Tail-trans s t u h k = record {
    extra = h.extra ++ k.extra;
    tail = λ n low high.
        k.tail n low (omega (arith, h.end, k.base))
        ∙ ap (λ l. l ++ k.extra) (h.tail n (omega (arith, k.base)) high)
        ∙ append_assoc _ h.extra k.extra;
    base = omega (arith, h.base, k.base);
    end = omega (arith, h.end, k.end);
  }

module _ {P A : Type 0} (read : P → A) (topics : List String) where
  -- What a subscriber is to get, where `items` stand from the offset `off` on: the items of its
  -- topics, each with its data and its own offset.
  unfoldable pub data_from : ℕ → List (WorkflowStreamItem P) → List (WorkflowStreamItem A)
  unfolding concerns
  data_from off [] = []
  data_from off (item ∷ items) =
      let rest = data_from (suc off) items in
      if concerns topics item.topic
      then record { topic = item.topic; payload = read item.payload; offset = off } ∷ rest
      else rest

  -- The whole stream from an offset that is not truncated.
  unfoldable pub data_available : ℕ → WorkflowStream P → List (WorkflowStreamItem A)
  unfolding data_from
  data_available off s = data_from off (drop (off - s.base_offset) s.log)

  data_from-append :
      (off : ℕ) (xs ys : List (WorkflowStreamItem P))
      → data_from off (xs ++ ys) ≡ data_from off xs ++ data_from (off + length xs) ys
  unfolding data_from
  data_from-append off [] ys = ap (λ (o : ℕ). data_from o ys) (omega arith)
  data_from-append off (x ∷ xs) ys =
      let shift : data_from (suc off + length xs) ys ≡ data_from (off + suc (length xs)) ys =
        ap (λ (o : ℕ). data_from o ys) (omega arith) in
      ground (arith, data_from-append (suc off) xs ys)

  data_available-Tail :
      (n : ℕ) (s t : WorkflowStream P) (h : Tail s t)
      → t.base_offset ≤ n
      → n ≤ on_offset s
      → data_available n t ≡ data_available n s ++ data_from (on_offset s) h.extra
  unfolding data_available on_offset
  data_available-Tail n s t h low high =
      ap (data_from n) (h.tail n low high)
      ∙ data_from-append n (drop (n - s.base_offset) s.log) h.extra
      ∙ ap (λ (o : ℕ). data_from n (drop (n - s.base_offset) s.log) ++ data_from o h.extra)
          (omega (arith, length-drop (n - s.base_offset) s.log, h.base))

  -- A page of `s` is a page of what comes after it.
  split-Tail :
      (n m : ℕ) (s t : WorkflowStream P) (sent : List (WorkflowStreamItem A))
      → Tail s t
      → t.base_offset ≤ n
      → n ≤ m
      → m ≤ on_offset s
      → data_available n s ≡ sent ++ data_available m s
      → data_available n t ≡ sent ++ data_available m t
  split-Tail n m s t sent h low le high e =
      data_available-Tail n s t h low (omega arith)
      ∙ ap (λ l. l ++ data_from (on_offset s) h.extra) e
      ∙ append_assoc sent (data_available m s) _
      ∙ ap (λ l. sent ++ l) (sym (data_available-Tail m s t h (omega arith) high))

-- Each payload is decoded to what was encoded, and gives its data.
module _ {P A : Type 0} (c : Codec P) (from_payload : P → Option A) (read : P → A)
    (lawful : IsLawful c) (reads : (p : P) → from_payload p ≡ some (read p)) where
  yield_items-wire_from :
      (topics : List String) (off : ℕ) (items : List (WorkflowStreamItem P))
      → yield_items c from_payload (wire_from c topics off items)
        ≡ (data_from read topics off items, none)
  unfolding yield_items wire_from data_from
  yield_items-wire_from topics off [] = refl
  yield_items-wire_from topics off (item ∷ items) = elim (Bool-cases (concerns topics item.topic)) [
    | inl w ↦
        rw (w, yield_items, lawful item.payload, reads item.payload)
          (rw (yield_items-wire_from topics (suc off) items) refl)
    | inr w ↦ rw w (yield_items-wire_from topics (suc off) items)
  ]

  -- Where the items of two lists are all yielded, so are those of the first.
  yield_items-append :
      (xs ys : List WireItem) (all rest : List (WorkflowStreamItem A))
      → yield_items c from_payload (xs ++ ys) ≡ (all, none)
      → yield_items c from_payload ys ≡ (rest, none)
      → (first : List (WorkflowStreamItem A)) × (yield_items c from_payload xs ≡ (first, none))
        × (all ≡ first ++ rest)
  unfolding yield_items
  yield_items-append [] ys all rest h k = ([], refl, sym (ap (λ r. r.0) h) ∙ ap (λ r. r.0) k)
  yield_items-append (x ∷ xs) ys all rest h k = elim (Option-cases (c.decode x.payload)) [
    | inl e ↦ absurd (ground arith)
    | inr (p, e) ↦ elim (Option-cases (from_payload p)) [
      | inl f ↦ absurd (ground arith)
      | inr (value, f) ↦
          let more = yield_items c from_payload (xs ++ ys) in
          let item : WorkflowStreamItem A = record {
            topic = x.topic;
            payload = value;
            offset = x.offset;
          } in
          let whole : more ≡ (more.0, none) = ground arith in
          let (first, e', split) = yield_items-append xs ys more.0 rest whole k in
          (item ∷ first, ground arith, ground arith)
    ]
  ]

module _ {P A : Type 0} (c : Codec P) (from_payload : P → Option A) (topics : List String)
    (cools : Bool) where
  -- The turn of a subscriber at `off` whose poll the stream treats as it now is; a poll that still
  -- waits leaves the subscriber where it is. `none`: the loop is over.
  turn_at : ℤ → WorkflowStream P → Option (List (WorkflowStreamItem A) × ℤ)
  turn_at off s = elim (poll_stream c (record { topics = topics; from_offset = off }) s) [
    | none ↦ some ([], off)
    | some outcome ↦ elim (subscribe_turn c from_payload cools false none off outcome) [
      | polls_again items off' _ ↦ some (items, off')
      | returns ↦ none
      | reraises ↦ none
      | raises_after _ _ ↦ none
    ]
  ]

  -- The loop of `subscribe`, over what happens to the stream before each of its polls.
  unfoldable pub follow :
      List (List (Op P))
      → ℤ
      → WorkflowStream P
      → Option (List (WorkflowStreamItem A) × ℤ × WorkflowStream P)
  unfolding turn_at
  follow [] off s = some ([], off, s)
  follow (ops ∷ rounds) off s =
      let t = run_ops c ops s in
      elim (turn_at off t) [
        | none ↦ none
        | some (items, off') ↦ elim (follow rounds off' t) [
          | none ↦ none
          | some (later, end, u) ↦ some (items ++ later, end, u)
        ]
      ]

  run_ops-Tail : (ops : List (Op P)) (s : WorkflowStream P) → Tail s (run_ops c ops s)
  run_ops-Tail ops s = run_ops_rule c Tail Tail-append Tail-drop Tail-trans ops s

  -- The stream once all of the rounds' operations have run.
  unfoldable pub final : List (List (Op P)) → WorkflowStream P → WorkflowStream P
  final [] s = s
  final (ops ∷ rounds) s = final rounds (run_ops c ops s)

  final-Tail : (rounds : List (List (Op P))) (s : WorkflowStream P) → Tail s (final rounds s)
  unfolding final run_ops
  final-Tail [] s = run_ops-Tail [] s
  final-Tail (ops ∷ rounds) s =
      Tail-trans s _ _ (run_ops-Tail ops s) (final-Tail rounds (run_ops c ops s))

  follow_step :
      (ops : List (Op P)) (rounds : List (List (Op P))) (off off' end : ℤ) (s u : WorkflowStream P)
      (items later : List (WorkflowStreamItem A))
      → turn_at off (run_ops c ops s) ≡ some (items, off')
      → follow rounds off' (run_ops c ops s) ≡ some (later, end, u)
      → follow (ops ∷ rounds) off s ≡ some (items ++ later, end, u)
  unfolding follow
  follow_step ops rounds off off' end s u items later turned rest = ground arith

  module _ (read : P → A) (lawful : IsLawful c)
      (reads : (p : P) → from_payload p ≡ some (read p)) where
    -- The items of a page are all yielded.
    page_data :
        (n : ℕ) (s : WorkflowStream P) (r : PollResult)
        → IsPage c topics n s r
        → (given : List (WorkflowStreamItem A)) × (yield_items c from_payload r.items
            ≡ (given, none))
          × (data_available read topics n s ≡ given ++ data_available read topics r.next_offset s)
    unfolding available data_available
    page_data n s r page =
        yield_items-append c from_payload read lawful reads r.items
          (available c topics r.next_offset s) _ _
          (ap (yield_items c from_payload) (sym page.split)
            ∙ yield_items-wire_from c from_payload read lawful reads topics n _)
          (yield_items-wire_from c from_payload read lawful reads topics r.next_offset _)

    -- At an offset that is held, a turn ends at an offset that is held.
    record Turned (n : ℕ) (s : WorkflowStream P) : Type 0 where
      items : List (WorkflowStreamItem A)
      at : ℕ
      turns : turn_at (pos n) s ≡ some (items, pos at)
      forward : n ≤ at
      within : at ≤ on_offset s
      split : data_available read topics n s ≡ items ++ data_available read topics at s

    stays :
        (n : ℕ) (s : WorkflowStream P)
        → n ≤ on_offset s
        → turn_at (pos n) s ≡ some ([], pos n)
        → Turned n s
    stays n s high e = record {
      items = [];
      at = n;
      turns = e;
      forward = omega arith;
      within = high;
      split = refl;
    }

    draining_turn :
        (off : ℤ)
        → subscribe_turn c from_payload cools false none off
            (update_failed (some stream_draining_error_type))
          ≡ polls_again [] off cools
    unfolding subscribe_turn string_eq
    draining_turn off = refl

    rejected :
        (off : ℤ) (s : WorkflowStream P)
        → s.detaching ≡ true
        → poll_stream c (record { topics = topics; from_offset = off }) s
          ≡ some (update_failed (some stream_draining_error_type))
    unfolding poll_stream validate_poll
    rejected off s d = ground arith

    abbrev poll_at : ℕ → PollInput
    poll_at n = record { topics = topics; from_offset = pos n }

    turn_at-Turned :
        (n : ℕ) (s : WorkflowStream P) → s.base_offset ≤ n → n ≤ on_offset s → Turned n s
    turn_at-Turned n s low high = elim (Bool-cases s.detaching) [
      | inl d ↦
          stays n s high
            (unfold turn_at in ground (arith, rejected (pos n) s d, draining_turn (pos n)))
      | inr d ↦ elim (Bool-cases (poll_ready (poll_at n) s)) [
        | inr waits ↦
            stays n s high
              (unfold turn_at poll_stream validate_poll on_poll subscribe_turn in ground arith)
        | inl ready ↦
            let r = respond c topics (n - s.base_offset) s in
            let answer : on_poll c (poll_at n) s ≡ some (ok r) =
              unfold on_poll in ground (arith, finish_poll-held c (poll_at n) n s refl low) in
            let page = on_poll-IsPage c (poll_at n) n s refl low high answer in
            let (given, yields, split) = page_data n s r page in
            record {
              items = given;
              at = r.next_offset;
              turns = unfold turn_at poll_stream validate_poll subscribe_turn in ground arith;
              forward = page.forward;
              within = page.within;
              split = split;
            }
      ]
    ]

    -- A subscriber that starts at `n`, an offset that the stream has and that nothing truncates, is
    -- given, whatever happens to the stream between its polls, exactly the items of its topics
    -- between `n` and its last offset, each once, in order, with its data and under its own offset:
    -- what it was given, followed by what is left for it, is all that there is from `n` on. Decoding
    -- inverts encoding, and the converter makes `read p` of each payload `p`.
    pub follow_complete :
        (rounds : List (List (Op P))) (n : ℕ) (s : WorkflowStream P)
        → (final rounds s).base_offset ≤ n
        → n ≤ on_offset s
        → (items : List (WorkflowStreamItem A)) × (at : ℕ) × (follow rounds (pos n) s
            ≡ some (items, pos at, final rounds s))
          × (at ≤ on_offset (final rounds s))
          × (data_available read topics n (final rounds s)
              ≡ items ++ data_available read topics at (final rounds s))
    unfolding follow final
    follow_complete [] n s low high = ([], n, refl, high, refl)
    follow_complete (ops ∷ rounds) n s low high =
        let t = run_ops c ops s in
        let before = run_ops-Tail ops s in
        let after = final-Tail rounds t in
        let turned = turn_at-Turned n t (omega (arith, after.base)) (omega (arith, before.end)) in
        let (items, at, e, within, rest) =
          follow_complete rounds turned.at t (omega (arith, turned.forward)) turned.within in
        (
          turned.items ++ items,
          at,
          follow_step ops rounds (pos n) (pos turned.at) (pos at) s _ turned.items items
              turned.turns e,
          within,
          split-Tail read topics n turned.at t _ turned.items after low turned.forward turned.within
                turned.split
              ∙ ap (λ l. turned.items ++ l) rest
              ∙ sym (append_assoc turned.items items _),
        )
