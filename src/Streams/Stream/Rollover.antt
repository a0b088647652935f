-- ===== src/Streams/Stream/Rollover.antt =====
-- What a stream of _stream.py takes over into the next run, by `get_state` and the constructor.
use sdk_python.Prelude.{
  ℕ, zero, suc, ◌+◌, ◌<◌, ◌≡◌, refl, true, false, some, List, [], ◌∷◌, ltb, arith, drop, All,
  All-append, Bool-cases, Option-cases, inl, inr, ◌==◌, string_eq,
}
use sdk_python.Prelude.Int.{pos, ◌-ℤ◌}
use sdk_python.Prelude.Result.{ok}
use sdk_python.Prelude.Dict.{lookup, keep_values, NodupKeys, insert-NodupKeys, lookup-keep_values}
use sdk_python.Streams.Types.{
  Codec, IsLawful, WorkflowStreamItem, PublishEntry, PublishInput, PublisherState,
}
use sdk_python.Streams.Stream.{
  WorkflowStream, decode_log, encode_log, new_stream, get_state, is_duplicate, publish_to_topic,
  append_entries, on_publish, detach_pollers, truncate,
}
use sdk_python.Streams.Stream.Log.{
  Op, publish, signal, bind_topic, detach, truncate_to, run_op, run_ops, appended,
  append_entries_state, truncate_by_rule, topic_rule,
}

module _ {P : Type 0} where
  abbrev IsPlain : List (WorkflowStreamItem P) → Type 0
  IsPlain = All (λ item. item.offset ≡ 0)

  -- Items in the log carry no offset of their own, and a publisher is known once.
  pub record IsValid (s : WorkflowStream P) : Type 0 where
    pub plain : IsPlain s.log
    pub keys : NodupKeys s.publishers

  IsPlain-drop :
      (n : ℕ) (items : List (WorkflowStreamItem P)) → IsPlain items → IsPlain (drop n items)
  IsPlain-drop zero items h = h
  IsPlain-drop (suc n) [] h = h
  IsPlain-drop (suc n) (x ∷ items) h = IsPlain-drop n items h.1

module _ {P : Type 0} (c : Codec P) where
  appended-IsPlain : (entries : List PublishEntry) → IsPlain (appended c entries)
  unfolding appended
  appended-IsPlain [] = tt
  appended-IsPlain (entry ∷ entries) = elim (Option-cases (c.decode entry.payload)) [
    | inl e ↦ rw (e, appended) tt
    | inr (p, e) ↦ rw (e, appended) (refl, appended-IsPlain entries)
  ]

  append_entries-IsValid :
      (entries : List PublishEntry) (s : WorkflowStream P)
      → IsValid s
      → IsValid (append_entries c entries s).1
  append_entries-IsValid entries s v = rw (append_entries_state c entries s) (record {
    plain =
        All-append (λ (i : WorkflowStreamItem P). i.offset ≡ 0) s.log (appended c entries) v.plain
          (appended-IsPlain entries);
    keys = v.keys;
  })

  on_publish-IsValid :
      (now : ℕ) (p : PublishInput) (s : WorkflowStream P)
      → IsValid s
      → IsValid (on_publish c now p s).1
  unfolding on_publish
  on_publish-IsValid now p s v = elim (Bool-cases (p.publisher_id == "")) [
    | inl e ↦ rw e (append_entries-IsValid p.items s v)
    | inr e ↦ rw e (elim (Bool-cases (is_duplicate p s)) [
      | inl d ↦ rw d v
      | inr d ↦ rw d (
          append_entries-IsValid p.items _ (record {
            plain = v.plain;
            keys = insert-NodupKeys p.publisher_id _ s.publishers v.keys;
          }))
    ])
  ]

  run_op-IsValid : (op : Op P) (s : WorkflowStream P) → IsValid s → IsValid (run_op c op s)
  unfolding run_op publish_to_topic detach_pollers truncate
  run_op-IsValid (publish name value) s v = record {
    plain = All-append (λ (i : WorkflowStreamItem P). i.offset ≡ 0) s.log _ v.plain (refl, tt);
    keys = v.keys;
  }
  run_op-IsValid (signal now p) s v = on_publish-IsValid now p s v
  run_op-IsValid (bind_topic name type) s v =
      topic_rule IsValid name type s (λ types. record { plain = v.plain; keys = v.keys })
  run_op-IsValid detach s v = record { plain = v.plain; keys = v.keys }
  run_op-IsValid (truncate_to off) s v =
      truncate_by_rule IsValid (off -ℤ pos s.base_offset) s v
        (λ k h. record { plain = IsPlain-drop k s.log v.plain; keys = v.keys })

  -- Every sequence of operations keeps a stream valid.
  run_ops-IsValid :
      (ops : List (Op P)) (s : WorkflowStream P) → IsValid s → IsValid (run_ops c ops s)
  unfolding run_ops
  run_ops-IsValid [] s v = v
  run_ops-IsValid (op ∷ ops) s v = run_ops-IsValid ops (run_op c op s) (run_op-IsValid op s v)

  decode_log-encode_log :
      IsLawful c
      → (items : List (WorkflowStreamItem P)) → IsPlain items
      → decode_log c (encode_log c items) ≡ some items
  unfolding decode_log encode_log
  decode_log-encode_log lawful [] h = refl
  decode_log-encode_log lawful (item ∷ items) h =
      rw (lawful item.payload, decode_log-encode_log lawful items h.1, decode_log) (ground arith)

  -- The next run starts: what the constructor makes of the snapshot of `s`.
  unfoldable pub taken_over : ℕ → ℕ → WorkflowStream P → WorkflowStream P
  taken_over now ttl s = record s {
    publishers = keep_values (λ ps. ltb now (ps.last_seen + ttl)) s.publishers;
    detaching = false;
    topic_types = [];
  }

  new_stream-get_state :
      (now ttl : ℕ) (s : WorkflowStream P)
      → IsLawful c
      → IsValid s
      → new_stream c true false (some (get_state c now ttl s)) ≡ ok (taken_over now ttl s)
  unfolding new_stream get_state taken_over
  new_stream-get_state now ttl s lawful v =
      rw (decode_log-encode_log lawful s.log v.plain, new_stream)

  -- A snapshot of a valid stream, `get_state`, gives the next run's constructor a stream with the
  -- same log at the same offsets, which takes no batch twice: a batch that was a duplicate still is
  -- one, if its publisher was last seen less than `ttl` ago.
  pub rollover :
      (now ttl : ℕ) (s : WorkflowStream P)
      → IsLawful c
      → IsValid s
      → (t : WorkflowStream P) × (new_stream c true false (some (get_state c now ttl s)) ≡ ok t)
        × (t.log ≡ s.log)
        × (t.base_offset ≡ s.base_offset)
        × ((p : PublishInput) (ps : PublisherState)
            → lookup p.publisher_id s.publishers ≡ some ps
            → now < ps.last_seen + ttl
            → is_duplicate p t ≡ is_duplicate p s)
  unfolding is_duplicate taken_over
  rollover now ttl s lawful v = (
    taken_over now ttl s,
    new_stream-get_state now ttl s lawful v,
    refl,
    refl,
    λ p ps h fresh. ground (
      arith,
      lookup-keep_values (λ (q : PublisherState). ltb now (q.last_seen + ttl)) p.publisher_id
          s.publishers v.keys,
    ),
  )
