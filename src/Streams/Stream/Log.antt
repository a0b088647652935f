-- ===== src/Streams/Stream/Log.antt =====
-- The log of _stream.py under every operation of the stream: the entries keep their offsets.
use sdk_python.Prelude.{
  ℕ, ◌+◌, ◌-◌, ◌≤◌, ◌<◌, ◌≡◌, refl, sym, ap, ◌∙◌, String, Option, none, some, List, [], ◌∷◌, ◌++◌,
  append-nil, append_assoc, length, drop, get_elem?, length-append, get_elem?-append,
  get_elem?-drop, length-drop, ltb, leb, arith, Bool-cases, Option-cases, inl, inr, ◌==◌, string_eq,
  if◌then◌else◌, if_rule,
}
use sdk_python.Prelude.Int.{ℤ, pos, negsuc, ◌-ℤ◌}
use sdk_python.Prelude.Dict.{Dict}
use sdk_python.Prelude.Result.{Result}
use sdk_python.Streams.Types.{Codec, WorkflowStreamItem, PublishEntry, PublishInput, StreamError}
use sdk_python.Streams.Stream.{
  WorkflowStream, TopicType, any, payload_type, same_type, rebinds, bind_topic_type,
  publish_to_topic, append_entries, is_duplicate, on_publish, topic, detach_pollers, truncate,
  truncate_by, on_offset,
}

-- The operations that change a stream, with their arguments.
pub data Op (P : Type 0) : Type 0 where
  publish : String → P → Op P
  signal : ℕ → PublishInput → Op P
  bind_topic : String → Option TopicType → Op P
  detach : Op P
  truncate_to : ℤ → Op P

-- The item that a stream holds at an offset.
abbrev pub entry_at : {P : Type 0} → ℕ → WorkflowStream P → Option (WorkflowStreamItem P)
entry_at off s = if ltb off s.base_offset then none else get_elem? s.log (off - s.base_offset)

module _ {P : Type 0} (c : Codec P) where
  unfoldable pub run_op : Op P → WorkflowStream P → WorkflowStream P
  run_op (publish name value) s = publish_to_topic c name value s
  run_op (signal now payload) s = (on_publish c now payload s).1
  run_op (bind_topic name type) s = (topic name type s).1
  run_op detach s = detach_pollers s
  run_op (truncate_to off) s = (truncate off s).1

  unfoldable pub run_ops : List (Op P) → WorkflowStream P → WorkflowStream P
  unfolding run_op
  run_ops [] s = s
  run_ops (op ∷ ops) s = run_ops ops (run_op op s)

-- `t` comes after `s`: offsets only grow, and what both hold at an offset is the same item.
pub record Extends {P : Type 0} (s t : WorkflowStream P) : Type 0 where
  pub base : s.base_offset ≤ t.base_offset
  pub end : on_offset s ≤ on_offset t
  pub bounded : t.base_offset ≤ on_offset t
  pub kept : (off : ℕ) → t.base_offset ≤ off → off < on_offset s → entry_at off t ≡ entry_at off s

module _ {P : Type 0} where
  Extends-trans : (s t u : WorkflowStream P) → Extends s t → Extends t u → Extends s u
  Extends-trans s t u h k = record {
    base = omega arith;
    end = omega arith;
    bounded = k.bounded;
    kept = λ off low high. k.kept off low (omega arith) ∙ h.kept off (omega arith) high;
  }

  -- More items at the end, whatever else changes.
  Extends-append :
      (s t : WorkflowStream P) (items : List (WorkflowStreamItem P))
      → t.base_offset ≡ s.base_offset
      → t.log ≡ s.log ++ items
      → Extends s t
  unfolding on_offset
  Extends-append s t items b l = record {
    base = omega arith;
    end = rw (b, l) (omega (arith, length-append s.log items));
    bounded = omega arith;
    kept = λ off low high.
        rw (b, l) (ground (arith, get_elem?-append s.log items (off - s.base_offset)));
  }

  Extends-drop :
      (k : ℕ) (s : WorkflowStream P)
      → k ≤ length s.log
      → Extends s (record s { log = drop k s.log; base_offset = s.base_offset + k })
  unfolding on_offset
  Extends-drop k s h = record {
    base = omega arith;
    end = omega (arith, length-drop k s.log);
    bounded = omega arith;
    kept = λ off low high.
        let at : get_elem? (drop k s.log) (off - (s.base_offset + k))
            ≡ get_elem? s.log (off - s.base_offset) =
          get_elem?-drop k (off - (s.base_offset + k)) s.log ∙ ap (get_elem? s.log) (omega arith) in
        ground arith;
  }

  -- Truncation leaves the stream as it is, or drops entries that it holds.
  pub truncate_by_rule {ℓ} :
      (Q : WorkflowStream P → Type ℓ) (d : ℤ) (s : WorkflowStream P)
      → Q s
      → ((k : ℕ)
          → k ≤ length s.log
          → Q (record s { log = drop k s.log; base_offset = s.base_offset + k }))
      → Q (truncate_by d s).1
  unfolding truncate_by
  truncate_by_rule Q (negsuc _) s same cut = same
  truncate_by_rule Q (pos k) s same cut = elim (Bool-cases (leb k 0)) [
    | inl z ↦ rw z same
    | inr z ↦ rw z (elim (Bool-cases (ltb (length s.log) k)) [
      | inl far ↦ rw far same
      | inr near ↦ rw near (cut k (ground arith))
    ])
  ]

  bind_topic_type_rule {ℓ} :
      (Q : WorkflowStream P → Type ℓ) (name : String) (type : TopicType) (s : WorkflowStream P)
      → ((types : Dict String TopicType) → Q (record s { topic_types = types }))
      → Q (bind_topic_type name type s).1
  unfolding bind_topic_type
  bind_topic_type_rule Q name type s h = elim (Bool-cases (same_type type payload_type)) [
    | inl p ↦ rw p (h s.topic_types)
    | inr p ↦ rw p (elim (Bool-cases (rebinds name type s)) [
      | inl r ↦ rw r (h s.topic_types)
      | inr r ↦ rw r (h _)
    ])
  ]

  -- Binding a topic changes no more than the table of the topics' types.
  pub topic_rule {ℓ} :
      (Q : WorkflowStream P → Type ℓ) (name : String) (type : Option TopicType)
      (s : WorkflowStream P)
      → ((types : Dict String TopicType) → Q (record s { topic_types = types }))
      → Q (topic name type s).1
  unfolding topic
  topic_rule Q name none s h = bind_topic_type_rule Q name any s h
  topic_rule Q name (some type) s h = bind_topic_type_rule Q name type s h

module _ {P : Type 0} (c : Codec P) where
  -- What a batch adds to the log: all of its entries, or those before the first that does not
  -- decode.
  unfoldable pub appended : List PublishEntry → List (WorkflowStreamItem P)
  appended [] = []
  appended (entry ∷ entries) =
      let rest = appended entries in
      elim (c.decode entry.payload) [
        | none ↦ []
        | some p ↦ record { topic = entry.topic; payload = p; offset = 0 } ∷ rest
      ]

  pub append_entries_state :
      (entries : List PublishEntry) (s : WorkflowStream P)
      → (append_entries c entries s).1 ≡ record s { log = s.log ++ appended entries }
  unfolding append_entries appended
  append_entries_state [] s = ap (λ l. record s { log = l }) (sym (append-nil s.log))
  append_entries_state (entry ∷ entries) s = elim (Option-cases (c.decode entry.payload)) [
    | inl e ↦
        rw (e, append_entries, appended) (ap (λ l. record s { log = l }) (sym (append-nil s.log)))
    | inr (p, e) ↦
        rw (e, append_entries, appended)
          (append_entries_state entries _
            ∙ ap (λ l. record s { log = l })
                (append_assoc s.log (record { topic = entry.topic; payload = p; offset = 0 } ∷ [])
                  (appended entries)))
  ]

  -- Every operation adds items at the end of the log, or drops some at its start: a relation that
  -- both keep holds of every operation.
  module _ {ℓ} (R : WorkflowStream P → WorkflowStream P → Type ℓ)
      (append : (s t : WorkflowStream P) (items : List (WorkflowStreamItem P))
        → t.base_offset ≡ s.base_offset
        → t.log ≡ s.log ++ items
        → R s t)
      (cut : (k : ℕ) (s : WorkflowStream P)
        → k ≤ length s.log
        → R s (record s { log = drop k s.log; base_offset = s.base_offset + k })) where
    same : (s t : WorkflowStream P) → t.base_offset ≡ s.base_offset → t.log ≡ s.log → R s t
    same s t b l = append s t [] b (l ∙ sym (append-nil s.log))

    append_entries_rule :
        (entries : List PublishEntry) (s t : WorkflowStream P)
        → t.base_offset ≡ s.base_offset
        → t.log ≡ s.log
        → R s (append_entries c entries t).1
    append_entries_rule entries s t b l =
        rw (append_entries_state entries t)
          (append s _ (appended entries) b (ap (λ log. log ++ appended entries) l))

    abbrev Leaves : WorkflowStream P → Result StreamError (Unit {0}) × WorkflowStream P → Type ℓ
    Leaves s r = R s r.1

    on_publish_rule :
        (now : ℕ) (payload : PublishInput) (s : WorkflowStream P)
        → R s (on_publish c now payload s).1
    unfolding on_publish
    on_publish_rule now payload s =
        if_rule (Leaves s) (payload.publisher_id == "") _ _
          (append_entries_rule payload.items s s refl refl)
          (if_rule (Leaves s) (is_duplicate payload s) _ _ (same s s refl refl)
            (append_entries_rule payload.items s _ refl refl))

    pub run_op_rule : (op : Op P) (s : WorkflowStream P) → R s (run_op c op s)
    unfolding run_op publish_to_topic truncate detach_pollers
    run_op_rule (publish name value) s = append s _ _ refl refl
    run_op_rule (signal now payload) s = on_publish_rule now payload s
    run_op_rule (bind_topic name type) s =
        topic_rule (R s) name type s (λ types. same s _ refl refl)
    run_op_rule detach s = same s _ refl refl
    run_op_rule (truncate_to off) s =
        truncate_by_rule (R s) (off -ℤ pos s.base_offset) s (same s s refl refl) (λ k h. cut k s h)

    pub run_ops_rule :
        ((s t u : WorkflowStream P) → R s t → R t u → R s u)
        → (ops : List (Op P)) (s : WorkflowStream P) → R s (run_ops c ops s)
    unfolding run_ops
    run_ops_rule trans [] s = same s s refl refl
    run_ops_rule trans (op ∷ ops) s =
        trans s _ _ (run_op_rule op s) (run_ops_rule trans ops (run_op c op s))

  -- Whatever operations follow, in whatever order and whether they raise or not: no offset falls,
  -- and an offset that is still held names the item that it named before.
  pub Extends-run_ops : (ops : List (Op P)) (s : WorkflowStream P) → Extends s (run_ops c ops s)
  Extends-run_ops ops s = run_ops_rule Extends Extends-append Extends-drop Extends-trans ops s
