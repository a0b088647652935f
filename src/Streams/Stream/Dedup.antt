-- ===== src/Streams/Stream/Dedup.antt =====
-- The deduplication of publishers' batches in _stream.py.
use sdk_python.Prelude.{
  ℕ, ◌≡◌, refl, ap, ◌≢◌, true, List, [], ◌∷◌, arith, Bool-cases, inl, inr, ◌==◌, string_eq,
  if◌then◌else◌,
}
use sdk_python.Prelude.Int.{ℤ, pos, negsuc, ◌-ℤ◌}
use sdk_python.Prelude.Result.{ok}
use sdk_python.Prelude.Dict.{insert, lookup-insert}
use sdk_python.Streams.Types.{Codec, PublishEntry, PublishInput}
use sdk_python.Streams.Stream.{
  WorkflowStream, publish_to_topic, append_entries, is_duplicate, on_publish, topic, detach_pollers,
  truncate, truncate_by,
}
use sdk_python.Streams.Stream.Log.{
  Op, publish, signal, bind_topic, detach, truncate_to, run_op, run_ops, append_entries_state,
}

publishers-truncate_by :
    {P : Type 0} (d : ℤ) (s : WorkflowStream P) → (truncate_by d s).1.publishers ≡ s.publishers
unfolding truncate_by
publishers-truncate_by (negsuc _) s = refl
publishers-truncate_by (pos k) s = ground arith

module _ {P : Type 0} (c : Codec P) where
  -- Only a batch changes what is known of the publishers.
  pub publishers-append_entries :
      (entries : List PublishEntry) (s : WorkflowStream P)
      → (append_entries c entries s).1.publishers ≡ s.publishers
  publishers-append_entries entries s =
      ap (λ (t : WorkflowStream P). t.publishers) (append_entries_state c entries s)

  pub publishers-on_publish :
      (now : ℕ) (payload : PublishInput) (s : WorkflowStream P)
      → (on_publish c now payload s).1.publishers ≡ (
          if payload.publisher_id == ""
          then s.publishers
          else if is_duplicate payload s
          then s.publishers
          else insert payload.publisher_id
              (record { sequence = payload.sequence; last_seen = now })
              s.publishers)
  unfolding on_publish
  publishers-on_publish now payload s = elim (Bool-cases (payload.publisher_id == "")) [
    | inl e ↦ rw e (publishers-append_entries payload.items s)
    | inr e ↦ rw e (elim (Bool-cases (is_duplicate payload s)) [
      | inl d ↦ rw d
      | inr d ↦ rw d (publishers-append_entries payload.items _)
    ])
  ]

  -- A batch that was taken in is a duplicate from then on.
  is_duplicate-on_publish_self :
      (now : ℕ) (payload : PublishInput) (s : WorkflowStream P)
      → payload.publisher_id ≢ ""
      → is_duplicate payload (on_publish c now payload s).1 ≡ true
  unfolding is_duplicate
  is_duplicate-on_publish_self now payload s h = ground (
    arith,
    publishers-on_publish now payload s,
    lookup-insert payload.publisher_id payload.publisher_id
        (record { sequence = payload.sequence; last_seen = now }) s.publishers,
  )

  -- No batch makes the stream forget another.
  is_duplicate-on_publish :
      (now : ℕ) (p payload : PublishInput) (s : WorkflowStream P)
      → is_duplicate p s ≡ true
      → is_duplicate p (on_publish c now payload s).1 ≡ true
  unfolding is_duplicate
  is_duplicate-on_publish now p payload s h = ground (
    arith,
    publishers-on_publish now payload s,
    lookup-insert p.publisher_id payload.publisher_id
        (record { sequence = payload.sequence; last_seen = now }) s.publishers,
  )

  is_duplicate-run_op :
      (p : PublishInput) (op : Op P) (s : WorkflowStream P)
      → is_duplicate p s ≡ true
      → is_duplicate p (run_op c op s) ≡ true
  unfolding run_op
  is_duplicate-run_op p (signal now payload) s h = is_duplicate-on_publish now p payload s h
  is_duplicate-run_op p (publish name value) s h = unfold publish_to_topic is_duplicate in h
  is_duplicate-run_op p (bind_topic name type) s h = unfold topic is_duplicate in ground arith
  is_duplicate-run_op p detach s h = unfold detach_pollers is_duplicate in h
  is_duplicate-run_op p (truncate_to off) s h =
      unfold truncate is_duplicate in
      ground (arith, publishers-truncate_by (off -ℤ pos s.base_offset) s)

  is_duplicate-run_ops :
      (p : PublishInput) (ops : List (Op P)) (s : WorkflowStream P)
      → is_duplicate p s ≡ true
      → is_duplicate p (run_ops c ops s) ≡ true
  unfolding run_ops
  is_duplicate-run_ops p [] s h = h
  is_duplicate-run_ops p (op ∷ ops) s h =
      is_duplicate-run_ops p ops (run_op c op s) (is_duplicate-run_op p op s h)

  pub on_publish_duplicate :
      (now : ℕ) (p : PublishInput) (s : WorkflowStream P)
      → p.publisher_id ≢ ""
      → is_duplicate p s ≡ true
      → on_publish c now p s ≡ (ok tt, s)
  unfolding on_publish
  on_publish_duplicate now p s h d = ground arith

  -- Delivered again, at any time and after any other operations, a batch that was delivered once
  -- changes nothing and raises nothing, if its publisher has a name.
  pub redelivery_ignored :
      (p : PublishInput) (first again : ℕ) (ops : List (Op P)) (s : WorkflowStream P)
      → p.publisher_id ≢ ""
      → let t = run_ops c ops (on_publish c first p s).1 in on_publish c again p t ≡ (ok tt, t)
  redelivery_ignored p first again ops s h = on_publish_duplicate again p _ h (
      is_duplicate-run_ops p ops (on_publish c first p s).1
        (is_duplicate-on_publish_self first p s h))
