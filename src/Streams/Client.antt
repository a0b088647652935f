-- ===== src/Streams/Client.antt =====
-- temporalio/contrib/workflow_streams/_client.py: the publisher outside of the workflow. A flush
-- is cut at its one `await`, the signal: `begin_flush` runs before it, `finish_flush` after it.
pub mod Delivery
pub mod Drain
pub mod ExactlyOnce
use sdk_python.Prelude.{
  ℕ, zero, suc, ◌+◌, String, Bool, true, false, not, ◌||◌, Option, none, some, List, [], ◌∷◌, ◌++◌,
  length, ltb, leb, string_eq, if◌then◌else◌,
}
use sdk_python.Prelude.Result.{Result, ok, err}
use sdk_python.Prelude.Dict.{Dict, lookup, insert}
use sdk_python.Streams.Types.{
  Codec, PublishEntry, PublishInput, StreamError, runtime_error, timeout_error, convert_error,
  signal_error,
}
use sdk_python.Streams.Stream.{TopicType, any, payload_type, same_type}

-- What is published: a `Payload`, or another value, which the payload converter turns into one.
pub data PubValue (P V : Type 0) : Type 0 where
  prebuilt : P → PubValue P V
  value : V → PubValue P V

-- The times are `time.monotonic()` and durations, in one unit.
pub record WorkflowStreamClient (P V : Type 0) : Type 0 where
  pub max_batch_size : Option ℕ
  pub max_retry_duration : ℕ
  pub buffer : List (String × PubValue P V)
  pub flush_event : Bool
  pub publisher_id : String
  pub sequence : ℕ
  pub pending : Option (List PublishEntry)
  pub pending_seq : ℕ
  pub pending_since : Option ℕ
  pub topic_types : Dict String TopicType

-- How a flush goes on: it returns, it raises, or it sends a signal and waits.
pub data Flush : Type 0 where
  idle : Flush
  raises : StreamError → Flush
  sends : PublishInput → Flush

module _ {P V : Type 0} where
  -- The constructor. The publisher's id is random.
  unfoldable pub new_client : Option ℕ → ℕ → String → WorkflowStreamClient P V
  new_client max_batch_size max_retry_duration publisher_id = record {
    max_batch_size = max_batch_size;
    max_retry_duration = max_retry_duration;
    buffer = [];
    flush_event = false;
    publisher_id = publisher_id;
    sequence = 0;
    pending = none;
    pending_seq = 0;
    pending_since = none;
    topic_types = [];
  }

  -- `self._max_batch_size is not None and len(self._buffer) >= self._max_batch_size`
  unfoldable pub batch_is_full : WorkflowStreamClient P V → Bool
  batch_is_full s = elim s.max_batch_size [ none ↦ false | some size ↦ leb size (length s.buffer) ]

  unfoldable pub publish_to_topic :
      String → PubValue P V → Bool → WorkflowStreamClient P V → WorkflowStreamClient P V
  unfolding batch_is_full
  publish_to_topic topic v force_flush s =
      let t = record s { buffer = s.buffer ++ ((topic, v) ∷ []) } in
      if force_flush || batch_is_full t then record t { flush_event = true } else t

  unfoldable pub rebinds : String → TopicType → WorkflowStreamClient P V → Bool
  unfolding same_type
  rebinds name bound s = elim (lookup name s.topic_types) [
    | none ↦ false
    | some existing ↦ not (same_type existing bound)
  ]

  unfoldable pub topic :
      String
      → TopicType
      → WorkflowStreamClient P V
      → Result StreamError (String × TopicType) × WorkflowStreamClient P V
  unfolding rebinds
  topic name bound s =
      if same_type bound payload_type
      then (err runtime_error, s)
      else if rebinds name bound s
      then (err runtime_error, s)
      else (ok (name, bound), record s { topic_types = insert name bound s.topic_types })

  -- The retry of a batch is too late: `time.monotonic() - self._pending_since > ...`
  unfoldable pub retry_expired : ℕ → WorkflowStreamClient P V → Bool
  retry_expired now s = elim s.pending_since [
    | none ↦ false
    | some since ↦ ltb (since + s.max_retry_duration) now
  ]

  -- What `_flush` does once the signal was acknowledged, or raised.
  unfoldable pub finish_flush : Bool → ℕ → WorkflowStreamClient P V → WorkflowStreamClient P V
  finish_flush true seq s = record s {
    sequence = seq;
    pending = none;
    pending_seq = 0;
    pending_since = none;
  }
  finish_flush false seq s = s

  -- `self._pending is not None or self._buffer`
  unfoldable pub unsent : WorkflowStreamClient P V → Bool
  unsent s = elim s.pending [ some _ ↦ true | none ↦ elim s.buffer [ [] ↦ false | _ ∷ _ ↦ true ] ]

-- `convert` is the payload converter, which may raise (`none`).
-- A call of `publish`.
pub record Published (P V : Type 0) : Type 0 where
  pub topic : String
  pub value_published : PubValue P V
  pub force_flush : Bool

-- What another task does while a flush waits for the lock: it publishes, or it flushes in its turn.
pub data Meanwhile (P V : Type 0) : Type 0 where
  also_publishes : Published P V → Meanwhile P V
  also_flushes : ℕ → Bool → List (Published P V) → Meanwhile P V

-- A round of the loop of `flush`: what others do before it has the lock, the time, whether its
-- signal is acknowledged, and what is published while it awaits the signal.
pub record Round (P V : Type 0) : Type 0 where
  pub before : List (Meanwhile P V)
  pub now : ℕ
  pub signal : Bool
  pub during : List (Published P V)

unfoldable pub publish_all :
    {P V : Type 0} → List (Published P V) → WorkflowStreamClient P V → WorkflowStreamClient P V
unfolding publish_to_topic
publish_all [] s = s
publish_all (p ∷ rest) s =
    publish_all rest (publish_to_topic p.topic p.value_published p.force_flush s)

module _ {P V : Type 0} (c : Codec P) (convert : V → Option P) where
  unfoldable pub to_payload : PubValue P V → Option P
  to_payload (prebuilt p) = some p
  to_payload (value v) = convert v

  unfoldable pub encode_buffer : List (String × PubValue P V) → Option (List PublishEntry)
  unfolding to_payload
  encode_buffer [] = some []
  encode_buffer ((topic, v) ∷ entries) =
      let rest = encode_buffer entries in
      elim (to_payload v) [
        | none ↦ none
        | some p ↦ elim rest [
          | none ↦ none
          | some out ↦ some (record { topic = topic; payload = c.encode p } ∷ out)
        ]
      ]

  unfoldable pub begin_retry :
      ℕ → List PublishEntry → WorkflowStreamClient P V → Flush × WorkflowStreamClient P V
  unfolding retry_expired
  begin_retry now batch s =
      if retry_expired now s
      then (
        raises timeout_error,
        record s {
          sequence = s.pending_seq;
          pending = none;
          pending_seq = 0;
          pending_since = none;
        },
      )
      else (
        sends (record { items = batch; publisher_id = s.publisher_id; sequence = s.pending_seq }),
        s,
      )

  unfoldable pub begin_batch :
      ℕ → Option (List PublishEntry) → WorkflowStreamClient P V → Flush × WorkflowStreamClient P V
  begin_batch now none s = (raises convert_error, s)
  begin_batch now (some batch) s = (
    sends (record { items = batch; publisher_id = s.publisher_id; sequence = s.sequence + 1 }),
    record s {
      buffer = [];
      pending = some batch;
      pending_seq = s.sequence + 1;
      pending_since = some now;
    },
  )

  -- `_flush` up to the signal.
  unfoldable pub begin_flush : ℕ → WorkflowStreamClient P V → Flush × WorkflowStreamClient P V
  unfolding begin_retry begin_batch
  begin_flush now s = elim s.pending [
    | some batch ↦ begin_retry now batch s
    | none ↦ elim s.buffer [
      | [] ↦ (idle, s)
      | entry ∷ entries ↦ begin_batch now (encode_buffer (entry ∷ entries)) s
    ]
  ]

  -- One whole `_flush`, from where it has the lock. While it awaits the signal others may publish,
  -- but not flush; `signal` is whether the signal was acknowledged.
  unfoldable pub flush_once :
      ℕ
      → Bool
      → List (Published P V)
      → WorkflowStreamClient P V
      → Result StreamError (Unit {0}) × WorkflowStreamClient P V
  unfolding begin_flush finish_flush publish_all
  flush_once now signal during s =
      let begun = begin_flush now s in
      elim begun.0 [
        | idle ↦ (ok tt, begun.1)
        | raises e ↦ (err e, begun.1)
        | sends input ↦ (
          if signal then ok tt else err signal_error,
          finish_flush signal input.sequence (publish_all during begun.1),
        )
      ]

  -- What other tasks do while a flush waits for the lock.
  unfoldable pub run_meanwhile :
      List (Meanwhile P V) → WorkflowStreamClient P V → WorkflowStreamClient P V
  unfolding publish_to_topic flush_once
  run_meanwhile [] s = s
  run_meanwhile (also_publishes p ∷ rest) s =
      run_meanwhile rest (publish_to_topic p.topic p.value_published p.force_flush s)
  run_meanwhile (also_flushes now signal during ∷ rest) s =
      run_meanwhile rest (flush_once now signal during s).1

  -- `while self._pending is not None or self._buffer: await self._flush()`, the loop of `flush`
  -- and of `__aexit__`, over its rounds. `none`: the loop goes on after the last of them.
  unfoldable pub flush_loop :
      List (Round P V)
      → WorkflowStreamClient P V
      → Option (Result StreamError (Unit {0}) × WorkflowStreamClient P V)
  unfolding flush_once run_meanwhile unsent
  flush_loop [] s = if unsent s then none else some (ok tt, s)
  flush_loop (r ∷ rounds) s =
      let round = flush_once r.now r.signal r.during (run_meanwhile r.before s) in
      let later = flush_loop rounds round.1 in
      if unsent s
      then elim round.0 [ ok _ ↦ later | err e ↦ some (err e, round.1) ]
      else some (ok tt, s)
