-- ===== src/Streams/Stream.antt =====
-- temporalio/contrib/workflow_streams/_stream.py: the stream object inside the workflow.
-- A method that may raise returns its result beside the state that it leaves.
pub mod Poll
pub mod Size
pub mod Rollover
pub mod Dedup
pub mod Log
use Prim.Native.String.{count}
use sdk_python.Prelude.{
  ℕ, suc, ◌+◌, ◌*◌, ◌/◌, String, Bool, true, false, not, ◌&&◌, ◌||◌, Option, none, some, List, [],
  ◌∷◌, ◌++◌, length, drop, ltb, leb, ◌==◌, string_eq, contains, if◌then◌else◌,
}
use sdk_python.Prelude.Int.{ℤ, pos, negsuc, ◌-ℤ◌, ltb_ℤ, leb_ℤ}
use sdk_python.Prelude.Result.{Result, ok, err}
use sdk_python.Prelude.Dict.{Dict, lookup, insert, keep_values}
use sdk_python.Streams.Types.{
  Codec, WorkflowStreamItem, PublishEntry, PublishInput, PollInput, WireItem, PollResult,
  PublisherState, WorkflowStreamState, StreamError, runtime_error, application_error, decode_error,
  stream_draining_error_type, truncated_offset_error_type,
}

abbrev pub max_poll_response_bytes : ℕ
max_poll_response_bytes = 1_000_000

-- The types that a topic can be bound to: `typing.Any`, `Payload`, any other by its name.
pub data TopicType : Type 0 where
  any payload_type : TopicType
  named : String → TopicType

pub record WorkflowStream (P : Type 0) : Type 0 where
  pub log : List (WorkflowStreamItem P)
  pub base_offset : ℕ
  pub publishers : Dict String PublisherState
  pub detaching : Bool
  pub topic_types : Dict String TopicType

unfoldable pub same_type : TopicType → TopicType → Bool
same_type any any = true
same_type payload_type payload_type = true
same_type (named a) (named b) = a == b
same_type _ _ = false

-- `topic in topic_set`, or no filter
unfoldable pub wanted : List String → String → Bool
wanted [] topic = true
wanted (t ∷ ts) topic = contains (t ∷ ts) topic

module _ {P : Type 0} where
  -- The sequence of a batch is at most the last one of its publisher.
  unfoldable pub is_duplicate : PublishInput → WorkflowStream P → Bool
  is_duplicate payload s = elim (lookup payload.publisher_id s.publishers) [
    | none ↦ false
    | some existing ↦ leb payload.sequence existing.sequence
  ]

  -- The pairs of offset and item, from the first item's offset on.
  unfoldable pub candidates :
      List String → ℕ → List (WorkflowStreamItem P) → List (ℕ × WorkflowStreamItem P)
  unfolding wanted
  candidates topics off [] = []
  candidates topics off (item ∷ items) =
      let rest = candidates topics (suc off) items in
      if wanted topics item.topic then (off, item) ∷ rest else rest

  -- The condition on which a poll waits.
  unfoldable pub poll_ready : PollInput → WorkflowStream P → Bool
  poll_ready payload s =
      ltb_ℤ payload.from_offset (pos s.base_offset)
      || ltb_ℤ (payload.from_offset -ℤ pos s.base_offset) (pos (length s.log))
      || s.detaching

  -- A second binding of the name to another type.
  unfoldable pub rebinds : String → TopicType → WorkflowStream P → Bool
  unfolding same_type
  rebinds name bound s = elim (lookup name s.topic_types) [
    | none ↦ false
    | some existing ↦ not (same_type existing bound)
  ]

module _ {P : Type 0} (c : Codec P) where
  unfoldable pub payload_wire_size : P → String → ℕ
  payload_wire_size payload topic = (c.byte_size payload * 4 + 2) / 3 + count topic

  unfoldable pub decode_log : List WireItem → Option (List (WorkflowStreamItem P))
  decode_log [] = some []
  decode_log (item ∷ items) =
      let rest = decode_log items in
      elim (c.decode item.payload) [
        | none ↦ none
        | some p ↦ elim rest [
          | none ↦ none
          | some log ↦ some (record { topic = item.topic; payload = p; offset = 0 } ∷ log)
        ]
      ]

  -- The constructor. `caller_is_init` is the check of the caller's frame, `registered` whether the
  -- publish signal has a handler.
  unfoldable pub new_stream :
      Bool → Bool → Option WorkflowStreamState → Result StreamError (WorkflowStream P)
  unfolding decode_log
  new_stream caller_is_init registered prior_state =
      if not caller_is_init
      then err runtime_error
      else if registered
      then err runtime_error
      else elim prior_state [
        | none ↦ ok (record {
          log = [];
          base_offset = 0;
          publishers = [];
          detaching = false;
          topic_types = [];
        })
        | some prior ↦ elim (decode_log prior.log) [
          | none ↦ err decode_error
          | some log ↦ ok (record {
            log = log;
            base_offset = prior.base_offset;
            publishers = prior.publishers;
            detaching = false;
            topic_types = [];
          })
        ]
      ]

  -- `value` is the payload that the converter made of the value, or the `Payload` that it was.
  unfoldable pub publish_to_topic : String → P → WorkflowStream P → WorkflowStream P
  publish_to_topic topic value s = record s {
    log = s.log ++ (record { topic = topic; payload = value; offset = 0 } ∷ []);
  }

  unfoldable pub encode_log : List (WorkflowStreamItem P) → List WireItem
  encode_log [] = []
  encode_log (item ∷ items) =
      record { topic = item.topic; payload = c.encode item.payload; offset = 0 } ∷ encode_log items

  unfoldable pub get_state : ℕ → ℕ → WorkflowStream P → WorkflowStreamState
  unfolding encode_log
  get_state now publisher_ttl s = record {
    log = encode_log s.log;
    base_offset = s.base_offset;
    publishers = keep_values (λ ps. ltb now (ps.last_seen + publisher_ttl)) s.publishers;
  }

  -- `for entry in payload.items: self._log.append(...)`
  unfoldable pub append_entries :
      List PublishEntry → WorkflowStream P → Result StreamError (Unit {0}) × WorkflowStream P
  append_entries [] s = (ok tt, s)
  append_entries (entry ∷ entries) s = elim (c.decode entry.payload) [
    | none ↦ (err decode_error, s)
    | some p ↦
        append_entries entries (record s {
          log = s.log ++ (record { topic = entry.topic; payload = p; offset = 0 } ∷ []);
        })
  ]

  unfoldable pub on_publish :
      ℕ → PublishInput → WorkflowStream P → Result StreamError (Unit {0}) × WorkflowStream P
  unfolding is_duplicate append_entries
  on_publish now payload s =
      if payload.publisher_id == ""
      then append_entries payload.items s
      else if is_duplicate payload s
      then (ok tt, s)
      else append_entries payload.items (record s {
        publishers =
            insert payload.publisher_id (record { sequence = payload.sequence; last_seen = now })
              s.publishers;
      })

  unfoldable pub wire_item : ℕ × WorkflowStreamItem P → WireItem
  wire_item (off, item) = record {
    topic = item.topic;
    payload = c.encode item.payload;
    offset = off;
  }

  -- The loop that caps the response: what was sent, and the offset to resume from. `started` is
  -- whether `wire_items` is non-empty.
  unfoldable pub fill_response :
      ℕ → Bool → List (ℕ × WorkflowStreamItem P) → List WireItem × Option ℕ
  unfolding payload_wire_size wire_item
  fill_response size started [] = ([], none)
  fill_response size started ((off, item) ∷ rest) =
      let item_size = payload_wire_size item.payload item.topic in
      let later = fill_response (size + item_size) true rest in
      if ltb max_poll_response_bytes (size + item_size) && started
      then ([], some off)
      else (wire_item (off, item) ∷ later.0, later.1)

  -- What the capping loop leaves in `next_offset` and `more_ready`.
  unfoldable pub page_result : WorkflowStream P → List WireItem → Option ℕ → PollResult
  page_result s sent none = record {
    items = sent;
    next_offset = s.base_offset + length s.log;
    more_ready = false;
  }
  page_result s sent (some off) = record { items = sent; next_offset = off; more_ready = true }

  unfoldable pub respond : List String → ℕ → WorkflowStream P → PollResult
  unfolding candidates fill_response page_result
  respond topics log_offset s =
      let page =
        fill_response 0 false
          (candidates topics (s.base_offset + log_offset) (drop log_offset s.log)) in
      page_result s page.0 page.1

  -- A poll once its wait is over.
  unfoldable pub finish_poll : PollInput → WorkflowStream P → Result StreamError PollResult
  unfolding respond
  finish_poll payload s = elim (payload.from_offset -ℤ pos s.base_offset) [
    | pos log_offset ↦ ok (respond payload.topics log_offset s)
    | negsuc _ ↦
        if leb_ℤ payload.from_offset (pos 0) && leb_ℤ (pos 0) payload.from_offset
        then ok (respond payload.topics 0 s)
        else err (application_error truncated_offset_error_type)
  ]

  -- `none`: the poll still waits.
  unfoldable pub on_poll : PollInput → WorkflowStream P → Option (Result StreamError PollResult)
  unfolding poll_ready finish_poll
  on_poll payload s = if poll_ready payload s then some (finish_poll payload s) else none

  unfoldable pub validate_poll : PollInput → WorkflowStream P → Result StreamError (Unit {0})
  validate_poll payload s =
      if s.detaching then err (application_error stream_draining_error_type) else ok tt

module _ {P : Type 0} where
  unfoldable pub bind_topic_type :
      String
      → TopicType
      → WorkflowStream P
      → Result StreamError (String × TopicType) × WorkflowStream P
  unfolding rebinds
  bind_topic_type name bound s =
      if same_type bound payload_type
      then (err runtime_error, s)
      else if rebinds name bound s
      then (err runtime_error, s)
      else (ok (name, bound), record s { topic_types = insert name bound s.topic_types })

  -- `bound: Any = Any if type is None else type`
  unfoldable pub topic :
      String
      → Option TopicType
      → WorkflowStream P
      → Result StreamError (String × TopicType) × WorkflowStream P
  unfolding bind_topic_type
  topic name none s = bind_topic_type name any s
  topic name (some type) s = bind_topic_type name type s

  unfoldable pub detach_pollers : WorkflowStream P → WorkflowStream P
  detach_pollers s = record s { detaching = true }

  -- Truncation by a number of entries, `log_index`.
  unfoldable pub truncate_by :
      ℤ → WorkflowStream P → Result StreamError (Unit {0}) × WorkflowStream P
  truncate_by (negsuc _) s = (ok tt, s)
  truncate_by (pos log_index) s =
      if leb log_index 0
      then (ok tt, s)
      else if ltb (length s.log) log_index
      then (err (application_error "TruncateOutOfRange"), s)
      else (ok tt, record s { log = drop log_index s.log; base_offset = s.base_offset + log_index })

  unfoldable pub truncate : ℤ → WorkflowStream P → Result StreamError (Unit {0}) × WorkflowStream P
  unfolding truncate_by
  truncate up_to_offset s = truncate_by (up_to_offset -ℤ pos s.base_offset) s

  unfoldable pub on_offset : WorkflowStream P → ℕ
  on_offset s = s.base_offset + length s.log
