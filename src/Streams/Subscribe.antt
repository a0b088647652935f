-- ===== src/Streams/Subscribe.antt =====
-- `subscribe` of temporalio/contrib/workflow_streams/_client.py: the loop that polls, a turn at a
-- time, over what the poll's update and the description of its run bring.
pub mod Complete
pub mod Answer
use sdk_python.Prelude.{
  ℕ, String, ◌&&◌, Bool, true, false, Option, none, some, List, [], ◌∷◌, ◌++◌, ltb, ◌==◌, string_eq,
  if◌then◌else◌, not,
}
use sdk_python.Prelude.Int.{ℤ, pos}
use sdk_python.Prelude.Result.{Result, ok, err}
use sdk_python.Streams.Types.{
  Codec, WorkflowStreamItem, PollInput, PollResult, WireItem, StreamError, application_error,
  runtime_error, timeout_error, decode_error, convert_error, signal_error,
  stream_draining_error_type, truncated_offset_error_type,
}
use sdk_python.Streams.Stream.{WorkflowStream, on_poll, validate_poll}

-- `WorkflowExecutionStatus`
pub data Status : Type 0 where
  running completed failed canceled terminated continued_as_new timed_out : Status

-- What a poll brings: the update's result, or one of the exceptions that `subscribe` tells apart.
-- `update_failed` has the `type` of its cause, and `rpc_error` whether its status is `NOT_FOUND`.
pub data PollOutcome : Type 0 where
  answered : PollResult → PollOutcome
  cancelled : PollOutcome
  update_failed : Option String → PollOutcome
  rpc_timeout : PollOutcome
  rpc_error : Bool → PollOutcome

-- How the loop goes on: with the items that it yields, the next offset and whether it sleeps first;
-- or it returns; or it lets the poll's exception through; or it yields items, and what it raises
-- for the next one ends it. `data` stands for the `payload` of an item here.
pub data Turn (A : Type 0) : Type 0 where
  polls_again : List (WorkflowStreamItem A) → ℤ → Bool → Turn A
  returns : Turn A
  reraises : Turn A
  raises_after : List (WorkflowStreamItem A) → StreamError → Turn A

is_continued : Status → Bool
is_continued continued_as_new = true
is_continued _ = false

is_terminal : Status → Bool
is_terminal completed = true
is_terminal failed = true
is_terminal canceled = true
is_terminal terminated = true
is_terminal timed_out = true
is_terminal _ = false

-- `described` is the status of the polled run, `none` where describing it raises.
unfoldable pub follow_continue_as_new : Bool → Option Status → Bool
unfolding is_continued
follow_continue_as_new has_client described = elim described [
  | none ↦ false
  | some status ↦ has_client && is_continued status
]

unfoldable pub workflow_in_terminal_state : Option Status → Bool
unfolding is_terminal
workflow_in_terminal_state described = elim described [
  | none ↦ false
  | some status ↦ is_terminal status
]

-- The update of a poll failed, with a cause of this type.
unfoldable pub after_update_failed :
    {A : Type 0} → Bool → Bool → Option Status → ℤ → Option String → Turn A
unfolding follow_continue_as_new
after_update_failed cools has_client described offset none = reraises
after_update_failed cools has_client described offset (some cause_type) =
    if cause_type == truncated_offset_error_type
    then polls_again [] (pos 0) false
    else if cause_type == stream_draining_error_type
    then polls_again [] offset cools
    else if cause_type == "AcceptedUpdateCompletedWorkflow"
    then (if follow_continue_as_new has_client described
        then polls_again [] offset false
        else returns)
    else reraises

-- The codec decodes an item, `_decode_payload`, and the payload converter makes its data, to the
-- type that the subscriber asks for; each may raise.
module _ {P A : Type 0} (c : Codec P) (from_payload : P → Option A) where
  -- The loop over the items of a poll: those that it yields, until one raises.
  unfoldable pub yield_items : List WireItem → List (WorkflowStreamItem A) × Option StreamError
  yield_items [] = ([], none)
  yield_items (item ∷ items) =
      let rest = yield_items items in
      elim (c.decode item.payload) [
        | none ↦ ([], some decode_error)
        | some payload ↦ elim (from_payload payload) [
          | none ↦ ([], some convert_error)
          | some value ↦ (
            record { topic = item.topic; payload = value; offset = item.offset } ∷ rest.0,
            rest.1,
          )
        ]
      ]

  -- One turn. `cools` is whether the cooldown is positive.
  unfoldable pub subscribe_turn : Bool → Bool → Option Status → ℤ → PollOutcome → Turn A
  unfolding yield_items after_update_failed workflow_in_terminal_state
  subscribe_turn cools has_client described offset (answered r) =
      let yielded = yield_items r.items in
      elim yielded.1 [
        | some e ↦ raises_after yielded.0 e
        | none ↦ polls_again yielded.0 (pos r.next_offset) (not r.more_ready && cools)
      ]
  subscribe_turn cools has_client described offset cancelled = returns
  subscribe_turn cools has_client described offset (update_failed cause_type) =
      after_update_failed cools has_client described offset cause_type
  subscribe_turn cools has_client described offset rpc_timeout =
      if follow_continue_as_new has_client described then polls_again [] offset false else returns
  subscribe_turn cools has_client described offset (rpc_error not_found) =
      if not not_found
      then reraises
      else if follow_continue_as_new has_client described
      then polls_again [] offset false
      else if workflow_in_terminal_state described
      then returns
      else reraises

unfoldable pub error_type : StreamError → Option String
error_type (application_error type) = some type
error_type _ = none

-- What the stream brings to a poll: its validator rejects, it waits (`none`), or it answers.
unfoldable pub poll_stream :
    {P : Type 0} → Codec P → PollInput → WorkflowStream P → Option PollOutcome
unfolding error_type
poll_stream c payload s = elim (validate_poll c payload s) [
  | err e ↦ some (update_failed (error_type e))
  | ok _ ↦ elim (on_poll c payload s) [
    | none ↦ none
    | some (ok r) ↦ some (answered r)
    | some (err e) ↦ some (update_failed (error_type e))
  ]
]
