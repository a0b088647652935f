-- ===== src/Streams/Tests.antt =====
-- The theorems on workflow streams at concrete streams, clients and rounds.
use sdk_python.Prelude.{
  ℕ, ◌+◌, ◌≡◌, refl, ap, ◌==◌, ◌≢◌, ◌⊎◌, inl, ◌≤◌, ◌<◌, String, true, false, Option, if◌then◌else◌,
  none, some, List, [], ◌∷◌, ◌++◌, map, take, arith, string_eq,
}
use mathlib.Core.Bool.{false≢true}
use sdk_python.Prelude.Int.{pos}
use sdk_python.Prelude.Result.{ok}
use sdk_python.Prelude.Dict.{lookup}
use sdk_python.Streams.Types.{
  Codec, IsLawful, WorkflowStreamItem, PublishInput, PollInput, PollResult, WireItem, StreamError,
  PublisherState,
}
use sdk_python.Streams.Stream.{
  WorkflowStream, on_publish, on_poll, on_offset, wire_item, respond, detach_pollers,
  max_poll_response_bytes, is_duplicate, new_stream, get_state,
}
use sdk_python.Streams.Stream
use sdk_python.Streams.Stream.Poll.{IsPage, on_poll-IsPage}
use sdk_python.Streams.Stream.Size.{poll_candidates, wire_bytes, respond_capped}
use sdk_python.Streams.Stream.Rollover.{IsValid, rollover}
use sdk_python.Streams.Stream.Dedup.{redelivery_ignored}
use sdk_python.Streams.Stream.Log.{
  Op, publish, detach, truncate_to, signal, run_ops, Extends, Extends-run_ops,
}
use sdk_python.Streams.Client.{
  prebuilt, WorkflowStreamClient, new_client, publish_to_topic, begin_flush, finish_flush,
  encode_buffer, unsent, Round, also_flushes,
}
use sdk_python.Streams.Client.Drain.{Ends, quiet_rounds, is_quiet, flush_loop_finishes}
use sdk_python.Streams.Client.Delivery.{
  Entry, World, publishes, begins, records, acknowledged, fails, Reach, here, next, replay,
  AreLogged,
}
use sdk_python.Streams.Client.ExactlyOnce.{fresh_world, published_in_order, published_exactly_once}
use sdk_python.Streams.Subscribe.{answered, polls_again, raises_after, subscribe_turn}
use sdk_python.Streams.Subscribe.Answer.{AreGiven, Fails, answer_yields}
use sdk_python.Streams.Subscribe.Complete.{follow, final, data_available, follow_complete}

-- Payloads that are their own encoding.
abbrev plain : Codec String
plain = record { encode = λ p. p; decode = some; byte_size = λ _. 4 }

plain-IsLawful : IsLawful plain
plain-IsLawful p = refl

abbrev item : String → String → WorkflowStreamItem String
item topic payload = record { topic = topic; payload = payload; offset = 0 }

-- Two items, the first of them at offset 5.
abbrev two_items : WorkflowStream String
two_items = record {
  log = item "a" "x" ∷ item "b" "y" ∷ [];
  base_offset = 5;
  publishers = ("p", record { sequence = 3; last_seen = 10 }) ∷ [];
  detaching = false;
  topic_types = [];
}

abbrev batch : PublishInput
batch = record {
  items = record { topic = "a"; payload = "z" } ∷ [];
  publisher_id = "p";
  sequence = 4;
}

abbrev poll_a : PollInput
poll_a = record { topics = "a" ∷ []; from_offset = pos 5 }

abbrev page_a : PollResult
page_a = record {
  items = record { topic = "a"; payload = "x"; offset = 5 } ∷ [];
  next_offset = 7;
  more_ready = false;
}

abbrev some_ops : List (Op String)
some_ops = publish "b" "v" ∷ truncate_to (pos 6) ∷ signal 11 batch ∷ detach ∷ []

name_p : batch.publisher_id ≢ ""
unfolding string_eq
name_p e = false≢true (ap (λ (x : String). x == "") e)

two_items-IsValid : IsValid two_items
unfolding lookup
two_items-IsValid = record { plain = (refl, (refl, tt)); keys = (refl, tt) }

on_poll-IsPage_example : IsPage plain ("a" ∷ []) 5 two_items page_a
unfolding on_poll on_offset string_eq
on_poll-IsPage_example =
    on_poll-IsPage plain poll_a 5 two_items refl (omega arith) (omega arith) refl

Extends-run_ops_example : Extends two_items (run_ops plain some_ops two_items)
Extends-run_ops_example = Extends-run_ops plain some_ops two_items

redelivery_ignored_example :
    let t = run_ops plain some_ops (on_publish plain 11 batch two_items).1 in
    on_publish plain 12 batch t ≡ (ok tt, t)
redelivery_ignored_example = redelivery_ignored plain batch 11 12 some_ops two_items name_p

rollover_example :
    (t : WorkflowStream String) × (new_stream plain true false
        (some (get_state plain 12 5 two_items))
      ≡ ok t)
    × (t.log ≡ two_items.log)
    × (t.base_offset ≡ two_items.base_offset)
    × ((p : PublishInput) (ps : PublisherState)
        → lookup p.publisher_id two_items.publishers ≡ some ps
        → 12 < ps.last_seen + 5
        → is_duplicate p t ≡ is_duplicate p two_items)
rollover_example = rollover plain 12 5 two_items plain-IsLawful two_items-IsValid

respond_capped_example :
    (n : ℕ) × ((respond plain [] 0 two_items).items
      ≡ map (wire_item plain) (take n (poll_candidates plain [] 0 two_items)))
    × ((n ≤ 1)
        ⊎ (wire_bytes plain (take n (poll_candidates plain [] 0 two_items))
            ≤ max_poll_response_bytes))
respond_capped_example = respond_capped plain [] 0 two_items

abbrev rounds : List (List (Op String))
rounds = (publish "a" "w" ∷ []) ∷ [] ∷ (detach ∷ []) ∷ []

-- The payload converter makes upper-case data of these payloads, and leaves others.
abbrev shout : String → String
shout p = if p == "x" then "X" else if p == "z" then "Z" else p

abbrev some_data : String → Option String
some_data p = some (shout p)

follow_complete_example :
    let end = final plain some_data ("a" ∷ []) true rounds two_items in
    (items : List (WorkflowStreamItem String)) × (at : ℕ) × (follow plain some_data
        ("a" ∷ [])
        true
        rounds
        (pos 6)
        two_items
      ≡ some (items, pos at, end))
    × (at ≤ on_offset end)
    × (data_available shout ("a" ∷ []) 6 end ≡ items ++ data_available shout ("a" ∷ []) at end)
unfolding final run_ops on_offset detach_pollers Stream.publish_to_topic
follow_complete_example =
    follow_complete plain some_data ("a" ∷ []) true shout plain-IsLawful (λ p. refl) rounds 6
      two_items (omega arith) (omega arith)

-- The text "?" is no encoding.
abbrev picky : Codec String
picky = record {
  encode = λ p. p;
  decode = λ text. if text == "?" then none else some text;
  byte_size = λ _. 4;
}

abbrev bad_answer : PollResult
bad_answer = record {
  items =
      record { topic = "a"; payload = "x"; offset = 5 }
      ∷ record { topic = "a"; payload = "?"; offset = 6 }
      ∷ record { topic = "a"; payload = "z"; offset = 7 }
      ∷ [];
  next_offset = 8;
  more_ready = true;
}

answer_yields_example :
    ((given : List (WorkflowStreamItem String)) × AreGiven picky some_data bad_answer.items given
      × (subscribe_turn picky some_data true true none (pos 5) (answered bad_answer)
          ≡ polls_again given (pos 8) false))
    ⊎ ((given : List (WorkflowStreamItem String)) × (e : StreamError) × (before after : List
          WireItem)
        × (bad : WireItem) × (bad_answer.items ≡ before ++ (bad ∷ after))
        × AreGiven picky some_data before given
        × Fails picky some_data bad e
        × (subscribe_turn picky some_data true true none (pos 5) (answered bad_answer)
            ≡ raises_after given e))
answer_yields_example = answer_yields picky some_data true true none (pos 5) bad_answer

abbrev client : WorkflowStreamClient String String
client = record (new_client none 600 "p") {
  buffer = ("a", prebuilt "x") ∷ [];
  pending = some [];
  pending_seq = 1;
  pending_since = some 0;
}

-- A value is published during the first of the loop's rounds, and another task flushes before the
-- last.
abbrev flush_rounds : List (Round String String)
flush_rounds =
    record {
      before = [];
      now = 1;
      signal = true;
      during = record { topic = "a"; value_published = prebuilt "y"; force_flush = false } ∷ [];
    }
    ∷ record { before = []; now = 2; signal = true; during = [] }
    ∷ record { before = also_flushes 3 true [] ∷ []; now = 4; signal = true; during = [] }
    ∷ []

flush_loop_finishes_example : Ends plain some flush_rounds client
unfolding quiet_rounds is_quiet
flush_loop_finishes_example = flush_loop_finishes plain some flush_rounds client (omega arith)

-- One value is published; its signal is sent, fails, is sent again, and is recorded twice.
abbrev start : World String String
start = fresh_world plain some none 600 "p"

abbrev sent_batch : PublishInput
sent_batch = record {
  items = record { topic = "a"; payload = "x" } ∷ [];
  publisher_id = "p";
  sequence = 1;
}

abbrev waiting : WorkflowStreamClient String String
waiting = record (new_client none 600 "p") {
  flush_event = true;
  pending = some (record { topic = "a"; payload = "x" } ∷ []);
  pending_seq = 1;
  pending_since = some 0;
}

abbrev finish : World String String
finish = record {
  client = record (new_client none 600 "p") { flush_event = true; sequence = 1 };
  flying = none;
  sent = sent_batch ∷ sent_batch ∷ [];
  history = (9, sent_batch) ∷ (7, sent_batch) ∷ [];
  published = ("a", prebuilt "x") ∷ [];
}

reached : Reach plain some start finish
unfolding fresh_world new_client publish_to_topic begin_flush finish_flush encode_buffer
reached =
    next
      (next
        (next
          (next
            (next
              (next (next here (publishes "a" (prebuilt "x") true))
                (begins 0 sent_batch waiting refl refl))
              (records 7 sent_batch (inl refl)))
            (fails sent_batch refl))
          (begins 1 sent_batch waiting refl refl))
        (records 9 sent_batch (inl refl)))
      (acknowledged sent_batch 9 refl (inl refl))

-- Nothing of the publisher "p" is known to this stream.
abbrev old_items : WorkflowStream String
old_items = record two_items { publishers = [] }

published_in_order_example :
    (done rest : List (Entry String String)) × (items : List (WorkflowStreamItem String))
    × (finish.published ≡ done ++ rest)
    × ((replay plain finish.history old_items).log ≡ old_items.log ++ items)
    × AreLogged plain some done items
unfolding lookup
published_in_order_example =
    published_in_order plain some old_items none 600 "p" finish plain-IsLawful name_p refl reached

published_exactly_once_example :
    (items : List (WorkflowStreamItem String)) × ((replay plain finish.history old_items).log
      ≡ old_items.log ++ items)
    × AreLogged plain some finish.published items
unfolding lookup unsent new_client
published_exactly_once_example =
    published_exactly_once plain some old_items none 600 "p" finish plain-IsLawful name_p refl
      reached refl
