-- ===== src/Lib.antt =====
-- Verification of the Temporal Python SDK: its workflow streams, workflow instance and converters.
--
-- The program. A worker runs each workflow in an instance, temporalio/worker/_workflow_instance.py:
-- the core hands it activations, lists of jobs; it applies them, runs the workflow's code on an event
-- loop of its own, and answers with commands. Workflow streams, temporalio/contrib/workflow_streams,
-- stand on signals, updates and queries: a log in a workflow, with publishers and subscribers outside.
--
-- Streams/Types      _types.py: the values on the wire; base64 and protobuf are a Codec.
-- Streams/Stream     _stream.py: a record of the stream's state, a function for each handler. Its
--                    children prove what a page is, the cap on it, deduplication, the log under all
--                    operations, and what a next run takes over.
-- Streams/Client     _client.py: the publisher. A flush is cut at its await: begin_flush sends a
--                    signal, finish_flush follows its outcome. Delivery adds a network that loses,
--                    delays and repeats signals, Drain the loop of flush.
-- Streams/Subscribe  _client.py: a turn of subscribe for each outcome of a poll, with the decoding of
--                    its items and the errors of that. Complete follows a stream that goes on
--                    changing, Answer the items of one answer.
-- Instance           _workflow_instance.py: State is the record of the instance and its messages,
--                    Exn its exceptions, by the names of their classes (with exceptions.py). Core has
--                    its helpers, as actions that return or raise and leave a state; Timers, Patch,
--                    Handlers, Activities, Await, Resolve, Loop, Failure, Update, Query, Completion and
--                    Activate its operations, Futures lemmas on futures, and the children of these what is proved of
--                    them. Activities has the handles of activities, Await the cancellation of what
--                    awaits one, Resolve the jobs for child workflows, Nexus operations and external
--                    workflows, and the start of a Nexus operation.
-- Converters         temporalio/converter. Errors has the exceptions of exceptions.py with all their
--                    fields, their chains, and the API's failures; Failures is _failure_converter.py:
--                    Encode its to_failure, Decode its from_failure. Payloads is the composite payload
--                    converter of _payload_converter.py.
--                    Storage is _extstore.py, for one payload at a time.
-- Prelude            Equality, numbers, lists, integers, dictionaries and results, for all of them.
--
-- Times are natural numbers in one unit. What is not the program's is a parameter: converters,
-- payloads, asyncio, the user's code. The loops of the instance take fuel, one unit for each handle
-- that they run, and give none when it runs out, since the user's code may go on for ever. The loop
-- of flush takes its rounds, with what other tasks publish and flush meanwhile; two rounds in which
-- nothing is published are enough for it, one for a batch that is pending and one for the buffer.
--
-- Not modelled: starting child workflows, and requests to external workflows; the client; the data
-- converter, its codecs, and storing several payloads at once; workers and runtime; generated code.
pub mod Prelude
pub mod Streams
pub mod Instance
pub mod Converters
