-- ===== src/Streams/Types.antt =====
-- temporalio/contrib/workflow_streams/_types.py: the values that cross the wire.
use Prim.Native.Nat.{ℕ}
use sdk_python.Prelude.{String, ◌≡◌, Bool, Option, some, List}
use sdk_python.Prelude.Int.{ℤ}
use sdk_python.Prelude.Dict.{Dict}

-- Protobuf and base64, which the program does not implement, over the payloads `P`. `encode` is
-- `base64.b64encode(payload.SerializeToString())`, `decode` its inverse, which raises (`none`) on
-- a text that is no encoding, and `byte_size` is `Payload.ByteSize()`.
pub record Codec (P : Type 0) : Type 0 where
  pub encode : P → String
  pub decode : String → Option P
  pub byte_size : P → ℕ

-- Decoding inverts encoding.
abbrev pub IsLawful : {P : Type 0} → Codec P → Type 0
IsLawful {P} c = (p : P) → c.decode (c.encode p) ≡ some p

pub record WorkflowStreamItem (T : Type 0) : Type 0 where
  pub topic : String
  pub payload : T
  pub offset : ℕ

pub record PublishEntry : Type 0 where
  pub topic : String
  pub payload : String

pub record PublishInput : Type 0 where
  pub items : List PublishEntry
  pub publisher_id : String
  pub sequence : ℕ

pub record PollInput : Type 0 where
  pub topics : List String
  pub from_offset : ℤ

pub record WireItem : Type 0 where
  pub topic : String
  pub payload : String
  pub offset : ℕ

pub record PollResult : Type 0 where
  pub items : List WireItem
  pub next_offset : ℕ
  pub more_ready : Bool

-- `last_seen` is in the unit in which `workflow.now()` counts.
pub record PublisherState : Type 0 where
  pub sequence : ℕ
  pub last_seen : ℕ

pub record WorkflowStreamState : Type 0 where
  pub log : List WireItem
  pub base_offset : ℕ
  pub publishers : Dict String PublisherState

-- The exceptions that the streams raise, and those that they let through: of base64 or protobuf, of
-- the payload converter, of a signal. `application_error` has its `type`; the texts are left out.
pub data StreamError : Type 0 where
  runtime_error : StreamError
  application_error : String → StreamError
  timeout_error : StreamError
  decode_error : StreamError
  convert_error : StreamError
  signal_error : StreamError

abbrev pub stream_draining_error_type : String
stream_draining_error_type = "StreamDraining"

abbrev pub truncated_offset_error_type : String
truncated_offset_error_type = "TruncatedOffset"
