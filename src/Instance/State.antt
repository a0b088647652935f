-- ===== src/Instance/State.antt =====
-- The state of `_WorkflowInstanceImpl`, and what it exchanges with the core: jobs in, commands out.
-- Payloads, failures and Python values are passed on and never looked into here: they are known
-- by their identity, and the converters between them are arguments of the code that calls them.
use sdk_python.Prelude.{ℕ, String, Bool, Option, List}
use sdk_python.Prelude.Int.{ℤ}
use sdk_python.Prelude.Dict.{Dict}
use sdk_python.Instance.Exn.{Exn}

pub record Payload : Type 0 where
  pub payload_id : ℕ

pub record Failure : Type 0 where
  pub failure_id : ℕ

pub record Value : Type 0 where
  pub value_id : ℕ

-- The jobs of an activation, a constructor for each variant of `WorkflowActivationJob`.
pub record SignalJob : Type 0 where
  pub signal_name : String
  pub input : List Payload

pub record UpdateJob : Type 0 where
  pub id : String
  pub protocol_instance_id : String
  pub name : String
  pub input : List Payload
  pub run_validator : Bool

pub record QueryJob : Type 0 where
  pub query_id : String
  pub query_type : String
  pub arguments : List Payload

-- How an activity, a child workflow or a Nexus operation ends. `no_result` stands for a message that
-- says nothing.
pub data ActivityResult : Type 0 where
  activity_completed : Option Payload → ActivityResult
  activity_failed activity_cancelled : Failure → ActivityResult
  activity_backoff : (attempt : ℕ) → ActivityResult
  no_activity_result : ActivityResult

pub data ChildResult : Type 0 where
  child_completed : Option Payload → ChildResult
  child_failed child_cancelled : Failure → ChildResult
  no_child_result : ChildResult

pub data ChildStart : Type 0 where
  child_started : (run_id : String) → ChildStart
  child_start_failed : (workflow_id workflow_type : String) (already_exists : Bool) → ChildStart
  child_start_cancelled : Failure → ChildStart
  no_child_start : ChildStart

pub data NexusResult : Type 0 where
  nexus_completed : Payload → NexusResult
  nexus_failed nexus_cancelled nexus_timed_out : Failure → NexusResult
  no_nexus_result : NexusResult

pub data NexusStart : Type 0 where
  nexus_started : (operation_token : String) → NexusStart
  nexus_started_sync : NexusStart
  nexus_start_failed : Failure → NexusStart
  no_nexus_start : NexusStart

pub data ResolveJob : Type 0 where
  resolve_activity : ℕ → ActivityResult → ResolveJob
  resolve_child_start : ℕ → ChildStart → ResolveJob
  resolve_child : ℕ → ChildResult → ResolveJob
  resolve_nexus_start : ℕ → NexusStart → ResolveJob
  resolve_nexus : ℕ → NexusResult → ResolveJob
  resolve_cancel_external : ℕ → Option Failure → ResolveJob
  resolve_signal_external : ℕ → Option Failure → ResolveJob

pub data Job : Type 0 where
  notify_has_patch : String → Job
  signal_workflow : SignalJob → Job
  do_update : UpdateJob → Job
  query_workflow : QueryJob → Job
  initialize_workflow : List Payload → Job
  fire_timer : ℕ → Job
  cancel_workflow : String → Job
  remove_from_cache : Job
  update_random_seed : ℕ → Job
  resolve : ResolveJob → Job

-- What an activity, a child workflow or a Nexus operation is started with. `options` are the fields
-- that go into the command as they are.
pub record ActivityInput : Type 0 where
  pub activity : String
  pub activity_id : Option String
  pub is_local : Bool
  pub args : List Value
  pub summary : Option Value
  pub start_to_close_timeout : Option ℕ
  pub schedule_to_close_timeout : Option ℕ
  pub options : ℕ

pub record ChildInput : Type 0 where
  pub id : String
  pub workflow : String
  pub args : List Value
  pub options : ℕ

pub record NexusInput : Type 0 where
  pub endpoint : String
  pub service : String
  pub operation : String
  pub argument : Value
  pub summary : Option Value
  pub options : ℕ

-- `ending` is none in a command that was left when its summary failed to convert: it then lacks the
-- summary and all that is set after it.
pub record ScheduleActivity : Type 0 where
  pub seq : ℕ
  pub activity_id : String
  pub input : ActivityInput
  pub arguments : List Payload
  pub ending : Option (Option Payload)
  pub attempt : Option ℕ

-- `ending` is as in `ScheduleActivity`.
pub record ScheduleNexus : Type 0 where
  pub seq : ℕ
  pub input : NexusInput
  pub payload : Payload
  pub ending : Option (Option Payload)

-- The commands that the modelled code adds to a completion. A failure is none while it is empty: so
-- it stays when its conversion raises.
pub data UpdateResponse : Type 0 where
  empty accepted : UpdateResponse
  completed : Payload → UpdateResponse
  rejected : Option Failure → UpdateResponse

pub data Command : Type 0 where
  start_timer : ℕ → ℤ → Command
  cancel_timer : ℕ → Command
  set_patch_marker : String → Bool → Command
  update_response : String → UpdateResponse → Command
  query_succeeded : String → Payload → Command
  query_failed : String → Option Failure → Command
  complete_workflow : Payload → Command
  fail_workflow : Option Failure → Command
  cancel_workflow_execution : Command
  continue_as_new : ℕ → Command
  schedule_activity : ScheduleActivity → Command
  request_cancel_activity request_cancel_local_activity : ℕ → Command
  schedule_nexus_operation : ScheduleNexus → Command
  request_cancel_nexus_operation : ℕ → Command

-- What a task runs.
pub data TaskBody : Type 0 where
  run_workflow : TaskBody
  run_signal : ℕ → SignalJob → TaskBody
  run_update : UpdateJob → TaskBody
  run_query : QueryJob → TaskBody
  user_task : ℕ → TaskBody
  run_activity : ActivityInput → TaskBody

-- What `call_soon` can put on the ready queue: a task's next step, the cancellation of a task, the
-- callback of a timer, any other callback.
pub data Callback : Type 0 where
  task_step : ℕ → Callback
  task_cancel : ℕ → Callback
  timer_callback : ℕ → Callback
  user_callback : ℕ → Callback

pub data FutureState : Type 0 where
  pending : FutureState
  finished : Value → FutureState
  failed : Exn → FutureState
  cancelled : FutureState

pub record Future : Type 0 where
  pub state : FutureState
  pub callbacks : List Callback

-- A handler's definition; `name` is none for a dynamic handler, `warns` is the policy
-- WARN_AND_ABANDON.
pub record Definition : Type 0 where
  pub name : Option String
  pub fn : ℕ
  pub validator : Option ℕ
  pub dynamic_vararg : Bool
  pub warns : Bool

pub record HandlerExecution : Type 0 where
  pub name : String
  pub warns : Bool
  pub id : Option String

-- The failure of a completion: not set yet; what an exception was converted to; or the message
-- "Failed converting activation exception: ", followed by the text of what the conversion raised.
pub data CompletionFailure : Type 0 where
  empty_failure : CompletionFailure
  converted : Failure → CompletionFailure
  failed_converting : String → CompletionFailure

-- A warning that `warnings.warn` is called with.
pub data HandlersWarning : Type 0 where
  unfinished_update_handlers : List HandlerExecution → HandlersWarning
  unfinished_signal_handlers : List HandlerExecution → HandlersWarning

-- `_ActivityHandle`, of which each is known by its task.
pub record ActivityHandle : Type 0 where
  pub seq : ℕ
  pub input : ActivityInput
  pub result_fut : ℕ
  pub started : Bool

-- `_ChildWorkflowHandle` and `_NexusOperationHandle`.
pub record ChildHandle : Type 0 where
  pub input : ChildInput
  pub start_fut : ℕ
  pub result_fut : ℕ
  pub first_execution_run_id : String

pub record NexusHandle : Type 0 where
  pub input : NexusInput
  pub start_fut : ℕ
  pub result_fut : ℕ

pub record Instance : Type 0 where
  pub defn_failure_types : List String
  pub worker_failure_types : List String
  pub dynamic_failure_types : Option (List String)
  pub default_flags : List ℕ
  pub primary_task : Option ℕ
  pub cancel_primary_task_pending : Bool
  pub cancel_reason : Option String
  pub time_ns : ℕ
  pub history_length : ℕ
  pub history_size : ℕ
  pub continue_as_new_suggested : Bool
  pub is_replaying : Bool
  pub internal_flags : List ℕ
  pub single_batch : Bool
  pub has_input : Bool
  pub has_object : Bool
  pub ready : List Callback
  pub conditions : List (ℕ × ℕ)
  pub futures : Dict ℕ Future
  pub tasks : Dict ℕ TaskBody
  pub next_task : ℕ
  pub next_future : ℕ
  pub pending_timers : Dict ℕ Callback
  pub activities : Dict ℕ ActivityHandle
  pub pending_activities : Dict ℕ ℕ
  pub children : Dict ℕ ChildHandle
  pub pending_child_workflows : Dict ℕ ℕ
  pub nexus_operations : Dict ℕ NexusHandle
  pub pending_nexus_operations : Dict ℕ ℕ
  pub pending_external_signals : Dict ℕ (ℕ × String)
  pub pending_external_cancels : Dict ℕ (ℕ × String)
  pub curr_seqs : Dict String ℕ
  pub seed : ℕ
  pub seed_callbacks : List ℕ
  pub read_only : Bool
  pub in_query_or_validator : Bool
  pub deleting : Bool
  pub patches_notified : List String
  pub patches_memoized : Dict String Bool
  pub signals : Dict (Option String) Definition
  pub queries : Dict (Option String) Definition
  pub updates : Dict (Option String) Definition
  pub handled_signals_seq : ℕ
  pub in_progress_signals : Dict ℕ HandlerExecution
  pub in_progress_updates : Dict String HandlerExecution
  pub buffered_signals : Dict String (List SignalJob)
  pub versioning_behavior : Option ℕ
  pub activation_error : Option Exn
  pub commands : List Command
  pub used_flags : List ℕ
  pub completion_failure : Option CompletionFailure
  pub completion_versioning : Option ℕ
  pub warned : List HandlersWarning
