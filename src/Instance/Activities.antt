-- ===== src/Instance/Activities.antt =====
-- The activities of _workflow_instance.py: their handles, the commands that schedule and cancel them,
-- and the job that resolves them. A handle is known by its task.
pub mod Backoff
pub mod Wakes
pub mod Start
use sdk_python.Prelude.{
  ℕ, suc, String, Bool, true, false, not, ◌&&◌, Option, none, some, List, [], ◌∷◌, ◌++◌, nat_eq,
  string_eq, ◌==◌, if◌then◌else◌,
}
use sdk_python.Prelude.Result.{Result, ok, err}
use sdk_python.Prelude.Dict.{lookup, insert, erase}
use sdk_python.Instance.Exn.{Exn, runtime_error, value_error}
use sdk_python.Instance.State.{
  Instance, Payload, Failure, Value, Command, ActivityInput, ScheduleActivity, schedule_activity,
  request_cancel_activity, request_cancel_local_activity, ActivityHandle, ActivityResult,
  activity_completed, activity_failed, activity_cancelled, activity_backoff, no_activity_result,
  FutureState, finished, failed, task_step, run_activity,
}
use sdk_python.Instance.Core.{
  Exec, pure, raise, modify, ◌>>=◌, ◌>>◌, assert_not_read_only, add_command, next_seq, call_soon,
  register_task, create_future, complete_future,
}

-- What the handles call elsewhere: the converters, in the context of the activity, `str`, and what
-- asyncio's tasks know and do. `backoff_error` is an `_ActivityDoBackoffError` of an attempt.
pub record ActivityLibrary : Type 0 where
  pub to_payloads : ActivityInput → List Value → Result Exn (List Payload)
  pub to_payload : ActivityInput → Value → Result Exn Payload
  pub from_payload : ActivityInput → Payload → Result Exn Value
  pub from_failure : ActivityInput → Failure → Result Exn Exn
  pub none_value : Value
  pub backoff_error : (attempt : ℕ) → Exn
  pub str : ℕ → String
  pub task_done : ℕ → Instance → Bool
  pub cancel_task : ℕ → Exec Bool

-- A result that may be raised.
unfoldable pub lift {ℓ} : {A : Type ℓ} → Result Exn A → Exec A
lift r s = (r, s)

-- `not timeout`
unfoldable pub no_time : Option ℕ → Bool
no_time none = true
no_time (some n) = n == 0

unfoldable pub set_activity : ℕ → ActivityHandle → Exec (Unit {0})
set_activity task h = modify λ s. record s { activities = insert task h s.activities }

module _ (lib : ActivityLibrary) where
  -- What a method of the handle does; every handle is in the table.
  unfoldable pub with_activity : ℕ → (ActivityHandle → Exec (Unit {0})) → Exec (Unit {0})
  with_activity task f s = elim (lookup task s.activities) [ none ↦ (ok tt, s) | some h ↦ f h s ]

  -- `_ActivityHandle.__init__`
  unfoldable pub new_activity_handle : ActivityInput → Exec ℕ
  unfolding call_soon next_seq create_future register_task set_activity
  new_activity_handle input s =
      let task = s.next_task in
      (do
        call_soon (task_step task)
        seq ← next_seq "activity"
        fut ← create_future
        register_task task (run_activity input)
        set_activity task (record { seq = seq; input = input; result_fut = fut; started = false })
        pure task)
        (record s { next_task = suc task })

  unfoldable pub convert_args : ActivityInput → Result Exn (List Payload)
  convert_args input = elim input.args [ [] ↦ ok [] | v ∷ vs ↦ lib.to_payloads input (v ∷ vs) ]

  unfoldable pub convert_summary : ActivityInput → Result Exn (Option Payload)
  convert_summary input = elim input.summary [
    | none ↦ ok none
    | some summary ↦ (elim (lib.to_payload input summary) [ ok p ↦ ok (some p) | err e ↦ err e ])
  ]

  unfoldable pub activity_id_of : ActivityHandle → String
  activity_id_of h = elim h.input.activity_id [
    | none ↦ lib.str h.seq
    | some id ↦ if id == "" then lib.str h.seq else id
  ]

  -- The command, with the payloads of its arguments. Only a local activity takes the attempt of a
  -- backoff.
  unfoldable pub schedule_of :
      ActivityHandle → List Payload → Option (Option Payload) → Option ℕ → Command
  unfolding activity_id_of
  schedule_of h arguments ending backoff = schedule_activity (record {
    seq = h.seq;
    activity_id = activity_id_of h;
    input = h.input;
    arguments = arguments;
    ending = ending;
    attempt = if h.input.is_local then backoff else none;
  })

  -- `_apply_schedule_command`. The summary is converted when the command has been added.
  unfoldable pub apply_schedule_command : Option ℕ → ActivityHandle → Exec (Unit {0})
  unfolding lift convert_args convert_summary add_command schedule_of
  apply_schedule_command backoff h = do
    payloads ← lift (convert_args h.input)
    elim (convert_summary h.input) [
      | ok summary ↦ add_command (schedule_of h payloads (some summary) backoff)
      | err e ↦ (do add_command (schedule_of h payloads none backoff); raise e)
    ]

  unfoldable pub apply_cancel_command : ActivityHandle → Exec (Unit {0})
  unfolding add_command
  apply_cancel_command h = add_command (
      if h.input.is_local
      then request_cancel_local_activity h.seq
      else request_cancel_activity h.seq)

  unfoldable pub set_pending : ℕ → ActivityHandle → Exec (Unit {0})
  set_pending task h =
      modify λ s. record s { pending_activities = insert h.seq task s.pending_activities }

  -- Scheduling, and putting the handle under its number, as `_outbound_schedule_activity` does at
  -- first and `run_activity` after a backoff.
  unfoldable pub schedule_pending : Option ℕ → ℕ → Exec (Unit {0})
  unfolding apply_schedule_command set_pending with_activity
  schedule_pending backoff task =
      with_activity task λ h. do apply_schedule_command backoff h; set_pending task h

  -- `_outbound_schedule_activity`
  unfoldable pub start_activity : ActivityInput → Exec ℕ
  unfolding new_activity_handle schedule_pending no_time
  start_activity input =
      if no_time input.start_to_close_timeout && no_time input.schedule_to_close_timeout
      then raise
          (value_error "Activity must have start_to_close_timeout or schedule_to_close_timeout")
      else (do task ← new_activity_handle input; schedule_pending none task; pure task)

  -- `run_activity`, at the head of its loop.
  unfoldable pub mark_started : ℕ → Exec (Unit {0})
  unfolding with_activity set_activity
  mark_started task = with_activity task λ h. set_activity task (record h { started = true })

  -- A handle that is not started sends the cancellation itself, as its code will not run to do so.
  unfoldable pub cancel_unstarted : ℕ → Exec (Unit {0})
  unfolding apply_cancel_command with_activity
  cancel_unstarted task = with_activity task λ h t.
      if not h.started && not (lib.task_done task t) then apply_cancel_command h t else (ok tt, t)

  unfoldable pub cancel_live : ℕ → Exec Bool
  unfolding assert_not_read_only cancel_unstarted
  cancel_live task = do
    assert_not_read_only "cancel activity handle" false
    cancel_unstarted task
    lib.cancel_task task

  -- `cancel`: an eviction cancels the task and sends nothing.
  unfoldable pub cancel_activity : ℕ → Exec Bool
  unfolding cancel_live
  cancel_activity task s = (if s.deleting then lib.cancel_task task else cancel_live task) s

  unfoldable pub resolve_success : Value → ActivityHandle → Exec (Unit {0})
  unfolding complete_future
  resolve_success v h = complete_future h.result_fut (finished v)

  unfoldable pub resolve_failure : Exn → ActivityHandle → Exec (Unit {0})
  unfolding complete_future
  resolve_failure e h = if h.started then complete_future h.result_fut (failed e) else pure tt

  unfoldable pub resolve_backoff : ℕ → (attempt : ℕ) → ActivityHandle → Exec (Unit {0})
  unfolding next_seq set_activity complete_future create_future
  resolve_backoff task attempt h = do
    seq ← next_seq "activity"
    set_activity task (record h { seq = seq })
    complete_future h.result_fut (failed (lib.backoff_error attempt))
    fut ← create_future
    set_activity task (record h { seq = seq; result_fut = fut; started = false })

  -- What a job says of the activity's handle.
  unfoldable pub resolve_with : ℕ → ActivityResult → ActivityHandle → Exec (Unit {0})
  unfolding lift resolve_success resolve_failure resolve_backoff
  resolve_with task (activity_completed none) h = resolve_success lib.none_value h
  resolve_with task (activity_completed (some p)) h = do
    v ← lift (lib.from_payload h.input p)
    resolve_success v h
  resolve_with task (activity_failed f) h = do
    e ← lift (lib.from_failure h.input f)
    resolve_failure e h
  resolve_with task (activity_cancelled f) h = do
    e ← lift (lib.from_failure h.input f)
    resolve_failure e h
  resolve_with task (activity_backoff attempt) h = resolve_backoff task attempt h
  resolve_with task no_activity_result h = raise (runtime_error "Activity did not have result")

  -- `_apply_resolve_activity`
  unfoldable pub apply_resolve_activity : ℕ → ActivityResult → Exec (Unit {0})
  unfolding resolve_with with_activity
  apply_resolve_activity seq result s = elim (lookup seq s.pending_activities) [
    | none ↦ (err (runtime_error "Failed finding activity handle for sequence"), s)
    | some task ↦
        with_activity task (resolve_with task result)
          (record s { pending_activities = erase seq s.pending_activities })
  ]
