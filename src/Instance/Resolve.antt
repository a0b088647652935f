-- ===== src/Instance/Resolve.antt =====
-- The jobs of _workflow_instance.py that resolve child workflows, Nexus operations and requests to
-- external workflows, and the handles that they resolve, known by their tasks.
pub mod Phases
pub mod Pending
pub mod Start
use sdk_python.Prelude.{ℕ, String, Bool, true, false, Option, none, some, nat_eq, if◌then◌else◌}
use sdk_python.Prelude.Result.{Result, ok, err}
use sdk_python.Prelude.Dict.{lookup, insert, erase}
use sdk_python.Instance.Exn.{Exn, runtime_error, value_error}
use sdk_python.Instance.State.{
  Instance, Payload, Failure, Value, ChildInput, ChildHandle, ChildResult, child_completed,
  child_failed, child_cancelled, no_child_result, ChildStart, child_started, child_start_failed,
  child_start_cancelled, no_child_start, NexusInput, NexusHandle, NexusResult, nexus_completed,
  nexus_failed, nexus_cancelled, nexus_timed_out, no_nexus_result, NexusStart, nexus_started,
  nexus_started_sync, nexus_start_failed, no_nexus_start, ResolveJob, resolve_activity,
  resolve_child_start, resolve_child, resolve_nexus_start, resolve_nexus, resolve_cancel_external,
  resolve_signal_external, finished, failed,
}
use sdk_python.Instance.Core.{Exec, pure, raise, modify, ◌>>=◌, ◌>>◌, future_done, complete_future}
use sdk_python.Instance.Activities.{ActivityLibrary, lift, apply_resolve_activity}

-- The converters, in the context of what was started, and the values that the code makes:
-- `already_started` is a `WorkflowAlreadyStartedError`.
pub record ResolveLibrary : Type 0 where
  pub activities : ActivityLibrary
  pub child_value : ChildInput → Payload → Result Exn Value
  pub child_failure : ChildInput → Failure → Result Exn Exn
  pub nexus_value : NexusInput → Payload → Result Exn Value
  pub nexus_failure : NexusInput → Failure → Result Exn Exn
  pub external_failure : (workflow_id : String) → Failure → Result Exn Exn
  pub none_value : Value
  pub token_value : String → Value
  pub already_started : (workflow_id workflow_type : String) → Exn

-- `_resolve_failure`, which child workflows and Nexus operations have alike: the failure goes to the
-- start if that is not done, and then the result is none.
unfoldable pub resolve_failure : Value → (start_fut result_fut : ℕ) → Exn → Exec (Unit {0})
unfolding future_done complete_future
resolve_failure none_value start_fut result_fut e s =
    if future_done start_fut s
    then complete_future result_fut (failed e) s
    else (do complete_future start_fut (failed e); complete_future result_fut (finished none_value))
        s

module _ (lib : ResolveLibrary) where
  unfoldable pub fail_child : ChildHandle → Exn → Exec (Unit {0})
  unfolding resolve_failure
  fail_child h e = resolve_failure lib.none_value h.start_fut h.result_fut e

  unfoldable pub fail_nexus : NexusHandle → Exn → Exec (Unit {0})
  unfolding resolve_failure
  fail_nexus h e = resolve_failure lib.none_value h.start_fut h.result_fut e

  unfoldable pub child_failed_with : ChildHandle → Failure → Exec (Unit {0})
  unfolding lift fail_child
  child_failed_with h f = do e ← lift (lib.child_failure h.input f); fail_child h e

  unfoldable pub nexus_failed_with : NexusHandle → Failure → Exec (Unit {0})
  unfolding lift fail_nexus
  nexus_failed_with h f = do e ← lift (lib.nexus_failure h.input f); fail_nexus h e

  unfoldable pub resolve_child_with : ChildResult → ChildHandle → Exec (Unit {0})
  unfolding lift complete_future child_failed_with
  resolve_child_with (child_completed none) h =
      complete_future h.result_fut (finished lib.none_value)
  resolve_child_with (child_completed (some p)) h = do
    v ← lift (lib.child_value h.input p)
    complete_future h.result_fut (finished v)
  resolve_child_with (child_failed f) h = child_failed_with h f
  resolve_child_with (child_cancelled f) h = child_failed_with h f
  resolve_child_with no_child_result h = raise (runtime_error "Child workflow did not have result")

  -- `_apply_resolve_child_workflow_execution`. Every handle is in the table.
  unfoldable pub apply_resolve_child : ℕ → ChildResult → Exec (Unit {0})
  unfolding resolve_child_with
  apply_resolve_child seq result s = elim (lookup seq s.pending_child_workflows) [
    | none ↦ (err (runtime_error "Failed finding child workflow handle for sequence"), s)
    | some task ↦
        let t = record s { pending_child_workflows = erase seq s.pending_child_workflows } in
        (elim (lookup task s.children) [
          | none ↦ (ok tt, t)
          | some h ↦ resolve_child_with result h t
        ])
  ]

  unfoldable pub pop_child : ℕ → Exec (Unit {0})
  pop_child seq =
      modify λ s. record s { pending_child_workflows = erase seq s.pending_child_workflows }

  unfoldable pub start_child_with : ℕ → ℕ → ChildStart → ChildHandle → Exec (Unit {0})
  unfolding complete_future fail_child child_failed_with pop_child
  start_child_with seq task (child_started run_id) h = do
    modify λ s. record s {
      children = insert task (record h { first_execution_run_id = run_id }) s.children;
    }
    complete_future h.start_fut (finished lib.none_value)
  start_child_with seq task (child_start_failed workflow_id workflow_type already_exists) h = do
    pop_child seq
    fail_child h (
        if already_exists
        then lib.already_started workflow_id workflow_type
        else runtime_error "Unknown child start fail cause")
  start_child_with seq task (child_start_cancelled f) h = do pop_child seq; child_failed_with h f
  start_child_with seq task no_child_start h =
      raise (runtime_error "Child workflow start did not have a known status")

  -- `_apply_resolve_child_workflow_execution_start`
  unfoldable pub apply_resolve_child_start : ℕ → ChildStart → Exec (Unit {0})
  unfolding start_child_with
  apply_resolve_child_start seq start s = elim (lookup seq s.pending_child_workflows) [
    | none ↦ (err (runtime_error "Failed finding child workflow handle for sequence"), s)
    | some task ↦ (elim (lookup task s.children) [
      | none ↦ (ok tt, s)
      | some h ↦ start_child_with seq task start h s
    ])
  ]

  unfoldable pub start_nexus_with : ℕ → NexusStart → NexusHandle → Exec (Unit {0})
  unfolding complete_future nexus_failed_with
  start_nexus_with seq (nexus_started token) h =
      complete_future h.start_fut (finished (lib.token_value token))
  start_nexus_with seq nexus_started_sync h = complete_future h.start_fut (finished lib.none_value)
  start_nexus_with seq (nexus_start_failed f) h = do
    modify λ s. record s { pending_nexus_operations = erase seq s.pending_nexus_operations }
    nexus_failed_with h f
  start_nexus_with seq no_nexus_start h = raise (value_error "Unknown Nexus operation start status")

  -- `_apply_resolve_nexus_operation_start`
  unfoldable pub apply_resolve_nexus_start : ℕ → NexusStart → Exec (Unit {0})
  unfolding start_nexus_with
  apply_resolve_nexus_start seq start s = elim (lookup seq s.pending_nexus_operations) [
    | none ↦ (err (runtime_error "Failed to find nexus operation handle for job"), s)
    | some task ↦ (elim (lookup task s.nexus_operations) [
      | none ↦ (ok tt, s)
      | some h ↦ start_nexus_with seq start h s
    ])
  ]

  unfoldable pub resolve_nexus_with : NexusResult → NexusHandle → Exec (Unit {0})
  unfolding lift complete_future nexus_failed_with
  resolve_nexus_with (nexus_completed p) h = do
    v ← lift (lib.nexus_value h.input p)
    complete_future h.result_fut (finished v)
  resolve_nexus_with (nexus_failed f) h = nexus_failed_with h f
  resolve_nexus_with (nexus_cancelled f) h = nexus_failed_with h f
  resolve_nexus_with (nexus_timed_out f) h = nexus_failed_with h f
  resolve_nexus_with no_nexus_result h =
      raise (runtime_error "Nexus operation did not have a result")

  -- `_apply_resolve_nexus_operation`: of an operation that is resolved already there is nothing to do.
  unfoldable pub apply_resolve_nexus : ℕ → NexusResult → Exec (Unit {0})
  unfolding resolve_nexus_with
  apply_resolve_nexus seq result s = elim (lookup seq s.pending_nexus_operations) [
    | none ↦ (ok tt, s)
    | some task ↦
        let t = record s { pending_nexus_operations = erase seq s.pending_nexus_operations } in
        (elim (lookup task s.nexus_operations) [
          | none ↦ (ok tt, t)
          | some h ↦ resolve_nexus_with result h t
        ])
  ]

  unfoldable pub resolve_external : ℕ → String → Option Failure → Exec (Unit {0})
  unfolding lift complete_future
  resolve_external fut workflow_id none = complete_future fut (finished lib.none_value)
  resolve_external fut workflow_id (some f) = do
    e ← lift (lib.external_failure workflow_id f)
    complete_future fut (failed e)

  -- `_apply_resolve_request_cancel_external_workflow`
  unfoldable pub apply_resolve_cancel_external : ℕ → Option Failure → Exec (Unit {0})
  unfolding resolve_external
  apply_resolve_cancel_external seq failure s = elim (lookup seq s.pending_external_cancels) [
    | none ↦ (err (runtime_error "Failed finding pending external cancel for sequence"), s)
    | some (fut, workflow_id) ↦
        resolve_external fut workflow_id failure
          (record s { pending_external_cancels = erase seq s.pending_external_cancels })
  ]

  -- `_apply_resolve_signal_external_workflow`
  unfoldable pub apply_resolve_signal_external : ℕ → Option Failure → Exec (Unit {0})
  unfolding resolve_external
  apply_resolve_signal_external seq failure s = elim (lookup seq s.pending_external_signals) [
    | none ↦ (err (runtime_error "Failed finding pending external signal for sequence"), s)
    | some (fut, workflow_id) ↦
        resolve_external fut workflow_id failure
          (record s { pending_external_signals = erase seq s.pending_external_signals })
  ]

  unfoldable pub apply_resolve : ResolveJob → Exec (Unit {0})
  unfolding apply_resolve_activity apply_resolve_child_start apply_resolve_child
      apply_resolve_nexus_start apply_resolve_nexus apply_resolve_cancel_external
      apply_resolve_signal_external
  apply_resolve (resolve_activity seq result) = apply_resolve_activity lib.activities seq result
  apply_resolve (resolve_child_start seq start) = apply_resolve_child_start seq start
  apply_resolve (resolve_child seq result) = apply_resolve_child seq result
  apply_resolve (resolve_nexus_start seq start) = apply_resolve_nexus_start seq start
  apply_resolve (resolve_nexus seq result) = apply_resolve_nexus seq result
  apply_resolve (resolve_cancel_external seq failure) = apply_resolve_cancel_external seq failure
  apply_resolve (resolve_signal_external seq failure) = apply_resolve_signal_external seq failure
