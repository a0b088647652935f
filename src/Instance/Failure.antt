-- ===== src/Instance/Failure.antt =====
-- How _workflow_instance.py decides what an exception means: the workflow is cancelled or fails, or
-- its task does.
use sdk_python.Prelude.{ℕ, Bool, true, false, not, ◌&&◌, ◌||◌, none, some, if◌then◌else◌}
use sdk_python.Prelude.Result.{Result, ok, err}
use sdk_python.Instance.Exn.{
  Exn, isinstance, is_any_of, is_cancelled_exception, value_error, cancelled_error,
}
use sdk_python.Instance.State.{
  Instance, Payload, Failure, fail_workflow, complete_workflow, cancel_workflow_execution,
  continue_as_new,
}
use sdk_python.Instance.Core.{Exec, raise, ◌>>◌, add_command}

-- How the code under a top-level function ends: it returns, it asks to continue as new, or it
-- raises an `Exception` or asyncio's `CancelledError`, or another `BaseException`.
pub data Outcome (A : Type 0) : Type 0 where
  returned : A → Outcome A
  continues : ℕ → Outcome A
  raised : Exn → Outcome A
  base_raised : Exn → Outcome A

-- `workflow_is_failure_exception`
unfoldable pub is_failure_exception : Exn → Instance → Bool
unfolding isinstance is_any_of
is_failure_exception e s =
    isinstance e "FailureError"
    || isinstance e "TimeoutError"
    || is_any_of e
        (elim s.dynamic_failure_types [ none ↦ s.defn_failure_types | some types ↦ types ])
    || is_any_of e s.worker_failure_types

-- All asyncio cancelled errors become Temporal cancelled errors.
unfoldable pub to_temporal_cancelled : Exn → Exn
unfolding isinstance cancelled_error
to_temporal_cancelled e =
    if isinstance e "asyncio.CancelledError" then cancelled_error e.message else e

-- `to_failure` is the failure converter. Converting comes after adding the command: where it
-- raises, the command stays, with an empty failure.
module _ (to_failure : Exn → Result Exn Failure) where
  unfoldable pub set_workflow_failure : Exn → Exec (Unit {0})
  unfolding add_command
  set_workflow_failure e = elim (to_failure e) [
    | ok failure ↦ add_command (fail_workflow (some failure))
    | err _ ↦ (do
      add_command (fail_workflow none)
      raise (value_error "Failed converting workflow exception"))
  ]

  -- The end of a top-level function by an exception that is not one of continuing as new.
  unfoldable pub fail_top_level : Exn → Exec (Unit {0})
  unfolding add_command set_workflow_failure is_failure_exception is_cancelled_exception
  fail_top_level e s =
      if elim s.cancel_reason [ none ↦ false | some _ ↦ true ] && is_cancelled_exception e
      then add_command cancel_workflow_execution s
      else if is_failure_exception e s
      then set_workflow_failure e s
      else (ok tt, record s { activation_error = some e })

  -- `_run_top_level_workflow_function`, from where its coroutine ends.
  unfoldable pub end_top_level : Outcome (Unit {0}) → Exec (Unit {0})
  unfolding fail_top_level to_temporal_cancelled add_command
  end_top_level (returned _) s = (ok tt, s)
  end_top_level (continues info) s = add_command (continue_as_new info) s
  end_top_level (raised e) s =
      if s.deleting then (ok tt, s) else fail_top_level (to_temporal_cancelled e) s
  end_top_level (base_raised e) s = (err e, s)

-- `run_workflow` of `_apply_initialize_workflow`, from where `execute_workflow` ends. Converting the
-- result gives the payload, or raises.
module _ (to_payload : ℕ → Result Exn Payload) where
  -- `except Exception`, for an error of the wrapper's own
  unfoldable pub wrapper_raised : Exn → Instance → Outcome (Unit {0})
  unfolding isinstance
  wrapper_raised e s =
      if not (isinstance e "Exception")
      then base_raised e
      else if s.deleting
      then returned tt
      else raised e

  unfoldable pub complete_with : ℕ → Instance → Outcome (Unit {0}) × Instance
  unfolding add_command wrapper_raised
  complete_with result s = elim (to_payload result) [
    | err e ↦ (wrapper_raised e s, s)
    | ok payload ↦
        let added = add_command (complete_workflow payload) s in
        (elim added.0 [ ok _ ↦ returned tt | err e ↦ wrapper_raised e s ], added.1)
  ]
