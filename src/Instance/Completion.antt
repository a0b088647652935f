-- ===== src/Instance/Completion.antt =====
-- The end of `activate` of _workflow_instance.py: what goes into the completion, and the warning of
-- handlers that are unfinished.
use sdk_python.Prelude.{
  Bool, true, false, not, ◌&&◌, ◌||◌, Option, none, some, List, [], ◌∷◌, ◌++◌, if◌then◌else◌,
}
use sdk_python.Prelude.Result.{Result, ok, err}
use sdk_python.Prelude.Dict.{Dict}
use sdk_python.Instance.Exn.{Exn, isinstance, runtime_error}
use sdk_python.Instance.State.{
  Instance, Failure, Command, complete_workflow, continue_as_new, fail_workflow,
  cancel_workflow_execution, HandlerExecution, HandlersWarning, unfinished_update_handlers,
  unfinished_signal_handlers, CompletionFailure, empty_failure, converted, failed_converting,
}
use sdk_python.Instance.Core.{Exec, modify, ◌>>◌}

no_tasks : Instance → Bool
no_tasks s = elim s.tasks [ [] ↦ true | _ ∷ _ ↦ false ]

-- A completion holds a success or a failure: setting the failure drops the commands and flags.
unfoldable pub fail_completion : CompletionFailure → Instance → Instance
fail_completion failure s = record s {
  commands = [];
  used_flags = [];
  completion_versioning = none;
  completion_failure = some failure;
}

unfoldable pub is_completion : Command → Bool
is_completion (complete_workflow _) = true
is_completion (continue_as_new _) = true
is_completion (fail_workflow _) = true
is_completion cancel_workflow_execution = true
is_completion _ = false

unfoldable pub any_completion : List Command → Bool
unfolding is_completion
any_completion [] = false
any_completion (command ∷ commands) = is_completion command || any_completion commands

unfoldable pub warnable : {K : Type 0} → Dict K HandlerExecution → List HandlerExecution
warnable [] = []
warnable ((_, execution) ∷ executions) =
    let rest = warnable executions in if execution.warns then execution ∷ rest else rest

warn_of : (List HandlerExecution → HandlersWarning) → List HandlerExecution → List HandlersWarning
warn_of warning [] = []
warn_of warning (execution ∷ executions) = warning (execution ∷ executions) ∷ []

-- `warned` collects the warnings; one that is made an error, by a filter of the user's, is not
-- modelled.
unfoldable pub warn_if_unfinished_handlers : Instance → Instance
unfolding warnable warn_of
warn_if_unfinished_handlers s = record s {
  warned =
      s.warned
      ++ warn_of unfinished_update_handlers (warnable s.in_progress_updates)
      ++ warn_of unfinished_signal_handlers (warnable s.in_progress_signals);
}

unfoldable pub warn_at_completion : Instance → Instance
unfolding any_completion warn_if_unfinished_handlers
warn_at_completion s = if any_completion s.commands then warn_if_unfinished_handlers s else s

-- `to_failure` is the failure converter; what it has written of a failure when it raises is not
-- modelled, but for the message.
module _ (to_failure : Exn → Result Exn Failure) where
  unfoldable pub convert_failure : Exn → Exec (Unit {0})
  unfolding fail_completion isinstance
  convert_failure e s = elim (to_failure e) [
    | ok failure ↦ (ok tt, fail_completion (converted failure) s)
    | err inner ↦
        if isinstance inner "Exception"
        then (ok tt, fail_completion (failed_converting inner.message) s)
        else (err inner, fail_completion empty_failure s)
  ]

  unfoldable pub set_completion_failure : Option Exn → Exec (Unit {0})
  unfolding convert_failure
  set_completion_failure none s = (ok tt, s)
  set_completion_failure (some e) s = convert_failure e s

  unfoldable pub complete_activation : Option Exn → Exec (Unit {0})
  unfolding no_tasks set_completion_failure warn_at_completion
  complete_activation error s =
      let t = record s { completion_versioning = s.versioning_behavior } in
      if s.deleting && not (no_tasks s)
      then (err (runtime_error "Eviction processed, but tasks remain."), t)
      else (do set_completion_failure error; modify warn_at_completion) t
