-- ===== src/Instance/Update.antt =====
-- Updates in _workflow_instance.py: `run_update` of `_apply_do_update`, cut at its one await, the
-- handler: `begin_update` runs before it, `finish_update` after it.
pub mod Response
use sdk_python.Prelude.{
  ℕ, zero, suc, Bool, true, false, not, ◌||◌, Option, none, some, List, [], ◌∷◌, length, string_eq,
  option_eq, if◌then◌else◌,
}
use sdk_python.Prelude.Result.{Result, ok, err}
use sdk_python.Prelude.Dict.{insert, erase}
use sdk_python.Instance.Exn.{Exn, isinstance, runtime_error, cancelled_error}
use sdk_python.Instance.State.{
  Instance, Payload, Failure, Command, UpdateJob, UpdateResponse, empty, accepted, completed,
  rejected, update_response, Definition, run_update,
}
use sdk_python.Instance.Core.{Exec, pure, ◌>>=◌, ◌>>◌, add_command, as_read_only, create_task}
use sdk_python.Instance.Handlers.{Convert, HandlerArgs, named_or_dynamic, process_handler_args}
use sdk_python.Instance.Failure.{
  Outcome, returned, continues, raised, base_raised, is_failure_exception,
}

-- `command = self._add_command()`, an empty response to the update: its place among the commands.
unfoldable pub add_response : UpdateJob → Exec ℕ
unfolding add_command
add_response job s =
    (do add_command (update_response job.protocol_instance_id empty); pure (length s.commands)) s

-- The response at this place becomes `response`.
unfoldable pub set_response : ℕ → UpdateResponse → List Command → List Command
set_response place response [] = []
set_response zero response (update_response id _ ∷ commands) =
    update_response id response ∷ commands
set_response zero response (command ∷ commands) = command ∷ commands
set_response (suc place) response (command ∷ commands) =
    command ∷ set_response place response commands

unfoldable pub respond_with : ℕ → UpdateResponse → Instance → Instance
unfolding set_response
respond_with place response s = record s { commands = set_response place response s.commands }

unfoldable pub update_cancelled : Exn → Exn
unfolding isinstance cancelled_error
update_cancelled e =
    if isinstance e "asyncio.CancelledError"
    then cancelled_error "Cancellation raised within update"
    else e

-- `finally: self._in_progress_updates.pop(job.id, None)`
unfoldable pub leave : UpdateJob → Instance → Instance
leave job s = record s { in_progress_updates = erase job.id s.in_progress_updates }

-- How the first part of an update ends: it is over, or the handler runs.
pub data Begun : Type 0 where
  over : Result Exn (Unit {0}) → Begun
  runs_handler : HandlerArgs → Begun

-- `to_failure` and `to_payload` convert, and raise where they cannot.
module _ (to_failure : Exn → Result Exn Failure) where
  unfoldable pub reject_at : ℕ → Exn → Exec (Unit {0})
  unfolding respond_with
  reject_at place e s = elim (to_failure e) [
    | ok failure ↦ (ok tt, respond_with place (rejected (some failure)) s)
    | err inner ↦ (err inner, respond_with place (rejected none) s)
  ]

  -- `except (Exception, asyncio.CancelledError) as err`; `command` is the place of the response
  -- that is not yet given.
  unfoldable pub update_failed : UpdateJob → Bool → Option ℕ → Exn → Exec (Unit {0})
  unfolding update_cancelled isinstance is_failure_exception reject_at add_response
  update_failed job past_validation command e s =
      let e' = update_cancelled e in
      if isinstance e' "ReadOnlyContextError"
      then (ok tt, record s { activation_error = some e' })
      else if not past_validation || is_failure_exception e' s
      then (do
        place ← elim command [ none ↦ add_response job | some place ↦ pure place ]
        reject_at place e')
          s
      else (ok tt, record s { activation_error = some e' })

  -- The `except` clauses, whichever one applies.
  unfoldable pub update_raised :
      {A : Type 0} → UpdateJob → Bool → Option ℕ → Outcome A → Exec (Unit {0})
  unfolding update_failed
  update_raised job past_validation command (returned _) s = (ok tt, s)
  update_raised job past_validation command (continues _) s = (
    ok tt,
    record s {
      activation_error = some (runtime_error "Cannot continue as new from an update handler");
    },
  )
  update_raised job past_validation command (raised e) s =
      update_failed job past_validation command e s
  update_raised job past_validation command (base_raised e) s =
      if s.deleting then (ok tt, s) else (err e, s)

  -- `validate` is the user's validator, below the inbound interceptors.
  module _ (convert : Convert)
      (validate : ℕ → HandlerArgs → Instance → Outcome (Unit {0}) × Instance) where
    unfoldable pub update_args : UpdateJob → Definition → Outcome HandlerArgs
    unfolding process_handler_args
    update_args job defn = elim (process_handler_args convert job.name job.input defn) [
      | ok arguments ↦ returned arguments
      | err e ↦ raised e
    ]

    -- A validated update has its arguments made again.
    unfoldable pub after_validator :
        UpdateJob → Definition → Outcome (Unit {0}) → Outcome HandlerArgs
    unfolding update_args
    after_validator job defn (returned _) = update_args job defn
    after_validator job defn (continues info) = continues info
    after_validator job defn (raised e) = raised e
    after_validator job defn (base_raised e) = base_raised e

    unfoldable pub validated :
        UpdateJob → Definition → HandlerArgs → Instance → Outcome HandlerArgs × Instance
    unfolding after_validator as_read_only
    validated job defn args s = elim (if job.run_validator then defn.validator else none) [
      | none ↦ (returned args, s)
      | some fn ↦
          let r =
            as_read_only true
              (λ t. let v = validate fn args t in (ok (after_validator job defn v.0), v.1)) s in
          (elim r.0 [ ok o ↦ o | err e ↦ raised e ], r.1)
    ]

    -- What is tried before the update is accepted.
    unfoldable pub try_update : UpdateJob → Instance → Outcome HandlerArgs × Instance
    unfolding named_or_dynamic update_args validated
    try_update job s = elim (named_or_dynamic job.name s.updates) [
      | none ↦ (raised (runtime_error "Update handler expected but not found"), s)
      | some defn ↦
          let t = record s {
            in_progress_updates =
                insert job.id (record { name = job.name; warns = defn.warns; id = some job.id })
                  s.in_progress_updates;
          } in
          elim (update_args job defn) [
            | returned arguments ↦ validated job defn arguments t
            | continues info ↦ (continues info, t)
            | raised e ↦ (raised e, t)
            | base_raised e ↦ (base_raised e, t)
          ]
    ]

    -- The update is accepted, or one of the `except` clauses applies, and then `finally`.
    unfoldable pub after_try : UpdateJob → ℕ → Outcome HandlerArgs × Instance → Begun × Instance
    unfolding respond_with update_raised leave
    after_try job place (returned arguments, s) =
        (runs_handler arguments, respond_with place accepted s)
    after_try job place (continues info, s) =
        let r = update_raised {A = Unit {0}} job false (some place) (continues info) s in
        (over r.0, leave job r.1)
    after_try job place (raised e, s) =
        let r = update_raised {A = Unit {0}} job false (some place) (raised e) s in
        (over r.0, leave job r.1)
    after_try job place (base_raised e, s) =
        let r = update_raised {A = Unit {0}} job false (some place) (base_raised e) s in
        (over r.0, leave job r.1)

    -- `add_response` stands before the `try`.
    unfoldable pub begin_update : UpdateJob → Instance → Begun × Instance
    unfolding try_update after_try
    begin_update job s =
        let command = add_response job s in
        elim command.0 [
          | err e ↦ (over (err e), command.1)
          | ok place ↦ after_try job place (try_update job command.1)
        ]

  module _ (to_payload : ℕ → Result Exn Payload) where
    -- The last command, which is refused while the workflow is deleted.
    unfoldable pub complete_update : UpdateJob → ℕ → Exec (Unit {0})
    unfolding add_command update_failed
    complete_update job result s = elim (to_payload result) [
      | err e ↦ update_failed job true none e s
      | ok payload ↦
          let added =
            add_command (update_response job.protocol_instance_id (completed payload)) s in
          elim added.0 [
            | ok _ ↦ added
            | err e ↦ if s.deleting then (ok tt, s) else update_failed job true none e s
          ]
    ]

    unfoldable pub finish_update : UpdateJob → Outcome ℕ → Exec (Unit {0})
    unfolding complete_update update_raised leave
    finish_update job (returned result) s =
        let r = complete_update job result s in (r.0, leave job r.1)
    finish_update job (continues info) s =
        let r = update_raised {A = ℕ} job true none (continues info) s in (r.0, leave job r.1)
    finish_update job (raised e) s =
        let r = update_raised {A = ℕ} job true none (raised e) s in (r.0, leave job r.1)
    finish_update job (base_raised e) s =
        let r = update_raised {A = ℕ} job true none (base_raised e) s in (r.0, leave job r.1)

unfoldable pub apply_do_update : UpdateJob → Exec (Unit {0})
unfolding create_task
apply_do_update job = do create_task (run_update job); pure tt
