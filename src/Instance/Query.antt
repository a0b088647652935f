-- ===== src/Instance/Query.antt =====
-- Queries in _workflow_instance.py: `run_query` of `_apply_query_workflow`, for a handler that ends
-- without waiting.
use sdk_python.Prelude.{ℕ, true, none, some, if◌then◌else◌}
use sdk_python.Prelude.Result.{Result, ok, err}
use sdk_python.Instance.Exn.{Exn, isinstance, runtime_error, value_error}
use sdk_python.Instance.State.{Payload, Failure, QueryJob, query_succeeded, query_failed, run_query}
use sdk_python.Instance.Core.{
  Exec, pure, raise, ◌>>=◌, ◌>>◌, add_command, as_read_only, create_task,
}
use sdk_python.Instance.Handlers.{Convert, HandlerArgs, named_or_dynamic, process_handler_args}

-- The converters, and the user's handler below the inbound interceptors.
module _ (to_failure : Exn → Result Exn Failure) (to_payload : ℕ → Result Exn Payload)
    (convert : Convert) (handle : ℕ → HandlerArgs → Exec ℕ) where
  -- The read-only part: the payload of the answer.
  unfoldable pub answer_query : QueryJob → Exec Payload
  unfolding named_or_dynamic process_handler_args
  answer_query job s = elim (named_or_dynamic job.query_type s.queries) [
    | none ↦ (err (runtime_error "Query handler expected but not found"), s)
    | some defn ↦
        (do
          args ← λ t. (process_handler_args convert job.query_type job.arguments defn, t)
          success ← handle defn.fn args
          λ t. (to_payload success, t))
          s
  ]

  -- `except Exception as err`
  unfoldable pub fail_query : QueryJob → Exn → Exec (Unit {0})
  unfolding add_command
  fail_query job e = elim (to_failure e) [
    | ok failure ↦ add_command (query_failed job.query_id (some failure))
    | err _ ↦ (do
      add_command (query_failed job.query_id none)
      raise (value_error "Failed converting application error"))
  ]

  unfoldable pub try_query : QueryJob → Exec (Unit {0})
  unfolding answer_query as_read_only add_command
  try_query job = do
    payload ← as_read_only true (answer_query job)
    add_command (query_succeeded job.query_id payload)

  unfoldable pub query_task : QueryJob → Exec (Unit {0})
  unfolding try_query fail_query isinstance
  query_task job s =
      let tried = try_query job s in
      elim tried.0 [
        | ok _ ↦ tried
        | err e ↦ if isinstance e "Exception" then fail_query job e tried.1 else tried
      ]

unfoldable pub apply_query_workflow : QueryJob → Exec (Unit {0})
unfolding create_task
apply_query_workflow job = do create_task (run_query job); pure tt
