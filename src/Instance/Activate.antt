-- ===== src/Instance/Activate.antt =====
-- `activate` of _workflow_instance.py: the jobs of an activation are sorted, applied and followed by
-- runs of the event loop, and errors go into the completion.
pub mod Jobs
use sdk_python.Prelude.{
  ℕ, String, Bool, true, false, not, ◌&&◌, ◌||◌, Option, none, some, List, [], ◌∷◌, ◌++◌,
  if◌then◌else◌,
}
use sdk_python.Prelude.Result.{Result, ok, err}
use sdk_python.Prelude.Dict.{Dict}
use sdk_python.Instance.Exn.{Exn, isinstance, runtime_error, assertion_error}
use sdk_python.Instance.State.{
  Instance, Failure, Job, notify_has_patch, signal_workflow, do_update, query_workflow,
  initialize_workflow, fire_timer, cancel_workflow, remove_from_cache, update_random_seed, resolve,
  Payload, TaskBody, run_workflow, task_cancel, Callback, Value, Command, complete_workflow,
  continue_as_new, fail_workflow, cancel_workflow_execution, HandlerExecution, HandlersWarning,
  unfinished_update_handlers, unfinished_signal_handlers, CompletionFailure, empty_failure,
  converted, failed_converting,
}
use sdk_python.Instance.Core.{
  Exec, pure, raise, modify, ◌>>=◌, ◌>>◌, call_soon, create_task, workflow_logic_flag_enabled,
}
use sdk_python.Instance.Handlers.{Convert, apply_signal_workflow}
use sdk_python.Instance.Update.{apply_do_update}
use sdk_python.Instance.Query.{apply_query_workflow}
use sdk_python.Instance.Completion.{complete_activation}
use sdk_python.Instance.Failure.{is_failure_exception, set_workflow_failure}
use sdk_python.Instance.Loop.{run_once}
use sdk_python.Instance.Resolve.{ResolveLibrary, apply_resolve}
use sdk_python.Instance.Timers
use sdk_python.Instance.Patch

-- The fields of an activation that are read.
pub record Activation : Type 0 where
  pub history_length : ℕ
  pub history_size : ℕ
  pub continue_as_new_suggested : Bool
  pub time_ns : ℕ
  pub is_replaying : Bool
  pub available_internal_flags : List ℕ
  pub jobs : List Job

-- Patches; signals and updates; other jobs; queries.
pub record JobSets : Type 0 where
  pub patches : List Job
  pub messages : List Job
  pub others : List Job
  pub queries : List Job

pub data JobClass : Type 0 where
  patch message other query : JobClass

unfoldable pub class_of : Job → JobClass
class_of (notify_has_patch _) = patch
class_of (signal_workflow _) = message
class_of (do_update _) = message
class_of (query_workflow _) = query
class_of _ = other

unfoldable pub add_job : JobClass → Job → JobSets → JobSets
add_job patch job sets = record sets { patches = job ∷ sets.patches }
add_job message job sets = record sets { messages = job ∷ sets.messages }
add_job query job sets = record sets { queries = job ∷ sets.queries }
add_job other job sets = record sets { others = job ∷ sets.others }

unfoldable pub job_sets : List Job → JobSets
unfolding class_of add_job
job_sets [] = record { patches = []; messages = []; others = []; queries = [] }
job_sets (job ∷ jobs) = add_job (class_of job) job (job_sets jobs)

unfoldable pub any_job : List Job → Bool
any_job [] = false
any_job (_ ∷ _) = true

-- `not job_sets[3] or not any(job_sets[:3])`
unfoldable pub queries_alone : JobSets → Bool
unfolding any_job
queries_alone sets =
    not (any_job sets.queries)
    || not (any_job sets.patches || any_job sets.messages || any_job sets.others)

-- Whether some job starts the workflow.
unfoldable pub has_start : List Job → Bool
has_start [] = false
has_start (initialize_workflow _ ∷ jobs) = true
has_start (_ ∷ jobs) = has_start jobs

unfoldable pub apply_cancel_workflow : String → Exec (Unit {0})
unfolding call_soon
apply_cancel_workflow reason s =
    let t = record s { cancel_reason = some reason } in
    elim s.primary_task [
      | some task ↦ call_soon (task_cancel task) t
      | none ↦
          (ok tt, if s.single_batch then record t { cancel_primary_task_pending = true } else t)
    ]

unfoldable pub apply_pending_cancel : ℕ → Exec (Unit {0})
unfolding call_soon
apply_pending_cancel task s =
    if s.cancel_primary_task_pending
    then call_soon (task_cancel task) (record s { cancel_primary_task_pending = false })
    else (ok tt, s)

unfoldable pub apply_initialize_workflow : Exec (Unit {0})
unfolding create_task apply_pending_cancel
apply_initialize_workflow s =
    if s.has_input
    then (do
      task ← create_task run_workflow
      modify (λ t. record t { primary_task = some task })
      apply_pending_cancel task)
        s
    else (err (runtime_error "Expected workflow input to be set. This is an SDK Python bug."), s)

-- A callback's errors are ignored; what else callbacks do is the user's.
unfoldable pub apply_update_random_seed : ℕ → Instance → Instance
apply_update_random_seed randomness_seed s = record s { seed = randomness_seed }

-- What a run of jobs comes to; none is out of fuel.
abbrev pub Ran : Type 0
Ran = Option (Result Exn (Unit {0}) × Instance)

unfoldable pub and_then : Ran → (Instance → Ran) → Ran
and_then none next = none
and_then (some (err e, s)) next = some (err e, s)
and_then (some (ok _, s)) next = next s

-- The new completion and the fields of the activation.
unfoldable pub begin_activation : Activation → Instance → Instance
unfolding workflow_logic_flag_enabled
begin_activation act s =
    let t = record s {
      commands = [];
      used_flags = [];
      completion_failure = none;
      completion_versioning = none;
      activation_error = none;
      history_length = act.history_length;
      history_size = act.history_size;
      continue_as_new_suggested = act.continue_as_new_suggested;
      time_ns = act.time_ns;
      is_replaying = act.is_replaying;
      internal_flags = act.available_internal_flags;
    } in
    let flag = workflow_logic_flag_enabled 2 t in record flag.1 { single_batch = flag.0 }

-- An eviction swallows an `Exception`; what else is raised is let through.
unfoldable pub left_over : Result Exn (Unit {0}) × Instance → Result Exn (Option Exn) × Instance
unfolding isinstance
left_over (ok _, s) = (ok none, s)
left_over (err e, s) =
    (if not (isinstance e "Exception") then err e else ok (if s.deleting then none else some e), s)

module _ (to_failure : Exn → Result Exn Failure) where
  -- Some errors fail the workflow, not its task. An error that is not an `Exception` is let through.
  unfoldable pub fail_or_raise : Exn → Exec (Unit {0})
  unfolding set_workflow_failure
  fail_or_raise e s =
      if isinstance e "Exception" && is_failure_exception e s
      then set_workflow_failure to_failure e s
      else (err e, s)

  -- What is left of an error.
  unfoldable pub activation_err :
      Result Exn (Unit {0}) → Instance → Result Exn (Option Exn) × Instance
  unfolding left_over
  activation_err (ok _) s = (ok none, s)
  activation_err (err e) s = left_over (fail_or_raise e s)

  -- What follows the `except`.
  unfoldable pub complete : Result Exn (Option Exn) × Instance → Ran
  unfolding complete_activation
  complete (err e, s) = some (err e, s)
  complete (ok error, s) = some (complete_activation to_failure error s)

-- asyncio's cancellation of all tasks; the converters of results and failures;
-- the conversion of the workflow's input; the other
-- parameters are those of the modules used.
module _ (cancel_tasks : Instance → Instance) (resolving : ResolveLibrary)
    (make_workflow_input : Exec (Unit {0})) (convert : Convert)
    (run : Callback → Instance → Instance) (holds : ℕ → Exec Bool) (true_value : Value)
    (instantiate : Exec (Unit {0})) (to_failure : Exn → Result Exn Failure) (fuel : ℕ) where
  unfoldable pub apply_remove_from_cache : Instance → Instance
  apply_remove_from_cache s = cancel_tasks (record s { deleting = true; is_replaying = true })

  unfoldable pub apply : Job → Exec (Unit {0})
  unfolding apply_cancel_workflow apply_initialize_workflow apply_update_random_seed
      apply_remove_from_cache apply_signal_workflow apply_do_update apply_query_workflow
      apply_resolve Timers.fire_timer Patch.notify_has_patch
  apply (cancel_workflow reason) s = apply_cancel_workflow reason s
  apply (do_update job) s = apply_do_update job s
  apply (fire_timer seq) s = (ok tt, Timers.fire_timer seq s)
  apply (query_workflow job) s = apply_query_workflow job s
  apply (notify_has_patch id) s = (ok tt, Patch.notify_has_patch id s)
  apply remove_from_cache s = (ok tt, apply_remove_from_cache s)
  apply (resolve job) s = apply_resolve resolving job s
  apply (signal_workflow job) s = apply_signal_workflow convert job s
  apply (initialize_workflow _) s = apply_initialize_workflow s
  apply (update_random_seed seed) s = (ok tt, apply_update_random_seed seed s)

  unfoldable pub apply_all : List Job → Exec (Unit {0})
  unfolding apply
  apply_all [] s = (ok tt, s)
  apply_all (job ∷ jobs) s = (do apply job; apply_all jobs) s

  -- A run of the loop of its own after a set that is not empty.
  unfoldable pub apply_set : Bool → List Job → Instance → Ran
  unfolding apply_all run_once and_then any_job
  apply_set check jobs s =
      if any_job jobs
      then and_then (some (apply_all jobs s)) (run_once run holds true_value instantiate check fuel)
      else some (ok tt, s)

  unfoldable pub run_single_batch : JobSets → Instance → Ran
  unfolding apply_set
  run_single_batch sets s =
      let all = sets.patches ++ sets.messages ++ sets.others ++ sets.queries in
      apply_set (any_job sets.messages || any_job sets.others) all s

  unfoldable pub run_by_set : JobSets → Instance → Ran
  unfolding apply_set
  run_by_set sets s = and_then (apply_set false sets.patches s) λ t.
      and_then (apply_set true sets.messages t)
        λ u. and_then (apply_set true sets.others u) λ v. apply_set false sets.queries v

  -- The body of the `try`.
  unfoldable pub run_jobs : List Job → Instance → Ran
  unfolding job_sets queries_alone has_start run_single_batch run_by_set
  run_jobs jobs s =
      let sets = job_sets jobs in
      if queries_alone sets
      then and_then (some ((if has_start jobs then make_workflow_input else pure tt) s))
          (λ t. if t.single_batch then run_single_batch sets t else run_by_set sets t)
      else some
          (err (assertion_error "Query jobs must not share an activation with non-query jobs."), s)

  unfoldable pub activate : Activation → Instance → Ran
  unfolding begin_activation run_jobs activation_err complete
  activate act s = elim (run_jobs act.jobs (begin_activation act s)) [
    | none ↦ none
    | some (outcome, t) ↦ complete to_failure (activation_err to_failure outcome t)
  ]
