-- ===== src/Instance/Activate/Jobs.antt =====
-- How `activate` of _workflow_instance.py sorts the jobs of an activation.
use sdk_python.Prelude.{
  ℕ, ◌≡◌, refl, ap, ◌∙◌, Bool, true, false, not, ◌||◌, Option, none, some, List, [], ◌∷◌, arith,
  if_rule, contains, nat_eq, Bool-cases, inl, inr, string_eq,
}
use sdk_python.Prelude.Result.{Result, ok, err}
use sdk_python.Instance.Resolve.{ResolveLibrary}
use sdk_python.Instance.Exn.{Exn, isinstance, assertion_error}
use sdk_python.Instance.Failure.{is_failure_exception}
use sdk_python.Instance.State.{
  Instance, Job, Value, Callback, Failure, CompletionFailure, converted, notify_has_patch,
  signal_workflow, do_update, query_workflow, initialize_workflow, fire_timer, cancel_workflow,
  remove_from_cache, update_random_seed, resolve,
}
use sdk_python.Instance.Core.{Exec, bind-ok, ◌>>◌, modify, workflow_logic_flag_enabled}
use sdk_python.Instance.Handlers.{Convert}
use sdk_python.Instance.Completion.{
  complete_activation, set_completion_failure, convert_failure, fail_completion, warn_at_completion,
  any_completion,
}
use sdk_python.Instance.Activate.{
  JobSets, class_of, add_job, job_sets, any_job, queries_alone, run_jobs, left_over, fail_or_raise,
  activation_err, begin_activation, complete, activate, Activation,
}

-- The jobs that notify of patches.
unfoldable pub patches_in : List Job → List Job
patches_in [] = []
patches_in (notify_has_patch id ∷ jobs) = notify_has_patch id ∷ patches_in jobs
patches_in (_ ∷ jobs) = patches_in jobs

-- The signals and the updates.
unfoldable pub messages_in : List Job → List Job
messages_in [] = []
messages_in (signal_workflow job ∷ jobs) = signal_workflow job ∷ messages_in jobs
messages_in (do_update job ∷ jobs) = do_update job ∷ messages_in jobs
messages_in (_ ∷ jobs) = messages_in jobs

unfoldable pub queries_in : List Job → List Job
queries_in [] = []
queries_in (query_workflow job ∷ jobs) = query_workflow job ∷ queries_in jobs
queries_in (_ ∷ jobs) = queries_in jobs

-- The jobs that are none of these.
unfoldable pub others_in : List Job → List Job
others_in [] = []
others_in (notify_has_patch _ ∷ jobs) = others_in jobs
others_in (signal_workflow _ ∷ jobs) = others_in jobs
others_in (do_update _ ∷ jobs) = others_in jobs
others_in (query_workflow _ ∷ jobs) = others_in jobs
others_in (job ∷ jobs) = job ∷ others_in jobs

unfoldable pub has_query : List Job → Bool
has_query [] = false
has_query (query_workflow _ ∷ jobs) = true
has_query (_ ∷ jobs) = has_query jobs

unfoldable pub has_other : List Job → Bool
has_other [] = false
has_other (query_workflow _ ∷ jobs) = has_other jobs
has_other (_ ∷ jobs) = true

abbrev sorted : List Job → JobSets
sorted jobs = record {
  patches = patches_in jobs;
  messages = messages_in jobs;
  others = others_in jobs;
  queries = queries_in jobs;
}

sorted-cons :
    (job : Job) (jobs : List Job) → add_job (class_of job) job (sorted jobs) ≡ sorted (job ∷ jobs)
unfolding add_job class_of patches_in messages_in others_in queries_in
sorted-cons (notify_has_patch _) jobs = refl
sorted-cons (signal_workflow _) jobs = refl
sorted-cons (do_update _) jobs = refl
sorted-cons (query_workflow _) jobs = refl
sorted-cons (initialize_workflow _) jobs = refl
sorted-cons (fire_timer _) jobs = refl
sorted-cons (cancel_workflow _) jobs = refl
sorted-cons remove_from_cache jobs = refl
sorted-cons (update_random_seed _) jobs = refl
sorted-cons (resolve _) jobs = refl

-- The notifications of patches stand in the first set, signals and updates in the second, queries
-- in the fourth and every other job in the third, and each set keeps the order of the activation.
pub job_sets_sorted :
    (jobs : List Job)
    → job_sets jobs ≡ record {
      patches = patches_in jobs;
      messages = messages_in jobs;
      others = others_in jobs;
      queries = queries_in jobs;
    }
unfolding job_sets patches_in messages_in others_in queries_in
job_sets_sorted [] = refl
job_sets_sorted (job ∷ jobs) =
    ap (add_job (class_of job) job) (job_sets_sorted jobs) ∙ sorted-cons job jobs

any_job-queries_in : (jobs : List Job) → any_job (queries_in jobs) ≡ has_query jobs
unfolding any_job queries_in has_query
any_job-queries_in [] = refl
any_job-queries_in (job ∷ jobs) = ground (arith, any_job-queries_in jobs)

any_job-others_in :
    (jobs : List Job)
    → (any_job (patches_in jobs) || any_job (messages_in jobs) || any_job (others_in jobs))
      ≡ has_other jobs
unfolding any_job patches_in messages_in others_in has_other
any_job-others_in [] = refl
any_job-others_in (job ∷ jobs) = ground (arith, any_job-others_in jobs)

queries_alone-sorted :
    (jobs : List Job)
    → queries_alone (job_sets jobs) ≡ (not (has_query jobs) || not (has_other jobs))
unfolding queries_alone
queries_alone-sorted jobs =
    rw (job_sets_sorted jobs, queries_alone, any_job-queries_in jobs, any_job-others_in jobs) refl

-- What is raised for an activation that mixes queries and other jobs.
abbrev pub mixed_error : Exn
mixed_error = assertion_error "Query jobs must not share an activation with non-query jobs."

left_over-task :
    (e : Exn) (s : Instance)
    → isinstance e "Exception" ≡ true
    → s.deleting ≡ false
    → left_over (err e, s) ≡ (ok (some e), s)
unfolding left_over
left_over-task e s i d = rw (left_over, i, d) refl

mixed-Exception : isinstance mixed_error "Exception" ≡ true
unfolding isinstance assertion_error string_eq
mixed-Exception = refl

-- The instance with the fields of an activation.
abbrev begun : Activation → List ℕ → Bool → Instance → Instance
begun act used batch s = record s {
  commands = [];
  used_flags = used;
  completion_failure = none;
  completion_versioning = none;
  activation_error = none;
  history_length = act.history_length;
  history_size = act.history_size;
  continue_as_new_suggested = act.continue_as_new_suggested;
  time_ns = act.time_ns;
  is_replaying = act.is_replaying;
  internal_flags = act.available_internal_flags;
  single_batch = batch;
}

-- What is left of an instance when an activation is refused: its completion, and the fields of the
-- activation. All else is as it was.
abbrev pub refused : Activation → CompletionFailure → Bool → Instance → Instance
refused act failure batch s = record s {
  commands = [];
  used_flags = [];
  completion_failure = some failure;
  completion_versioning = none;
  activation_error = none;
  history_length = act.history_length;
  history_size = act.history_size;
  continue_as_new_suggested = act.continue_as_new_suggested;
  time_ns = act.time_ns;
  is_replaying = act.is_replaying;
  internal_flags = act.available_internal_flags;
  single_batch = batch;
}

abbrev Flagged : Instance → Bool × Instance → Type 0
Flagged s r = (used : List ℕ) × (r.1 ≡ record s { used_flags = used })

workflow_logic_flag_enabled-Flagged :
    (flag : ℕ) (s : Instance) → Flagged s (workflow_logic_flag_enabled flag s)
unfolding workflow_logic_flag_enabled
workflow_logic_flag_enabled-Flagged flag s =
    if_rule (Flagged s) (contains s.internal_flags flag) _ _ (_, refl)
      (if_rule (Flagged s) (s.is_replaying || not (contains s.default_flags flag)) _ _ (_, refl)
        (_, refl))

begin_activation-begun :
    (act : Activation) (s : Instance)
    → (used : List ℕ) × (batch : Bool) × (begin_activation act s ≡ begun act used batch s)
unfolding begin_activation
begin_activation-begun act s =
    let t = begun act [] s.single_batch s in
    let flag = workflow_logic_flag_enabled 2 t in
    let (used, e) = workflow_logic_flag_enabled-Flagged 2 t in
    (used, flag.0, ap (λ (u : Instance). record u { single_batch = flag.0 }) e)

module _ (to_failure : Exn → Result Exn Failure) where
  fail_or_raise-task :
      (e : Exn) (s : Instance)
      → is_failure_exception e s ≡ false
      → fail_or_raise to_failure e s ≡ (err e, s)
  unfolding fail_or_raise
  fail_or_raise-task e s f = elim (Bool-cases (isinstance e "Exception")) [
    | inl i ↦ rw (fail_or_raise, i, f) refl
    | inr i ↦ rw (fail_or_raise, i) refl
  ]

  convert_failure-ok :
      (e : Exn) (failure : Failure) (s : Instance)
      → to_failure e ≡ ok failure
      → convert_failure to_failure e s ≡ (ok tt, fail_completion (converted failure) s)
  unfolding convert_failure
  convert_failure-ok e failure s f = rw (convert_failure, f) refl

  complete_activation-live :
      (error : Option Exn) (s : Instance)
      → s.deleting ≡ false
      → complete_activation to_failure error s
        ≡ (do set_completion_failure to_failure error; modify warn_at_completion)
            (record s { completion_versioning = s.versioning_behavior })
  unfolding complete_activation
  complete_activation-live error s d = rw (complete_activation, d) refl

  complete_activation-task :
      (e : Exn) (failure : Failure) (act : Activation) (used : List ℕ) (batch : Bool) (s : Instance)
      → s.deleting ≡ false
      → to_failure e ≡ ok failure
      → complete_activation to_failure (some e) (begun act used batch s)
        ≡ (ok tt, refused act (converted failure) batch s)
  unfolding complete_activation set_completion_failure convert_failure fail_completion
      warn_at_completion any_completion
  complete_activation-task e failure act used batch s d f =
      let t : Instance = record (begun act used batch s) {
        completion_versioning = s.versioning_behavior;
      } in
      complete_activation-live (some e) (begun act used batch s) d
      ∙ bind-ok (set_completion_failure to_failure (some e)) (λ _. modify warn_at_completion)
          {s = t} {t = fail_completion (converted failure) t} (convert_failure-ok e failure t f)

  -- What is left of an `Exception` that fails the task.
  activation_err-task :
      (e : Exn) (s : Instance)
      → isinstance e "Exception" ≡ true
      → is_failure_exception e s ≡ false
      → s.deleting ≡ false
      → activation_err to_failure (err e) s ≡ (ok (some e), s)
  unfolding activation_err
  activation_err-task e s i f d = ap left_over (fail_or_raise-task e s f) ∙ left_over-task e s i d

module _ (cancel_tasks : Instance → Instance) (resolving : ResolveLibrary)
    (make_workflow_input : Exec (Unit {0})) (convert : Convert)
    (run : Callback → Instance → Instance) (holds : ℕ → Exec Bool) (true_value : Value)
    (instantiate : Exec (Unit {0})) (to_failure : Exn → Result Exn Failure) (fuel : ℕ) where
  run_jobs-mixed :
      (jobs : List Job) (s : Instance)
      → has_query jobs ≡ true
      → has_other jobs ≡ true
      → run_jobs cancel_tasks resolving make_workflow_input convert run holds true_value instantiate
          to_failure fuel jobs s
        ≡ some (err mixed_error, s)
  unfolding run_jobs
  run_jobs-mixed jobs s q o = rw (run_jobs, queries_alone-sorted jobs, q, o) refl

  -- An activation that mixes queries with other jobs applies none of them: it raises nothing, its
  -- completion is the failure that the error is converted to, with no commands, and but for the
  -- fields that every activation sets, the instance is as it was. The workflow is not being
  -- deleted and does not take such an error for a failure of its own, and the error converts.
  pub mixed_activation_fails :
      (act : Activation) (failure : Failure) (s : Instance)
      → has_query act.jobs ≡ true
      → has_other act.jobs ≡ true
      → s.deleting ≡ false
      → is_failure_exception mixed_error s ≡ false
      → to_failure mixed_error ≡ ok failure
      → (batch : Bool) × (activate cancel_tasks resolving make_workflow_input convert run holds
            true_value instantiate to_failure fuel act s
          ≡ some (ok tt, refused act (converted failure) batch s))
  unfolding activate complete is_failure_exception
  mixed_activation_fails act failure s q o d f converts =
      let (used, batch, begins) = begin_activation-begun act s in
      let u = begun act used batch s in
      let error = activation_err-task to_failure mixed_error u mixed-Exception f d in
      (
        batch,
        rw (activate, begins, run_jobs-mixed act.jobs u q o)
            (ap (complete to_failure) error
              ∙ ap (λ r. some r)
                  (complete_activation-task to_failure mixed_error failure act used batch s d
                    converts)),
      )
