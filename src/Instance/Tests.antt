-- ===== src/Instance/Tests.antt =====
-- The theorems on workflow instances at a concrete instance.
mod Resolved
use sdk_python.Prelude.{
  ℕ, ◌+◌, ◌&&◌, ap, length, arith, Bool-cases, inl, inr, if_rule, Option, ◌≡◌, refl, String, Bool,
  true, false, none, some, List, [], ◌∷◌, nat_eq, string_eq, option_eq,
}
use sdk_python.Prelude.Int.{pos, negsuc}
use sdk_python.Prelude.Result.{Result, ok, err}
use sdk_python.Prelude.Dict.{lookup, insert}
use sdk_python.Instance.Exn.{Exn, read_only_context_error, assertion_error, isinstance, value_error}
use sdk_python.Instance.State.{
  Failure, converted, UpdateJob, Callback, Value, Payload, SignalJob, Definition, Instance,
  timer_callback, notify_has_patch, query_workflow, set_patch_marker,
}
use sdk_python.Instance.Core.{
  Exec, bind-ok, future_done, Writable, pure, workflow_logic_flag_enabled,
}
use sdk_python.Instance.Resolve.{ResolveLibrary}
use sdk_python.Instance.Timers.{timer_handle_cancelled, fire_timer}
use sdk_python.Instance.Timers.Server.{
  Service, TimerOp, starts, cancels, fires, serve, run_timer_ops, Agrees, is_pending, timer_seq,
  timers_served,
}
use sdk_python.Instance.Timers.ReadOnly.{cancel_read_only}
use sdk_python.Instance.Patch.{workflow_patch}
use sdk_python.Instance.Patch.Replay.{run_patches, markers, replay_agrees}
use sdk_python.Instance.Handlers.{Convert, HandlerArgs, is_falsy, process_handler_args}
use sdk_python.Instance.Handlers.Handing.{AreHanded}
use sdk_python.Instance.Handlers.Routing.{
  Routed, Balances, SignalOp, delivers, handles, delivered, run_signal_ops, signals_accounted,
}
use sdk_python.Instance.Loop.{
  check_condition, remaining_conditions, check_conditions, ensure_object, run_once,
}
use sdk_python.Instance.Update.{begin_update}
use sdk_python.Instance.Update.Response.{Answered, begin_update_answers}
use sdk_python.Instance.Failure.{Outcome, returned, is_failure_exception}
use sdk_python.Instance.Activate.{Activation, job_sets, activate}
use sdk_python.Instance.Activate.Jobs.{
  patches_in, messages_in, others_in, queries_in, has_query, has_other, refused, job_sets_sorted,
  mixed_error, mixed_activation_fails,
}

abbrev idle : Instance
idle = record {
  defn_failure_types = [];
  worker_failure_types = [];
  dynamic_failure_types = none;
  default_flags = [];
  primary_task = none;
  cancel_primary_task_pending = false;
  cancel_reason = none;
  time_ns = 0;
  history_length = 0;
  history_size = 0;
  continue_as_new_suggested = false;
  is_replaying = false;
  internal_flags = [];
  single_batch = false;
  has_input = true;
  has_object = true;
  ready = [];
  conditions = [];
  futures = [];
  tasks = [];
  next_task = 0;
  next_future = 0;
  pending_timers = [];
  activities = [];
  pending_activities = [];
  children = [];
  pending_child_workflows = [];
  nexus_operations = [];
  pending_nexus_operations = [];
  pending_external_signals = [];
  pending_external_cancels = [];
  curr_seqs = [];
  seed = 0;
  seed_callbacks = [];
  read_only = false;
  in_query_or_validator = false;
  deleting = false;
  patches_notified = [];
  patches_memoized = [];
  signals = [];
  queries = [];
  updates = [];
  handled_signals_seq = 0;
  in_progress_signals = [];
  in_progress_updates = [];
  buffered_signals = [];
  versioning_behavior = none;
  activation_error = none;
  commands = [];
  used_flags = [];
  completion_failure = none;
  warned = [];
  completion_versioning = none;
}

idle-Writable : Writable idle
idle-Writable = record { writable = refl; live = refl }

-- Converters that raise, but for a Nexus operation's.
abbrev nothing_converts : ResolveLibrary
nothing_converts = record {
  activities = record {
    to_payloads = λ _ _. ok [];
    to_payload = λ _ _. err (value_error "no payload");
    from_payload = λ _ _. err (value_error "no value");
    from_failure = λ _ _. err (value_error "no failure");
    none_value = record { value_id = 0 };
    backoff_error = λ _. value_error "Backoff";
    str = λ _. "1";
    task_done = λ _ _. false;
    cancel_task = λ _. pure true;
  };
  child_value = λ _ _. err (value_error "no value");
  child_failure = λ _ _. err (value_error "no failure");
  nexus_value = λ _ p. ok (record { value_id = p.payload_id });
  nexus_failure = λ _ _. ok (value_error "Nexus");
  external_failure = λ _ _. err (value_error "no failure");
  none_value = record { value_id = 0 };
  token_value = λ _. record { value_id = 1 };
  already_started = λ _ _. value_error "started";
}

abbrev timer_ops : List TimerOp
timer_ops =
    starts (pos 10) (timer_callback 0)
    ∷ starts (negsuc 0) (timer_callback 1)
    ∷ starts (pos 20) (timer_callback 2)
    ∷ cancels 1
    ∷ fires 2
    ∷ fires 1
    ∷ cancels 2
    ∷ []

abbrev no_timers : Service
no_timers = record { last = 0; opened = λ _. false }

idle-Agrees : Agrees idle no_timers
unfolding is_pending timer_seq lookup
idle-Agrees = record {
  writable = refl;
  live = refl;
  last = refl;
  opened = λ n. refl;
  fresh = λ n h. refl;
}

timers_served_example :
    (w : Service) × (serve timer_ops idle no_timers ≡ some w)
    × Agrees (run_timer_ops timer_ops idle) w
timers_served_example = timers_served timer_ops idle no_timers idle-Agrees

-- A query handler runs, and a timer is pending.
abbrev in_query : Instance
in_query = record idle { read_only = true; pending_timers = (1, timer_callback 0) ∷ [] }

cancel_read_only_example :
    let r = timer_handle_cancelled 1 in_query in
    (r.0 ≡ err (read_only_context_error "add command"))
    × (r.1.commands ≡ in_query.commands)
    × (fire_timer 1 r.1 ≡ r.1)
unfolding lookup nat_eq
cancel_read_only_example = cancel_read_only 1 (timer_callback 0) in_query refl refl refl

abbrev calls : List (String × Bool)
calls = ("a", false) ∷ ("b", true) ∷ ("a", false) ∷ []

abbrev asked : Instance
asked = record idle {
  patches_memoized = ("a", true) ∷ ("b", true) ∷ [];
  commands = set_patch_marker "a" false ∷ set_patch_marker "b" true ∷ [];
}

abbrev replayed : Instance
replayed = record idle { is_replaying = true; patches_notified = "a" ∷ "b" ∷ [] }

replayed-Writable : Writable replayed
replayed-Writable = record { writable = refl; live = refl }

asked_run : run_patches none calls idle ≡ (ok (true ∷ true ∷ true ∷ []), asked)
unfolding run_patches workflow_patch lookup insert string_eq
asked_run = refl

replay_agrees_example : (run_patches none calls replayed).0 ≡ ok (true ∷ true ∷ true ∷ [])
unfolding markers
replay_agrees_example =
    replay_agrees none none calls (true ∷ true ∷ true ∷ []) idle replayed asked idle-Writable refl
      refl asked_run replayed-Writable refl refl refl

abbrev mixed : Activation
mixed = record {
  history_length = 3;
  history_size = 100;
  continue_as_new_suggested = false;
  time_ns = 5;
  is_replaying = false;
  available_internal_flags = [];
  jobs =
      query_workflow (record { query_id = "q"; query_type = "state"; arguments = [] })
      ∷ notify_has_patch "a"
      ∷ [];
}

job_sets_sorted_example : job_sets mixed.jobs ≡ record {
  patches = patches_in mixed.jobs;
  messages = messages_in mixed.jobs;
  others = others_in mixed.jobs;
  queries = queries_in mixed.jobs;
}
job_sets_sorted_example = job_sets_sorted mixed.jobs

abbrev mixed_failure : Failure
mixed_failure = record { failure_id = 7 }

mixed_activation_fails_example :
    (batch : Bool) × (activate
        (λ s. s)
        nothing_converts
        (pure tt)
        (λ _ _. ok [])
        (λ _ s. s)
        (λ _. pure false)
        (record { value_id = 0 })
        (pure tt)
        (λ _. ok mixed_failure)
        10
        mixed
        idle
      ≡ some (ok tt, refused mixed (converted mixed_failure) batch idle))
unfolding has_query has_other is_failure_exception isinstance assertion_error string_eq
mixed_activation_fails_example =
    mixed_activation_fails (λ s. s) nothing_converts (pure tt) (λ _ _. ok []) (λ _ s. s)
      (λ _. pure false) (record { value_id = 0 }) (pure tt) (λ _. ok mixed_failure) 10 mixed
      mixed_failure idle refl refl refl refl refl

abbrev Converted : Result Exn HandlerArgs → Type 0
Converted r = (a : HandlerArgs) × (r ≡ ok a)

abbrev no_values : Convert
no_values input types = ok []

no_values-converts :
    (name : String) (input : List Payload) (defn : Definition)
    → (a : HandlerArgs) × (process_handler_args no_values name input defn ≡ ok a)
unfolding process_handler_args
no_values-converts name input defn =
    if_rule Converted (is_falsy defn.name && defn.dynamic_vararg) _ _ (_, refl)
      (if_rule Converted (is_falsy defn.name) _ _ (_, refl) (_, refl))

abbrev signal : String → SignalJob
signal name = record { signal_name = name; input = [] }

abbrev handler : Option String → Definition
handler name = record {
  name = name;
  fn = 0;
  validator = none;
  dynamic_vararg = false;
  warns = true;
}

abbrev signal_ops : List SignalOp
signal_ops =
    delivers (signal "go")
    ∷ delivers (signal "stop")
    ∷ delivers (signal "go")
    ∷ handles (some "go") (some (handler (some "go")))
    ∷ delivers (signal "go")
    ∷ handles (some "go") none
    ∷ delivers (signal "go")
    ∷ handles none (some (handler none))
    ∷ []

idle-Routed : Routed idle
unfolding lookup
idle-Routed = record { writable = idle-Writable; keys = tt; routed = λ name defn e. refl }

signals_accounted_example :
    let t = run_signal_ops no_values signal_ops idle in
    (handed : List SignalJob) × Routed t
    × AreHanded handed idle t
    × Balances (delivered signal_ops) handed idle t
signals_accounted_example =
    signals_accounted no_values no_values-converts signal_ops idle idle-Routed

-- The update of a named handler with a validator, which finds nothing to object to.
abbrev updatable : Instance
updatable = record idle {
  updates = (some "set", record (handler (some "set")) { validator = some 1 }) ∷ [];
}

abbrev update : UpdateJob
update = record {
  id = "u";
  protocol_instance_id = "p";
  name = "set";
  input = [];
  run_validator = true;
}

abbrev agrees : ℕ → HandlerArgs → Instance → Outcome (Unit {0}) × Instance
agrees fn input s = (returned tt, s)

abbrev no_failure : Exn → Result Exn Failure
no_failure e = ok (record { failure_id = 0 })

updatable-Writable : Writable updatable
updatable-Writable = record { writable = refl; live = refl }

begin_update_answers_example :
    Answered no_failure no_values agrees
      (λ fn input s r. refl)
      update
      updatable
      (begin_update no_failure no_values agrees update updatable)
begin_update_answers_example =
    begin_update_answers no_failure no_values agrees (λ fn input s r. refl) update updatable
      updatable-Writable
