-- ===== src/Instance/Tests/Resolved.antt =====
-- The theorems on handles of _workflow_instance.py at concrete inputs.
use sdk_python.Prelude.{◌≡◌, refl, ℕ, suc, true, string_eq, none, some, [], ◌∷◌, nat_eq, ◌≢◌, arith}
use sdk_python.Prelude.Result.{Result, ok}
use sdk_python.Prelude.Dict.{lookup}
use sdk_python.Instance.Exn.{Exn}
use sdk_python.Instance.State.{
  schedule_activity, Instance, Value, Future, FutureState, pending, finished, NexusHandle,
  nexus_started, NexusInput, Payload, schedule_nexus_operation, ActivityHandle, activity_backoff,
  activity_completed, task_step, failed, request_cancel_local_activity,
}
use sdk_python.Instance.Resolve.Phases.{
  starting, running, completed, starts, completes, starts_running, gets_done, InPhase, stays,
  then_leads, run_events, Comes, run_events-Comes,
}
use sdk_python.Instance.Resolve.Start.{
  nexus_seq, nexus_summary, handle_of, start_nexus, start_nexus-Tracks,
}
use sdk_python.Instance.Resolve.Pending.{
  nexus_event, start_job, apply_nexus_job, Tracks, nexus_job_tracked,
}
use sdk_python.Instance.Futures.{IsIn}
use sdk_python.Instance.Activities.Start.{first_handle, schedule_command, start_activity-pending}
use sdk_python.Instance.Activities.{
  ActivityLibrary, no_time, convert_args, convert_summary, start_activity, apply_resolve_activity,
  cancel_activity,
}
use sdk_python.Instance.Activities.Wakes.{outcome_of, resolved_wakes}
use sdk_python.Instance.Activities.Backoff.{
  activity_seq, renewed, backoff_renews, backoff_cancelled,
}
use sdk_python.Instance.Tests.{idle, idle-Writable, nothing_converts}

abbrev one : Value
one = record { value_id = 1 }

abbrev two : Value
two = record { value_id = 2 }

abbrev future : FutureState → Future
future state = record { state = state; callbacks = [] }

abbrev operation : NexusHandle
operation = record {
  input = record {
    endpoint = "billing";
    service = "payments";
    operation = "charge";
    argument = one;
    summary = none;
    options = 0;
  };
  start_fut = 0;
  result_fut = 1;
}

-- One Nexus operation, its handle's task 5, was scheduled under 3.
abbrev scheduled : Instance
scheduled = record idle {
  futures = (0, future pending) ∷ (1, future pending) ∷ [];
  nexus_operations = (5, operation) ∷ [];
  pending_nexus_operations = (3, 5) ∷ [];
}

apart : (n : ℕ) → n ≢ suc n
apart n e = absurd (omega arith)

nexus_job_tracked_example :
    (t : Instance) × (apply_nexus_job nothing_converts 3
        (start_job (nexus_started "token"))
        scheduled
      ≡ (ok tt, t))
    × Tracks nothing_converts 3 5 operation (running one) t
unfolding nat_eq lookup Tracks nexus_event
nexus_job_tracked_example =
    nexus_job_tracked nothing_converts 3 5 operation (start_job (nexus_started "token"))
      (starts one) scheduled (apart 0) refl (starts_running one)
      (refl, refl, ((future pending, refl, refl), (future pending, refl, refl)), refl)

run_events-Comes_example :
    Comes one 0 1
      (completed one two)
      (run_events one 0 1 (starts one ∷ completes two ∷ []))
      scheduled
unfolding nat_eq lookup InPhase
run_events-Comes_example =
    run_events-Comes one 0 1 (apart 0) scheduled refl
      ((future pending, refl, refl), (future pending, refl, refl))
      (then_leads (starts_running one) (then_leads (gets_done one two) (stays (completed one two))))

-- The operation is done.
abbrev resolved : Instance
resolved = record idle { futures = (0, future (finished one)) ∷ (1, future (finished two)) ∷ [] }

abbrev library : ActivityLibrary
library = nothing_converts.activities

abbrev charge : ActivityHandle
charge = record {
  seq = 1;
  input = record {
    activity = "charge";
    activity_id = none;
    is_local = true;
    args = [];
    summary = none;
    start_to_close_timeout = some 10;
    schedule_to_close_timeout = none;
    options = 0;
  };
  result_fut = 0;
  started = true;
}

-- A local activity, its handle's task 5, runs.
abbrev charging : Instance
charging = record idle {
  futures = (0, future pending) ∷ [];
  next_future = 1;
  curr_seqs = ("activity", 1) ∷ [];
  activities = (5, charge) ∷ [];
  pending_activities = (1, 5) ∷ [];
}

backoff_renews_example :
    (t : Instance) × (apply_resolve_activity library 1 (activity_backoff 2) charging ≡ (ok tt, t))
    × IsIn 0 (failed (library.backoff_error 2)) t
    × (lookup 5 t.activities ≡ some (renewed charge charging))
    × IsIn 1 pending t
    × ((n other : ℕ) → lookup n t.pending_activities ≡ some other → other ≢ 5)
unfolding nat_eq lookup IsIn renewed
backoff_renews_example =
    backoff_renews library 1 5 2 charge charging refl refl refl (future pending, refl, refl)
      (omega arith) (λ n other found same. ground arith)

backoff_cancelled_example :
    (t : Instance) × (apply_resolve_activity library 1 (activity_backoff 2) charging ≡ (ok tt, t))
    × (t.commands ≡ [])
    × (lookup 2 t.pending_activities ≡ none)
    × (cancel_activity library 5 t
        ≡ (ok true, record t { commands = request_cancel_local_activity 2 ∷ [] }))
unfolding nat_eq lookup IsIn activity_seq string_eq
backoff_cancelled_example =
    backoff_cancelled library 1 5 2 charge charging (record { writable = refl; live = refl }) refl
      refl (future pending, refl, refl) (λ n above. ground arith) (λ t. refl)

-- The workflow's task waits for the activity.
abbrev waited_for : Instance
waited_for = record charging {
  futures = (0, record { state = pending; callbacks = task_step 0 ∷ [] }) ∷ [];
}

resolved_wakes_example :
    (t : Instance) × (apply_resolve_activity library 1 (activity_completed none) waited_for
      ≡ (ok tt, t))
    × IsIn 0 (finished library.none_value) t
    × (t.ready ≡ task_step 0 ∷ [])
    × (lookup 1 t.pending_activities ≡ none)
unfolding nat_eq lookup IsIn outcome_of
resolved_wakes_example =
    resolved_wakes library 1 5 charge (activity_completed none) (finished library.none_value)
      (record { state = pending; callbacks = task_step 0 ∷ [] }) waited_for refl refl refl refl refl
      refl refl

abbrev argument_payload : NexusInput → Value → Result Exn Payload
argument_payload input v = ok (record { payload_id = v.value_id })

start_nexus-Tracks_example :
    (t : Instance) × (start_nexus argument_payload operation.input idle ≡ (ok (1, 0), t))
    × (t.commands
        ≡ schedule_nexus_operation (record {
          seq = 1;
          input = operation.input;
          payload = record { payload_id = 1 };
          ending = some none;
        })
          ∷ [])
    × Tracks nothing_converts 1 0 operation starting t
unfolding nexus_seq lookup nexus_summary handle_of
start_nexus-Tracks_example =
    start_nexus-Tracks argument_payload nothing_converts operation.input (record { payload_id = 1 })
      none idle idle-Writable refl refl

start_activity-pending_example :
    (t : Instance) × (start_activity library charge.input idle ≡ (ok 0, t))
    × (t.commands ≡ schedule_activity (schedule_command library charge.input [] none idle) ∷ [])
    × (lookup 1 t.pending_activities ≡ some 0)
    × (lookup 0 t.activities ≡ some (first_handle charge.input idle))
    × IsIn 0 pending t
unfolding activity_seq first_handle lookup convert_args convert_summary no_time nat_eq
start_activity-pending_example =
    start_activity-pending library charge.input [] none idle idle-Writable refl refl refl
