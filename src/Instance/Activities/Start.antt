-- ===== src/Instance/Activities/Start.antt =====
-- The activities of _workflow_instance.py: what starting one leaves.
use sdk_python.Prelude.{
  ◌≡◌, refl, ◌∙◌, ℕ, suc, ◌+◌, false, ◌&&◌, Option, none, some, List, [], ◌∷◌, ◌++◌, nat_eq,
  string_eq, ==_refl, ◌==◌, if◌then◌else◌, arith, ap,
}
use sdk_python.Prelude.Result.{ok}
use sdk_python.Prelude.Dict.{lookup, insert, lookup-insert}
use sdk_python.Instance.State.{
  Instance, Payload, ActivityInput, ScheduleActivity, schedule_activity, ActivityHandle, Future,
  pending, task_step, run_activity,
}
use sdk_python.Instance.Core.{
  Exec, pure, ◌>>=◌, ◌>>◌, next_seq, call_soon, register_task, create_future, bind-ok, Writable,
  add_command-adds, assert_not_read_only, assert_not_read_only-passes,
}
use sdk_python.Instance.Futures.{IsIn, call_soon-ready}
use sdk_python.Instance.Activities.{
  ActivityLibrary, activity_id_of, no_time, lift, set_activity, with_activity, new_activity_handle,
  convert_args, convert_summary, schedule_of, apply_schedule_command, set_pending, schedule_pending,
  start_activity,
}
use sdk_python.Instance.Activities.Backoff.{activity_seq}

unfoldable pub first_handle : ActivityInput → Instance → ActivityHandle
unfolding activity_seq
first_handle input s = record {
  seq = activity_seq s + 1;
  input = input;
  result_fut = s.next_future;
  started = false;
}

module _ (lib : ActivityLibrary) where
  made : ActivityInput → Instance → Instance
  unfolding first_handle activity_seq
  made input s = record s {
    next_task = suc s.next_task;
    ready = s.ready ++ (task_step s.next_task ∷ []);
    curr_seqs = insert "activity" (activity_seq s + 1) s.curr_seqs;
    next_future = suc s.next_future;
    futures = insert s.next_future (record { state = pending; callbacks = [] }) s.futures;
    tasks = insert s.next_task (run_activity input) s.tasks;
    activities = insert s.next_task (first_handle input s) s.activities;
  }

  register_task-adds :
      (task : ℕ) (input : ActivityInput) (s : Instance)
      → Writable s
      → register_task task (run_activity input) s
        ≡ (ok tt, record s { tasks = insert task (run_activity input) s.tasks })
  unfolding register_task
  register_task-adds task input s w =
      bind-ok (assert_not_read_only "create task" false)
        (λ _ t. (ok tt, record t { tasks = insert task (run_activity input) t.tasks }))
        (assert_not_read_only-passes "create task" false s w)

  new_activity_handle-made :
      (input : ActivityInput) (s : Instance)
      → Writable s
      → new_activity_handle lib input s ≡ (ok s.next_task, made input s)
  unfolding new_activity_handle made next_seq create_future set_activity first_handle activity_seq
  new_activity_handle-made input s w =
      let begun = record s {
        next_task = suc s.next_task;
        ready = s.ready ++ (task_step s.next_task ∷ []);
      } in
      let numbered = record begun {
        curr_seqs = insert "activity" (activity_seq s + 1) s.curr_seqs;
        next_future = suc s.next_future;
        futures = insert s.next_future (record { state = pending; callbacks = [] }) s.futures;
      } in
      bind-ok (call_soon (task_step s.next_task))
        (λ _. do
          seq ← next_seq "activity"
          fut ← create_future
          register_task s.next_task (run_activity input)
          set_activity s.next_task
              (record { seq = seq; input = input; result_fut = fut; started = false })
          pure s.next_task)
        (call_soon-ready (task_step s.next_task) (record s { next_task = suc s.next_task })
          w.writable)
      ∙ bind-ok (register_task s.next_task (run_activity input))
          (λ _. do set_activity s.next_task (first_handle input s); pure s.next_task)
          (register_task-adds s.next_task input numbered
            (record { writable = w.writable; live = w.live }))

  apply_schedule_command-adds :
      (h : ActivityHandle) (ps : List Payload) (summary : Option Payload) (s : Instance)
      → Writable s
      → convert_args lib h.input ≡ ok ps
      → convert_summary lib h.input ≡ ok summary
      → apply_schedule_command lib none h s ≡ (
        ok tt,
        record s { commands = s.commands ++ (schedule_of lib h ps (some summary) none ∷ []) },
      )
  unfolding apply_schedule_command lift
  apply_schedule_command-adds h ps summary s w args sums =
      rw (apply_schedule_command, args, sums)
        (add_command-adds (schedule_of lib h ps (some summary) none) s w)

  -- The command that a start is to send: the number is the next one, and stands for an identifier
  -- that is missing or empty.
  abbrev pub schedule_command :
      ActivityInput → List Payload → Option Payload → Instance → ScheduleActivity
  schedule_command input ps summary s = record {
    seq = activity_seq s + 1;
    activity_id = elim input.activity_id [
      | none ↦ lib.str (activity_seq s + 1)
      | some id ↦ if id == "" then lib.str (activity_seq s + 1) else id
    ];
    input = input;
    arguments = ps;
    ending = some summary;
    attempt = none;
  }

  schedule_of-schedule_command :
      (input : ActivityInput) (ps : List Payload) (summary : Option Payload) (s : Instance)
      → schedule_of lib (first_handle input s) ps (some summary) none
        ≡ schedule_activity (schedule_command input ps summary s)
  unfolding schedule_of activity_id_of first_handle activity_seq
  schedule_of-schedule_command input ps summary s = ground arith

  -- The state after a start.
  started : ActivityInput → List Payload → Option Payload → Instance → Instance
  unfolding made
  started input ps summary s =
      let t = made input s in
      record t {
        commands =
            t.commands ++ (schedule_of lib (first_handle input s) ps (some summary) none ∷ []);
        pending_activities = insert (first_handle input s).seq s.next_task s.pending_activities;
      }

  with_activity-found :
      (task : ℕ) (h : ActivityHandle) (f : ActivityHandle → Exec (Unit {0})) (s : Instance)
      → lookup task s.activities ≡ some h
      → with_activity lib task f s ≡ f h s
  unfolding with_activity
  with_activity-found task h f s known = rw (with_activity, known) refl

  schedule_pending-started :
      (input : ActivityInput) (ps : List Payload) (summary : Option Payload) (s : Instance)
      → Writable s
      → convert_args lib input ≡ ok ps
      → convert_summary lib input ≡ ok summary
      → schedule_pending lib none s.next_task (made input s) ≡ (ok tt, started input ps summary s)
  unfolding schedule_pending started made set_pending
  schedule_pending-started input ps summary s w args sums =
      let h = first_handle input s in
      with_activity-found s.next_task h
        (λ h. do apply_schedule_command lib none h; set_pending lib s.next_task h) (made input s)
        (lookup-insert s.next_task s.next_task h s.activities ∙ rw (==_refl s.next_task) refl)
      ∙ bind-ok (apply_schedule_command lib none h) (λ _. set_pending lib s.next_task h)
          (apply_schedule_command-adds h ps summary (made input s)
            (record { writable = w.writable; live = w.live }) args sums)

  start_activity-timed :
      (input : ActivityInput) (s : Instance)
      → (no_time input.start_to_close_timeout && no_time input.schedule_to_close_timeout) ≡ false
      → start_activity lib input s
        ≡ (do task ← new_activity_handle lib input; schedule_pending lib none task; pure task) s
  unfolding start_activity
  start_activity-timed input s timed = rw (start_activity, timed) refl

  pub start_activity-pending :
      (input : ActivityInput) (ps : List Payload) (summary : Option Payload) (s : Instance)
      → Writable s
      → (no_time input.start_to_close_timeout && no_time input.schedule_to_close_timeout) ≡ false
      → convert_args lib input ≡ ok ps
      → convert_summary lib input ≡ ok summary
      → (t : Instance) × (start_activity lib input s ≡ (ok s.next_task, t))
        × (t.commands
            ≡ s.commands ++ (schedule_activity (schedule_command input ps summary s) ∷ []))
        × (lookup (activity_seq s + 1) t.pending_activities ≡ some s.next_task)
        × (lookup s.next_task t.activities ≡ some (first_handle input s))
        × IsIn (first_handle input s).result_fut pending t
  unfolding start_activity started made first_handle IsIn
  start_activity-pending input ps summary s w timed args sums =
      let waits : Future = record { state = pending; callbacks = [] } in
      (
        started input ps summary s,
        start_activity-timed input s timed
            ∙ bind-ok (new_activity_handle lib input)
                (λ task. do schedule_pending lib none task; pure task)
                (new_activity_handle-made input s w)
            ∙ bind-ok (schedule_pending lib none s.next_task) (λ _. pure s.next_task)
                (schedule_pending-started input ps summary s w args sums),
        ap (λ command. s.commands ++ (command ∷ []))
            (schedule_of-schedule_command input ps summary s),
        lookup-insert (activity_seq s + 1) (activity_seq s + 1) s.next_task s.pending_activities
            ∙ rw (==_refl (activity_seq s + 1)) refl,
        lookup-insert s.next_task s.next_task (first_handle input s) s.activities
            ∙ rw (==_refl s.next_task) refl,
        (
          waits,
          lookup-insert s.next_future s.next_future waits s.futures
              ∙ rw (==_refl s.next_future) refl,
          refl,
        ),
      )
