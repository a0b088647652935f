-- ===== src/Instance/Activities/Backoff.antt =====
-- The activities of _workflow_instance.py: what a backoff of a local activity leaves, and what a
-- cancellation before the activity is scheduled again does.
use sdk_python.Prelude.{
  ◌≡◌, ◌≢◌, refl, ap, ◌∙◌, ℕ, suc, ◌+◌, ◌<◌, false, none, some, [], ◌∷◌, ◌++◌, nat_eq, string_eq,
  ==_refl, if◌then◌else◌, arith,
}
use sdk_python.Prelude.Result.{ok}
use sdk_python.Prelude.Dict.{lookup, insert, erase, lookup-insert, lookup-erase}
use sdk_python.Instance.State.{
  Instance, Command, ActivityHandle, activity_backoff, Future, pending, failed,
  request_cancel_activity, request_cancel_local_activity,
}
use sdk_python.Instance.Core.{
  ◌>>=◌, ◌>>◌, next_seq, complete_future, create_future, bind-ok, Writable, add_command,
  assert_not_read_only, assert_not_read_only-passes, add_command-adds,
}
use sdk_python.Instance.Futures.{IsIn, complete_future-pending}
use sdk_python.Instance.Activities.{
  ActivityLibrary, set_activity, with_activity, resolve_backoff, resolve_with,
  apply_resolve_activity, apply_cancel_command, cancel_unstarted, cancel_live, cancel_activity,
}

unfoldable pub activity_seq : Instance → ℕ
activity_seq s = elim (lookup "activity" s.curr_seqs) [ none ↦ 0 | some n ↦ n ]

-- The handle of a local activity that backs off: a new number and a new future, not started.
unfoldable pub renewed : ActivityHandle → Instance → ActivityHandle
unfolding activity_seq
renewed h s = record h { seq = activity_seq s + 1; result_fut = s.next_future; started = false }

module _ (lib : ActivityLibrary) where
  -- The state after the backoff.
  backed_off : (seq task attempt : ℕ) → ActivityHandle → Future → Instance → Instance
  unfolding activity_seq renewed
  backed_off seq task attempt h f s = record s {
    pending_activities = erase seq s.pending_activities;
    curr_seqs = insert "activity" (activity_seq s + 1) s.curr_seqs;
    activities =
        insert task (renewed h s)
          (insert task (record h { seq = activity_seq s + 1 }) s.activities);
    futures =
        insert s.next_future (record { state = pending; callbacks = [] })
          (insert h.result_fut
            (record { state = failed (lib.backoff_error attempt); callbacks = [] }) s.futures);
    next_future = suc s.next_future;
    ready = s.ready ++ f.callbacks;
  }

  apply_resolve_activity-found :
      (seq task attempt : ℕ) (h : ActivityHandle) (s : Instance)
      → lookup seq s.pending_activities ≡ some task
      → lookup task s.activities ≡ some h
      → apply_resolve_activity lib seq (activity_backoff attempt) s
        ≡ (do
          complete_future h.result_fut (failed (lib.backoff_error attempt))
          fut ← create_future
          set_activity task
              (record h { seq = activity_seq s + 1; result_fut = fut; started = false }))
            (record s {
              pending_activities = erase seq s.pending_activities;
              curr_seqs = insert "activity" (activity_seq s + 1) s.curr_seqs;
              activities = insert task (record h { seq = activity_seq s + 1 }) s.activities;
            })
  unfolding apply_resolve_activity with_activity resolve_with resolve_backoff next_seq set_activity
      activity_seq
  apply_resolve_activity-found seq task attempt h s held known =
      rw (apply_resolve_activity, held, with_activity, known) refl

  apply_resolve_activity-backed_off :
      (seq task attempt : ℕ) (h : ActivityHandle) (f : Future) (s : Instance)
      → s.read_only ≡ false
      → lookup seq s.pending_activities ≡ some task
      → lookup task s.activities ≡ some h
      → lookup h.result_fut s.futures ≡ some f
      → f.state ≡ pending
      → apply_resolve_activity lib seq (activity_backoff attempt) s
        ≡ (ok tt, backed_off seq task attempt h f s)
  unfolding backed_off renewed set_activity create_future
  apply_resolve_activity-backed_off seq task attempt h f s r held known there waits =
      let numbered = record s {
        pending_activities = erase seq s.pending_activities;
        curr_seqs = insert "activity" (activity_seq s + 1) s.curr_seqs;
        activities = insert task (record h { seq = activity_seq s + 1 }) s.activities;
      } in
      apply_resolve_activity-found seq task attempt h s held known
      ∙ bind-ok (complete_future h.result_fut (failed (lib.backoff_error attempt)))
          (λ _. do
            fut ← create_future
            set_activity task
                (record h { seq = activity_seq s + 1; result_fut = fut; started = false }))
          (complete_future-pending h.result_fut f (failed (lib.backoff_error attempt)) numbered r
            there waits)
      ∙ refl

  -- The backoff of a pending activity raises nothing: the code that awaits it gets the backoff, and
  -- the handle has a new number and a future that waits, and is pending under no number.
  pub backoff_renews :
      (seq task attempt : ℕ) (h : ActivityHandle) (s : Instance)
      → s.read_only ≡ false
      → lookup seq s.pending_activities ≡ some task
      → lookup task s.activities ≡ some h
      → IsIn h.result_fut pending s
      → h.result_fut < s.next_future
      → ((n other : ℕ) → lookup n s.pending_activities ≡ some other → other ≡ task → n ≡ seq)
      → (t : Instance) × (apply_resolve_activity lib seq (activity_backoff attempt) s ≡ (ok tt, t))
        × IsIn h.result_fut (failed (lib.backoff_error attempt)) t
        × (lookup task t.activities ≡ some (renewed h s))
        × IsIn (renewed h s).result_fut pending t
        × ((n other : ℕ) → lookup n t.pending_activities ≡ some other → other ≢ task)
  unfolding IsIn backed_off renewed
  backoff_renews seq task attempt h s r held known (f, there, waits) old once =
      let new =
        insert h.result_fut (record { state = failed (lib.backoff_error attempt); callbacks = [] })
          s.futures in
      (
        backed_off seq task attempt h f s,
        apply_resolve_activity-backed_off seq task attempt h f s r held known there waits,
        (
          record { state = failed (lib.backoff_error attempt); callbacks = [] },
          ground (
            arith,
            lookup-insert h.result_fut s.next_future (record { state = pending; callbacks = [] })
                new,
            lookup-insert h.result_fut h.result_fut
                (record { state = failed (lib.backoff_error attempt); callbacks = [] }) s.futures,
          ),
          refl,
        ),
        lookup-insert task task (renewed h s) _ ∙ rw (==_refl task) refl,
        (
          record { state = pending; callbacks = [] },
          lookup-insert s.next_future s.next_future (record { state = pending; callbacks = [] }) new
              ∙ rw (==_refl s.next_future) refl,
          refl,
        ),
        λ n other found same. ground (arith, lookup-erase n seq s.pending_activities, once n other),
      )

  cancel_of : ActivityHandle → Command
  cancel_of h =
      if h.input.is_local
      then request_cancel_local_activity h.seq
      else request_cancel_activity h.seq

  cancel_unstarted-sends :
      (task : ℕ) (h : ActivityHandle) (t : Instance)
      → lookup task t.activities ≡ some h
      → h.started ≡ false
      → lib.task_done task t ≡ false
      → cancel_unstarted lib task t ≡ add_command (cancel_of h) t
  unfolding cancel_unstarted with_activity apply_cancel_command cancel_of
  cancel_unstarted-sends task h t known unstarted going =
      rw (cancel_unstarted, with_activity, known, unstarted, going) refl

  cancel_activity-sends :
      (task : ℕ) (h : ActivityHandle) (t : Instance)
      → Writable t
      → lookup task t.activities ≡ some h
      → h.started ≡ false
      → lib.task_done task t ≡ false
      → cancel_activity lib task t
        ≡ lib.cancel_task task (record t { commands = t.commands ++ (cancel_of h ∷ []) })
  unfolding cancel_activity cancel_live
  cancel_activity-sends task h t w known unstarted going =
      ap (λ b. (if b then lib.cancel_task task else cancel_live lib task) t) w.live
      ∙ bind-ok (assert_not_read_only "cancel activity handle" false)
          (λ _. do cancel_unstarted lib task; lib.cancel_task task)
          (assert_not_read_only-passes "cancel activity handle" false t w)
      ∙ bind-ok (cancel_unstarted lib task) (λ _. lib.cancel_task task)
          (cancel_unstarted-sends task h t known unstarted going
            ∙ add_command-adds (cancel_of h) t w)

  -- A handle that is cancelled between the backoff and its next schedule, while its task goes on,
  -- sends a request to cancel its new number, which was given to nothing before, so that nothing is
  -- pending under it, and which no command has scheduled since.
  pub backoff_cancelled :
      (seq task attempt : ℕ) (h : ActivityHandle) (s : Instance)
      → Writable s
      → lookup seq s.pending_activities ≡ some task
      → lookup task s.activities ≡ some h
      → IsIn h.result_fut pending s
      → ((n : ℕ) → activity_seq s < n → lookup n s.pending_activities ≡ none)
      → ((t : Instance) → lib.task_done task t ≡ false)
      → (t : Instance) × (apply_resolve_activity lib seq (activity_backoff attempt) s ≡ (ok tt, t))
        × (t.commands ≡ s.commands)
        × (lookup (activity_seq s + 1) t.pending_activities ≡ none)
        × (cancel_activity lib task t
            ≡ lib.cancel_task task (record t {
              commands =
                  s.commands
                  ++ ((if h.input.is_local
                        then request_cancel_local_activity (activity_seq s + 1)
                        else request_cancel_activity (activity_seq s + 1))
                      ∷ []);
            }))
  unfolding IsIn backed_off renewed cancel_of
  backoff_cancelled seq task attempt h s w held known (f, there, waits) fresh going =
      let t = backed_off seq task attempt h f s in
      (
        t,
        apply_resolve_activity-backed_off seq task attempt h f s w.writable held known there waits,
        refl,
        ground (
          arith,
          lookup-erase (activity_seq s + 1) seq s.pending_activities,
          fresh (activity_seq s + 1) (omega arith),
        ),
        cancel_activity-sends task (renewed h s) t (record { writable = w.writable; live = w.live })
            (lookup-insert task task (renewed h s) _ ∙ rw (==_refl task) refl) refl (going t),
      )
