-- ===== src/Instance/Timers.antt =====
-- The timers of _workflow_instance.py: `call_later`, `_TimerHandle` and the job that fires one.
pub mod Server
pub mod ReadOnly
use sdk_python.Prelude.{
  ℕ, String, Bool, true, false, Option, none, some, List, [], ◌∷◌, ◌++◌, nat_eq, string_eq,
}
use sdk_python.Prelude.Int.{ℤ, pos, negsuc}
use sdk_python.Prelude.Result.{Result, ok, err}
use sdk_python.Prelude.Dict.{lookup, insert, erase}
use sdk_python.Instance.Exn.{runtime_error}
use sdk_python.Instance.State.{Instance, Callback, start_timer, cancel_timer}
use sdk_python.Instance.Core.{
  Exec, pure, raise, modify, ◌>>=◌, ◌>>◌, assert_not_read_only, add_command, next_seq,
}

-- `_timer_impl`. The delay is in nanoseconds, and the callback has its arguments.
unfoldable pub timer_impl : ℤ → Callback → Exec ℕ
unfolding assert_not_read_only add_command next_seq
timer_impl (negsuc n) callback = do
  assert_not_read_only "schedule timer" false
  raise (runtime_error "Attempting to schedule timer with negative delay")
timer_impl (pos n) callback = do
  assert_not_read_only "schedule timer" false
  seq ← next_seq "timer"
  add_command (start_timer seq (pos n))
  modify (λ s. record s { pending_timers = insert seq callback s.pending_timers })
  pure seq

-- `_timer_handle_cancelled` of the handle that has this sequence number.
unfoldable pub timer_handle_cancelled : ℕ → Exec (Unit {0})
unfolding add_command
timer_handle_cancelled seq s = elim (lookup seq s.pending_timers) [
  | none ↦ (ok tt, s)
  | some _ ↦
      add_command (cancel_timer seq) (record s { pending_timers = erase seq s.pending_timers })
]

-- `_apply_fire_timer`
unfoldable pub fire_timer : ℕ → Instance → Instance
fire_timer seq s = elim (lookup seq s.pending_timers) [
  | none ↦ s
  | some handle ↦ record s {
    pending_timers = erase seq s.pending_timers;
    ready = s.ready ++ (handle ∷ []);
  }
]
