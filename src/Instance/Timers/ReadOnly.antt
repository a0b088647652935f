-- ===== src/Instance/Timers/ReadOnly.antt =====
-- A timer of _workflow_instance.py that a query handler or a validator cancels.
use sdk_python.Prelude.{ℕ, ◌≡◌, refl, true, false, some, none, arith, nat_eq}
use sdk_python.Prelude.Result.{err}
use sdk_python.Prelude.Dict.{lookup, erase, lookup-erase}
use sdk_python.Instance.Exn.{read_only_context_error}
use sdk_python.Instance.State.{Instance, Callback}
use sdk_python.Instance.Timers.{timer_handle_cancelled, fire_timer}

lookup-erased : (n : ℕ) (s : Instance) → lookup n (erase n s.pending_timers) ≡ none
lookup-erased n s = ground (arith, lookup-erase n n s.pending_timers)

-- Where the code may not write and no eviction goes on, cancelling a timer that is pending raises
-- and sends no command, and the timer is lost all the same: when it fires, nothing happens.
pub cancel_read_only :
    (n : ℕ) (c : Callback) (s : Instance)
    → lookup n s.pending_timers ≡ some c
    → s.read_only ≡ true
    → s.deleting ≡ false
    → let r = timer_handle_cancelled n s in
      (r.0 ≡ err (read_only_context_error "add command"))
      × (r.1.commands ≡ s.commands)
      × (fire_timer n r.1 ≡ r.1)
unfolding timer_handle_cancelled fire_timer
cancel_read_only n c s e r d =
    rw (e, timer_handle_cancelled, d, r) (refl, refl, rw (lookup-erased n s, fire_timer) refl)
