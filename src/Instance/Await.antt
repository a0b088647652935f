-- ===== src/Instance/Await.antt =====
-- `_await_temporal_operation` of _workflow_instance.py, when its task is cancelled.
use sdk_python.Prelude.{
  ℕ, Bool, true, false, not, ◌&&◌, ◌||◌, Option, none, some, [], ◌∷◌, ◌++◌, contains, nat_eq,
  if◌then◌else◌,
}
use sdk_python.Prelude.Result.{ok}
use sdk_python.Instance.State.{Instance}
use sdk_python.Instance.Core.{Exec, ◌>>◌, future_done}

-- Whether the flag for a cancellation after completion holds; it then goes into the completion.
unfoldable pub completed_flag_holds : Option ℕ → Instance → Bool
completed_flag_holds none s = false
completed_flag_holds (some flag) s = not s.is_replaying || contains s.internal_flags flag

unfoldable pub use_flag : Option ℕ → Instance → Instance
use_flag none s = s
use_flag (some flag) s = record s { used_flags = s.used_flags ++ (flag ∷ []) }

-- Whether the cancellation is raised, or else the future awaited again. `apply_cancel` adds the
-- command that requests the operation's cancellation.
unfoldable pub await_cancelled :
    (fut : ℕ) (apply_cancel : Exec (Unit {0})) (completed_flag : Option ℕ) (reraise : Bool)
    → Exec Bool
unfolding future_done completed_flag_holds use_flag
await_cancelled fut apply_cancel completed_flag reraise s =
    if future_done fut s && s.single_batch
    then (ok true, s)
    else if future_done fut s && completed_flag_holds completed_flag s
    then (ok true, use_flag completed_flag s)
    else (do
      apply_cancel
      λ t. (
        ok (reraise && (elim t.cancel_reason [ none ↦ false | some _ ↦ true ] || t.deleting)),
        t,
      ))
        s
