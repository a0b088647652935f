-- ===== src/Instance/Patch.antt =====
-- `workflow.patched` and `workflow.deprecate_patch` in _workflow_instance.py.
pub mod Replay
use sdk_python.Prelude.{
  String, Bool, true, false, not, ◌&&◌, ◌||◌, Option, none, some, List, [], ◌∷◌, contains,
  string_eq, if◌then◌else◌,
}
use sdk_python.Prelude.Result.{Result, ok, err}
use sdk_python.Prelude.Dict.{lookup, insert}
use sdk_python.Instance.Exn.{Exn, type_error}
use sdk_python.Instance.State.{Instance, set_patch_marker}
use sdk_python.Instance.Core.{
  Exec, pure, raise, modify, ◌>>=◌, ◌>>◌, assert_not_read_only, add_command, as_read_only,
}

-- `_apply_notify_has_patch`; the list stands for a set.
unfoldable pub notify_has_patch : String → Instance → Instance
notify_has_patch patch_id s = record s { patches_notified = patch_id ∷ s.patches_notified }

-- The user's callback: it raises, or returns a Boolean or something else (`none`).
abbrev pub PatchActivation : Type 0
PatchActivation = Option (String → Result Exn (Option Bool))

unfoldable pub checked_bool : Option Bool → Exec Bool
checked_bool none = raise (type_error "Patch activation callback must return true or false")
checked_bool (some use_patch) = pure use_patch

-- The answer for a patch that has none yet.
unfoldable pub decide_patch : PatchActivation → String → Bool → Exec Bool
unfolding as_read_only checked_bool
decide_patch callback id deprecated s =
    if deprecated || s.is_replaying || contains s.patches_notified id
    then (ok (not s.is_replaying || contains s.patches_notified id), s)
    else elim callback [
      | none ↦ (ok true, s)
      | some activates ↦
          (do answer ← as_read_only false (λ t. (activates id, t)); checked_bool answer) s
    ]

-- The answer is kept, and a patch in use is marked in the history.
unfoldable pub record_patch : String → Bool → Bool → Exec Bool
unfolding add_command
record_patch id deprecated use_patch = do
  modify (λ s. record s { patches_memoized = insert id use_patch s.patches_memoized })
  (if use_patch then add_command (set_patch_marker id deprecated) else pure tt)
  pure use_patch

unfoldable pub workflow_patch : PatchActivation → String → Bool → Exec Bool
unfolding assert_not_read_only decide_patch record_patch
workflow_patch callback id deprecated = do
  assert_not_read_only "patch" false
  λ s. elim (lookup id s.patches_memoized) [
    | some use_patch ↦ (ok use_patch, s)
    | none ↦
        (do use_patch ← decide_patch callback id deprecated; record_patch id deprecated use_patch) s
  ]
