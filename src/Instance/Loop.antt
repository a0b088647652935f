-- ===== src/Instance/Loop.antt =====
-- `_run_once` of _workflow_instance.py: the event loop runs until nothing is ready.
use sdk_python.Prelude.{
  ℕ, zero, suc, Bool, true, false, not, ◌&&◌, Option, none, some, List, [], ◌∷◌, if◌then◌else◌,
  nat_eq,
}
use sdk_python.Prelude.Result.{Result, ok, err}
use sdk_python.Instance.Exn.{Exn}
use sdk_python.Instance.State.{Instance, Callback, finished, Value}
use sdk_python.Instance.Core.{Exec, pure, ◌>>=◌, ◌>>◌, future_done, complete_future}

-- `run` is the code that a handle runs, up to its next await, and `holds` a condition's function,
-- both of them the user's; `true_value` is the `True` that a condition's future gets, and
-- `instantiate` makes the workflow's object.
module _ (run : Callback → Instance → Instance) (holds : ℕ → Exec Bool) (true_value : Value)
    (instantiate : Exec (Unit {0})) where
  -- `_check_condition`
  unfoldable pub check_condition : ℕ → ℕ → Exec Bool
  unfolding complete_future
  check_condition fn fut = do
    held ← holds fn
    if held then (do complete_future fut (finished true_value); pure true) else pure false

  -- The conditions that are neither done nor fulfilled.
  unfoldable pub remaining_conditions : List (ℕ × ℕ) → Exec (List (ℕ × ℕ))
  unfolding check_condition future_done
  remaining_conditions [] s = (ok [], s)
  remaining_conditions ((fn, fut) ∷ rest) s =
      if future_done fut s
      then remaining_conditions rest s
      else (do
        fulfilled ← check_condition fn fut
        others ← remaining_conditions rest
        pure (if fulfilled then others else (fn, fut) ∷ others))
          s

  unfoldable pub check_conditions : Bool → Exec (Unit {0})
  unfolding remaining_conditions
  check_conditions false s = (ok tt, s)
  check_conditions true s =
      (do
        conditions ← remaining_conditions s.conditions
        λ t. (ok tt, record t { conditions = conditions }))
        s

  -- What is raised after a handle, unless the workflow is being deleted.
  unfoldable pub raised_error : Instance → Option Exn
  raised_error s = if s.deleting then none else s.activation_error

  -- The inner loop, with an iteration for each unit of fuel. `none`: the fuel is used up.
  unfoldable pub run_ready : ℕ → Instance → Option (Result Exn (Unit {0}) × Instance)
  unfolding raised_error
  run_ready zero s = elim s.ready [ [] ↦ some (ok tt, s) | _ ∷ _ ↦ none ]
  run_ready (suc fuel) s = elim s.ready [
    | [] ↦ some (ok tt, s)
    | handle ∷ ready ↦
        let t = run handle (record s { ready = ready }) in
        let later = run_ready fuel t in
        elim (raised_error t) [ some e ↦ some (err e, t) | none ↦ later ]
  ]

  -- The outer loop; each of its iterations has the same fuel for the inner one.
  unfoldable pub run_while : Bool → ℕ → ℕ → Instance → Option (Result Exn (Unit {0}) × Instance)
  unfolding run_ready check_conditions
  run_while check inner zero s = elim s.ready [ [] ↦ some (ok tt, s) | _ ∷ _ ↦ none ]
  run_while check inner (suc fuel) s = elim s.ready [
    | [] ↦ some (ok tt, s)
    | _ ∷ _ ↦ elim (run_ready inner s) [
      | none ↦ none
      | some (err e, t) ↦ some (err e, t)
      | some (ok _, t) ↦
          let checked = check_conditions check t in
          let later = run_while check inner fuel checked.1 in
          elim checked.0 [ err e ↦ some (err e, checked.1) | ok _ ↦ later ]
    ]
  ]

  -- The object is made first, where there is none and the workflow is not being deleted.
  unfoldable pub ensure_object : Exec (Unit {0})
  ensure_object s =
      if not s.has_object && not s.deleting
      then (do instantiate; λ t. (ok tt, record t { has_object = true })) s
      else (ok tt, s)

  unfoldable pub run_once : Bool → ℕ → Instance → Option (Result Exn (Unit {0}) × Instance)
  unfolding run_while ensure_object
  run_once check fuel s =
      let made = ensure_object s in
      elim made.0 [ err e ↦ some (err e, made.1) | ok _ ↦ run_while check fuel fuel made.1 ]
