-- ===== src/Instance/Futures.antt =====
-- What the futures of the event loop of _workflow_instance.py are after one is completed.
use sdk_python.Prelude.{
  ◌≡◌, refl, ap, ◌∙◌, sym, ℕ, true, false, some, List, [], ◌∷◌, ◌++◌, append-nil, append_assoc,
  nat_eq, Bool-cases, inl, inr,
}
use sdk_python.Prelude.Result.{ok, err}
use sdk_python.Prelude.Dict.{lookup, insert}
use sdk_python.Instance.Exn.{invalid_state_error}
use sdk_python.Instance.State.{Instance, Callback, Future, FutureState, pending}
use sdk_python.Instance.Core.{
  call_soon, assert_not_read_only, is_done, schedule_all, complete_future, bind-ok,
}

-- The future has this state.
unfoldable pub IsIn : ℕ → FutureState → Instance → Type 0
IsIn fut state s = (f : Future) × (lookup fut s.futures ≡ some f) × (f.state ≡ state)

pub call_soon-ready :
    (c : Callback) (s : Instance)
    → s.read_only ≡ false
    → call_soon c s ≡ (ok tt, record s { ready = s.ready ++ (c ∷ []) })
unfolding call_soon assert_not_read_only
call_soon-ready c s r = elim (Bool-cases s.deleting) [
  | inl d ↦ rw (d, r) refl
  | inr d ↦ rw (d, r) refl
]

schedule_all-ready :
    (callbacks : List Callback) (s : Instance)
    → s.read_only ≡ false
    → schedule_all callbacks s ≡ (ok tt, record s { ready = s.ready ++ callbacks })
unfolding schedule_all
schedule_all-ready [] s r = ap (λ l. (ok tt, record s { ready = l })) (sym (append-nil s.ready))
schedule_all-ready (c ∷ cs) s r =
    bind-ok (call_soon c) (λ _. schedule_all cs) (call_soon-ready c s r)
    ∙ schedule_all-ready cs (record s { ready = s.ready ++ (c ∷ []) }) r
    ∙ ap (λ l. (ok tt, record s { ready = l })) (append_assoc s.ready (c ∷ []) cs)

complete_future-open :
    (fut : ℕ) (f : Future) (outcome : FutureState) (s : Instance)
    → lookup fut s.futures ≡ some f
    → f.state ≡ pending
    → complete_future fut outcome s
      ≡ schedule_all f.callbacks
          (record s { futures = insert fut (record { state = outcome; callbacks = [] }) s.futures })
unfolding complete_future is_done
complete_future-open fut f outcome s held waits = rw (complete_future, held, waits) refl

-- A future that is completed for the first time.
pub complete_future-pending :
    (fut : ℕ) (f : Future) (outcome : FutureState) (s : Instance)
    → s.read_only ≡ false
    → lookup fut s.futures ≡ some f
    → f.state ≡ pending
    → complete_future fut outcome s ≡ (
      ok tt,
      record s {
        futures = insert fut (record { state = outcome; callbacks = [] }) s.futures;
        ready = s.ready ++ f.callbacks;
      },
    )
complete_future-pending fut f outcome s r held waits =
    let made = record s {
      futures = insert fut (record { state = outcome; callbacks = [] }) s.futures;
    } in
    complete_future-open fut f outcome s held waits ∙ schedule_all-ready f.callbacks made r

-- A future that is completed again.
pub complete_future-done :
    (fut : ℕ) (state outcome : FutureState) (s : Instance)
    → IsIn fut state s
    → is_done state ≡ true
    → complete_future fut outcome s ≡ (err invalid_state_error, s)
unfolding complete_future is_done IsIn
complete_future-done fut state outcome s (f, held, is) done =
    rw (complete_future, held, is, done) refl
