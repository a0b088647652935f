-- ===== src/Instance/Activities/Wakes.antt =====
-- The activities of _workflow_instance.py: the job that resolves one wakes the code that awaits it.
use sdk_python.Prelude.{
  ◌≡◌, refl, ap, ◌∙◌, ℕ, true, false, Option, none, some, none-ne-some, some-injective, [], ◌++◌,
  nat_eq, ==_refl, arith, inl, inr,
}
use sdk_python.Prelude.Result.{ok, err, Result-cases}
use sdk_python.Prelude.Dict.{lookup, insert, erase, lookup-insert, lookup-erase}
use sdk_python.Instance.Exn.{Exn}
use sdk_python.Instance.State.{
  Instance, Payload, Failure, ActivityHandle, ActivityResult, activity_completed, activity_failed,
  activity_cancelled, activity_backoff, no_activity_result, Future, FutureState, pending, finished,
  failed,
}
use sdk_python.Instance.Core.{◌>>=◌, complete_future, bind-ok}
use sdk_python.Instance.Futures.{IsIn, complete_future-pending}
use sdk_python.Instance.Activities.{
  ActivityLibrary, lift, with_activity, resolve_success, resolve_failure, resolve_with,
  apply_resolve_activity,
}

module _ (lib : ActivityLibrary) where
  unfoldable pub failure_outcome : ActivityHandle → Failure → Option FutureState
  failure_outcome h f = elim (lib.from_failure h.input f) [ ok e ↦ some (failed e) | err _ ↦ none ]

  -- What the awaiting code gets; none where a conversion raises, or the activity goes on.
  unfoldable pub outcome_of : ActivityHandle → ActivityResult → Option FutureState
  unfolding failure_outcome
  outcome_of h (activity_completed none) = some (finished lib.none_value)
  outcome_of h (activity_completed (some p)) = elim (lib.from_payload h.input p) [
    | ok v ↦ some (finished v)
    | err _ ↦ none
  ]
  outcome_of h (activity_failed f) = failure_outcome h f
  outcome_of h (activity_cancelled f) = failure_outcome h f
  outcome_of h (activity_backoff _) = none
  outcome_of h no_activity_result = none

  fails_with :
      (h : ActivityHandle) (f : Failure) (e : Exn)
      → lib.from_failure h.input f ≡ ok e
      → some (failed e) ≡ failure_outcome h f
  unfolding failure_outcome
  fails_with h f e is = ground arith

  resolve_failure-started :
      (e : Exn) (h : ActivityHandle) (s : Instance)
      → h.started ≡ true
      → resolve_failure lib e h s ≡ complete_future h.result_fut (failed e) s
  unfolding resolve_failure
  resolve_failure-started e h s started = rw (resolve_failure, started) refl

  failure_outcome-lem :
      (h : ActivityHandle) (f : Failure) (outcome : FutureState) (s : Instance)
      → h.started ≡ true
      → failure_outcome h f ≡ some outcome
      → (lift (lib.from_failure h.input f) >>= λ e. resolve_failure lib e h) s
        ≡ complete_future h.result_fut outcome s
  unfolding failure_outcome lift
  failure_outcome-lem h f outcome s started told =
      elim (Result-cases (lib.from_failure h.input f)) [
        | inr (e, raises) ↦ absurd (ground arith)
        | inl (e, is) ↦
            bind-ok (lift (lib.from_failure h.input f)) (λ e. resolve_failure lib e h)
              (ap (λ r. (r, s)) is)
            ∙ resolve_failure-started e h s started
            ∙ ap (λ o. complete_future h.result_fut o s)
                (some-injective _ _ (fails_with h f e is ∙ told))
      ]

  completes_with :
      (h : ActivityHandle) (p : Payload) (outcome : FutureState) (s : Instance)
      → outcome_of h (activity_completed (some p)) ≡ some outcome
      → (lift (lib.from_payload h.input p) >>= λ v. resolve_success lib v h) s
        ≡ complete_future h.result_fut outcome s
  unfolding outcome_of lift resolve_success
  completes_with h p outcome s told = elim (Result-cases (lib.from_payload h.input p)) [
    | inr (e, raises) ↦ absurd (ground arith)
    | inl (v, is) ↦
        bind-ok (lift (lib.from_payload h.input p)) (λ v. resolve_success lib v h)
          (ap (λ r. (r, s)) is)
        ∙ ap (λ o. complete_future h.result_fut o s)
            (some-injective (finished v) outcome (ground arith))
  ]

  resolve_with-outcome :
      (task : ℕ) (h : ActivityHandle) (result : ActivityResult) (outcome : FutureState)
      (s : Instance)
      → h.started ≡ true
      → outcome_of h result ≡ some outcome
      → resolve_with lib task result h s ≡ complete_future h.result_fut outcome s
  unfolding outcome_of resolve_with resolve_success
  resolve_with-outcome task h (activity_completed none) outcome s started told =
      ap (λ o. complete_future h.result_fut o s) (some-injective _ _ told)
  resolve_with-outcome task h (activity_completed (some p)) outcome s started told =
      completes_with h p outcome s told
  resolve_with-outcome task h (activity_failed f) outcome s started told =
      failure_outcome-lem h f outcome s started told
  resolve_with-outcome task h (activity_cancelled f) outcome s started told =
      failure_outcome-lem h f outcome s started told
  resolve_with-outcome task h (activity_backoff _) outcome s started told =
      absurd (none-ne-some outcome told)
  resolve_with-outcome task h no_activity_result outcome s started told =
      absurd (none-ne-some outcome told)

  apply_resolve_activity-found :
      (seq task : ℕ) (h : ActivityHandle) (result : ActivityResult) (s : Instance)
      → lookup seq s.pending_activities ≡ some task
      → lookup task s.activities ≡ some h
      → apply_resolve_activity lib seq result s
        ≡ resolve_with lib task result h
            (record s { pending_activities = erase seq s.pending_activities })
  unfolding apply_resolve_activity with_activity
  apply_resolve_activity-found seq task h result s held known =
      rw (apply_resolve_activity, held, with_activity, known) refl

  -- The job that resolves a started activity, its payload or failure converting, gives the outcome to
  -- the code that awaits it, makes that code ready, and leaves nothing pending under the number.
  pub resolved_wakes :
      (seq task : ℕ) (h : ActivityHandle) (result : ActivityResult) (outcome : FutureState)
      (f : Future) (s : Instance)
      → s.read_only ≡ false
      → lookup seq s.pending_activities ≡ some task
      → lookup task s.activities ≡ some h
      → h.started ≡ true
      → lookup h.result_fut s.futures ≡ some f
      → f.state ≡ pending
      → outcome_of h result ≡ some outcome
      → (t : Instance) × (apply_resolve_activity lib seq result s ≡ (ok tt, t))
        × IsIn h.result_fut outcome t
        × (t.ready ≡ s.ready ++ f.callbacks)
        × (lookup seq t.pending_activities ≡ none)
  unfolding IsIn
  resolved_wakes seq task h result outcome f s r held known started there waits told =
      let u = record s { pending_activities = erase seq s.pending_activities } in
      let done : Future = record { state = outcome; callbacks = [] } in
      (
        record u { futures = insert h.result_fut done s.futures; ready = s.ready ++ f.callbacks },
        apply_resolve_activity-found seq task h result s held known
            ∙ resolve_with-outcome task h result outcome u started told
            ∙ complete_future-pending h.result_fut f outcome u r there waits,
        (
          done,
          lookup-insert h.result_fut h.result_fut done s.futures ∙ rw (==_refl h.result_fut) refl,
          refl,
        ),
        refl,
        lookup-erase seq seq s.pending_activities ∙ rw (==_refl seq) refl,
      )
