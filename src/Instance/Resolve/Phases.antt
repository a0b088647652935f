-- ===== src/Instance/Resolve/Phases.antt =====
-- The two futures of the handle of a child workflow or of a Nexus operation of
-- _workflow_instance.py, its start's and its result's, as one state machine.
use sdk_python.Prelude.{
  ◌≡◌, ◌≢◌, refl, sym, ◌∙◌, ℕ, Bool, true, false, List, [], ◌∷◌, nat_eq, arith,
}
use sdk_python.Prelude.Result.{ok}
use sdk_python.Prelude.Dict.{lookup-insert}
use sdk_python.Instance.Exn.{Exn}
use sdk_python.Instance.State.{Instance, Value, FutureState, pending, finished, failed}
use sdk_python.Instance.Core.{Exec, ◌>>◌, future_done, is_done, complete_future, bind-ok}
use sdk_python.Instance.Futures.{IsIn, complete_future-pending}
use sdk_python.Instance.Resolve.{resolve_failure}

pub data Phase : Type 0 where
  starting : Phase
  running : (started : Value) → Phase
  start_failed : Exn → Phase
  completed : (started result : Value) → Phase
  ended : (started : Value) → Exn → Phase

pub data Event : Type 0 where
  starts completes : Value → Event
  fails : Exn → Event

-- The phase after an event, in the order in which the core sends them.
pub data Leads : Phase → Event → Phase → Type 0 where
  starts_running : (v : Value) → Leads starting (starts v) (running v)
  never_starts : (e : Exn) → Leads starting (fails e) (start_failed e)
  gets_done : (v r : Value) → Leads (running v) (completes r) (completed v r)
  comes_to_fail : (v : Value) (e : Exn) → Leads (running v) (fails e) (ended v e)

pub data Course : Phase → List Event → Phase → Type 0 where
  stays : (p : Phase) → Course p [] p
  then_leads :
      {p q r : Phase} {e : Event} {es : List Event}
      → Leads p e q
      → Course q es r
      → Course p (e ∷ es) r

-- A handle whose result is known, or that never started.
unfoldable pub is_over : Phase → Bool
is_over starting = false
is_over (running _) = false
is_over _ = true

unfoldable pub start_state : Phase → FutureState
start_state starting = pending
start_state (running v) = finished v
start_state (start_failed e) = failed e
start_state (completed v r) = finished v
start_state (ended v e) = finished v

-- The tables of handles are as they were.
pub record SameTables (s t : Instance) : Type 0 where
  pub children : t.pending_child_workflows ≡ s.pending_child_workflows
  pub child_handles : t.children ≡ s.children
  pub nexus : t.pending_nexus_operations ≡ s.pending_nexus_operations
  pub nexus_handles : t.nexus_operations ≡ s.nexus_operations

same_trans : {s t u : Instance} → SameTables s t → SameTables t u → SameTables s u
same_trans h k = record {
  children = k.children ∙ h.children;
  child_handles = k.child_handles ∙ h.child_handles;
  nexus = k.nexus ∙ h.nexus;
  nexus_handles = k.nexus_handles ∙ h.nexus_handles;
}

-- `_resolve_start_success`, `_resolve_success` and `_resolve_failure` of the handles. `none_value` is
-- `None`.
module _ (none_value : Value) (start_fut result_fut : ℕ) where
  unfoldable pub run_event : Event → Exec (Unit {0})
  unfolding complete_future resolve_failure
  run_event (starts v) = complete_future start_fut (finished v)
  run_event (completes r) = complete_future result_fut (finished r)
  run_event (fails e) = resolve_failure none_value start_fut result_fut e

  unfoldable pub run_events : List Event → Exec (Unit {0})
  unfolding run_event
  run_events [] s = (ok tt, s)
  run_events (e ∷ es) s = (do run_event e; run_events es) s

  unfoldable pub result_state : Phase → FutureState
  result_state starting = pending
  result_state (running v) = pending
  result_state (start_failed e) = finished none_value
  result_state (completed v r) = finished r
  result_state (ended v e) = failed e

  unfoldable pub InPhase : Phase → Instance → Type 0
  unfolding start_state result_state IsIn
  InPhase p s = IsIn start_fut (start_state p) s × IsIn result_fut (result_state p) s

  -- After an action that returns, the handle is in the phase.
  unfoldable pub Comes : Phase → Exec (Unit {0}) → Instance → Type 0
  unfolding InPhase
  Comes p action s =
      (t : Instance) × (action s ≡ (ok tt, t))
      × InPhase p t
      × (t.read_only ≡ false)
      × SameTables s t

-- A future that is completed has its outcome, and any other is as it was.
Completes : ℕ → FutureState → Instance → Type 0
Completes fut outcome s =
    (t : Instance) × (complete_future fut outcome s ≡ (ok tt, t))
    × IsIn fut outcome t
    × ((other : ℕ) (state : FutureState) → other ≢ fut → IsIn other state s → IsIn other state t)
    × (t.read_only ≡ false)
    × SameTables s t

complete_future-Completes :
    (fut : ℕ) (outcome : FutureState) (s : Instance)
    → s.read_only ≡ false
    → IsIn fut pending s
    → Completes fut outcome s
unfolding Completes IsIn
complete_future-Completes fut outcome s r (f, held, waits) = (
  _,
  complete_future-pending fut f outcome s r held waits,
  (
    record { state = outcome; callbacks = [] },
    ground (arith, lookup-insert fut fut (record { state = outcome; callbacks = [] }) s.futures),
    refl,
  ),
  λ other state apart (g, there, is). (
    g,
    ground (arith, lookup-insert other fut (record { state = outcome; callbacks = [] }) s.futures),
    is,
  ),
  r,
  record { children = refl; child_handles = refl; nexus = refl; nexus_handles = refl },
)

future_done-pending : (fut : ℕ) (s : Instance) → IsIn fut pending s → future_done fut s ≡ false
unfolding future_done IsIn is_done
future_done-pending fut s (f, held, is) = rw (future_done, held, is) refl

future_done-is_done :
    (fut : ℕ) (state : FutureState) (s : Instance)
    → IsIn fut state s
    → is_done state ≡ true
    → future_done fut s ≡ true
unfolding future_done IsIn
future_done-is_done fut state s (f, held, is) done = rw (future_done, held, is) done

module _ (none_value : Value) (start_fut result_fut : ℕ) where
  resolve_failure-starting :
      (e : Exn) (s : Instance)
      → IsIn start_fut pending s
      → resolve_failure none_value start_fut result_fut e s
        ≡ (do
          complete_future start_fut (failed e)
          complete_future result_fut (finished none_value))
            s
  unfolding resolve_failure
  resolve_failure-starting e s waits =
      rw (resolve_failure, future_done-pending start_fut s waits) refl

  resolve_failure-started :
      (e : Exn) (state : FutureState) (s : Instance)
      → IsIn start_fut state s
      → is_done state ≡ true
      → resolve_failure none_value start_fut result_fut e s
        ≡ complete_future result_fut (failed e) s
  unfolding resolve_failure
  resolve_failure-started e state s held done =
      rw (resolve_failure, future_done-is_done start_fut state s held done) refl

  module _ (apart : start_fut ≢ result_fut) where
    pub event-Comes :
        {p q : Phase} {e : Event} (s : Instance)
        → s.read_only ≡ false
        → InPhase none_value start_fut result_fut p s
        → Leads p e q
        → Comes none_value start_fut result_fut q (run_event none_value start_fut result_fut e) s
    unfolding InPhase Comes run_event start_state result_state Completes
    event-Comes s r (begins, results) (starts_running v) =
        let (t, runs, is, keeps, r', k) =
          complete_future-Completes start_fut (finished v) s r begins in
        (t, runs, (is, keeps result_fut pending (λ e. apart (sym e)) results), r', k)
    event-Comes s r (begins, results) (never_starts e) =
        let (t, runs, is, keeps, r', k) =
          complete_future-Completes start_fut (failed e) s r begins in
        let waits = keeps result_fut pending (λ e. apart (sym e)) results in
        let (u, ends, is', keeps', r'', k') =
          complete_future-Completes result_fut (finished none_value) t r' waits in
        (
          u,
          resolve_failure-starting e s begins
              ∙ bind-ok (complete_future start_fut (failed e))
                  (λ _. complete_future result_fut (finished none_value)) runs
              ∙ ends,
          (keeps' start_fut (failed e) apart is, is'),
          r'',
          same_trans k k',
        )
    event-Comes s r (begins, results) (gets_done v result) =
        let (t, runs, is, keeps, r', k) =
          complete_future-Completes result_fut (finished result) s r results in
        (t, runs, (keeps start_fut (finished v) apart begins, is), r', k)
    event-Comes s r (begins, results) (comes_to_fail v e) =
        let (t, runs, is, keeps, r', k) =
          complete_future-Completes result_fut (failed e) s r results in
        (
          t,
          resolve_failure-started e (finished v) s begins (unfold is_done in refl) ∙ runs,
          (keeps start_fut (finished v) apart begins, is),
          r',
          k,
        )

    -- A handle whose events come in the order in which the core sends them goes through the phases
    -- and raises nothing.
    pub run_events-Comes :
        {p q : Phase} {es : List Event} (s : Instance)
        → s.read_only ≡ false
        → InPhase none_value start_fut result_fut p s
        → Course p es q
        → Comes none_value start_fut result_fut q (run_events none_value start_fut result_fut es) s
    unfolding Comes run_events
    run_events-Comes s r held (stays p) = (
      s,
      refl,
      held,
      r,
      record { children = refl; child_handles = refl; nexus = refl; nexus_handles = refl },
    )
    run_events-Comes s r held (then_leads {e = e} {es = es} leads course) =
        let (t, runs, there, r', k) = event-Comes s r held leads in
        let (u, rest, comes, r'', k') = run_events-Comes t r' there course in
        (
          u,
          bind-ok (run_event none_value start_fut result_fut e)
                (λ _. run_events none_value start_fut result_fut es) runs
              ∙ rest,
          comes,
          r'',
          same_trans k k',
        )
