-- ===== src/Instance/Resolve/Pending.antt =====
-- The jobs of _workflow_instance.py that resolve Nexus operations and child workflows, in the order
-- of the core: a handle stays pending until its result is known.
use sdk_python.Prelude.{
  ◌≡◌, ◌≢◌, refl, sym, ap, ◌∙◌, ℕ, Bool, true, false, Option, none, some, nat_eq, ==_refl, inl, inr,
  some-injective, none-ne-some, if◌then◌else◌, arith,
}
use sdk_python.Prelude.Result.{ok, err, Result-cases}
use sdk_python.Prelude.Dict.{lookup, erase, lookup-erase}
use sdk_python.Instance.Exn.{Exn}
use sdk_python.Instance.State.{
  Instance, Value, NexusHandle, NexusStart, nexus_started, nexus_started_sync, nexus_start_failed,
  no_nexus_start, NexusResult, nexus_completed, nexus_failed, nexus_cancelled, nexus_timed_out,
  no_nexus_result, Failure, Payload,
}
use sdk_python.Instance.Core.{Exec, bind-ok}
use sdk_python.Instance.Activities.{lift}
use sdk_python.Instance.Resolve.{
  ResolveLibrary, nexus_failed_with, fail_nexus, start_nexus_with, apply_resolve_nexus_start,
  resolve_nexus_with, apply_resolve_nexus,
}
use sdk_python.Instance.Resolve.Phases.{
  Phase, Event, starts, completes, fails, Leads, starts_running, never_starts, gets_done,
  comes_to_fail, is_over, run_event, InPhase, Comes, event-Comes,
}

-- The two jobs of a Nexus operation.
pub data NexusJob : Type 0 where
  start_job : NexusStart → NexusJob
  result_job : NexusResult → NexusJob

-- Whether there is nothing more to come.
unfoldable pub ends : Event → Bool
ends (starts _) = false
ends _ = true

module _ (lib : ResolveLibrary) where
  unfoldable pub apply_nexus_job : ℕ → NexusJob → Exec (Unit {0})
  unfolding apply_resolve_nexus_start apply_resolve_nexus
  apply_nexus_job seq (start_job start) = apply_resolve_nexus_start lib seq start
  apply_nexus_job seq (result_job result) = apply_resolve_nexus lib seq result

  unfoldable pub failure_event : NexusHandle → Failure → Option Event
  failure_event h f = elim (lib.nexus_failure h.input f) [ ok e ↦ some (fails e) | err _ ↦ none ]

  -- What a job tells the handle; none where a conversion raises or the job says nothing.
  unfoldable pub nexus_event : NexusHandle → NexusJob → Option Event
  unfolding failure_event
  nexus_event h (start_job (nexus_started token)) = some (starts (lib.token_value token))
  nexus_event h (start_job nexus_started_sync) = some (starts lib.none_value)
  nexus_event h (start_job (nexus_start_failed f)) = failure_event h f
  nexus_event h (start_job no_nexus_start) = none
  nexus_event h (result_job (nexus_completed p)) = elim (lib.nexus_value h.input p) [
    | ok v ↦ some (completes v)
    | err _ ↦ none
  ]
  nexus_event h (result_job (nexus_failed f)) = failure_event h f
  nexus_event h (result_job (nexus_cancelled f)) = failure_event h f
  nexus_event h (result_job (nexus_timed_out f)) = failure_event h f
  nexus_event h (result_job no_nexus_result) = none

  -- Whether the job takes the handle from the pending ones.
  unfoldable pub nexus_pops : NexusJob → Bool
  nexus_pops (start_job (nexus_started _)) = false
  nexus_pops (start_job nexus_started_sync) = false
  nexus_pops _ = true

  unfoldable pub popped : ℕ → Bool → Instance → Instance
  popped seq pops s =
      if pops
      then record s { pending_nexus_operations = erase seq s.pending_nexus_operations }
      else s

  fails_with :
      (h : NexusHandle) (f : Failure) (x : Exn)
      → lib.nexus_failure h.input f ≡ ok x
      → some (fails x) ≡ failure_event h f
  unfolding failure_event
  fails_with h f x is = ground arith

  completes_with :
      (h : NexusHandle) (p : Payload) (v : Value)
      → lib.nexus_value h.input p ≡ ok v
      → some (completes v) ≡ nexus_event h (result_job (nexus_completed p))
  unfolding nexus_event
  completes_with h p v is = ground arith

  failure_event-lem :
      (h : NexusHandle) (f : Failure) (e : Event) (s : Instance)
      → failure_event h f ≡ some e
      → nexus_failed_with lib h f s ≡ run_event lib.none_value h.start_fut h.result_fut e s
  unfolding failure_event nexus_failed_with fail_nexus lift run_event
  failure_event-lem h f e s made = elim (Result-cases (lib.nexus_failure h.input f)) [
    | inr (x, raises) ↦ absurd (ground arith)
    | inl (x, is) ↦
        bind-ok (lift (lib.nexus_failure h.input f)) (λ e. fail_nexus lib h e) (ap (λ r. (r, s)) is)
        ∙ ap (λ e. run_event lib.none_value h.start_fut h.result_fut e s)
            (some-injective _ _ (fails_with h f x is ∙ made))
  ]

  start_nexus-found :
      (seq task : ℕ) (h : NexusHandle) (start : NexusStart) (s : Instance)
      → lookup seq s.pending_nexus_operations ≡ some task
      → lookup task s.nexus_operations ≡ some h
      → apply_resolve_nexus_start lib seq start s ≡ start_nexus_with lib seq start h s
  unfolding apply_resolve_nexus_start
  start_nexus-found seq task h start s held known = rw (apply_resolve_nexus_start, held, known) refl

  resolve_nexus-found :
      (seq task : ℕ) (h : NexusHandle) (result : NexusResult) (s : Instance)
      → lookup seq s.pending_nexus_operations ≡ some task
      → lookup task s.nexus_operations ≡ some h
      → apply_resolve_nexus lib seq result s ≡ resolve_nexus_with lib result h (popped seq true s)
  unfolding apply_resolve_nexus popped
  resolve_nexus-found seq task h result s held known = rw (apply_resolve_nexus, held, known) refl

  start_nexus-event :
      (seq : ℕ) (h : NexusHandle) (start : NexusStart) (e : Event) (s : Instance)
      → nexus_event h (start_job start) ≡ some e
      → start_nexus_with lib seq start h s
        ≡ run_event lib.none_value h.start_fut h.result_fut e
            (popped seq (nexus_pops (start_job start)) s)
  unfolding nexus_event nexus_pops popped start_nexus_with run_event
  start_nexus-event seq h (nexus_started token) e s told =
      ap (λ e. run_event lib.none_value h.start_fut h.result_fut e s) (some-injective _ _ told)
  start_nexus-event seq h nexus_started_sync e s told =
      ap (λ e. run_event lib.none_value h.start_fut h.result_fut e s) (some-injective _ _ told)
  start_nexus-event seq h (nexus_start_failed f) e s told =
      failure_event-lem h f e (popped seq true s) told
  start_nexus-event seq h no_nexus_start e s told = absurd (none-ne-some e told)

  value_event-lem :
      (h : NexusHandle) (p : Payload) (e : Event) (s : Instance)
      → nexus_event h (result_job (nexus_completed p)) ≡ some e
      → resolve_nexus_with lib (nexus_completed p) h s
        ≡ run_event lib.none_value h.start_fut h.result_fut e s
  unfolding nexus_event resolve_nexus_with lift run_event
  value_event-lem h p e s told = elim (Result-cases (lib.nexus_value h.input p)) [
    | inr (x, raises) ↦ absurd (ground arith)
    | inl (v, is) ↦
        bind-ok (lift (lib.nexus_value h.input p))
          (λ v. run_event lib.none_value h.start_fut h.result_fut (completes v))
          (ap (λ r. (r, s)) is)
        ∙ ap (λ e. run_event lib.none_value h.start_fut h.result_fut e s)
            (some-injective _ _ (completes_with h p v is ∙ told))
  ]

  resolve_nexus-event :
      (h : NexusHandle) (result : NexusResult) (e : Event) (s : Instance)
      → nexus_event h (result_job result) ≡ some e
      → resolve_nexus_with lib result h s ≡ run_event lib.none_value h.start_fut h.result_fut e s
  unfolding nexus_event resolve_nexus_with
  resolve_nexus-event h (nexus_completed p) e s told = value_event-lem h p e s told
  resolve_nexus-event h (nexus_failed f) e s told = failure_event-lem h f e s told
  resolve_nexus-event h (nexus_cancelled f) e s told = failure_event-lem h f e s told
  resolve_nexus-event h (nexus_timed_out f) e s told = failure_event-lem h f e s told
  resolve_nexus-event h no_nexus_result e s told = absurd (none-ne-some e told)

  apply_nexus_job-event :
      (seq task : ℕ) (h : NexusHandle) (job : NexusJob) (e : Event) (s : Instance)
      → lookup seq s.pending_nexus_operations ≡ some task
      → lookup task s.nexus_operations ≡ some h
      → nexus_event h job ≡ some e
      → apply_nexus_job seq job s
        ≡ run_event lib.none_value h.start_fut h.result_fut e (popped seq (nexus_pops job) s)
  unfolding nexus_pops apply_nexus_job
  apply_nexus_job-event seq task h (start_job start) e s held known told =
      start_nexus-found seq task h start s held known ∙ start_nexus-event seq h start e s told
  apply_nexus_job-event seq task h (result_job result) e s held known told =
      resolve_nexus-found seq task h result s held known
      ∙ resolve_nexus-event h result e (popped seq true s) told

  failure_event-ends :
      (h : NexusHandle) (f : Failure) (e : Event) → failure_event h f ≡ some e → ends e ≡ true
  unfolding failure_event ends
  failure_event-ends h f e told = ground arith

  nexus_pops-ends :
      (h : NexusHandle) (job : NexusJob) (e : Event)
      → nexus_event h job ≡ some e
      → nexus_pops job ≡ ends e
  unfolding nexus_event nexus_pops ends
  nexus_pops-ends h (start_job (nexus_started token)) e told = ap ends (some-injective _ _ told)
  nexus_pops-ends h (start_job nexus_started_sync) e told = ap ends (some-injective _ _ told)
  nexus_pops-ends h (start_job (nexus_start_failed f)) e told = sym (failure_event-ends h f e told)
  nexus_pops-ends h (start_job no_nexus_start) e told = absurd (none-ne-some e told)
  nexus_pops-ends h (result_job (nexus_completed p)) e told = ground arith
  nexus_pops-ends h (result_job (nexus_failed f)) e told = sym (failure_event-ends h f e told)
  nexus_pops-ends h (result_job (nexus_cancelled f)) e told = sym (failure_event-ends h f e told)
  nexus_pops-ends h (result_job (nexus_timed_out f)) e told = sym (failure_event-ends h f e told)
  nexus_pops-ends h (result_job no_nexus_result) e told = absurd (none-ne-some e told)

  -- The handle of an operation, in a phase: it is pending under its number until it is over.
  unfoldable pub Tracks : (seq task : ℕ) → NexusHandle → Phase → Instance → Type 0
  unfolding is_over InPhase
  Tracks seq task h p s =
      (lookup seq s.pending_nexus_operations ≡ (if is_over p then none else some task))
      × (lookup task s.nexus_operations ≡ some h)
      × InPhase lib.none_value h.start_fut h.result_fut p s
      × (s.read_only ≡ false)

  popped-pending :
      (seq task : ℕ) (pops : Bool) (s : Instance)
      → lookup seq s.pending_nexus_operations ≡ some task
      → lookup seq (popped seq pops s).pending_nexus_operations ≡ (if pops then none else some task)
  unfolding popped
  popped-pending seq task true s held =
      lookup-erase seq seq s.pending_nexus_operations ∙ rw (==_refl seq) refl
  popped-pending seq task false s held = held

  popped-handles :
      (seq : ℕ) (pops : Bool) (s : Instance)
      → (popped seq pops s).nexus_operations ≡ s.nexus_operations
  unfolding popped
  popped-handles seq true s = refl
  popped-handles seq false s = refl

  popped-read_only :
      (seq : ℕ) (pops : Bool) (s : Instance) → (popped seq pops s).read_only ≡ s.read_only
  unfolding popped
  popped-read_only seq true s = refl
  popped-read_only seq false s = refl

  popped-InPhase :
      (seq : ℕ) (pops : Bool) (h : NexusHandle) (p : Phase) (s : Instance)
      → InPhase lib.none_value h.start_fut h.result_fut p s
      → InPhase lib.none_value h.start_fut h.result_fut p (popped seq pops s)
  unfolding popped InPhase
  popped-InPhase seq true h p s held = held
  popped-InPhase seq false h p s held = held

  Leads-is_over :
      {p q : Phase} {e : Event} → Leads p e q → (is_over p ≡ false) × (is_over q ≡ ends e)
  unfolding is_over ends
  Leads-is_over (starts_running v) = (refl, refl)
  Leads-is_over (never_starts e) = (refl, refl)
  Leads-is_over (gets_done v r) = (refl, refl)
  Leads-is_over (comes_to_fail v e) = (refl, refl)

  -- A job of a Nexus operation, its payloads converting, that comes in the order of the core raises
  -- nothing, brings the operation's handle to its next phase, and leaves it pending just until its
  -- result is known or its start has failed.
  pub nexus_job_tracked :
      (seq task : ℕ) (h : NexusHandle) (job : NexusJob) (e : Event) {p q : Phase} (s : Instance)
      → h.start_fut ≢ h.result_fut
      → nexus_event h job ≡ some e
      → Leads p e q
      → Tracks seq task h p s
      → (t : Instance) × (apply_nexus_job seq job s ≡ (ok tt, t)) × Tracks seq task h q t
  unfolding Tracks Comes
  nexus_job_tracked seq task h job e {p = p} {q = q} s apart told leads (held, known, phase, r) =
      let (waiting, over) = Leads-is_over leads in
      let found = held ∙ ap (λ b. if b then none else some task) waiting in
      let pops = nexus_pops job in
      let u = popped seq pops s in
      let (t, runs, there, r', kept) =
        event-Comes lib.none_value h.start_fut h.result_fut apart u
          (popped-read_only seq pops s ∙ r) (popped-InPhase seq pops h p s phase) leads in
      (
        t,
        apply_nexus_job-event seq task h job e s found known told ∙ runs,
        (
          ap (lookup seq) kept.nexus
              ∙ popped-pending seq task pops s found
              ∙ ap (λ b. if b then none else some task) (nexus_pops-ends h job e told ∙ sym over),
          ap (lookup task) (kept.nexus_handles ∙ popped-handles seq pops s) ∙ known,
          there,
          r',
        ),
      )
