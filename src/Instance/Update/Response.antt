-- ===== src/Instance/Update/Response.antt =====
-- The response that the first part of an update of _workflow_instance.py gives.
use sdk_python.Prelude.{
  ℕ, ◌≡◌, refl, ap, ◌∙◌, sym, subst, String, Bool, true, false, none, some, List, [], ◌∷◌, ◌++◌,
  length, if_rule, if◌then◌else◌, Option-cases, inl, inr,
}
use sdk_python.Prelude.Result.{Result, ok, err, Result-cases}
use sdk_python.Instance.Exn.{Exn, isinstance}
use sdk_python.Instance.State.{
  Instance, Failure, Command, UpdateJob, UpdateResponse, empty, accepted, rejected, update_response,
  Definition,
}
use sdk_python.Instance.Core.{Writable, add_command, add_command-adds, as_read_only, bind-ok, pure}
use sdk_python.Instance.Handlers.{Convert, HandlerArgs, named_or_dynamic}
use sdk_python.Instance.Failure.{Outcome, returned, continues, raised, base_raised}
use sdk_python.Instance.Update.{
  add_response, set_response, respond_with, update_cancelled, leave, Begun, over, runs_handler,
  reject_at, update_failed, update_raised, update_args, validated, try_update, after_try,
  begin_update,
}

unfoldable pub is_accepted : UpdateResponse → Bool
is_accepted accepted = true
is_accepted _ = false

set_response-last :
    (id : String) (old new : UpdateResponse) (commands : List Command)
    → set_response (length commands) new (commands ++ (update_response id old ∷ []))
      ≡ commands ++ (update_response id new ∷ [])
unfolding set_response
set_response-last id old new [] = refl
set_response-last id old new (c ∷ commands) =
    ap (λ l. c ∷ l) (set_response-last id old new commands)

-- `commands` are those of `s` and one response, which is not an acceptance.
record Refused (job : UpdateJob) (s : Instance) (commands : List Command) : Type 0 where
  answer : UpdateResponse
  added : commands ≡ s.commands ++ (update_response job.protocol_instance_id answer ∷ [])
  refuses : is_accepted answer ≡ false

module _ (to_failure : Exn → Result Exn Failure) (job : UpdateJob) (s t : Instance)
    (open_response : t.commands
      ≡ s.commands ++ (update_response job.protocol_instance_id empty ∷ [])) where
  answers :
      (new : UpdateResponse)
      → (respond_with (length s.commands) new t).commands
        ≡ s.commands ++ (update_response job.protocol_instance_id new ∷ [])
  unfolding respond_with
  answers new =
      ap (set_response (length s.commands) new) open_response
      ∙ set_response-last job.protocol_instance_id empty new s.commands

  abbrev Refuses : Result Exn (Unit {0}) × Instance → Type 0
  Refuses r = Refused job s r.1.commands

  left_open : Refused job s t.commands
  unfolding is_accepted
  left_open = record { answer = empty; added = open_response; refuses = refl }

  reject_at-Refused : (e : Exn) → Refuses (reject_at to_failure (length s.commands) e t)
  unfolding reject_at is_accepted
  reject_at-Refused e = elim (Result-cases (to_failure e)) [
    | inl (f, h) ↦
        rw (reject_at, h)
          (record {
            answer = rejected (some f);
            added = answers (rejected (some f));
            refuses = refl;
          })
    | inr (x, h) ↦
        rw (reject_at, h)
          (record { answer = rejected none; added = answers (rejected none); refuses = refl })
  ]

  update_failed-Refused :
      (e : Exn) → Refuses (update_failed to_failure job false (some (length s.commands)) e t)
  unfolding update_failed
  update_failed-Refused e =
      if_rule Refuses (isinstance (update_cancelled e) "ReadOnlyContextError") _ _ left_open
        (reject_at-Refused (update_cancelled e))

  update_raised-Refused :
      (o : Outcome (Unit {0}))
      → Refuses (update_raised to_failure {A = Unit {0}} job false (some (length s.commands)) o t)
  unfolding update_raised
  update_raised-Refused (returned _) = left_open
  update_raised-Refused (continues _) = left_open
  update_raised-Refused (raised e) = update_failed-Refused e
  update_raised-Refused (base_raised e) = if_rule Refuses t.deleting _ _ left_open left_open

add_response-adds :
    (job : UpdateJob) (s : Instance)
    → Writable s
    → add_response job s ≡ (
      ok (length s.commands),
      record s { commands = s.commands ++ (update_response job.protocol_instance_id empty ∷ []) },
    )
unfolding add_response
add_response-adds job s w =
    bind-ok (add_command (update_response job.protocol_instance_id empty))
      (λ _. pure (length s.commands))
      (add_command-adds (update_response job.protocol_instance_id empty) s w)

-- In the read-only part, the validator adds no command: all that would raises there.
module _ (to_failure : Exn → Result Exn Failure) (convert : Convert)
    (validate : ℕ → HandlerArgs → Instance → Outcome (Unit {0}) × Instance)
    (validates : (fn : ℕ) (input : HandlerArgs) (s : Instance)
      → s.read_only ≡ true
      → (validate fn input s).1.commands ≡ s.commands) where
  validated-commands :
      (job : UpdateJob) (defn : Definition) (input : HandlerArgs) (s : Instance)
      → (validated to_failure convert validate job defn input s).1.commands ≡ s.commands
  unfolding validated as_read_only
  validated-commands job defn input s =
      elim (Option-cases (if job.run_validator then defn.validator else none)) [
        | inl e ↦ rw (validated, e) refl
        | inr (fn, e) ↦
            rw (validated, e)
              (validates fn input (record s { read_only = true; in_query_or_validator = true })
                refl)
      ]

  -- Whatever came of the arguments.
  arguments-commands :
      (job : UpdateJob) (defn : Definition) (t : Instance) (o : Outcome HandlerArgs)
      → (elim o as (λ _. Outcome HandlerArgs × Instance) [
        | returned input ↦ validated to_failure convert validate job defn input t
        | continues info ↦ (continues info, t)
        | raised e ↦ (raised e, t)
        | base_raised e ↦ (base_raised e, t)
      ]).1.commands
        ≡ t.commands
  arguments-commands job defn t (returned input) = validated-commands job defn input t
  arguments-commands job defn t (continues info) = refl
  arguments-commands job defn t (raised e) = refl
  arguments-commands job defn t (base_raised e) = refl

  try_update-commands :
      (job : UpdateJob) (s : Instance)
      → (try_update to_failure convert validate job s).1.commands ≡ s.commands
  unfolding try_update
  try_update-commands job s = elim (Option-cases (named_or_dynamic job.name s.updates)) [
    | inl e ↦ rw (try_update, e) refl
    | inr (defn, e) ↦
        rw (try_update, e)
          (arguments-commands job defn _ (update_args to_failure convert validate job defn))
  ]

  -- What an update that begins has answered: that it is accepted, if its handler is to run.
  abbrev pub Answer : Begun → UpdateResponse → Type 0
  Answer (over _) answer = is_accepted answer ≡ false
  Answer (runs_handler _) answer = answer ≡ accepted

  abbrev pub Answered : UpdateJob → Instance → Begun × Instance → Type 0
  Answered job s r =
      (answer : UpdateResponse) × (r.1.commands
        ≡ s.commands ++ (update_response job.protocol_instance_id answer ∷ []))
      × Answer r.0 answer

  ends-Answered :
      (job : UpdateJob) (s t : Instance)
      → t.commands ≡ s.commands ++ (update_response job.protocol_instance_id empty ∷ [])
      → (o : Outcome (Unit {0}))
      → let r = update_raised to_failure {A = Unit {0}} job false (some (length s.commands)) o t in
        Answered job s (over r.0, leave job r.1)
  unfolding leave
  ends-Answered job s t h o =
      let r = update_raised-Refused to_failure job s t h o in (r.answer, r.added, r.refuses)

  -- What follows the attempt.
  tried-Answered :
      (job : UpdateJob) (s t : Instance)
      → t.commands ≡ s.commands ++ (update_response job.protocol_instance_id empty ∷ [])
      → (o : Outcome HandlerArgs)
      → Answered job s (after_try to_failure convert validate job (length s.commands) (o, t))
  unfolding after_try
  tried-Answered job s t h (returned input) =
      (accepted, answers to_failure job s t h accepted, refl)
  tried-Answered job s t h (continues info) = ends-Answered job s t h (continues info)
  tried-Answered job s t h (raised e) = ends-Answered job s t h (raised e)
  tried-Answered job s t h (base_raised e) = ends-Answered job s t h (base_raised e)

  -- Where the code may write, an update that begins adds one command and no other, a response to it,
  -- whatever is raised and wherever: an acceptance if its handler is then to run, and else none.
  -- In the read-only part the validator adds no command.
  pub begin_update_answers :
      (job : UpdateJob) (s : Instance)
      → Writable s
      → Answered job s (begin_update to_failure convert validate job s)
  unfolding begin_update
  begin_update_answers job s w =
      let opened = record s {
        commands = s.commands ++ (update_response job.protocol_instance_id empty ∷ []);
      } in
      let tried = try_update to_failure convert validate job opened in
      subst (Answered job s)
        (sym (
          ap
            (λ r. elim r.0 [
              | err e ↦ (over (err e), r.1)
              | ok place ↦
                  after_try to_failure convert validate job place
                    (try_update to_failure convert validate job r.1)
            ])
            (add_response-adds job s w)))
        (tried-Answered job s tried.1 (try_update-commands job opened) tried.0)
