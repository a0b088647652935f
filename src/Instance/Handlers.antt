-- ===== src/Instance/Handlers.antt =====
-- Handlers in _workflow_instance.py: the signals, which wait in a buffer while they have none, and
-- the tables of the handlers of signals, queries and updates.
pub mod Buffer
pub mod Handing
pub mod Routing
use sdk_python.Prelude.{
  ℕ, ◌+◌, String, Bool, true, false, ◌&&◌, Option, none, some, List, [], ◌∷◌, ◌++◌, length, ◌==◌,
  string_eq, nat_eq, option_eq, if◌then◌else◌,
}
use sdk_python.Prelude.Result.{Result, ok, err}
use sdk_python.Prelude.Dict.{Dict, lookup, insert, erase}
use sdk_python.Instance.Exn.{Exn, runtime_error}
use sdk_python.Instance.State.{Instance, Payload, Value, SignalJob, Definition, run_signal}
use sdk_python.Instance.Core.{Exec, pure, raise, modify, ◌>>◌, assert_not_read_only, create_task}

-- The types to which payloads are converted: those of a function, those of a function but its
-- first, or that many raw values.
pub data ArgTypes : Type 0 where
  declared after_first : ℕ → ArgTypes
  raw_values : ℕ → ArgTypes

-- The arguments of a handler: the values; the name and the values; the name and their list.
pub data HandlerArgs : Type 0 where
  plain_args : List Value → HandlerArgs
  name_and_args : String → List Value → HandlerArgs
  name_and_list : String → List Value → HandlerArgs

-- `_convert_payloads`, which stands on the payload converter.
abbrev pub Convert : Type 0
Convert = List Payload → ArgTypes → Result Exn (List Value)

map_ok : {A B : Type 0} → (A → B) → Result Exn A → Result Exn B
map_ok f (ok a) = ok (f a)
map_ok f (err e) = err e

-- `not name`: a name is also false where it is empty.
unfoldable pub is_falsy : Option String → Bool
is_falsy none = true
is_falsy (some name) = name == ""

-- `d.get(name) or d.get(None)`
unfoldable pub named_or_dynamic : String → Dict (Option String) Definition → Option Definition
named_or_dynamic name defns = elim (lookup (some name) defns) [
  | some defn ↦ some defn
  | none ↦ lookup none defns
]

module _ (convert : Convert) where
  unfoldable pub process_handler_args : String → List Payload → Definition → Result Exn HandlerArgs
  unfolding map_ok is_falsy
  process_handler_args job_name job_input defn =
      if is_falsy defn.name && defn.dynamic_vararg
      then map_ok (name_and_args job_name) (convert job_input (after_first defn.fn))
      else if is_falsy defn.name
      then map_ok (name_and_list job_name) (convert job_input (raw_values (length job_input)))
      else map_ok plain_args (convert job_input (declared defn.fn))

  -- The signal's task runs the handler; a signal whose input does not convert is dropped.
  unfoldable pub process_signal_job : Definition → SignalJob → Exec (Unit {0})
  unfolding process_handler_args create_task
  process_signal_job defn job s = elim (process_handler_args job.signal_name job.input defn) [
    | err _ ↦ (ok tt, s)
    | ok _ ↦
        let id = s.handled_signals_seq + 1 in
        (do create_task (run_signal id job); pure tt)
          (record s {
            handled_signals_seq = id;
            in_progress_signals =
                insert id (record { name = job.signal_name; warns = defn.warns; id = none })
                  s.in_progress_signals;
          })
  ]

  unfoldable pub process_signal_jobs : Definition → List SignalJob → Exec (Unit {0})
  unfolding process_signal_job
  process_signal_jobs defn [] = pure tt
  process_signal_jobs defn (job ∷ jobs) = do
    process_signal_job defn job
    process_signal_jobs defn jobs

  unfoldable pub process_buffered : Definition → Dict String (List SignalJob) → Exec (Unit {0})
  unfolding process_signal_jobs
  process_buffered defn [] = pure tt
  process_buffered defn ((_, jobs) ∷ rest) = do
    process_signal_jobs defn jobs
    process_buffered defn rest

  -- `self._buffered_signals.get(name, [])`
  unfoldable pub buffered : String → Instance → List SignalJob
  buffered name s = elim (lookup name s.buffered_signals) [ none ↦ [] | some jobs ↦ jobs ]

  -- `_apply_signal_workflow`
  unfoldable pub apply_signal_workflow : SignalJob → Exec (Unit {0})
  unfolding named_or_dynamic process_signal_job buffered
  apply_signal_workflow job s = elim (named_or_dynamic job.signal_name s.signals) [
    | some defn ↦ process_signal_job defn job s
    | none ↦ (
      ok tt,
      record s {
        buffered_signals =
            insert job.signal_name (buffered job.signal_name s ++ (job ∷ [])) s.buffered_signals;
      },
    )
  ]

  -- The buffered signals go to a new handler, if they are for it.
  unfoldable pub drain_buffered : Option String → Definition → Exec (Unit {0})
  unfolding process_signal_jobs process_buffered buffered
  drain_buffered none defn s =
      (do
        process_buffered defn s.buffered_signals
        modify (λ t. record t { buffered_signals = [] }))
        s
  drain_buffered (some name) defn s =
      if name == ""
      then (do
        process_buffered defn s.buffered_signals
        modify (λ t. record t { buffered_signals = [] }))
          s
      else process_signal_jobs defn (buffered name s)
          (record s { buffered_signals = erase name s.buffered_signals })

  unfoldable pub set_signal_handler : Option String → Option Definition → Exec (Unit {0})
  unfolding assert_not_read_only drain_buffered
  set_signal_handler name none = do
    assert_not_read_only "set signal handler" false
    modify (λ s. record s { signals = erase name s.signals })
  set_signal_handler name (some defn) = do
    assert_not_read_only "set signal handler" false
    modify (λ s. record s { signals = insert name defn s.signals })
    drain_buffered name defn

unfoldable pub set_query_handler : Option String → Option Definition → Exec (Unit {0})
unfolding assert_not_read_only
set_query_handler name none = do
  assert_not_read_only "set query handler" false
  modify (λ s. record s { queries = erase name s.queries })
set_query_handler name (some defn) = do
  assert_not_read_only "set query handler" false
  modify (λ s. record s { queries = insert name defn s.queries })

unfoldable pub set_update_handler : Option String → Option Definition → Exec (Unit {0})
unfolding assert_not_read_only
set_update_handler name none = do
  assert_not_read_only "set update handler" false
  modify (λ s. record s { updates = erase name s.updates })
set_update_handler name (some defn) = do
  assert_not_read_only "set update handler" false
  modify (λ s. record s { updates = insert name defn s.updates })
  (if defn.dynamic_vararg
      then raise (runtime_error "Dynamic updates do not support a vararg third param")
      else pure tt)
