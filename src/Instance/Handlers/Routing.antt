-- ===== src/Instance/Handlers/Routing.antt =====
-- The signals of _workflow_instance.py between the buffer and their handlers.
use sdk_python.Prelude.{
  ◌+◌, ◌≡◌, refl, ap, sym, subst, ◌∙◌, String, Bool, append-nil, false, Option, none, some, List,
  [], ◌∷◌, ◌++◌, ◌==◌, ==_eq, string_eq, nat_eq, option_eq, arith, if_rule, Bool-cases,
  Option-cases, inl, inr,
}
use sdk_python.Prelude.Result.{Result, ok}
use sdk_python.Prelude.Dict.{
  lookup, insert, erase, lookup-nil, lookup-insert, lookup-erase, NodupKeys, insert-NodupKeys,
}
use sdk_python.Instance.Exn.{Exn}
use sdk_python.Instance.State.{Instance, Payload, SignalJob, Definition}
use sdk_python.Instance.Core.{
  bind-ok, modify, ◌>>◌, Writable, assert_not_read_only, assert_not_read_only-passes,
}
use sdk_python.Instance.Handlers.{
  Convert, HandlerArgs, named_or_dynamic, process_handler_args, process_signal_jobs,
  process_buffered, buffered, apply_signal_workflow, drain_buffered, set_signal_handler,
}
use sdk_python.Instance.Handlers.Buffer.{
  counted, counted-nil, total, jobs_of, all_jobs, counted-append, counted-all_jobs, total-insert,
  total-erase, erase-NodupKeys,
}
use sdk_python.Instance.Handlers.Handing.{
  AreHanded, none-AreHanded, AreHanded-trans, Handed, steps, add_tasks, process_signal_job-Hands,
  process_signal_jobs-Hands, process_buffered-Hands,
}

-- No signal is in the buffer while it has a handler.
pub record Routed (s : Instance) : Type 0 where
  pub writable : Writable s
  pub keys : NodupKeys s.buffered_signals
  pub routed :
      (name : String) (defn : Definition)
      → named_or_dynamic name s.signals ≡ some defn
      → lookup name s.buffered_signals ≡ none

some_== : (a b : String) → (some a == some b) ≡ (a == b)
unfolding option_eq
some_== a b = ground arith

none_== : (b : String) → (none == some b) ≡ false
unfolding option_eq
none_== b = ground arith

-- Whatever one counts, of the signals that came in after `s` all were handed over or are in the
-- buffer of `t`, with those that were in the buffer of `s`.
abbrev pub Balances : List SignalJob → List SignalJob → Instance → Instance → Type 0
Balances came handed s t =
    (p : SignalJob → Bool)
    → counted p handed + total p t.buffered_signals ≡ total p s.buffered_signals + counted p came

-- One step that ends in `t`, and brings signals.
abbrev Accounts : List SignalJob → Instance → Result Exn (Unit {0}) × Instance → Type 0
Accounts came s r =
    (handed : List SignalJob) × Routed r.1 × AreHanded handed s r.1 × Balances came handed s r.1

module _ (convert : Convert)
    (converts : (name : String) (input : List Payload) (defn : Definition)
      → (a : HandlerArgs) × (process_handler_args convert name input defn ≡ ok a)) where
  -- Signals are handed over from a state that has the handlers and the buffer of `s`.
  Handed-Accounts :
      (jobs : List SignalJob) (s t : Instance)
      → Routed s
      → Handed jobs s t
      → Accounts jobs s (ok tt, t)
  Handed-Accounts jobs s t i h = (
    jobs,
    record {
      writable = h.writable;
      keys = subst NodupKeys (sym h.kept) i.keys;
      routed = λ name defn e.
          ap (lookup name) h.kept
          ∙ i.routed name defn (ap (named_or_dynamic name) (sym h.signals) ∙ e);
    },
    h.handed,
    λ p. omega (arith, ap (total p) h.kept),
  )

  -- A signal without a handler waits.
  waiting-Routed :
      (job : SignalJob) (s : Instance)
      → Routed s
      → named_or_dynamic job.signal_name s.signals ≡ none
      → (name : String) (defn : Definition) → named_or_dynamic name s.signals ≡ some defn
      → lookup name (
          insert job.signal_name
            (jobs_of job.signal_name s.buffered_signals ++ (job ∷ []))
            s.buffered_signals)
        ≡ none
  waiting-Routed job s i e name defn held = elim (Bool-cases (name == job.signal_name)) [
    | inl q ↦
        let here =
          subst (λ n. named_or_dynamic n s.signals ≡ some defn) (==_eq name job.signal_name q)
            held in
        absurd (ground arith)
    | inr q ↦ ground (
      arith,
      i.routed name defn held,
      lookup-insert name job.signal_name (jobs_of job.signal_name s.buffered_signals ++ (job ∷ []))
          s.buffered_signals,
    )
  ]

  apply_signal_workflow-Accounts :
      (job : SignalJob) (s : Instance)
      → Routed s
      → Accounts (job ∷ []) s (apply_signal_workflow convert job s)
  unfolding apply_signal_workflow buffered
  apply_signal_workflow-Accounts job s i =
      elim (Option-cases (named_or_dynamic job.signal_name s.signals)) [
        | inr (defn, e) ↦
            let (t, f, h) = process_signal_job-Hands convert converts defn job s i.writable in
            let handed = Handed-Accounts (job ∷ []) s t i h in
            rw (apply_signal_workflow, e, f) handed
        | inl e ↦
            rw (apply_signal_workflow, e)
              (
                [],
                record {
                  writable = record { writable = i.writable.writable; live = i.writable.live };
                  keys = insert-NodupKeys job.signal_name _ s.buffered_signals i.keys;
                  routed = λ name defn held. waiting-Routed job s i e name defn held;
                },
                unfold steps add_tasks in
                    record {
                      count = omega arith;
                      next = omega arith;
                      ready = sym (append-nil s.ready);
                      tasks = refl;
                    },
                λ p.
                    unfold counted in
                    omega (arith, total-insert p job.signal_name job s.buffered_signals),
              )
      ]

  -- A handler's removal.
  removed :
      (key : Option String) (name : String) (defn : Definition) (s : Instance)
      → named_or_dynamic name (erase key s.signals) ≡ some defn
      → (d : Definition) × (named_or_dynamic name s.signals ≡ some d)
  unfolding named_or_dynamic
  removed key name defn s e = elim (Option-cases (lookup (some name) s.signals)) [
    | inr (d, h) ↦ (d, rw (named_or_dynamic, h) refl)
    | inl h ↦ elim (Option-cases (lookup none s.signals)) [
      | inr (d, k) ↦ (d, rw (named_or_dynamic, h, k) refl)
      | inl k ↦
          absurd (
            ground (arith, lookup-erase (some name) key s.signals, lookup-erase none key s.signals))
    ]
  ]

  set_signal_handler-removes :
      (key : Option String) (s : Instance)
      → Routed s
      → Accounts [] s (set_signal_handler convert key none s)
  unfolding set_signal_handler
  set_signal_handler-removes key s i =
      rw
        (bind-ok (assert_not_read_only "set signal handler" false)
          (λ _. modify (λ t. record t { signals = erase key t.signals }))
          (assert_not_read_only-passes "set signal handler" false s i.writable))
        (
          [],
          record {
            writable = record { writable = i.writable.writable; live = i.writable.live };
            keys = i.keys;
            routed = λ name defn e. let (d, h) = removed key name defn s e in i.routed name d h;
          },
          unfold steps add_tasks in
              record {
                count = omega arith;
                next = omega arith;
                ready = sym (append-nil s.ready);
                tasks = refl;
              },
          λ p. unfold counted in omega arith,
        )

  -- A named handler's signals have left the buffer.
  added :
      (key name : String) (defn d : Definition) (s : Instance)
      → Routed s
      → named_or_dynamic name (insert (some key) defn s.signals) ≡ some d
      → lookup name (erase key s.buffered_signals) ≡ none
  unfolding named_or_dynamic
  added key name defn d s i e = elim (Bool-cases (name == key)) [
    | inl q ↦ ground (arith, lookup-erase name key s.buffered_signals)
    | inr q ↦
        let before : named_or_dynamic name s.signals ≡ some d = ground (
          arith,
          some_== name key,
          none_== key,
          lookup-insert (some name) (some key) defn s.signals,
          lookup-insert none (some key) defn s.signals,
        ) in
        ground (arith, i.routed name d before, lookup-erase name key s.buffered_signals)
  ]

  with_handler : Option String → Definition → Instance → Instance
  with_handler key defn s = record s { signals = insert key defn s.signals }

  drains_all :
      (key : Option String) (defn : Definition) (s : Instance)
      → Routed s
      → let u = with_handler key defn s in
        Accounts [] s (
          (process_buffered convert defn u.buffered_signals
              >> modify (λ t. record t { buffered_signals = [] }))
            u)
  unfolding with_handler
  drains_all key defn s i =
      let u = with_handler key defn s in
      let (t, e, h) =
        process_buffered-Hands convert converts defn s.buffered_signals u
          (record { writable = i.writable.writable; live = i.writable.live }) in
      rw
        (bind-ok (process_buffered convert defn s.buffered_signals)
          (λ _. modify (λ t. record t { buffered_signals = [] })) e)
        (
          all_jobs s.buffered_signals,
          record {
            writable = record { writable = h.writable.writable; live = h.writable.live };
            keys = tt;
            routed = λ name d _. lookup-nil name;
          },
          record {
            count = h.handed.count;
            next = h.handed.next;
            ready = h.handed.ready;
            tasks = h.handed.tasks;
          },
          λ p. unfold counted total in omega (arith, counted-all_jobs p s.buffered_signals),
        )

  drains_named :
      (key : String) (defn : Definition) (s : Instance)
      → Routed s
      → let u = with_handler (some key) defn s in
        Accounts [] s (
          process_signal_jobs convert defn
            (jobs_of key s.buffered_signals)
            (record u { buffered_signals = erase key s.buffered_signals }))
  unfolding with_handler
  drains_named key defn s i =
      let u = with_handler (some key) defn s in
      let jobs = jobs_of key s.buffered_signals in
      let (t, e, h) =
        process_signal_jobs-Hands convert converts defn jobs
          (record u { buffered_signals = erase key s.buffered_signals })
          (record { writable = i.writable.writable; live = i.writable.live }) in
      rw e (
        jobs,
        record {
          writable = h.writable;
          keys = subst NodupKeys (sym h.kept) (erase-NodupKeys key s.buffered_signals i.keys);
          routed = λ name d held.
              ap (lookup name) h.kept
              ∙ added key name defn d s i (ap (named_or_dynamic name) (sym h.signals) ∙ held);
        },
        record {
          count = h.handed.count;
          next = h.handed.next;
          ready = h.handed.ready;
          tasks = h.handed.tasks;
        },
        λ p.
            unfold counted in
            omega (arith, ap (total p) h.kept, total-erase p key s.buffered_signals i.keys),
      )

  drain_buffered-Accounts :
      (key : Option String) (defn : Definition) (s : Instance)
      → Routed s
      → Accounts [] s (drain_buffered convert key defn (with_handler key defn s))
  unfolding drain_buffered buffered with_handler
  drain_buffered-Accounts none defn s i = drains_all none defn s i
  drain_buffered-Accounts (some key) defn s i =
      if_rule (Accounts [] s) (key == "") _ _ (drains_all (some key) defn s i)
        (drains_named key defn s i)

  set_signal_handler-Accounts :
      (key : Option String) (handler : Option Definition) (s : Instance)
      → Routed s
      → Accounts [] s (set_signal_handler convert key handler s)
  unfolding set_signal_handler with_handler
  set_signal_handler-Accounts key none s i = set_signal_handler-removes key s i
  set_signal_handler-Accounts key (some defn) s i =
      rw
        (bind-ok (assert_not_read_only "set signal handler" false)
          (λ _.
            modify (λ t. record t { signals = insert key defn t.signals })
            >> drain_buffered convert key defn)
          (assert_not_read_only-passes "set signal handler" false s i.writable))
        (drain_buffered-Accounts key defn s i)

-- A signal comes in, or a handler is set or removed.
pub data SignalOp : Type 0 where
  delivers : SignalJob → SignalOp
  handles : Option String → Option Definition → SignalOp

-- The signals that came in.
unfoldable pub delivered : List SignalOp → List SignalJob
delivered [] = []
delivered (delivers job ∷ ops) = job ∷ delivered ops
delivered (handles _ _ ∷ ops) = delivered ops

module _ (convert : Convert) where
  unfoldable pub run_signal_ops : List SignalOp → Instance → Instance
  run_signal_ops [] s = s
  run_signal_ops (delivers job ∷ ops) s = run_signal_ops ops (apply_signal_workflow convert job s).1
  run_signal_ops (handles key handler ∷ ops) s =
      run_signal_ops ops (set_signal_handler convert key handler s).1

  pub signals_accounted :
      ((name : String) (input : List Payload) (defn : Definition)
        → (a : HandlerArgs) × (process_handler_args convert name input defn ≡ ok a))
      → (ops : List SignalOp) (s : Instance) → Routed s
      → (handed : List SignalJob) × Routed (run_signal_ops ops s)
        × AreHanded handed s (run_signal_ops ops s)
        × Balances (delivered ops) handed s (run_signal_ops ops s)
  unfolding run_signal_ops delivered
  signals_accounted converts [] s i = ([], i, none-AreHanded s, λ p. unfold counted in omega arith)
  signals_accounted converts (delivers job ∷ ops) s i =
      let (xs, routed, h, counts) = apply_signal_workflow-Accounts convert converts job s i in
      let (ys, routed', k, counts') = signals_accounted converts ops _ routed in
      (
        xs ++ ys,
        routed',
        AreHanded-trans xs ys s _ _ h k,
        λ p. omega (
          arith,
          counts p,
          counts' p,
          counted-append p xs ys,
          counted-append p (job ∷ []) (delivered ops),
        ),
      )
  signals_accounted converts (handles key handler ∷ ops) s i =
      let (xs, routed, h, counts) = set_signal_handler-Accounts convert converts key handler s i in
      let (ys, routed', k, counts') = signals_accounted converts ops _ routed in
      (
        xs ++ ys,
        routed',
        AreHanded-trans xs ys s _ _ h k,
        λ p. omega (arith, counts p, counts' p, counted-nil p, counted-append p xs ys),
      )
