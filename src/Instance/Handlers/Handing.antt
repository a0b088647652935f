-- ===== src/Instance/Handlers/Handing.antt =====
-- Handing signals over to their handlers in _workflow_instance.py: what it leaves as it is.
use sdk_python.Prelude.{
  ℕ, suc, ◌+◌, ◌≡◌, refl, ◌∙◌, String, none, List, [], ◌∷◌, ◌++◌, length, length-append, append-nil,
  append_assoc, ap, sym, string_eq, nat_eq, option_eq, arith,
}
use sdk_python.Prelude.Result.{Result, ok}
use sdk_python.Prelude.Dict.{Dict, insert}
use sdk_python.Instance.Exn.{Exn}
use sdk_python.Instance.State.{
  Instance, Payload, SignalJob, Definition, TaskBody, Callback, run_signal, task_step,
}
use sdk_python.Instance.Core.{
  bind-ok, pure, Writable, assert_not_read_only, call_soon, register_task, create_task,
}
use sdk_python.Instance.Handlers.{
  Convert, HandlerArgs, process_handler_args, process_signal_job, process_signal_jobs,
  process_buffered,
}
use sdk_python.Instance.Handlers.Buffer.{Buffer, all_jobs}

-- The steps of tasks that are numbered from `task` on, one for each signal.
unfoldable pub steps : ℕ → List SignalJob → List Callback
steps task [] = []
steps task (job ∷ jobs) = task_step task ∷ steps (suc task) jobs

-- The tasks of these signals among the others, numbered from `task` on; the handler of each runs
-- under the number that the signal has got, from that after `id` on.
unfoldable pub add_tasks : ℕ → ℕ → List SignalJob → Dict ℕ TaskBody → Dict ℕ TaskBody
add_tasks task id [] tasks = tasks
add_tasks task id (job ∷ jobs) tasks =
    add_tasks (suc task) (suc id) jobs (insert task (run_signal (suc id) job) tasks)

-- `t` comes after these signals were handed over in `s`: in order, each has got a task of its own,
-- which runs its handler, and which is ready.
pub record AreHanded (jobs : List SignalJob) (s t : Instance) : Type 0 where
  pub count : t.handled_signals_seq ≡ s.handled_signals_seq + length jobs
  pub next : t.next_task ≡ s.next_task + length jobs
  pub ready : t.ready ≡ s.ready ++ steps s.next_task jobs
  pub tasks : t.tasks ≡ add_tasks s.next_task s.handled_signals_seq jobs s.tasks

pub none-AreHanded : (s : Instance) → AreHanded [] s s
unfolding steps add_tasks
none-AreHanded s = record {
  count = omega arith;
  next = omega arith;
  ready = sym (append-nil s.ready);
  tasks = refl;
}

steps-append :
    (task : ℕ) (xs ys : List SignalJob)
    → steps task (xs ++ ys) ≡ steps task xs ++ steps (task + length xs) ys
unfolding steps
steps-append task [] ys = ap (λ (n : ℕ). steps n ys) (omega arith)
steps-append task (x ∷ xs) ys =
    ap (λ l. task_step task ∷ l)
      (steps-append (suc task) xs ys
        ∙ ap (λ (n : ℕ). steps (suc task) xs ++ steps n ys) (omega arith))

add_tasks-append :
    (task id : ℕ) (xs ys : List SignalJob) (tasks : Dict ℕ TaskBody)
    → add_tasks task id (xs ++ ys) tasks
      ≡ add_tasks (task + length xs) (id + length xs) ys (add_tasks task id xs tasks)
unfolding add_tasks
add_tasks-append task id [] ys tasks =
    ap (λ (n : ℕ). add_tasks n id ys tasks) {y = task + 0} (omega arith)
    ∙ ap (λ (n : ℕ). add_tasks (task + 0) n ys tasks) (omega arith)
add_tasks-append task id (x ∷ xs) ys tasks =
    let more = insert task (run_signal (suc id) x) tasks in
    let first = add_tasks (suc task) (suc id) xs more in
    add_tasks-append (suc task) (suc id) xs ys more
    ∙ ap (λ (n : ℕ). add_tasks n (suc id + length xs) ys first) {y = task + suc (length xs)}
        (omega arith)
    ∙ ap (λ (n : ℕ). add_tasks (task + suc (length xs)) n ys first) (omega arith)

pub AreHanded-trans :
    (xs ys : List SignalJob) (s t u : Instance)
    → AreHanded xs s t
    → AreHanded ys t u
    → AreHanded (xs ++ ys) s u
AreHanded-trans xs ys s t u h k = record {
  count = omega (arith, h.count, k.count, length-append xs ys);
  next = omega (arith, h.next, k.next, length-append xs ys);
  ready =
      k.ready
      ∙ ap (λ l. l ++ steps t.next_task ys) h.ready
      ∙ append_assoc s.ready (steps s.next_task xs) (steps t.next_task ys)
      ∙ ap (λ l. s.ready ++ l)
          (ap (λ (n : ℕ). steps s.next_task xs ++ steps n ys) h.next
            ∙ sym (steps-append s.next_task xs ys));
  tasks =
      k.tasks
      ∙ ap (add_tasks t.next_task t.handled_signals_seq ys) h.tasks
      ∙ ap
          (λ (n : ℕ).
            add_tasks n t.handled_signals_seq ys
              (add_tasks s.next_task s.handled_signals_seq xs s.tasks))
          h.next
      ∙ ap
          (λ (n : ℕ).
            add_tasks (s.next_task + length xs) n ys
              (add_tasks s.next_task s.handled_signals_seq xs s.tasks))
          h.count
      ∙ sym (add_tasks-append s.next_task s.handled_signals_seq xs ys s.tasks);
}

-- `t` comes after these signals were handed over in `s`, and has its handlers and its buffer.
pub record Handed (jobs : List SignalJob) (s t : Instance) : Type 0 where
  pub writable : Writable t
  pub signals : t.signals ≡ s.signals
  pub kept : t.buffered_signals ≡ s.buffered_signals
  pub handed : AreHanded jobs s t

-- An action that returns and hands these signals over.
abbrev pub Hands : List SignalJob → Instance → Result Exn (Unit {0}) × Instance → Type 0
Hands jobs s r = (t : Instance) × (r ≡ (ok tt, t)) × Handed jobs s t

create_task-creates :
    (body : TaskBody) (s : Instance)
    → Writable s
    → create_task body s ≡ (
      ok s.next_task,
      record s {
        next_task = suc s.next_task;
        ready = s.ready ++ (task_step s.next_task ∷ []);
        tasks = insert s.next_task body s.tasks;
      },
    )
unfolding create_task call_soon register_task assert_not_read_only
create_task-creates body s w = rw (create_task, w.writable, w.live) refl

-- The state in which the task of a signal is created, and what creating it leaves.
abbrev counted : Definition → SignalJob → Instance → Instance
counted defn job s = record s {
  handled_signals_seq = s.handled_signals_seq + 1;
  in_progress_signals =
      insert (s.handled_signals_seq + 1)
        (record { name = job.signal_name; warns = defn.warns; id = none }) s.in_progress_signals;
}

abbrev created : TaskBody → Instance → Instance
created body s = record s {
  next_task = suc s.next_task;
  ready = s.ready ++ (task_step s.next_task ∷ []);
  tasks = insert s.next_task body s.tasks;
}

module _ (convert : Convert)
    (converts : (name : String) (input : List Payload) (defn : Definition)
      → (a : HandlerArgs) × (process_handler_args convert name input defn ≡ ok a)) where
  pub process_signal_job-Hands :
      (defn : Definition) (job : SignalJob) (s : Instance)
      → Writable s
      → Hands (job ∷ []) s (process_signal_job convert defn job s)
  unfolding process_signal_job steps add_tasks
  process_signal_job-Hands defn job s w =
      let (a, e) = converts job.signal_name job.input defn in
      let body = run_signal (s.handled_signals_seq + 1) job in
      let counts : Writable (counted defn job s) = record {
        writable = w.writable;
        live = w.live;
      } in
      (
        created body (counted defn job s),
        rw (process_signal_job, e)
            (bind-ok (create_task body) (λ _. pure tt)
              (create_task-creates body (counted defn job s) counts)),
        record {
          writable = record { writable = w.writable; live = w.live };
          signals = refl;
          kept = refl;
          handed = record {
            count = refl;
            next = omega arith;
            ready = refl;
            tasks = ap (λ (id : ℕ). insert s.next_task (run_signal id job) s.tasks) (omega arith);
          };
        },
      )

  -- Two actions, one after the other.
  Handed-trans :
      (xs ys : List SignalJob) (s t u : Instance)
      → Handed xs s t
      → Handed ys t u
      → Handed (xs ++ ys) s u
  Handed-trans xs ys s t u h k = record {
    writable = k.writable;
    signals = k.signals ∙ h.signals;
    kept = k.kept ∙ h.kept;
    handed = AreHanded-trans xs ys s t u h.handed k.handed;
  }

  pub process_signal_jobs-Hands :
      (defn : Definition) (jobs : List SignalJob) (s : Instance)
      → Writable s
      → Hands jobs s (process_signal_jobs convert defn jobs s)
  unfolding process_signal_jobs
  process_signal_jobs-Hands defn [] s w =
      (s, refl, record { writable = w; signals = refl; kept = refl; handed = none-AreHanded s })
  process_signal_jobs-Hands defn (job ∷ jobs) s w =
      let (t, e, h) = process_signal_job-Hands defn job s w in
      let (u, f, k) = process_signal_jobs-Hands defn jobs t h.writable in
      (
        u,
        bind-ok (process_signal_job convert defn job) (λ _. process_signal_jobs convert defn jobs) e
            ∙ f,
        Handed-trans (job ∷ []) jobs s t u h k,
      )

  pub process_buffered-Hands :
      (defn : Definition) (d : Buffer) (s : Instance)
      → Writable s
      → Hands (all_jobs d) s (process_buffered convert defn d s)
  unfolding process_buffered all_jobs
  process_buffered-Hands defn [] s w =
      (s, refl, record { writable = w; signals = refl; kept = refl; handed = none-AreHanded s })
  process_buffered-Hands defn ((_, jobs) ∷ d) s w =
      let (t, e, h) = process_signal_jobs-Hands defn jobs s w in
      let (u, f, k) = process_buffered-Hands defn d t h.writable in
      (
        u,
        bind-ok (process_signal_jobs convert defn jobs) (λ _. process_buffered convert defn d) e
            ∙ f,
        Handed-trans jobs (all_jobs d) s t u h k,
      )
