-- ===== src/Instance/Resolve/Start.antt =====
-- `_outbound_start_nexus_operation` of _workflow_instance.py, up to where it awaits the start, and the
-- command that cancels an operation.
use sdk_python.Prelude.{
  ◌≡◌, refl, ◌∙◌, ℕ, suc, ◌+◌, false, Option, none, some, [], ◌∷◌, ◌++◌, nat_eq, string_eq, ==_refl,
  arith,
}
use sdk_python.Prelude.Result.{Result, ok, err}
use sdk_python.Prelude.Dict.{lookup, insert, lookup-insert}
use sdk_python.Instance.Exn.{Exn}
use sdk_python.Instance.State.{
  Instance, Payload, Value, NexusInput, NexusHandle, schedule_nexus_operation,
  request_cancel_nexus_operation, task_step, pending, Command, Future,
}
use sdk_python.Instance.Core.{
  Exec, pure, raise, modify, ◌>>=◌, ◌>>◌, add_command, next_seq, call_soon, create_future, bind-ok,
  Writable, add_command-adds,
}
use sdk_python.Instance.Activities.{lift}
use sdk_python.Instance.Futures.{call_soon-ready}
use sdk_python.Instance.Resolve.{ResolveLibrary}
use sdk_python.Instance.Resolve.Phases.{starting, InPhase}
use sdk_python.Instance.Resolve.Pending.{Tracks}

-- `to_payload` is the payload converter.
module _ (to_payload : NexusInput → Value → Result Exn Payload) where
  unfoldable pub nexus_summary : NexusInput → Result Exn (Option Payload)
  nexus_summary input = elim input.summary [
    | none ↦ ok none
    | some summary ↦ (elim (to_payload input summary) [ ok p ↦ ok (some p) | err e ↦ err e ])
  ]

  -- `_apply_schedule_command`. The summary is converted when the command has been added.
  unfoldable pub schedule_nexus : ℕ → NexusInput → Exec (Unit {0})
  unfolding lift add_command nexus_summary
  schedule_nexus seq input = do
    p ← lift (to_payload input input.argument)
    elim (nexus_summary input) [
      | ok summary ↦ add_command (
          schedule_nexus_operation
            (record { seq = seq; input = input; payload = p; ending = some summary }))
      | err e ↦ (do
        add_command (
            schedule_nexus_operation
              (record { seq = seq; input = input; payload = p; ending = none }))
        raise e)
    ]

  -- `_NexusOperationHandle.__init__`
  unfoldable pub new_nexus_handle : NexusInput → Exec ℕ
  unfolding call_soon create_future
  new_nexus_handle input s =
      let task = s.next_task in
      (do
        call_soon (task_step task)
        start_fut ← create_future
        result_fut ← create_future
        modify λ t. record t {
          nexus_operations =
              insert task (record { input = input; start_fut = start_fut; result_fut = result_fut })
                t.nexus_operations;
        }
        pure task)
        (record s { next_task = suc task })

  unfoldable pub start_nexus : NexusInput → Exec (ℕ × ℕ)
  unfolding next_seq new_nexus_handle schedule_nexus
  start_nexus input = do
    seq ← next_seq "nexus_operation"
    task ← new_nexus_handle input
    schedule_nexus seq input
    modify λ t. record t { pending_nexus_operations = insert seq task t.pending_nexus_operations }
    pure (seq, task)

-- `_apply_cancel_command`
unfoldable pub cancel_nexus : ℕ → Exec (Unit {0})
unfolding add_command
cancel_nexus seq = add_command (request_cancel_nexus_operation seq)

unfoldable pub nexus_seq : Instance → ℕ
nexus_seq s = elim (lookup "nexus_operation" s.curr_seqs) [ none ↦ 0 | some n ↦ n ]

unfoldable pub handle_of : NexusInput → Instance → NexusHandle
handle_of input s = record {
  input = input;
  start_fut = s.next_future;
  result_fut = suc s.next_future;
}

module _ (to_payload : NexusInput → Value → Result Exn Payload) where
  -- The state after the handle is made, from that with the number taken.
  made : NexusInput → Instance → Instance
  unfolding handle_of
  made input s = record s {
    next_task = suc s.next_task;
    ready = s.ready ++ (task_step s.next_task ∷ []);
    next_future = suc (suc s.next_future);
    futures =
        insert (suc s.next_future) (record { state = pending; callbacks = [] })
          (insert s.next_future (record { state = pending; callbacks = [] }) s.futures);
    nexus_operations = insert s.next_task (handle_of input s) s.nexus_operations;
  }

  new_nexus_handle-made :
      (input : NexusInput) (s : Instance)
      → s.read_only ≡ false
      → new_nexus_handle to_payload input s ≡ (ok s.next_task, made input s)
  unfolding new_nexus_handle made handle_of create_future
  new_nexus_handle-made input s r =
      bind-ok (call_soon (task_step s.next_task))
        (λ _. do
          start_fut ← create_future
          result_fut ← create_future
          modify λ t. record t {
            nexus_operations =
                insert s.next_task
                  (record { input = input; start_fut = start_fut; result_fut = result_fut })
                  t.nexus_operations;
          }
          pure s.next_task)
        (call_soon-ready (task_step s.next_task) (record s { next_task = suc s.next_task }) r)

  command_of : ℕ → NexusInput → Payload → Option Payload → Command
  command_of seq input p summary =
      schedule_nexus_operation
        (record { seq = seq; input = input; payload = p; ending = some summary })

  schedule_nexus-converted :
      (seq : ℕ) (input : NexusInput) (p : Payload) (summary : Option Payload) (s : Instance)
      → to_payload input input.argument ≡ ok p
      → nexus_summary to_payload input ≡ ok summary
      → schedule_nexus to_payload seq input s ≡ add_command (command_of seq input p summary) s
  unfolding schedule_nexus lift command_of
  schedule_nexus-converted seq input p summary s converts sums =
      rw (schedule_nexus, converts, sums) refl

  numbered : Instance → Instance
  unfolding nexus_seq
  numbered s = record s { curr_seqs = insert "nexus_operation" (nexus_seq s + 1) s.curr_seqs }

  next_seq-numbered :
      (s : Instance) → next_seq "nexus_operation" s ≡ (ok (nexus_seq s + 1), numbered s)
  unfolding next_seq nexus_seq numbered
  next_seq-numbered s = refl

  -- The state after a start.
  started : NexusInput → Payload → Option Payload → Instance → Instance
  unfolding numbered made command_of
  started input p summary s =
      let t = made input (numbered s) in
      record t {
        commands = t.commands ++ (command_of (nexus_seq s + 1) input p summary ∷ []);
        pending_nexus_operations = insert (nexus_seq s + 1) s.next_task s.pending_nexus_operations;
      }

  start_nexus-started :
      (input : NexusInput) (p : Payload) (summary : Option Payload) (s : Instance)
      → Writable s
      → to_payload input input.argument ≡ ok p
      → nexus_summary to_payload input ≡ ok summary
      → start_nexus to_payload input s
        ≡ (ok (nexus_seq s + 1, s.next_task), started input p summary s)
  unfolding start_nexus started numbered made
  start_nexus-started input p summary s w converts sums =
      let seq = nexus_seq s + 1 in
      bind-ok (next_seq "nexus_operation")
        (λ seq. do
          task ← new_nexus_handle to_payload input
          schedule_nexus to_payload seq input
          modify λ t. record t {
            pending_nexus_operations = insert seq task t.pending_nexus_operations;
          }
          pure (seq, task))
        (next_seq-numbered s)
      ∙ bind-ok (new_nexus_handle to_payload input)
          (λ task. do
            schedule_nexus to_payload seq input
            modify λ t. record t {
              pending_nexus_operations = insert seq task t.pending_nexus_operations;
            }
            pure (seq, task))
          (new_nexus_handle-made input (numbered s) w.writable)
      ∙ bind-ok (schedule_nexus to_payload seq input)
          (λ _. do
            modify λ t. record t {
              pending_nexus_operations = insert seq s.next_task t.pending_nexus_operations;
            }
            pure (seq, s.next_task))
          (schedule_nexus-converted seq input p summary (made input (numbered s)) converts sums
            ∙ add_command-adds (command_of seq input p summary) (made input (numbered s))
                (record { writable = w.writable; live = w.live }))

  -- A Nexus operation that is started, its argument and its summary converting, adds one command, which
  -- schedules it under a new number, and its handle, pending under that number, waits for its start.
  pub start_nexus-Tracks :
      (lib : ResolveLibrary) (input : NexusInput) (p : Payload) (summary : Option Payload)
      (s : Instance)
      → Writable s
      → to_payload input input.argument ≡ ok p
      → nexus_summary to_payload input ≡ ok summary
      → (t : Instance) × (start_nexus to_payload input s ≡ (ok (nexus_seq s + 1, s.next_task), t))
        × (t.commands
            ≡ s.commands
              ++ (schedule_nexus_operation (record {
                seq = nexus_seq s + 1;
                input = input;
                payload = p;
                ending = some summary;
              })
                  ∷ []))
        × Tracks lib (nexus_seq s + 1) s.next_task (handle_of input s) starting t
  unfolding started numbered made command_of Tracks handle_of InPhase
  start_nexus-Tracks lib input p summary s w converts sums =
      let waits : Future = record { state = pending; callbacks = [] } in
      let one = insert s.next_future waits s.futures in
      (
        started input p summary s,
        start_nexus-started input p summary s w converts sums,
        refl,
        (
          lookup-insert (nexus_seq s + 1) (nexus_seq s + 1) s.next_task s.pending_nexus_operations
              ∙ rw (==_refl (nexus_seq s + 1)) refl,
          lookup-insert s.next_task s.next_task (handle_of input s) s.nexus_operations
              ∙ rw (==_refl s.next_task) refl,
          (
            (
              waits,
              ground (
                arith,
                lookup-insert s.next_future (suc s.next_future) waits one,
                lookup-insert s.next_future s.next_future waits s.futures,
              ),
              refl,
            ),
            (
              waits,
              lookup-insert (suc s.next_future) (suc s.next_future) waits one
                  ∙ rw (==_refl (suc s.next_future)) refl,
              refl,
            ),
          ),
          w.writable,
        ),
      )
