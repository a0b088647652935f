-- ===== src/Instance/Core.antt =====
-- The helpers of `_WorkflowInstanceImpl` on which the rest of temporalio/worker/
-- _workflow_instance.py stands, and the few operations of asyncio that it calls. A method is an
-- action: it returns or raises, and leaves a state.
use sdk_python.Prelude.{
  ◌≡◌, refl, ap, ℕ, suc, ◌+◌, String, Bool, true, false, not, ◌&&◌, ◌||◌, none, some, List, [], ◌∷◌,
  ◌++◌, contains, nat_eq, string_eq, if◌then◌else◌,
}
use sdk_python.Prelude.Result.{Result, ok, err}
use sdk_python.Prelude.Dict.{lookup, insert}
use sdk_python.Instance.Exn.{Exn, being_evicted_error, read_only_context_error, invalid_state_error}
use sdk_python.Instance.State.{
  Instance, Command, Callback, task_step, FutureState, pending, TaskBody,
}

abbrev pub Exec {ℓ} : Type ℓ → Type ℓ
Exec A = Instance → Result Exn A × Instance

abbrev pub pure {ℓ} : {A : Type ℓ} → A → Exec A
pure a s = (ok a, s)

abbrev pub raise {ℓ} : {A : Type ℓ} → Exn → Exec A
raise e s = (err e, s)

abbrev pub modify : (Instance → Instance) → Exec (Unit {0})
modify f s = (ok tt, f s)

infixl 5 ◌>>=◌ ◌>>◌
abbrev pub ◌>>=◌ {ℓ κ} : {A : Type ℓ} {B : Type κ} → Exec A → (A → Exec B) → Exec B
◌>>=◌ m f s = let r = m s in elim r.0 [ ok a ↦ f a r.1 | err e ↦ (err e, r.1) ]

abbrev pub ◌>>◌ {ℓ κ} : {A : Type ℓ} {B : Type κ} → Exec A → Exec B → Exec B
m >> k = m >>= λ _. k

unfoldable pub assert_not_read_only : String → Bool → Exec (Unit {0})
assert_not_read_only action allow_during_delete s =
    if s.deleting && not allow_during_delete
    then (err (being_evicted_error action), s)
    else if s.read_only
    then (err (read_only_context_error action), s)
    else (ok tt, s)

-- `_add_command`, with the fields of the command that the caller sets at once.
unfoldable pub add_command : Command → Exec (Unit {0})
unfolding assert_not_read_only
add_command command = do
  assert_not_read_only "add command" false
  modify (λ s. record s { commands = s.commands ++ (command ∷ []) })

unfoldable pub next_seq : String → Exec ℕ
next_seq type s =
    let seq = elim (lookup type s.curr_seqs) [ none ↦ 0 | some n ↦ n ] + 1 in
    (ok seq, record s { curr_seqs = insert type seq s.curr_seqs })

unfoldable pub workflow_logic_flag_enabled : ℕ → Instance → Bool × Instance
workflow_logic_flag_enabled flag s =
    if contains s.internal_flags flag
    then (true, s)
    else if s.is_replaying || not (contains s.default_flags flag)
    then (false, s)
    else (true, record s { used_flags = s.used_flags ++ (flag ∷ []) })

-- `with self._as_read_only(in_query_or_validator=...)`: the flags come back however the body ends.
unfoldable pub as_read_only {ℓ} : {A : Type ℓ} → Bool → Exec A → Exec A
as_read_only in_query_or_validator body s =
    let r = body (record s { read_only = true; in_query_or_validator = in_query_or_validator }) in
    (r.0, record r.1 { read_only = s.read_only; in_query_or_validator = s.in_query_or_validator })

unfoldable pub call_soon : Callback → Exec (Unit {0})
unfolding assert_not_read_only
call_soon callback = do
  assert_not_read_only "schedule task" true
  modify (λ s. record s { ready = s.ready ++ (callback ∷ []) })

-- `_register_task`
unfoldable pub register_task : ℕ → TaskBody → Exec (Unit {0})
unfolding assert_not_read_only
register_task task body = do
  assert_not_read_only "create task" false
  modify (λ s. record s { tasks = insert task body s.tasks })

-- `create_task`: `asyncio.Task` schedules its first step by `call_soon`, then it is registered.
unfoldable pub create_task : TaskBody → Exec ℕ
unfolding call_soon register_task
create_task body s =
    let task = s.next_task in
    (do call_soon (task_step task); register_task task body; pure task)
      (record s { next_task = suc task })

-- `loop.create_future()`
unfoldable pub create_future : Exec ℕ
create_future s =
    let fut = s.next_future in
    (
      ok fut,
      record s {
        next_future = suc fut;
        futures = insert fut (record { state = pending; callbacks = [] }) s.futures;
      },
    )

unfoldable pub is_done : FutureState → Bool
is_done pending = false
is_done _ = true

-- `fut.done()`; every future of the loop is in the table.
unfoldable pub future_done : ℕ → Instance → Bool
unfolding is_done
future_done fut s = elim (lookup fut s.futures) [ none ↦ true | some f ↦ is_done f.state ]

unfoldable pub schedule_all : List Callback → Exec (Unit {0})
unfolding call_soon
schedule_all [] = pure tt
schedule_all (callback ∷ callbacks) = do call_soon callback; schedule_all callbacks

-- asyncio's `set_result` and `set_exception`: they raise if the future is done, and schedule its
-- callbacks.
unfoldable pub complete_future : ℕ → FutureState → Exec (Unit {0})
unfolding schedule_all is_done
complete_future fut outcome s = elim (lookup fut s.futures) [
  | none ↦ (err invalid_state_error, s)
  | some f ↦
      if is_done f.state
      then (err invalid_state_error, s)
      else schedule_all f.callbacks
          (record s { futures = insert fut (record { state = outcome; callbacks = [] }) s.futures })
]

pub bind-ok {ℓ κ} :
    {A : Type ℓ} {B : Type κ} (m : Exec A) (f : A → Exec B) {a : A} {s t : Instance}
    → m s ≡ (ok a, t)
    → (m >>= f) s ≡ f a t
bind-ok m f h = ap (λ r. elim r.0 [ ok a ↦ f a r.1 | err e ↦ (err e, r.1) ]) h

pub bind-err {ℓ κ} :
    {A : Type ℓ} {B : Type κ} (m : Exec A) (f : A → Exec B) {e : Exn} {s t : Instance}
    → m s ≡ (err e, t)
    → (m >>= f) s ≡ (err e, t)
bind-err m f h = ap (λ r. elim r.0 [ ok a ↦ f a r.1 | err e ↦ (err e, r.1) ]) h

-- The code may write: it runs in neither a query nor a validator, nor in an eviction.
pub record Writable (s : Instance) : Type 0 where
  pub writable : s.read_only ≡ false
  pub live : s.deleting ≡ false

pub assert_not_read_only-passes :
    (action : String) (allow : Bool) (s : Instance)
    → Writable s
    → assert_not_read_only action allow s ≡ (ok tt, s)
unfolding assert_not_read_only
assert_not_read_only-passes action allow s w = rw (assert_not_read_only, w.writable, w.live) refl

pub add_command-adds :
    (command : Command) (s : Instance)
    → Writable s
    → add_command command s ≡ (ok tt, record s { commands = s.commands ++ (command ∷ []) })
unfolding add_command
add_command-adds command s w = rw (add_command, w.writable, w.live) refl
