-- ===== src/Instance/Timers/Server.antt =====
-- The timers of _workflow_instance.py against the service, which keeps the timers that are open.
use sdk_python.Prelude.{
  ℕ, ◌+◌, ◌<◌, ◌≡◌, refl, sym, ap, ◌∙◌, subst, String, Bool, true, false, Option, none, some, List,
  [], ◌∷◌, ◌++◌, append-nil, length, drop, ltb, ◌==◌, nat_eq, string_eq, if◌then◌else◌, arith,
  Bool-cases, Option-cases, inl, inr,
}
use sdk_python.Prelude.Int.{ℤ, pos, negsuc}
use sdk_python.Prelude.Result.{ok}
use sdk_python.Prelude.Dict.{Dict, lookup, insert, erase, lookup-insert, lookup-erase}
use sdk_python.Instance.State.{Instance, Callback, Command, start_timer, cancel_timer}
use sdk_python.Instance.Timers.{timer_impl, timer_handle_cancelled, fire_timer}

-- The service: the last timer that was started, and which ones are open. It takes a timer's start
-- only under a number above the last, and its cancellation only while it is open.
pub record Service : Type 0 where
  pub last : ℕ
  pub opened : ℕ → Bool

set_open : ℕ → Bool → (ℕ → Bool) → ℕ → Bool
set_open n b opened k = if k == n then b else opened k

accept : Command → Service → Option Service
unfolding set_open
accept (start_timer n _) v =
    if ltb v.last n then some (record { last = n; opened = set_open n true v.opened }) else none
accept (cancel_timer n) v =
    if v.opened n then some (record v { opened = set_open n false v.opened }) else none
accept _ v = some v

unfoldable pub accept_all : List Command → Service → Option Service
unfolding accept
accept_all [] v = some v
accept_all (command ∷ commands) v = elim (accept command v) [
  | none ↦ none
  | some w ↦ accept_all commands w
]

-- What the workflow's code asks for, and a timer that the service fires.
pub data TimerOp : Type 0 where
  starts : ℤ → Callback → TimerOp
  cancels : ℕ → TimerOp
  fires : ℕ → TimerOp

unfoldable pub run_timer_op : TimerOp → Instance → Instance
run_timer_op (starts delay callback) s = (timer_impl delay callback s).1
run_timer_op (cancels seq) s = (timer_handle_cancelled seq s).1
run_timer_op (fires seq) s = fire_timer seq s

unfoldable pub run_timer_ops : List TimerOp → Instance → Instance
unfolding run_timer_op
run_timer_ops [] s = s
run_timer_ops (op ∷ ops) s = run_timer_ops ops (run_timer_op op s)

-- A timer that fires is open no more.
unfoldable pub fired : TimerOp → Service → Service
unfolding set_open
fired (fires seq) v = record v { opened = set_open seq false v.opened }
fired _ v = v

-- The service over the same operations: it takes the commands that each adds. `none`: it refuses
-- one of them.
unfoldable pub serve : List TimerOp → Instance → Service → Option Service
unfolding run_timer_op accept_all fired
serve [] s v = some v
serve (op ∷ ops) s v =
    let t = run_timer_op op s in
    elim (accept_all (drop (length s.commands) t.commands) (fired op v)) [
      | none ↦ none
      | some w ↦ serve ops t w
    ]

unfoldable pub is_pending : ℕ → Dict ℕ Callback → Bool
is_pending n timers = elim (lookup n timers) [ none ↦ false | some _ ↦ true ]

unfoldable pub timer_seq : Dict String ℕ → ℕ
timer_seq seqs = elim (lookup "timer" seqs) [ none ↦ 0 | some n ↦ n ]

-- The pending timers are the ones that are open, and none has a number that is still to come. The
-- code may write: it runs in neither a query nor a validator, nor in an eviction.
pub record Agrees (s : Instance) (v : Service) : Type 0 where
  pub writable : s.read_only ≡ false
  pub live : s.deleting ≡ false
  pub last : timer_seq s.curr_seqs ≡ v.last
  pub opened : (n : ℕ) → v.opened n ≡ is_pending n s.pending_timers
  pub fresh : (n : ℕ) → v.last < n → is_pending n s.pending_timers ≡ false

is_pending-insert :
    (k n : ℕ) (c : Callback) (d : Dict ℕ Callback)
    → is_pending k (insert n c d) ≡ (if k == n then true else is_pending k d)
unfolding is_pending
is_pending-insert k n c d = ground (arith, lookup-insert k n c d)

is_pending-erase :
    (k n : ℕ) (d : Dict ℕ Callback)
    → is_pending k (erase n d) ≡ (if k == n then false else is_pending k d)
unfolding is_pending
is_pending-erase k n d = ground (arith, lookup-erase k n d)

drop-append_self : {A : Type 0} (xs ys : List A) → drop (length xs) (xs ++ ys) ≡ ys
drop-append_self [] ys = refl
drop-append_self (x ∷ xs) ys = drop-append_self xs ys

-- One operation leaves `t`: the service takes its commands, and then agrees again.
abbrev Steps : TimerOp → Instance → Service → Instance → Type 0
Steps op s v t =
    (w : Service) × (accept_all (drop (length s.commands) t.commands) (fired op v) ≡ some w)
    × Agrees t w

-- The same, with the commands that are added.
steps :
    (op : TimerOp) (s t : Instance) (v w : Service) (commands : List Command)
    → run_timer_op op s ≡ t
    → t.commands ≡ s.commands ++ commands
    → accept_all commands (fired op v) ≡ some w
    → Agrees t w
    → Steps op s v (run_timer_op op s)
steps op s t v w commands e added accepted a = subst (Steps op s v) (sym e) (
  w,
  ap (λ l. accept_all (drop (length s.commands) l) (fired op v)) added
      ∙ ap (λ l. accept_all l (fired op v)) (drop-append_self s.commands commands)
      ∙ accepted,
  a,
)

timer_seq-insert : (n : ℕ) (d : Dict String ℕ) → timer_seq (insert "timer" n d) ≡ n
unfolding timer_seq string_eq
timer_seq-insert n d = ground (arith, lookup-insert "timer" "timer" n d)

timer_impl-started :
    (d : ℕ) (callback : Callback) (s : Instance)
    → s.read_only ≡ false
    → s.deleting ≡ false
    → timer_impl (pos d) callback s ≡ (
      ok (timer_seq s.curr_seqs + 1),
      record s {
        curr_seqs = insert "timer" (timer_seq s.curr_seqs + 1) s.curr_seqs;
        commands = s.commands ++ (start_timer (timer_seq s.curr_seqs + 1) (pos d) ∷ []);
        pending_timers = insert (timer_seq s.curr_seqs + 1) callback s.pending_timers;
      },
    )
unfolding timer_impl timer_seq
timer_impl-started d callback s r l = rw (r, l) refl

starts-Steps :
    (d : ℕ) (callback : Callback) (s : Instance) (v : Service)
    → Agrees s v
    → Steps (starts (pos d) callback) s v (run_timer_op (starts (pos d) callback) s)
starts-Steps d callback s v a =
    let n = timer_seq s.curr_seqs + 1 in
    steps (starts (pos d) callback) s
      (record s {
        curr_seqs = insert "timer" n s.curr_seqs;
        commands = s.commands ++ (start_timer n (pos d) ∷ []);
        pending_timers = insert n callback s.pending_timers;
      })
      v (record { last = n; opened = set_open n true v.opened }) (start_timer n (pos d) ∷ [])
      (unfold run_timer_op in ap (λ r. r.1) (timer_impl-started d callback s a.writable a.live))
      refl (unfold accept_all accept fired in ground (arith, a.last))
      (record {
        writable = a.writable;
        live = a.live;
        last = timer_seq-insert n s.curr_seqs;
        opened = λ k.
            unfold set_open in
            ground (arith, a.opened k, is_pending-insert k n callback s.pending_timers);
        fresh = λ k h.
            ground (arith, a.last, a.fresh k, is_pending-insert k n callback s.pending_timers);
      })

-- An operation that changes nothing.
idle-Steps :
    (op : TimerOp) (s : Instance) (v : Service)
    → run_timer_op op s ≡ s
    → Agrees s (fired op v)
    → Steps op s v (run_timer_op op s)
idle-Steps op s v e a =
    steps op s s v (fired op v) [] e (sym (append-nil s.commands)) (unfold accept_all in refl) a

negative-same :
    (n : ℕ) (callback : Callback) (s : Instance) → run_timer_op (starts (negsuc n) callback) s ≡ s
unfolding run_timer_op timer_impl
negative-same n callback s = elim (Bool-cases s.deleting) [
  | inl d ↦ rw d refl
  | inr d ↦ rw d (elim (Bool-cases s.read_only) [ inl r ↦ rw r refl | inr r ↦ rw r refl ])
]

set_open-false :
    (n : ℕ) (s : Instance) (v : Service)
    → Agrees s v
    → (k : ℕ) → set_open n false v.opened k ≡ is_pending k (erase n s.pending_timers)
unfolding set_open
set_open-false n s v a k = ground (arith, a.opened k, is_pending-erase k n s.pending_timers)

erase-fresh :
    (n : ℕ) (s : Instance) (v : Service)
    → Agrees s v
    → (k : ℕ) → v.last < k
    → is_pending k (erase n s.pending_timers) ≡ false
erase-fresh n s v a k h = ground (arith, a.fresh k, is_pending-erase k n s.pending_timers)

cancelled_op :
    (n : ℕ) (c : Callback) (s : Instance)
    → s.read_only ≡ false
    → s.deleting ≡ false
    → lookup n s.pending_timers ≡ some c
    → timer_handle_cancelled n s ≡ (
      ok tt,
      record s {
        pending_timers = erase n s.pending_timers;
        commands = s.commands ++ (cancel_timer n ∷ []);
      },
    )
unfolding timer_handle_cancelled
cancelled_op n c s r l e = rw (e, timer_handle_cancelled, r, l) refl

cancelled_none :
    (n : ℕ) (s : Instance)
    → lookup n s.pending_timers ≡ none
    → timer_handle_cancelled n s ≡ (ok tt, s)
unfolding timer_handle_cancelled
cancelled_none n s e = rw (e, timer_handle_cancelled) refl

fire_timer-none : (n : ℕ) (s : Instance) → lookup n s.pending_timers ≡ none → fire_timer n s ≡ s
unfolding fire_timer
fire_timer-none n s e = rw (e, fire_timer) refl

fire_timer-some :
    (n : ℕ) (c : Callback) (s : Instance)
    → lookup n s.pending_timers ≡ some c
    → fire_timer n s
      ≡ record s { pending_timers = erase n s.pending_timers; ready = s.ready ++ (c ∷ []) }
unfolding fire_timer
fire_timer-some n c s e = rw (e, fire_timer) refl

cancels-Steps :
    (n : ℕ) (s : Instance) (v : Service)
    → Agrees s v
    → Steps (cancels n) s v (run_timer_op (cancels n) s)
unfolding fired
cancels-Steps n s v a = elim (Option-cases (lookup n s.pending_timers)) [
  | inl e ↦
      idle-Steps (cancels n) s v (unfold run_timer_op in ap (λ r. r.1) (cancelled_none n s e)) a
  | inr (c, e) ↦
      let held : v.opened n ≡ true = a.opened n ∙ (unfold is_pending in ground arith) in
      steps (cancels n) s
        (record s {
          pending_timers = erase n s.pending_timers;
          commands = s.commands ++ (cancel_timer n ∷ []);
        })
        v (record v { opened = set_open n false v.opened }) (cancel_timer n ∷ [])
        (unfold run_timer_op in ap (λ r. r.1) (cancelled_op n c s a.writable a.live e)) refl
        (unfold accept_all accept fired in ground arith)
        (record {
          writable = a.writable;
          live = a.live;
          last = a.last;
          opened = set_open-false n s v a;
          fresh = erase-fresh n s v a;
        })
]

-- A timer that fires is pending no more; if it was not, the service had closed it.
fires-Steps :
    (n : ℕ) (s : Instance) (v : Service)
    → Agrees s v
    → Steps (fires n) s v (run_timer_op (fires n) s)
unfolding fired
fires-Steps n s v a = elim (Option-cases (lookup n s.pending_timers)) [
  | inl e ↦ idle-Steps (fires n) s v (unfold run_timer_op in fire_timer-none n s e) (record {
    writable = a.writable;
    live = a.live;
    last = a.last;
    opened = λ k. unfold fired set_open is_pending in ground (arith, a.opened k);
    fresh = a.fresh;
  })
  | inr (c, e) ↦
      steps (fires n) s
        (record s { pending_timers = erase n s.pending_timers; ready = s.ready ++ (c ∷ []) }) v
        (fired (fires n) v) [] (unfold run_timer_op in fire_timer-some n c s e)
        (sym (append-nil s.commands)) (unfold accept_all in refl)
        (record {
          writable = a.writable;
          live = a.live;
          last = a.last;
          opened = set_open-false n s v a;
          fresh = erase-fresh n s v a;
        })
]

one-Steps :
    (op : TimerOp) (s : Instance) (v : Service) → Agrees s v → Steps op s v (run_timer_op op s)
unfolding fired
one-Steps (starts (pos d) callback) s v a = starts-Steps d callback s v a
one-Steps (starts (negsuc d) callback) s v a =
    idle-Steps (starts (negsuc d) callback) s v (negative-same d callback s) a
one-Steps (cancels n) s v a = cancels-Steps n s v a
one-Steps (fires n) s v a = fires-Steps n s v a

-- Whatever timers are started, cancelled or fired, in whatever order, the service never refuses a
-- command, and the timers that are pending at the end are those that it then has open: if they were
-- at the start, where no number is used twice and the code may write.
pub timers_served :
    (ops : List TimerOp) (s : Instance) (v : Service)
    → Agrees s v
    → (w : Service) × (serve ops s v ≡ some w) × Agrees (run_timer_ops ops s) w
unfolding serve run_timer_ops
timers_served [] s v a = (v, refl, a)
timers_served (op ∷ ops) s v a =
    let (u, e, b) = one-Steps op s v a in
    let (w, rest, agrees) = timers_served ops (run_timer_op op s) u b in
    (w, rw (serve, e) rest, agrees)
