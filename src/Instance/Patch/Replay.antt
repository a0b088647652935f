-- ===== src/Instance/Patch/Replay.antt =====
-- `workflow.patched` in _workflow_instance.py, at first and on replay: the markers that the first
-- execution leaves in the history decide the answers of the second one.
use sdk_python.Prelude.{
  subst, ◌≡◌, refl, sym, ap, ◌∙◌, String, Bool, true, false, not, ◌||◌, Option, none, some, List,
  [], ◌∷◌, ◌++◌, append-nil, contains, ◌==◌, string_eq, if◌then◌else◌, arith, Bool-cases,
  Option-cases, ◌⊎◌, inl, inr,
}
use mathlib.Core.Option.{some-injective}
use sdk_python.Prelude.Result.{Result-cases, Result, ok, err}
use sdk_python.Prelude.Dict.{lookup, insert, lookup-nil, lookup-insert}
use sdk_python.Instance.Exn.{Exn}
use sdk_python.Instance.State.{Instance, Command, set_patch_marker}
use sdk_python.Instance.Core.{
  Exec, pure, ◌>>=◌, bind-ok, bind-err, assert_not_read_only, add_command, Writable, as_read_only,
  assert_not_read_only-passes, add_command-adds,
}
use sdk_python.Instance.Patch.{
  PatchActivation, checked_bool, decide_patch, record_patch, workflow_patch,
}

-- Calls of `patched` and `deprecate_patch`, one after the other, and their answers.
unfoldable pub run_patches : PatchActivation → List (String × Bool) → Exec (List Bool)
run_patches callback [] s = (ok [], s)
run_patches callback ((id, deprecated) ∷ calls) s =
    let first = workflow_patch callback id deprecated s in
    let later = run_patches callback calls first.1 in
    elim first.0 [
      | err e ↦ (err e, first.1)
      | ok answer ↦ (elim later.0 [ ok answers ↦ ok (answer ∷ answers) | err e ↦ err e ], later.1)
    ]

-- The patches that commands mark in the history.
unfoldable pub markers : List Command → List String
markers [] = []
markers (set_patch_marker id _ ∷ commands) = id ∷ markers commands
markers (_ ∷ commands) = markers commands

marker_of : String → Bool → Bool → List Command
marker_of id deprecated true = set_patch_marker id deprecated ∷ []
marker_of id deprecated false = []

-- What a first answer leaves.
patched : String → Bool → Bool → Instance → Instance
unfolding marker_of
patched id deprecated answer s = record s {
  patches_memoized = insert id answer s.patches_memoized;
  commands = s.commands ++ marker_of id deprecated answer;
}

checked_bool-same :
    (s : Instance) (b : Option Bool) → (d : Result Exn Bool) × (checked_bool b s ≡ (d, s))
unfolding checked_bool
checked_bool-same s none = (_, refl)
checked_bool-same s (some b) = (_, refl)

-- What a callback's result comes to.
asked :
    (s : Instance) (id : String) (f : String → Result Exn (Option Bool))
    (r : Result Exn (Option Bool))
    → f id ≡ r
    → (as_read_only false (λ t. (f id, t)) >>= checked_bool) s
      ≡ elim r [ ok b ↦ checked_bool b s | err x ↦ (err x, s) ]
unfolding as_read_only
asked s id f r e = ap (λ r. elim r [ ok b ↦ checked_bool b s | err x ↦ (err x, s) ]) e

module _ (callback : PatchActivation) (id : String) (deprecated : Bool) (s : Instance) where
  -- The decision leaves the state as it is: what the callback runs in is read-only.
  decided : (d : Result Exn Bool) × (decide_patch callback id deprecated s ≡ (d, s))
  unfolding decide_patch
  decided = elim (Bool-cases (deprecated || s.is_replaying || contains s.patches_notified id)) [
    | inl k ↦ (ok (not s.is_replaying || contains s.patches_notified id), rw (decide_patch, k) refl)
    | inr k ↦ elim (Option-cases callback) [
      | inl e ↦ (ok true, rw (decide_patch, k, e) refl)
      | inr (f, e) ↦ elim (Result-cases (f id)) [
        | inl (b, answer) ↦
            let (d, h) = checked_bool-same s b in
            (d, rw (decide_patch, k, e) (asked s id f (ok b) answer ∙ h))
        | inr (x, answer) ↦ (err x, rw (decide_patch, k, e) (asked s id f (err x) answer))
      ]
    ]
  ]

  -- The rest of `workflow_patch` once it may write.
  looked_up : Option Bool → Result Exn Bool × Instance
  looked_up none = (decide_patch callback id deprecated >>= record_patch id deprecated) s
  looked_up (some answer) = (ok answer, s)

  workflow_patch-looks_up :
      (o : Option Bool)
      → Writable s
      → lookup id s.patches_memoized ≡ o
      → workflow_patch callback id deprecated s ≡ looked_up o
  unfolding workflow_patch looked_up
  workflow_patch-looks_up o w e =
      bind-ok (assert_not_read_only "patch" false)
        (λ _ t. elim (lookup id t.patches_memoized) [
          | some answer ↦ (ok answer, t)
          | none ↦ (decide_patch callback id deprecated >>= record_patch id deprecated) t
        ])
        (assert_not_read_only-passes "patch" false s w)
      ∙ ap
          (λ o. elim o [
            | some answer ↦ (ok answer, s)
            | none ↦ (decide_patch callback id deprecated >>= record_patch id deprecated) s
          ])
          e
      ∙ (elim o [ none ↦ refl | some _ ↦ refl ])

  workflow_patch-memo :
      (answer : Bool)
      → Writable s
      → lookup id s.patches_memoized ≡ some answer
      → workflow_patch callback id deprecated s ≡ (ok answer, s)
  unfolding looked_up
  workflow_patch-memo answer w e = workflow_patch-looks_up (some answer) w e

  record_patch-adds :
      (answer : Bool)
      → Writable s
      → record_patch id deprecated answer s ≡ (ok answer, patched id deprecated answer s)
  unfolding record_patch patched marker_of
  record_patch-adds true w =
      bind-ok (add_command (set_patch_marker id deprecated)) (λ _. pure true)
        (add_command-adds (set_patch_marker id deprecated)
          (record s { patches_memoized = insert id true s.patches_memoized })
          (record { writable = w.writable; live = w.live }))
  record_patch-adds false w =
      ap
        (λ l. (
          ok false,
          record s { patches_memoized = insert id false s.patches_memoized; commands = l },
        ))
        (sym (append-nil s.commands))

  workflow_patch-new :
      (answer : Bool)
      → Writable s
      → lookup id s.patches_memoized ≡ none
      → decide_patch callback id deprecated s ≡ (ok answer, s)
      → workflow_patch callback id deprecated s ≡ (ok answer, patched id deprecated answer s)
  unfolding looked_up
  workflow_patch-new answer w e d =
      workflow_patch-looks_up none w e
      ∙ bind-ok (decide_patch callback id deprecated) (record_patch id deprecated) d
      ∙ record_patch-adds answer w

  workflow_patch-raises :
      (e : Exn)
      → Writable s
      → lookup id s.patches_memoized ≡ none
      → decide_patch callback id deprecated s ≡ (err e, s)
      → workflow_patch callback id deprecated s ≡ (err e, s)
  unfolding looked_up
  workflow_patch-raises e w m d =
      workflow_patch-looks_up none w m
      ∙ bind-err (decide_patch callback id deprecated) (record_patch id deprecated) d

  decide_patch-replay :
      s.is_replaying ≡ true
      → decide_patch callback id deprecated s ≡ (ok (contains s.patches_notified id), s)
  unfolding decide_patch
  decide_patch-replay replaying = elim (Bool-cases deprecated) [
    | inl d ↦ rw (decide_patch, d, replaying) refl
    | inr d ↦ rw (decide_patch, d, replaying) refl
  ]

is_true : Option Bool → Bool
is_true none = false
is_true (some b) = b

-- The marked patches are those whose answer was `True`.
pub Marked : Instance → Type 0
unfolding is_true
Marked s = (id : String) → contains (markers s.commands) id ≡ is_true (lookup id s.patches_memoized)

memo_with : String → Bool → Option Bool → String → Option Bool
memo_with id answer none j = if j == id then some answer else none
memo_with id answer (some c) j = some c

-- `t` comes after an answer in `s`.
record After (id : String) (answer : Bool) (s t : Instance) : Type 0 where
  writable : Writable t
  mode : t.is_replaying ≡ s.is_replaying
  notified : t.patches_notified ≡ s.patches_notified
  at : lookup id t.patches_memoized ≡ some answer
  memo :
      (j : String)
      → lookup j t.patches_memoized ≡ memo_with id answer (lookup j s.patches_memoized) j
  marked : Marked s → Marked t

contains-markers :
    (id j : String) (deprecated : Bool) (commands : List Command)
    → contains (markers (commands ++ (set_patch_marker id deprecated ∷ []))) j
      ≡ contains (markers commands) j || (j == id)
unfolding markers
contains-markers id j deprecated [] = ground arith
contains-markers id j deprecated (set_patch_marker k d ∷ commands) =
    ground (arith, contains-markers id j deprecated commands)
contains-markers id j deprecated (_ ∷ commands) = contains-markers id j deprecated commands

same-After :
    (id : String) (answer : Bool) (s : Instance)
    → Writable s
    → lookup id s.patches_memoized ≡ some answer
    → After id answer s s
unfolding memo_with
same-After id answer s w e = record {
  writable = w;
  mode = refl;
  notified = refl;
  at = e;
  memo = λ j. ground arith;
  marked = λ m. m;
}

patched-Marked :
    (id : String) (deprecated answer : Bool) (s : Instance)
    → lookup id s.patches_memoized ≡ none
    → Marked s
    → Marked (patched id deprecated answer s)
unfolding patched marker_of Marked is_true
patched-Marked id deprecated true s e m j = ground (
  arith,
  m j,
  contains-markers id j deprecated s.commands,
  lookup-insert j id true s.patches_memoized,
)
patched-Marked id deprecated false s e m j =
    rw (append-nil s.commands) (ground (arith, m j, lookup-insert j id false s.patches_memoized))

patched-After :
    (id : String) (deprecated answer : Bool) (s : Instance)
    → Writable s
    → lookup id s.patches_memoized ≡ none
    → After id answer s (patched id deprecated answer s)
unfolding patched memo_with
patched-After id deprecated answer s w e = record {
  writable = record { writable = w.writable; live = w.live };
  mode = refl;
  notified = refl;
  at = ground (arith, lookup-insert id id answer s.patches_memoized);
  memo = λ j. ground (arith, lookup-insert j id answer s.patches_memoized);
  marked = patched-Marked id deprecated answer s e;
}

module _ (callback : PatchActivation) (id : String) (deprecated : Bool) (s : Instance) where
  -- A call of `patched` answers, or raises.
  abbrev Answered : Bool → Type 0
  Answered answer =
      (t : Instance) × (workflow_patch callback id deprecated s ≡ (ok answer, t))
      × After id answer s t

  answered :
      Writable s
      → ((answer : Bool) × Answered answer)
        ⊎ ((e : Exn) × (workflow_patch callback id deprecated s ≡ (err e, s)))
  answered w = elim (Option-cases (lookup id s.patches_memoized)) [
    | inr (b, e) ↦
        inl (b, (s, workflow_patch-memo callback id deprecated s b w e, same-After id b s w e))
    | inl e ↦
        let (d, h) = decided callback id deprecated s in
        elim (Result-cases d) [
          | inl (b, k) ↦ inl (
            b,
            (
              _,
              workflow_patch-new callback id deprecated s b w e (h ∙ ap (λ r. (r, s)) k),
              patched-After id deprecated b s w e,
            ),
          )
          | inr (x, k) ↦
              inr (x, workflow_patch-raises callback id deprecated s x w e (h ∙ ap (λ r. (r, s)) k))
        ]
  ]

  -- On replay, it answers by the memo, or else by the markers.
  replay-Answered :
      (answer : Bool)
      → Writable s
      → s.is_replaying ≡ true
      → contains s.patches_notified id ≡ answer
      → ((c : Bool) → lookup id s.patches_memoized ≡ some c → c ≡ answer)
      → Answered answer
  replay-Answered answer w mode noted same = elim (Option-cases (lookup id s.patches_memoized)) [
    | inr (b, e) ↦
        let e' = e ∙ ap (λ b. some b) (same b e) in
        (s, workflow_patch-memo callback id deprecated s answer w e', same-After id answer s w e')
    | inl e ↦ (
      _,
      workflow_patch-new callback id deprecated s answer w e
          (decide_patch-replay callback id deprecated s mode ∙ ap (λ b. (ok b, s)) noted),
      patched-After id deprecated answer s w e,
    )
  ]

-- The runs of a call and of the calls after it.
module _ (callback : PatchActivation) (id : String) (deprecated : Bool)
    (calls : List (String × Bool)) (s u : Instance) where
  run_patches-inverts :
      (answer : Bool) (answers : List Bool) (t : Instance)
      → workflow_patch callback id deprecated s ≡ (ok answer, u)
      → run_patches callback ((id, deprecated) ∷ calls) s ≡ (ok answers, t)
      → (rest : List Bool) × (answers ≡ answer ∷ rest)
        × (run_patches callback calls u ≡ (ok rest, t))
  unfolding run_patches
  run_patches-inverts answer answers t e h = elim (Result-cases (run_patches callback calls u).0) [
    | inl (rest, k) ↦ (rest, ground arith, ground arith)
    | inr (x, k) ↦ let bad : ⊥ = ground arith in absurd bad
  ]

  run_patches-raises :
      (x : Exn) (answers : List Bool) (t : Instance)
      → workflow_patch callback id deprecated s ≡ (err x, u)
      → run_patches callback ((id, deprecated) ∷ calls) s ≡ (ok answers, t)
      → ⊥
  unfolding run_patches
  run_patches-raises x answers t e h = ground arith

  run_patches-answers :
      (answer : Bool) (rest : List Bool)
      → workflow_patch callback id deprecated s ≡ (ok answer, u)
      → (run_patches callback calls u).0 ≡ ok rest
      → (run_patches callback ((id, deprecated) ∷ calls) s).0 ≡ ok (answer ∷ rest)
  unfolding run_patches
  run_patches-answers answer rest e h = ground arith

-- `t` has the answers that `s` has.
Keeps : Instance → Instance → Type 0
Keeps s t =
    (id : String) (answer : Bool)
    → lookup id s.patches_memoized ≡ some answer
    → lookup id t.patches_memoized ≡ some answer

After-Keeps : (id : String) (answer : Bool) (s t : Instance) → After id answer s t → Keeps s t
unfolding Keeps memo_with
After-Keeps id answer s t a j c e = ground (arith, a.memo j)

run_patches-Keeps :
    (callback : PatchActivation) (calls : List (String × Bool)) (answers : List Bool)
    (s t : Instance)
    → Writable s
    → run_patches callback calls s ≡ (ok answers, t)
    → Keeps s t × (Marked s → Marked t)
unfolding Keeps run_patches
run_patches-Keeps callback [] answers s t w h =
    let same : s ≡ t = ap (λ r. r.1) h in
    (
      λ id b e. subst (λ (u : Instance). lookup id u.patches_memoized ≡ some b) same e,
      λ m. subst Marked same m,
    )
run_patches-Keeps callback ((id, deprecated) ∷ calls) answers s t w h =
    elim (answered callback id deprecated s w) [
      | inr (x, e) ↦ absurd (run_patches-raises callback id deprecated calls s s x answers t e h)
      | inl (b, found) ↦
          let (u, e, a) = found in
          let (rest, _, k) = run_patches-inverts callback id deprecated calls s u b answers t e h in
          let later = run_patches-Keeps callback calls rest u t a.writable k in
          (λ j c held. later.0 j c (After-Keeps id b s u a j c held), λ m. later.1 (a.marked m))
    ]

-- Both executions have the same answers so far, and the history that the second one replays has
-- the markers that the first one leaves in the end.
record Replays (s r t : Instance) : Type 0 where
  writable : Writable r
  replaying : r.is_replaying ≡ true
  memo : (id : String) → lookup id s.patches_memoized ≡ lookup id r.patches_memoized
  noted :
      (id : String) (answer : Bool)
      → lookup id t.patches_memoized ≡ some answer
      → contains r.patches_notified id ≡ answer

After-Replays :
    (id : String) (answer : Bool) (s r t s' r' : Instance)
    → Replays s r t
    → After id answer s s'
    → After id answer r r'
    → Replays s' r' t
After-Replays id answer s r t s' r' h a b = record {
  writable = b.writable;
  replaying = b.mode ∙ h.replaying;
  memo = λ j. a.memo j ∙ ap (λ o. memo_with id answer o j) (h.memo j) ∙ sym (b.memo j);
  noted = λ j c e. ap (λ l. contains l j) b.notified ∙ h.noted j c e;
}

replays :
    (callback again : PatchActivation) (calls : List (String × Bool)) (answers : List Bool)
    (s r t : Instance)
    → Writable s
    → Replays s r t
    → run_patches callback calls s ≡ (ok answers, t)
    → (run_patches again calls r).0 ≡ ok answers
unfolding run_patches Keeps
replays callback again [] answers s r t w h e = ground arith
replays callback again ((id, deprecated) ∷ calls) answers s r t w h e =
    elim (answered callback id deprecated s w) [
      | inr (x, raised) ↦
          absurd (run_patches-raises callback id deprecated calls s s x answers t raised e)
      | inl (b, found) ↦
          let (u, first, a) = found in
          let (rest, whole, k) =
            run_patches-inverts callback id deprecated calls s u b answers t first e in
          let final = (run_patches-Keeps callback calls rest u t a.writable k).0 id b a.at in
          let (v, second, c) =
            replay-Answered again id deprecated r b h.writable h.replaying (h.noted id b final)
              (λ d held.
                some-injective d b (sym (After-Keeps id b s u a id d (h.memo id ∙ held)) ∙ a.at)) in
          run_patches-answers again id deprecated calls r v b rest second (
            replays callback again calls rest u v t a.writable (After-Replays id b s r t u v h a c)
              k)
          ∙ ap (λ l. ok l) (sym whole)
    ]

-- An execution asks for patches for the first time, and each call answers, whatever the callback
-- does. A replay of it, whose history has just the markers that it left, gets the same answers from
-- the same calls, whatever its callback.
pub replay_agrees :
    (callback again : PatchActivation) (calls : List (String × Bool)) (answers : List Bool)
    (s r t : Instance)
    → Writable s
    → s.patches_memoized ≡ []
    → s.commands ≡ []
    → run_patches callback calls s ≡ (ok answers, t)
    → Writable r
    → r.is_replaying ≡ true
    → r.patches_memoized ≡ []
    → r.patches_notified ≡ markers t.commands
    → (run_patches again calls r).0 ≡ ok answers
unfolding Marked is_true markers
replay_agrees callback again calls answers s r t w no_memo no_commands run writable replaying
      none_asked noted =
    let marked : Marked t =
      (run_patches-Keeps callback calls answers s t w run).1
        (λ id. rw (no_memo, no_commands, lookup-nil id) refl) in
    replays callback again calls answers s r t w
      (record {
        writable = writable;
        replaying = replaying;
        memo = λ id. ap (lookup id) (no_memo ∙ sym none_asked);
        noted = λ id b e. ap (λ l. contains l id) noted ∙ marked id ∙ ap is_true e;
      })
      run
