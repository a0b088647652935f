-- ===== src/Streams/Client/Drain.antt =====
-- The loop of `flush` and `__aexit__` in _client.py: how many rounds it takes, what it leaves.
use sdk_python.Prelude.{
  ℕ, ◌+◌, ◌≤◌, ◌<◌, ◌≡◌, refl, inl, inr, Bool, true, false, Option, none, some, List, [], ◌∷◌, suc,
  ◌-◌, ◌&&◌, if◌then◌else◌, subst, sym, arith, Bool-cases,
}
use sdk_python.Prelude.Result.{Result, ok, err}
use sdk_python.Streams.Types.{Codec, StreamError}
use sdk_python.Streams.Client.{
  WorkflowStreamClient, Published, Meanwhile, also_publishes, also_flushes, Round, publish_all,
  run_meanwhile, flush_once, flush_loop, unsent,
}

module _ {P V : Type 0} (c : Codec P) (convert : V → Option P) where
  -- The rounds that a client still needs if no signal fails: one for a batch that waits for its
  -- retry, one for the buffer.
  rounds_needed : WorkflowStreamClient P V → ℕ
  rounds_needed s = elim s.pending [ none ↦ 0 | some _ ↦ 1 ] + elim s.buffer [ [] ↦ 0 | _ ∷ _ ↦ 1 ]

  -- A flush during which nothing is published needs no round more than before.
  flush_once-le :
      (now : ℕ) (signal : Bool) (s : WorkflowStreamClient P V)
      → rounds_needed (flush_once c convert now signal [] s).1 ≤ rounds_needed s
  unfolding flush_once publish_all rounds_needed
  flush_once-le now signal s = ground arith

  flush_once-lt :
      (now : ℕ) (signal : Bool) (s : WorkflowStreamClient P V)
      → (flush_once c convert now signal [] s).0 ≡ ok tt
      → rounds_needed (flush_once c convert now signal [] s).1 ≤ rounds_needed s - 1
  unfolding flush_once publish_all rounds_needed
  flush_once-lt now signal s h = ground arith

  -- Whatever is published: a flush that does not raise leaves no batch.
  flush_once-ok :
      (now : ℕ) (signal : Bool) (during : List (Published P V)) (s : WorkflowStreamClient P V)
      → (flush_once c convert now signal during s).0 ≡ ok tt
      → rounds_needed (flush_once c convert now signal during s).1 ≤ 1
  unfolding flush_once rounds_needed
  flush_once-ok now signal during s h = ground arith

  is_silent : List (Meanwhile P V) → Bool
  is_silent [] = true
  is_silent (also_flushes _ _ [] ∷ rest) = is_silent rest
  is_silent (also_flushes _ _ (_ ∷ _) ∷ rest) = false
  is_silent (also_publishes _ ∷ rest) = false

  -- Nothing is published in the round, be it before the lock or during the signal.
  unfoldable pub is_quiet : Round P V → Bool
  unfolding is_silent
  is_quiet r = is_silent r.before && elim r.during [ [] ↦ true | _ ∷ _ ↦ false ]

  unfoldable pub quiet_rounds : List (Round P V) → ℕ
  quiet_rounds [] = 0
  quiet_rounds (r ∷ rounds) =
      let rest = quiet_rounds rounds in if is_quiet r then suc rest else rest

  run_meanwhile-le :
      (before : List (Meanwhile P V)) (s : WorkflowStreamClient P V)
      → is_silent before ≡ true
      → rounds_needed (run_meanwhile c convert before s) ≤ rounds_needed s
  unfolding run_meanwhile is_silent
  run_meanwhile-le [] s h = omega arith
  run_meanwhile-le (also_publishes _ ∷ rest) s h = absurd (ground arith)
  run_meanwhile-le (also_flushes _ _ (_ ∷ _) ∷ rest) s h = absurd (ground arith)
  run_meanwhile-le (also_flushes now signal [] ∷ rest) s h = omega (
    arith,
    run_meanwhile-le rest (flush_once c convert now signal [] s).1 h,
    flush_once-le now signal s,
  )

  -- The state that a round leaves, and what its flush returned.
  after_round :
      Round P V
      → WorkflowStreamClient P V
      → Result StreamError (Unit {0}) × WorkflowStreamClient P V
  after_round r s =
      flush_once c convert r.now r.signal r.during (run_meanwhile c convert r.before s)

  some_needed : (s : WorkflowStreamClient P V) → unsent s ≡ true → 1 ≤ rounds_needed s
  unfolding rounds_needed unsent
  some_needed s u = ground arith

  quiet-lt :
      (r : Round P V) (s : WorkflowStreamClient P V)
      → is_quiet r ≡ true
      → unsent s ≡ true
      → (after_round r s).0 ≡ ok tt
      → rounds_needed (after_round r s).1 < rounds_needed s
  unfolding is_quiet after_round
  quiet-lt r s q u h =
      let silent : is_silent r.before ≡ true = ground arith in
      let none_during : r.during ≡ [] = ground arith in
      let t = run_meanwhile c convert r.before s in
      let ok' = subst (λ d. (flush_once c convert r.now r.signal d t).0 ≡ ok tt) none_during h in
      subst (λ d. rounds_needed (flush_once c convert r.now r.signal d t).1 < rounds_needed s)
        (sym none_during)
        (omega (
          arith,
          flush_once-lt r.now r.signal t ok',
          run_meanwhile-le r.before s silent,
          some_needed s u,
        ))

  round-le :
      (r : Round P V) (s : WorkflowStreamClient P V)
      → unsent s ≡ true
      → (after_round r s).0 ≡ ok tt
      → rounds_needed (after_round r s).1 ≤ rounds_needed s
  unfolding after_round
  round-le r s u h = omega (arith, flush_once-ok r.now r.signal r.during _ h, some_needed s u)

  -- The loop ends: it raises, or it returns with nothing left to send.
  abbrev pub Ends : List (Round P V) → WorkflowStreamClient P V → Type 0
  Ends rounds s =
      (result : Result StreamError (Unit {0})) × (t : WorkflowStreamClient P V) × (flush_loop c
          convert rounds s
        ≡ some (result, t))
      × (result ≡ ok tt → unsent t ≡ false)

  Ends-after :
      (r : Round P V) (rounds : List (Round P V)) (s : WorkflowStreamClient P V)
      (result : Result StreamError (Unit {0}))
      → unsent s ≡ true
      → (after_round r s).0 ≡ result
      → (result ≡ ok tt → Ends rounds (after_round r s).1)
      → Ends (r ∷ rounds) s
  unfolding flush_loop after_round
  Ends-after r rounds s (ok _) u e rest =
      let (result, t, h, done) = rest refl in (result, t, rw (u, e) h, done)
  Ends-after r rounds s (err x) u e rest = (err x, (after_round r s).1, rw (u, e), λ bad. cc)

  none_needed : (s : WorkflowStreamClient P V) → rounds_needed s ≤ 0 → unsent s ≡ false
  unfolding rounds_needed unsent
  none_needed s h = ground arith

  flush_loop-Ends :
      (rounds : List (Round P V)) (s : WorkflowStreamClient P V)
      → rounds_needed s ≤ quiet_rounds rounds
      → Ends rounds s
  unfolding quiet_rounds
  flush_loop-Ends [] s h = let u = none_needed s h in unfold flush_loop in (ok tt, s, rw u, λ _. u)
  flush_loop-Ends (r ∷ rounds) s h = elim (Bool-cases (unsent s)) [
    | inl u ↦ Ends-after r rounds s _ u refl (λ good.
        flush_loop-Ends rounds (after_round r s).1 (elim (Bool-cases (is_quiet r)) [
          | inl q ↦ ground (arith, quiet-lt r s q u good)
          | inr q ↦ ground (arith, round-le r s u good)
        ]))
    | inr u ↦ unfold flush_loop in (ok tt, s, rw u, λ _. u)
  ]

  -- Two rounds in which nothing is published are enough for the loop of `flush`, whatever the
  -- state, the times and the outcomes of the signals, and whatever is published in the other
  -- rounds and flushed by others in any: the loop ends, and where it does not raise it leaves
  -- neither a batch nor a buffer to send.
  pub flush_loop_finishes :
      (rounds : List (Round P V)) (s : WorkflowStreamClient P V)
      → 2 ≤ quiet_rounds rounds
      → Ends rounds s
  unfolding rounds_needed
  flush_loop_finishes rounds s h = flush_loop-Ends rounds s (ground arith)
