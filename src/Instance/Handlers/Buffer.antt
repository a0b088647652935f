-- ===== src/Instance/Handlers/Buffer.antt =====
-- The buffer of signals of _workflow_instance.py: which signals it holds.
use sdk_python.Prelude.{
  ℕ, ◌+◌, ◌≡◌, refl, String, none, some, List, [], ◌∷◌, ◌++◌, Bool, if◌then◌else◌, ◌==◌, ==_eq,
  string_eq, arith, subst, sym, Bool-cases, inl, inr,
}
use sdk_python.Prelude.Dict.{Dict, lookup, insert, erase, lookup-erase, NodupKeys}
use sdk_python.Instance.State.{SignalJob}

abbrev pub Buffer : Type 0
Buffer = Dict String (List SignalJob)

abbrev pub jobs_of : String → Buffer → List SignalJob
jobs_of name d = elim (lookup name d) [ none ↦ [] | some jobs ↦ jobs ]

-- All signals of a buffer.
unfoldable pub all_jobs : Buffer → List SignalJob
all_jobs [] = []
all_jobs ((_, jobs) ∷ d) = jobs ++ all_jobs d

-- How many signals of a list, and of a buffer, a test takes.
module _ (p : SignalJob → Bool) where
  unfoldable pub counted : List SignalJob → ℕ
  counted [] = 0
  counted (job ∷ jobs) = let rest = counted jobs in if p job then 1 + rest else rest

  unfoldable pub total : Buffer → ℕ
  unfolding counted
  total [] = 0
  total ((_, jobs) ∷ d) = counted jobs + total d

  pub counted-nil : counted [] ≡ 0
  unfolding counted
  counted-nil = refl

  pub counted-append : (xs ys : List SignalJob) → counted (xs ++ ys) ≡ counted xs + counted ys
  unfolding counted
  counted-append [] ys = omega arith
  counted-append (x ∷ xs) ys = ground (arith, counted-append xs ys)

  pub counted-all_jobs : (d : Buffer) → counted (all_jobs d) ≡ total d
  unfolding counted all_jobs total
  counted-all_jobs [] = refl
  counted-all_jobs ((_, jobs) ∷ d) =
      ground (arith, counted-append jobs (all_jobs d), counted-all_jobs d)

  pub total-insert :
      (name : String) (job : SignalJob) (d : Buffer)
      → total (insert name (jobs_of name d ++ (job ∷ [])) d) ≡ total d + counted (job ∷ [])
  unfolding total insert lookup counted
  total-insert name job [] = ground arith
  total-insert name job ((key, jobs) ∷ d) =
      ground (arith, total-insert name job d, counted-append jobs (job ∷ []))

  total-erase-none :
      (name : String) (d : Buffer) → lookup name d ≡ none → total (erase name d) ≡ total d
  unfolding total erase lookup
  total-erase-none name [] h = refl
  total-erase-none name ((key, jobs) ∷ d) h = ground (arith, total-erase-none name d)

  pub total-erase :
      (name : String) (d : Buffer)
      → NodupKeys d
      → total (erase name d) + counted (jobs_of name d) ≡ total d
  unfolding total erase lookup counted
  total-erase name [] u = refl
  total-erase name ((key, jobs) ∷ d) (fresh, u) = elim (Bool-cases (name == key)) [
    | inl e ↦
        let gone : lookup name d ≡ none =
          subst (λ k. lookup k d ≡ none) (sym (==_eq name key e)) fresh in
        ground (arith, total-erase-none name d gone)
    | inr e ↦ ground (arith, total-erase name d u)
  ]

pub erase-NodupKeys : (name : String) (d : Buffer) → NodupKeys d → NodupKeys (erase name d)
unfolding erase
erase-NodupKeys name [] u = tt
erase-NodupKeys name ((key, jobs) ∷ d) (fresh, u) =
    ground (arith, lookup-erase key name d, erase-NodupKeys name d u)
