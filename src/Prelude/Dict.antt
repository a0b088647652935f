-- ===== src/Prelude/Dict.antt =====
-- Python's `dict` in insertion order, over any keys that can be compared.
-- Proofs elsewhere go by the laws; only tests unfold the operations.
use mathlib.Core.Path.{◌≡◌, refl}
use mathlib.Core.Bool.{Bool}
use mathlib.Core.Option.{Option, none, some}
use mathlib.Core.List.{List, [], ◌∷◌}
use native.Mathlib.Omega.{arith}
use sdk_python.Prelude.Equality.{Eq, ◌==◌, if◌then◌else◌}

abbrev pub Dict {ℓ κ} : Type ℓ → Type κ → Type (ℓ ⊔ κ)
Dict K V = List (K × V)

module _ {ℓ κ} {K : Type ℓ} {V : Type κ} ⦃e : Eq K⦄ where
  -- `d.get(k)`
  unfoldable pub lookup : K → Dict K V → Option V
  lookup k [] = none
  lookup k ((j, v) ∷ d) = if k == j then some v else lookup k d

  -- `d[k] = v`
  unfoldable pub insert : K → V → Dict K V → Dict K V
  insert k v [] = (k, v) ∷ []
  insert k v ((j, w) ∷ d) = if k == j then (k, v) ∷ d else (j, w) ∷ insert k v d

  -- `d.pop(k, None)`: the value is `lookup k d`. A real dict has at most one entry of the key.
  unfoldable pub erase : K → Dict K V → Dict K V
  erase k [] = []
  erase k ((j, w) ∷ d) = let rest = erase k d in if k == j then rest else (j, w) ∷ rest

  pub lookup-nil : (k : K) → lookup k [] ≡ none
  unfolding lookup
  lookup-nil k = refl

  pub lookup-cons :
      (j k : K) (v : V) (d : Dict K V)
      → lookup j ((k, v) ∷ d) ≡ (if j == k then some v else lookup j d)
  unfolding lookup
  lookup-cons j k v d = ground arith

  pub lookup-insert :
      (j k : K) (v : V) (d : Dict K V)
      → lookup j (insert k v d) ≡ (if j == k then some v else lookup j d)
  unfolding insert lookup
  lookup-insert j k v [] = lookup-cons j k v []
  lookup-insert j k v (_ ∷ d) = ground (arith, lookup-insert j k v d)

  pub lookup-erase :
      (j k : K) (d : Dict K V) → lookup j (erase k d) ≡ (if j == k then none else lookup j d)
  unfolding erase lookup
  lookup-erase j k [] = ground arith
  lookup-erase j k (_ ∷ d) = ground (arith, lookup-erase j k d)

  -- `{k: v for k, v in d.items() if p(v)}`
  unfoldable pub keep_values : (V → Bool) → Dict K V → Dict K V
  keep_values p [] = []
  keep_values p ((k, v) ∷ d) = let rest = keep_values p d in if p v then (k, v) ∷ rest else rest

  -- Every key stands once, as in a real dict.
  abbrev pub NodupKeys : Dict K V → Type κ
  NodupKeys [] = Unit
  NodupKeys ((k, _) ∷ d) = (lookup k d ≡ none) × NodupKeys d

  pub insert-NodupKeys : (k : K) (v : V) (d : Dict K V) → NodupKeys d → NodupKeys (insert k v d)
  unfolding insert
  insert-NodupKeys k v [] _ = (lookup-nil k, tt)
  insert-NodupKeys k v ((j, _) ∷ d) (fresh, u) =
      ground (arith, insert-NodupKeys k v d u, lookup-insert j k v d)

  pub lookup-keep_values-none :
      (p : V → Bool) (k : K) (d : Dict K V) → lookup k d ≡ none → lookup k (keep_values p d) ≡ none
  unfolding lookup keep_values
  lookup-keep_values-none p k [] h = refl
  lookup-keep_values-none p k ((j, w) ∷ d) h = ground (arith, lookup-keep_values-none p k d)

  -- What is kept is what was there and passes the test.
  pub lookup-keep_values :
      (p : V → Bool) (k : K) (d : Dict K V)
      → NodupKeys d
      → lookup k (keep_values p d)
        ≡ elim (lookup k d) [ none ↦ none | some v ↦ if p v then some v else none ]
  unfolding lookup keep_values
  lookup-keep_values p k [] u = refl
  lookup-keep_values p k ((j, w) ∷ d) (fresh, u) =
      ground (arith, lookup-keep_values p k d u, lookup-keep_values-none p k d)

pub ruleset dict_laws = (lookup-nil, lookup-insert, lookup-erase)
