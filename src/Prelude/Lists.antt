-- ===== src/Prelude/Lists.antt =====
-- Lists measured and cut by native numbers, under the library's names, and `filter` by a test.
use Prim.Native.Nat.{ℕ, zero, suc, ◌+◌, ◌-◌, ◌≤◌, ◌<◌}
use mathlib.Core.Path.{◌≡◌, refl, ap, ◌∙◌}
use mathlib.Core.Bool.{Bool, cond}
use mathlib.Core.List.{List, [], ◌∷◌, ◌++◌}
use mathlib.Core.Option.{Option, none, some}
use native.Mathlib.Omega.{arith}

suc-plus : (n m : ℕ) → suc (n + m) ≡ suc n + m
suc-plus n m = omega arith

module _ {ℓ} {A : Type ℓ} where
  abbrev pub length : List A → ℕ
  length [] = 0
  length (x ∷ xs) = suc (length xs)

  abbrev pub get_elem? : List A → ℕ → Option A
  get_elem? [] i = none
  get_elem? (x ∷ xs) zero = some x
  get_elem? (x ∷ xs) (suc i) = get_elem? xs i

  abbrev pub drop : ℕ → List A → List A
  drop zero xs = xs
  drop (suc n) [] = []
  drop (suc n) (x ∷ xs) = drop n xs

  abbrev pub take : ℕ → List A → List A
  take zero xs = []
  take (suc n) [] = []
  take (suc n) (x ∷ xs) = x ∷ take n xs

  -- `[x for x in xs if p(x)]`
  abbrev pub filter : (A → Bool) → List A → List A
  filter p [] = []
  filter p (x ∷ xs) = let rest = filter p xs in cond (p x) (x ∷ rest) rest

  pub length-append : (xs ys : List A) → length (xs ++ ys) ≡ length xs + length ys
  length-append [] ys = omega arith
  length-append (x ∷ xs) ys = omega (arith, length-append xs ys)

  pub filter-append :
      (p : A → Bool) (xs ys : List A) → filter p (xs ++ ys) ≡ filter p xs ++ filter p ys
  filter-append p [] ys = refl
  filter-append p (x ∷ xs) ys = ground (arith, filter-append p xs ys)

module _ {ℓ} {A : Type ℓ} where
  pub length-drop : (n : ℕ) (xs : List A) → length (drop n xs) ≡ length xs - n
  length-drop zero xs = omega arith
  length-drop (suc n) [] = omega arith
  length-drop (suc n) (x ∷ xs) = omega (arith, length-drop n xs)

  pub drop-append : (n : ℕ) (xs ys : List A) → n ≤ length xs → drop n (xs ++ ys) ≡ drop n xs ++ ys
  drop-append zero xs ys h = refl
  drop-append (suc n) [] ys h = absurd (omega arith)
  drop-append (suc n) (x ∷ xs) ys h = drop-append n xs ys (omega arith)

  pub drop-nil : (n : ℕ) → drop {A = A} n [] ≡ []
  drop-nil zero = refl
  drop-nil (suc n) = refl

  pub drop-length : (xs : List A) → drop (length xs) xs ≡ []
  drop-length [] = refl
  drop-length (x ∷ xs) = drop-length xs

  pub drop-drop : (m n : ℕ) (xs : List A) → drop m (drop n xs) ≡ drop (n + m) xs
  drop-drop m zero xs = ap (λ (k : ℕ). drop k xs) (omega arith)
  drop-drop m (suc n) [] = rw (drop-nil m, drop-nil (suc n + m))
  drop-drop m (suc n) (x ∷ xs) = drop-drop m n xs ∙ ap (λ (k : ℕ). drop k (x ∷ xs)) (suc-plus n m)

module _ {ℓ} {A : Type ℓ} where
  pub get_elem?-append :
      (xs ys : List A) (i : ℕ) → i < length xs → get_elem? (xs ++ ys) i ≡ get_elem? xs i
  get_elem?-append [] ys i h = absurd (omega arith)
  get_elem?-append (x ∷ xs) ys zero h = refl
  get_elem?-append (x ∷ xs) ys (suc i) h = get_elem?-append xs ys i (omega arith)

  pub get_elem?-drop : (n i : ℕ) (xs : List A) → get_elem? (drop n xs) i ≡ get_elem? xs (n + i)
  get_elem?-drop zero i xs = ap (get_elem? xs) (omega arith)
  get_elem?-drop (suc n) i [] = refl
  get_elem?-drop (suc n) i (x ∷ xs) = get_elem?-drop n i xs ∙ ap (get_elem? (x ∷ xs)) (suc-plus n i)

module _ {ℓ κ} {A : Type ℓ} where
  -- `all(P(x) for x in xs)`, as a type
  abbrev pub All : (A → Type κ) → List A → Type κ
  All P [] = Unit
  All P (x ∷ xs) = P x × All P xs

module _ {ℓ κ} {A : Type ℓ} where
  pub All-append : (P : A → Type κ) (xs ys : List A) → All P xs → All P ys → All P (xs ++ ys)
  All-append P [] ys hx hy = hy
  All-append P (x ∷ xs) ys hx hy = (hx.0, All-append P xs ys hx.1 hy)
