-- ===== src/Prelude/Equality.antt =====
-- Python's `==` and `in`, for every type whose equality can be decided.
use Prim.Native.Nat.{ℕ}
use Prim.Native.String.{String}
use mathlib.Core.Path.{◌≡◌, refl, ap}
use mathlib.Core.Logic.{ite, dite}
use mathlib.Core.Bool.{Bool, true, false, cond, ◌||◌, Bool-discrete}
use mathlib.Core.Option.{Option, none, some, none-ne-some, some-ne-none, some-injective}
use mathlib.Core.List.{List, [], ◌∷◌}
use native.Mathlib.Omega.{arith}
use native.Mathlib.Decide.{ℕ_discrete}
use text.Mathlib.Text
use text.Mathlib.TextEquality.{eq_iff}

infix 1 if◌then◌else◌
abbrev pub if◌then◌else◌ {ℓ} : {A : Type ℓ} → Bool → A → A → A
if b then x else y = cond b x y

-- What holds of both branches holds of the conditional.
pub if_rule {ℓ κ} :
    {A : Type ℓ} (Q : A → Type κ) (b : Bool) (x y : A) → Q x → Q y → Q (if b then x else y)
if_rule Q true x y h k = h
if_rule Q false x y h k = k

pub record Eq {ℓ} (A : Type ℓ) : Type ℓ where
  pub dec : Discrete A

module _ {ℓ} {A : Type ℓ} ⦃e : Eq A⦄ where
  infix 50 ◌==◌
  abbrev pub ◌==◌ : A → A → Bool
  a == b = ite (e.dec a b) true false

  abbrev pub contains : List A → A → Bool
  contains [] a = false
  contains (x ∷ xs) a = a == x || contains xs a

  pub ==_refl : (a : A) → (a == a) ≡ true
  ==_refl a = ground arith

  pub ==_eq : (a b : A) → (a == b) ≡ true → a ≡ b
  ==_eq a b h = ground arith

  option_dec : Discrete (Option A)
  option_dec none none = yes refl
  option_dec none (some b) = no (none-ne-some b)
  option_dec (some a) none = no (some-ne-none a)
  option_dec (some a) (some b) =
      dite (e.dec a b) (λ p. yes (ap some p)) (λ n. no (λ p. n (some-injective a b p)))

  instance unfoldable pub option_eq : Eq (Option A)
  unfolding option_dec
  option_eq = record { dec = option_dec }

-- Shut in proofs, where a split on `s == t` yields the equation or its negation.
instance unfoldable pub string_eq : Eq String
string_eq = record {
  dec = λ s t.
      dite (Bool-discrete (Text.◌==◌ s t) true) (λ same. yes ((eq_iff s t).0 same))
        (λ differ. no (λ p. differ ((eq_iff s t).1 p)));
}

instance unfoldable pub nat_eq : Eq ℕ
unfolding ℕ_discrete
nat_eq = record { dec = ℕ_discrete }
