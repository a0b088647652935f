-- ===== src/Prelude/Options.antt =====
-- Code that may raise where no handler looks at the exception: `none` is that it raises.
use mathlib.Core.Path.{◌≡◌, refl}
use mathlib.Core.Option.{Option, none, some, none-ne-some}

abbrev pub pure {ℓ} : {A : Type ℓ} → A → Option A
pure a = some a

infixl 5 ◌>>=◌ ◌>>◌
abbrev pub ◌>>=◌ {ℓ κ} : {A : Type ℓ} {B : Type κ} → Option A → (A → Option B) → Option B
m >>= f = elim m [ none ↦ none | some a ↦ f a ]

abbrev pub ◌>>◌ {ℓ κ} : {A : Type ℓ} {B : Type κ} → Option A → Option B → Option B
m >> k = m >>= λ _. k

-- A chain that returns went through its first step.
pub bind-some {ℓ κ} :
    {A : Type ℓ} {B : Type κ} (m : Option A) (f : A → Option B) (b : B)
    → (m >>= f) ≡ some b
    → (a : A) × (m ≡ some a) × (f a ≡ some b)
bind-some none f b h = absurd (none-ne-some b h)
bind-some (some a) f b h = (a, refl, h)
