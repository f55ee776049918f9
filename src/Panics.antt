-- ===== src/Panics.antt =====
-- A chain of steps of which each may panic.
use unleash_edge.Prelude.{◌≡◌, refl, Option, none, some, arith}

infixl 5 ◌>>=◌
abbrev pub ◌>>=◌ {ℓ κ} : {A : Type ℓ} {B : Type κ} → Option A → (A → Option B) → Option B
none >>= f = none
some a >>= f = f a

-- the value of a step that did not panic
pub bind-some {ℓ κ} :
    {A : Type ℓ} {B : Type κ} (o : Option A) (k : A → Option B) (b : B)
    → o >>= k ≡ some b
    → (a : A) × (o ≡ some a) × (k a ≡ some b)
bind-some none k b h = absurd (ground arith)
bind-some (some a) k b h = (a, refl, h)
