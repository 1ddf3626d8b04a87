-- ===== src/Common/Maybe.antt =====
-- Code that returns `undefined` as soon as a value is missing or a test fails, in do blocks.
use mathlib.Core.Path.{◌≡◌, refl}
use mathlib.Core.Bool.{Bool, true, false}
use mathlib.Core.Option.{Option, none, some}

infixl 5 ◌>>=◌ ◌>>◌
abbrev pub ◌>>=◌ {ℓ κ} : {A : Type ℓ} {B : Type κ} → Option A → (A → Option B) → Option B
some a >>= f = f a
none >>= f = none

abbrev pub ◌>>◌ {ℓ} : {B : Type ℓ} → Option (Unit {0}) → Option B → Option B
m >> k = m >>= λ _. k

-- `if (!b) return undefined`
abbrev pub require : Bool → Option (Unit {0})
require true = some tt
require false = none

-- What a result says of the steps that gave it.
pub require-some {ℓ} :
    {B : Type ℓ} (b : Bool) (k : Option B) (r : B)
    → (require b >> k) ≡ some r
    → (b ≡ true) × (k ≡ some r)
require-some true k r h = (refl, h)
require-some false k r h = cc

pub bind-some {ℓ κ} :
    {A : Type ℓ} {B : Type κ} (o : Option A) (f : A → Option B) (r : B)
    → (o >>= f) ≡ some r
    → (a : A) × (o ≡ some a) × (f a ≡ some r)
bind-some none f r h = cc
bind-some (some a) f r h = (a, refl, h)
