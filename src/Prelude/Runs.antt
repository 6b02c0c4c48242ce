-- ===== src/Prelude/Runs.antt =====
-- Code that may raise, as `Option`: `none` is an exception. `Runs P m` says that `m` returns, and
-- that what it returns meets `P`.
use mathlib.Core.Path.{◌≡◌, refl}
use mathlib.Core.Bool.{Bool, true, false}
use mathlib.Core.Option.{Option, none, some}
use apex_pulse.Prelude.Tests.{if◌then◌else◌}

infixl 5 ◌>>=◌
abbrev pub ◌>>=◌ {ℓ κ} : {A : Type ℓ} {B : Type κ} → Option A → (A → Option B) → Option B
none >>= f = none
some a >>= f = f a

abbrev pub Runs {ℓ} : {A : Type ℓ} → (A → Type 0) → Option A → Type 0
Runs P none = ⊥
Runs P (some a) = P a

pub Runs-bind {ℓ κ} :
    {A : Type ℓ} {B : Type κ} (P : A → Type 0) (Q : B → Type 0) (m : Option A) (f : A → Option B)
    → Runs P m
    → ((a : A) → P a → Runs Q (f a))
    → Runs Q (m >>= f)
Runs-bind P Q none f h k = absurd h
Runs-bind P Q (some a) f h k = k a h

pub Runs-imp {ℓ} :
    {A : Type ℓ} (P Q : A → Type 0) (m : Option A) → Runs P m → ((a : A) → P a → Q a) → Runs Q m
Runs-imp P Q none h k = h
Runs-imp P Q (some a) h k = k a h

pub Runs-if {ℓ} :
    {A : Type ℓ} (P : A → Type 0) (b : Bool) (m n : Option A)
    → (b ≡ true → Runs P m)
    → (b ≡ false → Runs P n)
    → Runs P (if b then m else n)
Runs-if P true m n h k = h refl
Runs-if P false m n h k = k refl

-- What a run that returns has returned.
pub Runs-some {ℓ} :
    {A : Type ℓ} (P : A → Type 0) (m : Option A) → Runs P m → (a : A) × (m ≡ some a) × P a
Runs-some P none h = absurd h
Runs-some P (some a) h = (a, refl, h)

pub bind_cong {ℓ κ} :
    {A : Type ℓ} {B : Type κ} (m : Option A) (f g : A → Option B)
    → ((a : A) → f a ≡ g a)
    → (m >>= f) ≡ (m >>= g)
bind_cong none f g h = refl
bind_cong (some a) f g h = h a

pub bind_assoc {ℓ κ η} :
    {A : Type ℓ} {B : Type κ} {C : Type η} (m : Option A) (f : A → Option B) (g : B → Option C)
    → (m >>= λ a. f a >>= g) ≡ ((m >>= f) >>= g)
bind_assoc none f g = refl
bind_assoc (some a) f g = refl

pub bind-eq_some {ℓ κ} :
    {A : Type ℓ} {B : Type κ} (m : Option A) (f : A → Option B) (b : B)
    → (m >>= f) ≡ some b
    → (a : A) × (m ≡ some a) × (f a ≡ some b)
bind-eq_some none f b e = absurd (cc)
bind-eq_some (some a) f b e = (a, refl, e)
