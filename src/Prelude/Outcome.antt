-- ===== src/Prelude/Outcome.antt =====
-- The result of Go code that may panic.
use mathlib.Core.Path.{◌≡◌, refl}

pub data Outcome {ℓ} (A : Type ℓ) : Type ℓ where
  value : A → Outcome A
  panic : Outcome A

abbrev pub map_outcome {ℓ κ} : {A : Type ℓ} {B : Type κ} → (A → B) → Outcome A → Outcome B
map_outcome f (value a) = value (f a)
map_outcome f panic = panic

abbrev pub bind {ℓ κ} : {A : Type ℓ} {B : Type κ} → Outcome A → (A → Outcome B) → Outcome B
bind (value a) f = f a
bind panic f = panic

pub bind_ext {ℓ κ} :
    {A : Type ℓ} {B : Type κ} (o : Outcome A) (f g : A → Outcome B)
    → ((a : A) → f a ≡ g a)
    → bind o f ≡ bind o g
bind_ext (value a) f g h = h a
bind_ext panic f g h = refl

pub bind_assoc {ℓ κ μ} :
    {A : Type ℓ} {B : Type κ} {D : Type μ} (o : Outcome A) (f : A → Outcome B) (g : B → Outcome D)
    → bind (bind o f) g ≡ bind o (λ a. bind (f a) g)
bind_assoc (value a) f g = refl
bind_assoc panic f g = refl
