-- ===== src/Prelude/Options.antt =====
-- Calls that may fail, as options: chains by `do`, and loops over lists.
use mathlib.Core.Path.{◌≡◌, refl}
use mathlib.Core.Bool.{Bool, true, false}
use mathlib.Core.Logic.{◌⊎◌, inl, inr}
use mathlib.Core.Option.{Option, none, some}
use mathlib.Core.List.{List, [], ◌∷◌}
use cad2ml.Prelude.Tests.{if◌then◌else◌}

infixl 5 ◌>>=◌
abbrev pub ◌>>=◌ {ℓ κ} : {A : Type ℓ} {B : Type κ} → Option A → (A → Option B) → Option B
none >>= f = none
some a >>= f = f a

-- `[f(x) for x in xs]`
abbrev pub each {ℓ κ} : {A : Type ℓ} {B : Type κ} → (A → Option B) → List A → Option (List B)
each f [] = some []
each f (x ∷ xs) = f x >>= λ y. each f xs >>= λ ys. some (y ∷ ys)

-- `[x for x in xs if p(x)]`
abbrev pub each_kept {ℓ} : {A : Type ℓ} → (A → Option Bool) → List A → Option (List A)
each_kept p [] = some []
each_kept p (x ∷ xs) = p x >>= λ b. each_kept p xs >>= λ ys. some (if b then x ∷ ys else ys)

-- `all(p(x) for x in xs)`: the first false ends it.
abbrev pub each_true {ℓ} : {A : Type ℓ} → (A → Option Bool) → List A → Option Bool
each_true p [] = some true
each_true p (x ∷ xs) = p x >>= λ b. elim b [ true ↦ each_true p xs | false ↦ some false ]

-- `any(p(x) for x in xs)`: the first true ends it.
abbrev pub some_true {ℓ} : {A : Type ℓ} → (A → Option Bool) → List A → Option Bool
some_true p [] = some false
some_true p (x ∷ xs) = p x >>= λ b. elim b [ true ↦ some true | false ↦ some_true p xs ]

-- `a and b`, where `b` is read only if `a` holds.
abbrev pub and_then : Bool → Option Bool → Option Bool
and_then true b = b
and_then false b = some false

-- A chain that ends well ends well at each step.
pub bind-some {ℓ κ} :
    {A : Type ℓ} {B : Type κ} (o : Option A) (f : A → Option B) (b : B)
    → (o >>= f) ≡ some b
    → (a : A) × ((o ≡ some a) × (f a ≡ some b))
bind-some none f b h = cc
bind-some (some a) f b h = (a, (refl, h))

pub some_injective {ℓ} : {A : Type ℓ} (a b : A) → some a ≡ some b → a ≡ b
some_injective a b h = cc

pub answer-cases : (o : Option Bool) → (o ≡ none) ⊎ ((o ≡ some true) ⊎ (o ≡ some false))
answer-cases none = inl refl
answer-cases (some true) = inr (inl refl)
answer-cases (some false) = inr (inr refl)
