-- ===== src/Prelude/Chain.antt =====
-- Chains of `?` on options.
use mathlib.Core.Path.{◌≡◌, refl, subst}
use mathlib.Core.Option.{Option, none, some}

-- `?`.
abbrev pub bind_some : {A B : Type 0} → Option A → (A → Option B) → Option B
bind_some none f = none
bind_some (some a) f = f a

pub some_of_bind :
    {A B : Type 0} (o : Option A) (f : A → Option B) {b : B}
    → bind_some o f ≡ some b
    → (a : A) × (o ≡ some a) × (f a ≡ some b)
some_of_bind none f e = cc
some_of_bind (some a) f e = (a, refl, e)

-- The value has the property, if there is one.
abbrev pub Yields : {A : Type 0} → (A → Type 0) → Option A → Type 0
Yields {A} P o = (a : A) → o ≡ some a → P a

pub Yields-none : {A : Type 0} (P : A → Type 0) → Yields P none
Yields-none P a e = cc

pub Yields-some : {A : Type 0} (P : A → Type 0) (a : A) → P a → Yields P (some a)
Yields-some P a h b e = subst P (let same : a ≡ b = cc in same) h

pub Yields-bind :
    {A B : Type 0} (P : B → Type 0) (o : Option A) (f : A → Option B)
    → ((a : A) → o ≡ some a → Yields P (f a))
    → Yields P (bind_some o f)
Yields-bind P none f h b e = cc
Yields-bind P (some a) f h b e = h a refl b e
