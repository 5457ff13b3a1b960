-- ===== src/Timed/Gives.antt =====
-- What holds of every value that a computation can succeed with.
use hyper4k.Prelude.{
  ℕ, ◌≡◌, refl, sym, ◌∙◌, subst, Bool, true, false, Option, none, some, inl, inr, ltb,
  if◌then◌else◌,
}
use hyper4k.Abi.{err_timeout}
use hyper4k.Timed.{Timed, ends, never, with_timeout, ◌>>=◌}
use hyper4k.Timed.Results.{result, result-later}

-- What a computation gives if it succeeds has the property.
abbrev pub Gives : {A : Type 0} → (A → Type 0) → Timed A → Type 0
Gives {A} P m = (a : A) → result m ≡ some (inr a) → P a

pub Gives-bind :
    {A B : Type 0} (P : A → Type 0) (Q : B → Type 0) (m : Timed A) (f : A → Timed B)
    → Gives P m
    → ((a : A) → P a → Gives Q (f a))
    → Gives Q (m >>= f)
Gives-bind P Q (ends t (inl kind)) f h k b e = cc
Gives-bind P Q (ends t (inr a)) f h k b e = k a (h a refl) b (sym (result-later t (f a)) ∙ e)
Gives-bind P Q never f h k b e = cc

pub Gives-with_timeout :
    {A : Type 0} (P : A → Type 0) (timeout : Option ℕ) (m : Timed A)
    → Gives P m
    → Gives P (with_timeout timeout m)
unfolding with_timeout
Gives-with_timeout P none m h a e = h a e
Gives-with_timeout P (some d) never h a e = cc
Gives-with_timeout P (some d) (ends t r) h a e = go (ltb d t) e
  where
    go : (b : Bool) → result (if b then ends d (inl err_timeout) else ends t r) ≡ some (inr a) → P a
    go true e = cc
    go false e = h a e

pub Gives-ends : {A : Type 0} (P : A → Type 0) (t : ℕ) {a : A} → P a → Gives P (ends t (inr a))
Gives-ends P t {a} p b e = subst P (let same : a ≡ b = cc in same) p

pub Gives-any : {A : Type 0} (m : Timed A) → Gives (λ _. Unit {0}) m
Gives-any m a e = tt
