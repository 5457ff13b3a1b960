-- ===== src/Timed/Results.antt =====
-- What a computation comes to, with the time left out.
use hyper4k.Prelude.{
  ℕ, ◌≡◌, ◌≢◌, refl, sym, ap, ◌∙◌, Option, none, some, ◌⊎◌, inl, inr, ltb, if_cases,
}
use hyper4k.Abi.{Hyper4kErrorKind, err_timeout}
use hyper4k.Timed.{Timed, ends, never, later, with_timeout, ◌>>=◌}

-- What a computation comes to, whenever that is.
abbrev pub result : {A : Type 0} → Timed A → Option (Hyper4kErrorKind ⊎ A)
result (ends t r) = some r
result never = none

-- Either the timeout passed, or the result is as without one.
pub with_timeout-result :
    {A : Type 0} (timeout : Option ℕ) (m : Timed A)
    → ((timeout ≢ none) × (result (with_timeout timeout m) ≡ some (inl err_timeout)))
      ⊎ (with_timeout timeout m ≡ m)
unfolding with_timeout
with_timeout-result none m = inr refl
with_timeout-result (some d) never = inl ((λ e. cc), refl)
with_timeout-result (some d) (ends t r) =
    if_cases (λ n. ((some d ≢ none) × (result n ≡ some (inl err_timeout))) ⊎ (n ≡ ends t r))
      (ltb d t) (λ late. inl ((λ e. cc), refl)) (λ timely. inr refl)

pub result-later : {A : Type 0} (t : ℕ) (m : Timed A) → result (later t m) ≡ result m
result-later t (ends u r) = refl
result-later t never = refl

pub result-bind :
    {A B : Type 0} (m n : Timed A) (f : A → Timed B)
    → result m ≡ result n
    → result (m >>= f) ≡ result (n >>= f)
result-bind (ends t (inl k)) (ends u (inl l)) f e = cc
result-bind (ends t (inr a)) (ends u (inr b)) f e =
    result-later t (f a)
    ∙ ap (λ x. result (f x)) (let same : a ≡ b = cc in same)
    ∙ sym (result-later u (f b))
result-bind (ends t (inl k)) (ends u (inr b)) f e = cc
result-bind (ends t (inr k)) (ends u (inl b)) f e = cc
result-bind never never f e = refl
result-bind (ends t r) never f e = cc
result-bind never (ends t r) f e = cc

pub result-continues :
    {A B : Type 0} {a : A} (m : Timed A) (f : A → Timed B)
    → result m ≡ some (inr a)
    → result (m >>= f) ≡ result (f a)
result-continues {a} m f e = result-bind m (ends 0 (inr a)) f e ∙ result-later 0 (f a)

pub result-stops :
    {A B : Type 0} {kind : Hyper4kErrorKind} (m : Timed A) (f : A → Timed B)
    → result m ≡ some (inl kind)
    → result (m >>= f) ≡ some (inl kind)
result-stops (ends t (inl k)) f e = cc
result-stops (ends t (inr a)) f e = cc
result-stops never f e = cc
