-- ===== src/Timed/Bounds.antt =====
-- When a computation under `tokio::time::timeout` ends.
use hyper4k.Prelude.{ℕ, ◌+◌, ◌≤◌, ◌≡◌, refl, ap, some, arith, ◌⊎◌, inl, inr, ltb, if_cases}
use hyper4k.Abi.{Hyper4kErrorKind, err_timeout}
use hyper4k.Timed.{Timed, ends, never, later, with_timeout, ◌>>=◌}

-- Ends within the given time.
abbrev pub Within : {A : Type 0} → ℕ → Timed A → Type 0
Within {A} d m = (t : ℕ) × (r : Hyper4kErrorKind ⊎ A) × (m ≡ ends t r) × (t ≤ d)

pub with_timeout-Within : {A : Type 0} (d : ℕ) (m : Timed A) → Within d (with_timeout (some d) m)
unfolding with_timeout
with_timeout-Within d never = (d, inl err_timeout, refl, omega arith)
with_timeout-Within d (ends t r) =
    if_cases (Within d) (ltb d t) (λ late. (d, inl err_timeout, refl, omega arith))
      (λ timely. (t, r, refl, ground arith))

pub >>=-Within :
    {A B : Type 0} {d e : ℕ} (m : Timed A) (f : A → Timed B)
    → Within d m
    → ((a : A) → Within e (f a))
    → Within (d + e) (m >>= f)
>>=-Within (ends t (inl kind)) f w g = (t, inl kind, refl, ground arith)
>>=-Within {d} {e} (ends t (inr a)) f (u, r, p, le) g = go (g a)
  where
    go : Within e (f a) → Within (d + e) (ends t (inr a) >>= f)
    go (v, s, q, k) = (t + v, s, ap (later t) q, ground arith)
>>=-Within never f (u, r, p, le) g = cc
