-- ===== src/Text/Search.antt =====
-- What a search in a text finds.
use hyper4k.Prelude.{
  ◌≡◌, refl, ap, true, ==_iff, ==_refl, [], ◌∷◌, ◌++◌, arith, append_assoc, Bool-cases, inl, inr,
}
use hyper4k.Headers.{Bytes}
use hyper4k.Text.{starts_with, contains}

starts_with-append : (n r : Bytes) → starts_with n (n ++ r) ≡ true
unfolding starts_with
starts_with-append [] r = refl
starts_with-append (c ∷ n) r = rw (==_refl c) (starts_with-append n r)

pub starts_with-rest : (n h : Bytes) → starts_with n h ≡ true → (r : Bytes) × (h ≡ n ++ r)
unfolding starts_with
starts_with-rest [] h e = (h, refl)
starts_with-rest (c ∷ n) [] e = cc
starts_with-rest (c ∷ n) (d ∷ h) e =
    let (r, p) = starts_with-rest n h (ground arith) in (r, cc (p, (==_iff c d).0 (ground arith)))

-- A text holds another exactly if it can be split around it.
pub contains-split :
    (n h : Bytes) → contains n h ≡ true → (l : Bytes) × (r : Bytes) × (h ≡ l ++ (n ++ r))
unfolding contains
contains-split n [] e = let (r, p) = starts_with-rest n [] e in ([], r, p)
contains-split n (c ∷ h) e = elim (Bool-cases (starts_with n (c ∷ h))) [
  | inl now ↦ let (r, p) = starts_with-rest n (c ∷ h) now in ([], r, p)
  | inr on ↦ let (l, r, p) = contains-split n h (ground (arith, on)) in (c ∷ l, r, ap (◌∷◌ c) p)
]

pub contains_of_split : (n l r : Bytes) → contains n (l ++ (n ++ r)) ≡ true
unfolding contains starts_with
contains_of_split [] [] [] = refl
contains_of_split [] [] (d ∷ r) = refl
contains_of_split (c ∷ n) [] r = rw (starts_with-append (c ∷ n) r)
contains_of_split n (c ∷ l) r = ground (arith, contains_of_split n l r)

pub contains-append : (n a b : Bytes) → contains n a ≡ true → contains n (a ++ b) ≡ true
contains-append n a b e = go (contains-split n a e)
  where
    go : ((l : Bytes) × (r : Bytes) × (a ≡ l ++ (n ++ r))) → contains n (a ++ b) ≡ true
    go (l, r, p) =
        rw p (
          rw (append_assoc l (n ++ r) b) (rw (append_assoc n r b) (contains_of_split n l (r ++ b))))
