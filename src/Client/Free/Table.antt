-- ===== src/Client/Free/Table.antt =====
-- Tables whose keys differ, and what holds of all their entries.
use hyper4k.Prelude.{
  ℕ, suc, ◌≡◌, ◌≢◌, refl, ap, subst, none, some, List, [], ◌∷◌, All, ◌==◌, arith, length, lookup,
  remove, lookup-remove, if◌then◌else◌, Bool, true, false, if_cases, ◌∙◌,
}

module _ {ℓ} {V : Type ℓ} where
  -- No key stands twice.
  abbrev pub Apart : List (ℕ × V) → Type ℓ
  Apart [] = Unit
  Apart ((k, v) ∷ m) = (lookup k m ≡ none) × Apart m

  pub Apart-remove : (k : ℕ) (m : List (ℕ × V)) → Apart m → Apart (remove k m)
  unfolding remove
  Apart-remove k [] a = a
  Apart-remove k ((j, v) ∷ m) a =
      let l = lookup-remove k j m in
      if_cases Apart (j == k) (λ _. Apart-remove k m a.1)
        (λ _. (let b = a.0 in ground arith, Apart-remove k m a.1))

  pub remove-absent : (k : ℕ) (m : List (ℕ × V)) → lookup k m ≡ none → remove k m ≡ m
  unfolding remove lookup
  remove-absent k [] h = refl
  remove-absent k ((j, v) ∷ m) h = let ih = remove-absent k m in ground arith

  pub length-remove :
      (k : ℕ) (m : List (ℕ × V)) (v : V)
      → Apart m
      → lookup k m ≡ some v
      → length m ≡ suc (length (remove k m))
  unfolding remove lookup
  length-remove k [] v a h = ground arith
  length-remove k ((j, w) ∷ m) v a h =
      let ih = length-remove k m v a.1 in let gone = remove-absent j m a.0 in ground arith

  pub All-lookup {κ} :
      (P : ℕ × V → Type κ) (k : ℕ) (m : List (ℕ × V)) (v : V)
      → All P m
      → lookup k m ≡ some v
      → P (k, v)
  unfolding lookup
  All-lookup P k [] v a h = ground arith
  All-lookup P k ((j, w) ∷ m) v a h = go (j == k) (same j k) (All-lookup P k m v a.1) h
    where
      same : (j k : ℕ) → (j == k) ≡ true → j ≡ k
      same j k e = ground arith

      go :
          (b : Bool)
          → (b ≡ true → j ≡ k)
          → (lookup k m ≡ some v → P (k, v))
          → (if b then some w else lookup k m) ≡ some v
          → P (k, v)
      go true e ih q =
          subst P
            (let x : j ≡ k = e refl in
              let y : w ≡ v = cc in ap (λ i. (i, w)) x ∙ ap (λ u. (k, u)) y)
            a.0
      go false e ih q = ih q

  -- What is left after a removal has other keys.
  pub All-remove {κ} :
      (P Q : ℕ × V → Type κ) (k : ℕ) (m : List (ℕ × V))
      → ((j : ℕ) (w : V) → j ≢ k → P (j, w) → Q (j, w))
      → All P m
      → All Q (remove k m)
  unfolding remove
  All-remove P Q k [] f a = tt
  All-remove P Q k ((j, w) ∷ m) f a =
      if_cases (All Q) (j == k) (λ _. All-remove P Q k m f a.1)
        (λ e. (f j w (λ s. ground arith) a.0, All-remove P Q k m f a.1))
