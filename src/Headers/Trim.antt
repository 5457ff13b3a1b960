-- ===== src/Headers/Trim.antt =====
-- lib/src/lib.rs: `trim_ascii`.
use mathlib.Core.List.{reverse, reverse-append, reverse-reverse, reverse-cons}
use hyper4k.Prelude.{
  ◌≡◌, refl, sym, ap, subst, ◌∙◌, Bool, true, false, [], ◌∷◌, ◌++◌, arith, append_assoc, All,
  if◌then◌else◌,
}
use hyper4k.Headers.{Bytes, is_ascii_whitespace, trim_start, trim_ascii}

abbrev pub IsSpace : Bytes → Type 0
IsSpace = All (λ c. is_ascii_whitespace c ≡ true)

-- Empty, or with a first byte that is no space.
abbrev pub IsTight : Bytes → Type 0
IsTight [] = Unit {0}
IsTight (c ∷ s) = is_ascii_whitespace c ≡ false

trim_start-IsTight : (b : Bytes) → IsTight (trim_start b)
unfolding trim_start
trim_start-IsTight [] = tt
trim_start-IsTight (c ∷ s) = ground (arith, trim_start-IsTight s)

pub trim_start_of_IsTight : (b : Bytes) → IsTight b → trim_start b ≡ b
unfolding trim_start
trim_start_of_IsTight [] t = refl
trim_start_of_IsTight (c ∷ s) t = rw t

trim_start_split : (b : Bytes) → (l : Bytes) × IsSpace l × (b ≡ l ++ trim_start b)
unfolding trim_start
trim_start_split [] = ([], tt, refl)
trim_start_split (c ∷ s) = go (is_ascii_whitespace c) refl (trim_start_split s)
  where
    go :
        (k : Bool)
        → is_ascii_whitespace c ≡ k
        → ((l : Bytes) × IsSpace l × (s ≡ l ++ trim_start s))
        → (l : Bytes) × IsSpace l × (c ∷ s ≡ l ++ (if k then trim_start s else c ∷ s))
    go true e (l, h, p) = (c ∷ l, (e, h), ap (◌∷◌ c) p)
    go false e _ = ([], tt, refl)

IsSpace-append : (xs ys : Bytes) → IsSpace xs → IsSpace ys → IsSpace (xs ++ ys)
IsSpace-append [] ys h k = k
IsSpace-append (x ∷ xs) ys h k = (h.0, IsSpace-append xs ys h.1 k)

IsSpace-reverse : (xs : Bytes) → IsSpace xs → IsSpace (reverse xs)
IsSpace-reverse [] h = tt
IsSpace-reverse (x ∷ xs) h =
    subst IsSpace (sym (reverse-cons x xs))
      (IsSpace-append (reverse xs) (x ∷ []) (IsSpace-reverse xs h.1) (h.0, tt))

IsTight-of_append : (xs ys : Bytes) → IsTight (xs ++ ys) → IsTight xs
IsTight-of_append [] ys t = tt
IsTight-of_append (x ∷ xs) ys t = t

-- What stands between the spaces at both ends of a text.
pub record Trims (b t : Bytes) : Type 0 where
  pub before : Bytes
  pub after : Bytes
  pub whole : b ≡ before ++ t ++ after
  pub spaces_before : IsSpace before
  pub spaces_after : IsSpace after
  pub tight_start : IsTight t
  pub tight_end : IsTight (reverse t)

-- `trim_ascii` takes white space off both ends and nothing else, and leaves none there.
pub trim_ascii-Trims : (b : Bytes) → Trims b (trim_ascii b)
unfolding trim_ascii
trim_ascii-Trims b = go (trim_start_split b) (trim_start_split (reverse (trim_start b)))
  where
    u : Bytes
    u = trim_start b

    t : Bytes
    t = reverse (trim_start (reverse u))

    go :
        ((l : Bytes) × IsSpace l × (b ≡ l ++ u))
        → ((r : Bytes) × IsSpace r × (reverse u ≡ r ++ trim_start (reverse u)))
        → Trims b t
    go (l, hl, p) (r, hr, q) = record {
      before = l;
      after = reverse r;
      whole = p ∙ ap (◌++◌ l) split_end ∙ sym (append_assoc l t (reverse r));
      spaces_before = hl;
      spaces_after = IsSpace-reverse r hr;
      tight_start =
          IsTight-of_append t (reverse r) (subst IsTight split_end (trim_start-IsTight b));
      tight_end = subst IsTight (sym (reverse-reverse _)) (trim_start-IsTight (reverse u));
    }
      where
        split_end : u ≡ t ++ reverse r
        split_end =
            sym (reverse-reverse u) ∙ ap reverse q ∙ reverse-append r (trim_start (reverse u))

-- A text with no white space at its ends is left as it is.
pub trim_ascii_of_IsTight : (b : Bytes) → IsTight b → IsTight (reverse b) → trim_ascii b ≡ b
unfolding trim_ascii
trim_ascii_of_IsTight b t e =
    rw (trim_start_of_IsTight b t) (rw (trim_start_of_IsTight (reverse b) e) (reverse-reverse b))
