-- ===== src/Options/Prefix.antt =====
-- lib/src/client/mod.rs: writing and reading a prefix of a struct.
use hyper4k.Prelude.{
  ℕ, zero, suc, ◌/◌, ◌^◌, ◌≤◌, ◌<◌, min, ◌≡◌, refl, sym, ap, subst, ◌∙◌, some, [], ◌∷◌, ◌++◌, arith,
  take, drop, length, length-append, length-take, length-drop,
}
use hyper4k.Abi.{status_ok}
use hyper4k.Options.{
  Bytes, le, of_le, options_bytes, read_options, options_min_size, options_size, init_prefix,
  default_options, hyper4k_client_options_init, copy_prefix, caller_options,
}

of_le-le : (w n : ℕ) → n < 256 ^ w → of_le (le w n) ≡ n
unfolding of_le le
of_le-le zero n h = omega arith
of_le-le (suc w) n h = let ih = of_le-le w (n / 256) (omega arith) in omega arith

take-append : (n : ℕ) (xs ys : Bytes) → length xs ≡ n → take n (xs ++ ys) ≡ xs
take-append zero [] ys h = refl
take-append zero (x ∷ xs) ys h = absurd (omega arith)
take-append (suc n) [] ys h = absurd (omega arith)
take-append (suc n) (x ∷ xs) ys h = ap (◌∷◌ x) (take-append n xs ys (omega arith))

drop-append : (n : ℕ) (xs ys : Bytes) → length xs ≡ n → drop n (xs ++ ys) ≡ ys
drop-append zero [] ys h = refl
drop-append zero (x ∷ xs) ys h = absurd (omega arith)
drop-append (suc n) [] ys h = absurd (omega arith)
drop-append (suc n) (x ∷ xs) ys h = drop-append n xs ys (omega arith)

take-drop : (n : ℕ) (xs : Bytes) → take n xs ++ drop n xs ≡ xs
take-drop zero xs = refl
take-drop (suc n) [] = refl
take-drop (suc n) (x ∷ xs) = ap (◌∷◌ x) (take-drop n xs)

-- Two structs that agree from byte `m` on agree from any later byte on.
drop-agrees :
    (m n : ℕ) (xs ys : Bytes)
    → m ≤ n
    → drop m xs ≡ drop m ys
    → length xs ≡ length ys
    → drop n xs ≡ drop n ys
drop-agrees zero n xs ys h e l = ap (drop n) e
drop-agrees (suc m) zero xs ys h e l = absurd (omega arith)
drop-agrees (suc m) (suc n) [] [] h e l = refl
drop-agrees (suc m) (suc n) [] (y ∷ ys) h e l = absurd (omega arith)
drop-agrees (suc m) (suc n) (x ∷ xs) [] h e l = absurd (omega arith)
drop-agrees (suc m) (suc n) (x ∷ xs) (y ∷ ys) h e l =
    drop-agrees m n xs ys (omega arith) e (omega arith)

-- A struct is initialised within the caller's allocation: the size of the memory stays, no byte from
-- `struct_size` on is touched, nor any from the struct's own size on, and the bytes before are the
-- defaults'.
pub init_prefix-writes :
    (mem : Bytes) (struct_size min_size : ℕ) (defaults : Bytes)
    → min_size ≤ struct_size
    → struct_size ≤ length mem
    → (out : Bytes) × (init_prefix (some mem) struct_size min_size defaults ≡ (some out, status_ok))
      × (length out ≡ length mem)
      × (drop (min struct_size (length defaults)) out
          ≡ drop (min struct_size (length defaults)) mem)
      × (take (min struct_size (length defaults)) out
          ≡ take (min struct_size (length defaults)) defaults)
unfolding init_prefix
init_prefix-writes mem struct_size min_size defaults large fits = (
  take n defaults ++ drop n mem,
  ground arith,
  ground (
    arith,
    length-append (take n defaults) (drop n mem),
    length-take n defaults,
    length-drop n mem,
  ),
  drop-append n (take n defaults) (drop n mem) size,
  take-append n (take n defaults) (drop n mem) size,
)
  where
    n : ℕ
    n = min struct_size (length defaults)

    size : length (take n defaults) ≡ n
    size = ground (arith, length-take n defaults)

length-options_bytes : (s : ℕ) → length (options_bytes (default_options s)) ≡ 88
unfolding options_bytes le default_options
length-options_bytes s = refl

-- The defaults for two sizes differ in the size field only.
options_bytes-agree :
    (s t : ℕ)
    → drop 8 (options_bytes (default_options s)) ≡ drop 8 (options_bytes (default_options t))
unfolding options_bytes le default_options
options_bytes-agree s t = refl

read_options-options_bytes :
    (s : ℕ) → s < 2 ^ 32 → read_options (options_bytes (default_options s)) ≡ default_options s
unfolding read_options options_bytes default_options le of_le
read_options-options_bytes s h =
    ap (λ n. record (default_options s) { struct_size = n }) (unfold le of_le in of_le-le 4 s h)

copy_prefix-stitches :
    (s m : ℕ) (d d₀ out : Bytes)
    → length d ≡ length d₀
    → m ≤ min s (length d)
    → drop m d ≡ drop m d₀
    → take (min s (length d)) out ≡ take (min s (length d)) d
    → copy_prefix out s d₀ ≡ d
unfolding copy_prefix
copy_prefix-stitches s m d d₀ out size far agree same =
    subst (λ k. take k out ++ drop k d₀ ≡ d) (ap (min s) size)
      (ap (λ x. x ++ drop n d₀) same
        ∙ ap (◌++◌ (take n d)) (sym (drop-agrees m n d d₀ far agree size))
        ∙ take-drop n d)
  where
    n : ℕ
    n = min s (length d)

-- An options struct of any accepted size that `hyper4k_client_options_init` has filled is read back
-- by the library as this build's defaults with the caller's size, fields beyond the caller's struct
-- included.
pub options_init-read_back :
    (mem : Bytes) (struct_size : ℕ)
    → 16 ≤ struct_size
    → struct_size < 2 ^ 32
    → struct_size ≤ length mem
    → (out : Bytes) × (hyper4k_client_options_init (some mem) struct_size ≡ (some out, status_ok))
      × (caller_options out struct_size ≡ default_options struct_size)
unfolding hyper4k_client_options_init caller_options
options_init-read_back mem s large narrow fits =
    let (out, done, size, rest, same) =
      init_prefix-writes mem s options_min_size (options_bytes (default_options s)) large fits in
    let d = options_bytes (default_options s) in
    let stitched : copy_prefix out s (options_bytes (default_options options_size)) ≡ d =
      copy_prefix-stitches s 8 d (options_bytes (default_options options_size)) out
        (length-options_bytes s ∙ sym (length-options_bytes options_size))
        (let k = length-options_bytes s in omega arith) (options_bytes-agree s options_size) same in
    (out, done, ap read_options stitched ∙ read_options-options_bytes s narrow)
