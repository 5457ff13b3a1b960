-- ===== src/Text.antt =====
-- What the crate uses of Rust's standard library on text: `str::from_utf8`, `lines`,
-- `split_whitespace`, `contains`, `to_ascii_lowercase`, and numbers parsed and printed as decimals.
-- Bytes and characters are numbers.
pub mod Search
pub mod Decimal
pub mod Examples
pub mod Lines
use hyper4k.Prelude.{
  ℕ, zero, suc, ◌+◌, ◌-◌, ◌*◌, ◌/◌, ◌%◌, Bool, true, false, ◌||◌, ◌&&◌, not, ltb, leb, ◌==◌,
  if◌then◌else◌, Option, none, some, List, [], ◌∷◌, ◌++◌, map, is_empty,
}
use hyper4k.Headers.{Bytes, strip_cr}

-- A `str` as its characters.
abbrev pub Text : Type 0
Text = List ℕ

unfoldable pub between : ℕ → ℕ → ℕ → Bool
between lo hi c = leb lo c && leb c hi

-- The bits that a first byte gives, with the ranges of the bytes that must follow it.
unfoldable pub lead : ℕ → Option (ℕ × List (ℕ × ℕ))
unfolding between
lead c =
    if ltb c 0x80
    then some (c, [])
    else if between 0xC2 0xDF c
    then some (c - 0xC0, (0x80, 0xBF) ∷ [])
    else if c == 0xE0
    then some (0, (0xA0, 0xBF) ∷ (0x80, 0xBF) ∷ [])
    else if c == 0xED
    then some (0xD, (0x80, 0x9F) ∷ (0x80, 0xBF) ∷ [])
    else if between 0xE1 0xEF c
    then some (c - 0xE0, (0x80, 0xBF) ∷ (0x80, 0xBF) ∷ [])
    else if c == 0xF0
    then some (0, (0x90, 0xBF) ∷ (0x80, 0xBF) ∷ (0x80, 0xBF) ∷ [])
    else if between 0xF1 0xF3 c
    then some (c - 0xF0, (0x80, 0xBF) ∷ (0x80, 0xBF) ∷ (0x80, 0xBF) ∷ [])
    else if c == 0xF4
    then some (4, (0x80, 0x8F) ∷ (0x80, 0xBF) ∷ (0x80, 0xBF) ∷ [])
    else none

abbrev pub cons_some : ℕ → Option Text → Option Text
cons_some c none = none
cons_some c (some s) = some (c ∷ s)

-- The characters of the bytes behind a first byte that gave `v` and wants `ranges`.
unfoldable pub decode : ℕ → List (ℕ × ℕ) → Bytes → Option Text
unfolding between
decode v [] [] = some []
decode v (r ∷ rs) [] = none
decode v [] (c ∷ s) = elim (lead c) [
  | none ↦ none
  | some (w, []) ↦ cons_some w (decode 0 [] s)
  | some (w, r ∷ rs) ↦ decode w (r ∷ rs) s
]
decode v ((lo, hi) ∷ rs) (c ∷ s) =
    let w = v * 64 + (c - 0x80) in
    elim (between lo hi c) [
      | false ↦ none
      | true ↦ elim rs [ [] ↦ cons_some w (decode 0 [] s) | r ∷ more ↦ decode w (r ∷ more) s ]
    ]

-- `str::from_utf8`.
unfoldable pub from_utf8 : Bytes → Option Text
from_utf8 b = decode 0 [] b

-- The text up to the first line feed, with a carriage return before it taken off.
unfoldable pub line_of : Text → Text → Text
line_of cur [] = cur
line_of cur (c ∷ s) = elim (c == 10) [ true ↦ strip_cr cur | false ↦ line_of (cur ++ c ∷ []) s ]

-- `lines().next()`.
unfoldable pub first_line : Text → Option Text
first_line [] = none
first_line (c ∷ s) = some (line_of [] (c ∷ s))

-- `char::is_whitespace`.
unfoldable pub is_whitespace : ℕ → Bool
unfolding between
is_whitespace c =
    between 9 13 c
    || (c == 0x20
        || (c == 0x85
            || (c == 0xA0
                || (c == 0x1680
                    || (between 0x2000 0x200A c
                        || (c == 0x2028
                            || (c == 0x2029 || (c == 0x202F || (c == 0x205F || c == 0x3000)))))))))

unfoldable pub drop_while : (ℕ → Bool) → Text → Text
drop_while p [] = []
drop_while p (c ∷ s) = if p c then drop_while p s else c ∷ s

unfoldable pub take_while : (ℕ → Bool) → Text → Text
take_while p [] = []
take_while p (c ∷ s) = if p c then c ∷ take_while p s else []

-- `split_whitespace().nth(n)`.
unfoldable pub nth_word : ℕ → Text → Option Text
nth_word zero s =
    let w = take_while (λ c. not (is_whitespace c)) (drop_while is_whitespace s) in
    if is_empty w then none else some w
nth_word (suc n) s =
    nth_word n (drop_while (λ c. not (is_whitespace c)) (drop_while is_whitespace s))

-- The digits of a `u16`: each step checks the multiplication and the addition.
unfoldable pub scan_u16 : ℕ → Text → Option ℕ
unfolding between
scan_u16 n [] = some n
scan_u16 n (c ∷ s) =
    if between b'0' b'9' c
    then if ltb 65535 (n * 10 + (c - b'0')) then none else scan_u16 (n * 10 + (c - b'0')) s
    else none

-- `str::parse::<u16>`: one `+` may stand in front; a sign alone is refused.
unfoldable pub parse_u16 : Text → Option ℕ
parse_u16 [] = none
parse_u16 (c ∷ []) = scan_u16 0 (c ∷ [])
parse_u16 (c ∷ d ∷ s) = if c == b'+' then scan_u16 0 (d ∷ s) else scan_u16 0 (c ∷ d ∷ s)

-- The decimal digits of a number below `10 ^ fuel`, in front of `out`.
unfoldable pub digits : ℕ → ℕ → Bytes → Bytes
digits zero n out = out
digits (suc fuel) n out =
    let rest = digits fuel (n / 10) ((b'0' + n % 10) ∷ out) in
    if ltb n 10 then (b'0' + n) ∷ out else rest

-- A `u16` as `format!` writes it: five digits are enough.
unfoldable pub format_u16 : ℕ → Bytes
format_u16 n = digits 5 n []

-- `==` on texts and on bytes.
abbrev pub bytes_eq : Bytes → Bytes → Bool
bytes_eq [] [] = true
bytes_eq (a ∷ xs) (b ∷ ys) = a == b && bytes_eq xs ys
bytes_eq _ _ = false

-- `haystack.starts_with(needle)`.
unfoldable pub starts_with : Bytes → Bytes → Bool
starts_with [] hay = true
starts_with (n ∷ needle) [] = false
starts_with (n ∷ needle) (c ∷ hay) = n == c && starts_with needle hay

-- `haystack.contains(needle)`; with four bytes to find, `windows(4).any(..)`.
unfoldable pub contains : Bytes → Bytes → Bool
contains needle [] = starts_with needle []
contains needle (c ∷ hay) = starts_with needle (c ∷ hay) || contains needle hay

unfoldable pub to_ascii_lowercase : Text → Text
unfolding between
to_ascii_lowercase s = map (λ c. if between b'A' b'Z' c then c + 32 else c) s
