-- ===== src/Headers.antt =====
-- lib/src/lib.rs: the text form of headers, `Name: Value\n` for each, written for the request callback
-- and parsed from a response. Bytes are numbers. What hyper accepts as a name or a value is a
-- parameter.
pub mod Trim
pub mod RoundTrip
pub mod Examples
use mathlib.Core.List.{reverse}
use hyper4k.Prelude.{
  ℕ, Bool, true, false, ◌||◌, ◌==◌, if◌then◌else◌, Option, none, some, List, [], ◌∷◌, ◌++◌,
}

abbrev pub Bytes : Type 0
Bytes = List ℕ

-- `HeaderName::from_bytes` and `HeaderValue::from_bytes`: the stored form, if the bytes are legal.
-- `to_str` is `HeaderValue::to_str`: the text of a value, if it is visible ASCII.
pub record HeaderRules : Type 0 where
  pub name_from_bytes : Bytes → Option Bytes
  pub value_from_bytes : Bytes → Option Bytes
  pub to_str : Bytes → Option Bytes

-- A `HeaderMap` as its entries in order of insertion.
abbrev pub HeaderMap : Type 0
HeaderMap = List (Bytes × Bytes)

-- `u8::is_ascii_whitespace`: space, tab, line feed, form feed, carriage return.
unfoldable pub is_ascii_whitespace : ℕ → Bool
is_ascii_whitespace c = c == 32 || (c == 9 || (c == 10 || (c == 12 || c == 13)))

-- The first loop of `trim_ascii`.
unfoldable pub trim_start : Bytes → Bytes
trim_start [] = []
trim_start (first ∷ rest) = if is_ascii_whitespace first then trim_start rest else first ∷ rest

-- The second loop takes bytes off the end.
unfoldable pub trim_ascii : Bytes → Bytes
trim_ascii b = reverse (trim_start (reverse (trim_start b)))

-- `split` at a byte: one piece more than there are separators.
unfoldable pub split : ℕ → Bytes → Bytes → List Bytes
split sep cur [] = cur ∷ []
split sep cur (c ∷ s) = elim (c == sep) [
  | true ↦ cur ∷ split sep [] s
  | false ↦ split sep (cur ++ c ∷ []) s
]

-- `strip_suffix(b"\r")`, or the line itself.
unfoldable pub strip_cr : Bytes → Bytes
strip_cr [] = []
strip_cr (c ∷ []) = if c == 13 then [] else c ∷ []
strip_cr (c ∷ d ∷ s) = c ∷ strip_cr (d ∷ s)

-- The line before and behind its first `:`.
unfoldable pub position : Bytes → Bytes → Option (Bytes × Bytes)
position before [] = none
position before (c ∷ s) = elim (c == b':') [
  | true ↦ some (before, s)
  | false ↦ position (before ++ c ∷ []) s
]

abbrev pub is_empty : Bytes → Bool
is_empty [] = true
is_empty (_ ∷ _) = false

-- The entry of a name and a value, if both are legal.
unfoldable pub entry : HeaderRules → Bytes → Bytes → HeaderMap
entry h name value = if is_empty name then [] else elim (h.name_from_bytes name) [
  | none ↦ []
  | some n ↦ elim (h.value_from_bytes value) [ none ↦ [] | some v ↦ (n, v) ∷ [] ]
]

unfoldable pub cut_line : HeaderRules → Option (Bytes × Bytes) → HeaderMap
cut_line h none = []
cut_line h (some (name, value)) = entry h (trim_ascii name) (trim_ascii value)

-- One round of the loop: `continue` adds nothing.
unfoldable pub parse_line : HeaderRules → Bytes → HeaderMap
parse_line h raw =
    let line = strip_cr raw in if is_empty line then [] else cut_line h (position [] line)

unfoldable pub parse_lines : HeaderRules → List Bytes → HeaderMap
parse_lines h [] = []
parse_lines h (l ∷ ls) = parse_line h l ++ parse_lines h ls

-- A NULL pointer or an empty block gives an empty map.
unfoldable pub parse_headers : HeaderRules → Option Bytes → HeaderMap
parse_headers h none = []
parse_headers h (some []) = []
parse_headers h (some (c ∷ raw)) = parse_lines h (split 10 [] (c ∷ raw))

-- `header_buf` in `handle`: a value that is no text becomes empty.
unfoldable pub encode_headers : HeaderRules → HeaderMap → Bytes
encode_headers h [] = []
encode_headers h ((name, value) ∷ rest) =
    name
    ++ (b':'
        ∷ 32
        ∷ ((elim (h.to_str value) [ none ↦ [] | some v ↦ v ]) ++ (10 ∷ encode_headers h rest)))
