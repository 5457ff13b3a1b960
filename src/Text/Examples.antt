-- ===== src/Text/Examples.antt =====
-- Tests of the text functions on concrete inputs.
use hyper4k.Prelude.{◌≡◌, refl, none, some, [], ◌∷◌, codes}
use hyper4k.Headers.{strip_cr}
use hyper4k.Text.{
  between, lead, decode, from_utf8, first_line, line_of, is_whitespace, nth_word, take_while,
  drop_while, parse_u16, scan_u16, format_u16, digits,
}

-- Two bytes for U+00E9, three for U+20AC.
accents : from_utf8 (0xC3 ∷ 0xA9 ∷ 0xE2 ∷ 0x82 ∷ 0xAC ∷ []) ≡ some (0xE9 ∷ 0x20AC ∷ [])
unfolding from_utf8 decode lead between
accents = refl

-- A surrogate, an overlong form and a character cut short are no text.
surrogate : from_utf8 (0xED ∷ 0xA0 ∷ 0x80 ∷ []) ≡ none
unfolding from_utf8 decode lead between
surrogate = refl

overlong : from_utf8 (0xC0 ∷ 0x80 ∷ []) ≡ none
unfolding from_utf8 decode lead between
overlong = refl

cut_short : from_utf8 (0xE2 ∷ 0x82 ∷ []) ≡ none
unfolding from_utf8 decode lead between
cut_short = refl

status_line : first_line (codes "HTTP/1.1 200 OK\r\nVia: a\r\n") ≡ some (codes "HTTP/1.1 200 OK")
unfolding first_line line_of strip_cr
status_line = refl

second_word : nth_word 1 (codes " HTTP/1.1   407 Proxy") ≡ some (codes "407")
unfolding nth_word take_while drop_while is_whitespace between
second_word = refl

no_second_word : nth_word 1 (codes "HTTP/1.1 ") ≡ none
unfolding nth_word take_while drop_while is_whitespace between
no_second_word = refl

plus : parse_u16 (codes "+200") ≡ some 200
unfolding parse_u16 scan_u16 between
plus = refl

too_large : parse_u16 (codes "65536") ≡ none
unfolding parse_u16 scan_u16 between
too_large = refl

port : format_u16 65535 ≡ codes "65535"
unfolding format_u16 digits
port = refl
