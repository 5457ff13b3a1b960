-- ===== src/Text/Lines.antt =====
-- The first line of a text does not depend on what follows it, and ASCII bytes are their characters.
use hyper4k.Prelude.{◌<◌, ◌≡◌, refl, ap, some, [], ◌∷◌, ◌++◌, arith, All}
use hyper4k.Headers.{Bytes}
use hyper4k.Text.{Text, lead, decode, from_utf8, line_of, first_line}

abbrev pub IsAscii : Bytes → Type 0
IsAscii = All (λ c. c < 128)

pub IsAscii-of_append : (a b : Bytes) → IsAscii (a ++ b) → IsAscii a
IsAscii-of_append [] b h = tt
IsAscii-of_append (c ∷ a) b h = (h.0, IsAscii-of_append a b h.1)

decode-ascii : (s : Bytes) → IsAscii s → decode 0 [] s ≡ some s
unfolding decode lead
decode-ascii [] h = refl
decode-ascii (c ∷ s) h = ground (arith, decode-ascii s h.1)

pub from_utf8-ascii : (s : Bytes) → IsAscii s → from_utf8 s ≡ some s
unfolding from_utf8
from_utf8-ascii s h = decode-ascii s h

line_of-append : (cur l r t : Text) → line_of cur (l ++ 10 ∷ r ++ t) ≡ line_of cur (l ++ 10 ∷ r)
unfolding line_of
line_of-append cur [] r t = refl
line_of-append cur (c ∷ l) r t = ground (arith, line_of-append (cur ++ c ∷ []) l r t)

pub first_line-append : (l r t : Text) → first_line (l ++ 10 ∷ r ++ t) ≡ first_line (l ++ 10 ∷ r)
unfolding first_line line_of
first_line-append [] r t = refl
first_line-append (c ∷ l) r t = ap some (line_of-append [] (c ∷ l) r t)
