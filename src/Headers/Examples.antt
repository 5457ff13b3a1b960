-- ===== src/Headers/Examples.antt =====
-- lib/src/lib.rs: concrete header blocks that the theorems apply to.
use hyper4k.Prelude.{◌≡◌, some, [], ◌∷◌, arith, All}
use hyper4k.Headers.{HeaderRules, HeaderMap, parse_headers, encode_headers, is_ascii_whitespace}
use hyper4k.Headers.RoundTrip.{IsPlain, parse_headers-encode_headers}

-- Everything is legal.
abbrev lenient : HeaderRules
lenient = record {
  name_from_bytes = λ n. some n;
  value_from_bytes = λ v. some v;
  to_str = λ v. some v;
}

-- The same name twice.
abbrev cookies : HeaderMap
cookies = (97 ∷ [], 120 ∷ 32 ∷ 121 ∷ []) ∷ (97 ∷ [], []) ∷ []

cookies-IsPlain : All (IsPlain lenient) cookies
unfolding is_ascii_whitespace
cookies-IsPlain = ground arith

parse_headers-encode_headers_example :
    parse_headers lenient (some (encode_headers lenient cookies)) ≡ cookies
parse_headers-encode_headers_example = parse_headers-encode_headers lenient cookies cookies-IsPlain
