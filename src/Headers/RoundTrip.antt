-- ===== src/Headers/RoundTrip.antt =====
-- lib/src/lib.rs: `parse_headers` line by line, and as the inverse of `header_buf`.
use mathlib.Core.List.{reverse, reverse-cons, reverse-reverse}
use hyper4k.Prelude.{
  ℕ, ◌≡◌, refl, sym, ap, subst, ◌∙◌, false, some, List, [], ◌∷◌, ◌++◌, arith, append-nil,
  append_assoc, All, ◌==◌, ==_refl,
}
use hyper4k.Headers.{
  Bytes, HeaderRules, HeaderMap, trim_ascii, is_ascii_whitespace, trim_start, split, strip_cr,
  position, is_empty, entry, cut_line, parse_line, parse_lines, parse_headers, encode_headers,
}
use hyper4k.Headers.Trim.{IsTight, trim_ascii_of_IsTight}

abbrev pub Lacks : ℕ → Bytes → Type 0
Lacks sep = All (λ c. (c == sep) ≡ false)

pub split-append :
    (sep : ℕ) (xs ys cur : Bytes)
    → split sep cur (xs ++ sep ∷ ys) ≡ split sep cur xs ++ split sep [] ys
unfolding split
split-append sep [] ys cur = ground (arith, ==_refl sep)
split-append sep (c ∷ xs) ys cur =
    ground (arith, split-append sep xs ys [], split-append sep xs ys (cur ++ c ∷ []))

pub split_of_Lacks : (sep : ℕ) (xs cur : Bytes) → Lacks sep xs → split sep cur xs ≡ (cur ++ xs) ∷ []
unfolding split
split_of_Lacks sep [] cur h = rw append-nil
split_of_Lacks sep (c ∷ xs) cur h =
    ground (arith, split_of_Lacks sep xs (cur ++ c ∷ []), append_assoc cur (c ∷ []) xs)

module _ (h : HeaderRules) where
  parse_lines-append :
      (ls ms : List Bytes) → parse_lines h (ls ++ ms) ≡ parse_lines h ls ++ parse_lines h ms
  unfolding parse_lines
  parse_lines-append [] ms = refl
  parse_lines-append (l ∷ ls) ms =
      rw (parse_lines-append ls ms)
        (sym (append_assoc (parse_line h l) (parse_lines h ls) (parse_lines h ms)))

  parse_headers-eq : (s : Bytes) → parse_headers h (some s) ≡ parse_lines h (split 10 [] s)
  unfolding parse_headers
  parse_headers-eq [] = unfold parse_lines split parse_line strip_cr in refl
  parse_headers-eq (c ∷ s) = refl

-- A block is parsed line by line: what stands before a line feed and what stands behind it do not
-- influence each other, so a malformed line costs its own entry only.
pub parse_headers-append :
    (h : HeaderRules) (xs ys : Bytes)
    → parse_headers h (some (xs ++ 10 ∷ ys))
      ≡ parse_headers h (some xs) ++ parse_headers h (some ys)
parse_headers-append h xs ys =
    parse_headers-eq h (xs ++ 10 ∷ ys)
    ∙ ap (parse_lines h) (split-append 10 xs ys [])
    ∙ parse_lines-append h (split 10 [] xs) (split 10 [] ys)
    ∙ rw (parse_headers-eq h xs, parse_headers-eq h ys)

-- A line as `handle` writes it, without the line feed.
abbrev line_of : Bytes → Bytes → Bytes
line_of name value = name ++ (b':' ∷ 32 ∷ value)

strip_cr_keeps :
    (xs : Bytes) (c : ℕ) (ys : Bytes)
    → strip_cr (c ∷ ys) ≡ c ∷ ys
    → strip_cr (xs ++ c ∷ ys) ≡ xs ++ c ∷ ys
unfolding strip_cr
strip_cr_keeps [] c ys e = e
strip_cr_keeps (x ∷ []) c ys e = ap (◌∷◌ x) e
strip_cr_keeps (x ∷ y ∷ xs) c ys e = ap (◌∷◌ x) (strip_cr_keeps (y ∷ xs) c ys e)

-- A value with no white space at its end does not end in a carriage return.
strip_cr_value : (v : Bytes) → IsTight (reverse v) → strip_cr (32 ∷ v) ≡ 32 ∷ v
strip_cr_value v t = go (reverse v) refl t
  where
    last : (c : ℕ) → is_ascii_whitespace c ≡ false → strip_cr (c ∷ []) ≡ c ∷ []
    last c k = unfold strip_cr is_ascii_whitespace in ground arith

    go : (w : Bytes) → reverse v ≡ w → IsTight w → strip_cr (32 ∷ v) ≡ 32 ∷ v
    go [] e k =
        let empty : v ≡ [] = sym (reverse-reverse v) ∙ ap reverse e in
        subst (λ u. strip_cr (32 ∷ u) ≡ 32 ∷ u) (sym empty) (unfold strip_cr in refl)
    go (c ∷ w) e k =
        let snoc : v ≡ reverse w ++ c ∷ [] =
          sym (reverse-reverse v) ∙ ap reverse e ∙ reverse-cons c w in
        subst (λ u. strip_cr (32 ∷ u) ≡ 32 ∷ u) (sym snoc)
          (strip_cr_keeps (32 ∷ reverse w) c [] (last c k))

position-append :
    (xs ys before : Bytes)
    → Lacks b':' xs
    → position before (xs ++ b':' ∷ ys) ≡ some (before ++ xs, ys)
unfolding position
position-append [] ys before h = rw append-nil
position-append (c ∷ xs) ys before h =
    ground (arith, position-append xs ys (before ++ c ∷ []), append_assoc before (c ∷ []) xs)

-- A header that goes through the text form unchanged: the name has no `:`, neither part has a line
-- feed or white space at an end, and both are stored as they are written.
pub record IsPlain (h : HeaderRules) (e : Bytes × Bytes) : Type 0 where
  pub named : is_empty e.0 ≡ false
  pub no_colon : Lacks b':' e.0
  pub no_feed_name : Lacks 10 e.0
  pub no_feed_value : Lacks 10 e.1
  pub name_start : IsTight e.0
  pub name_end : IsTight (reverse e.0)
  pub value_start : IsTight e.1
  pub value_end : IsTight (reverse e.1)
  pub name_kept : h.name_from_bytes e.0 ≡ some e.0
  pub value_kept : h.value_from_bytes e.1 ≡ some e.1
  pub is_text : h.to_str e.1 ≡ some e.1

module _ (h : HeaderRules) where
  entry_of : (e : Bytes × Bytes) → IsPlain h e → entry h e.0 e.1 ≡ e ∷ []
  unfolding entry
  entry_of e p = ground arith

  parse_line_of : (e : Bytes × Bytes) → IsPlain h e → parse_line h (line_of e.0 e.1) ≡ e ∷ []
  unfolding parse_line
  parse_line_of e p =
      rw (stripped e p)
        (rw (position-append e.0 (32 ∷ e.1) [] p.no_colon) (rw (nonempty e.0) (cut e p)))
    where
      stripped : (e : Bytes × Bytes) → IsPlain h e → strip_cr (line_of e.0 e.1) ≡ line_of e.0 e.1
      stripped e p =
          strip_cr_keeps e.0 b':' (32 ∷ e.1)
            (unfold strip_cr in ap (◌∷◌ b':') (strip_cr_value e.1 p.value_end))

      nonempty : (xs : Bytes) → is_empty (xs ++ (b':' ∷ 32 ∷ e.1)) ≡ false
      nonempty [] = refl
      nonempty (x ∷ xs) = refl

      spaced : (v : Bytes) → trim_ascii (32 ∷ v) ≡ trim_ascii v
      spaced v = unfold trim_ascii trim_start is_ascii_whitespace in refl

      cut : (e : Bytes × Bytes) → IsPlain h e → cut_line h (some (e.0, 32 ∷ e.1)) ≡ e ∷ []
      cut e p =
          unfold cut_line in
          rw
            (
              spaced e.1,
              trim_ascii_of_IsTight e.0 p.name_start p.name_end,
              trim_ascii_of_IsTight e.1 p.value_start p.value_end,
            )
            (entry_of e p)

Lacks-append : (sep : ℕ) (xs ys : Bytes) → Lacks sep xs → Lacks sep ys → Lacks sep (xs ++ ys)
Lacks-append sep [] ys k l = l
Lacks-append sep (x ∷ xs) ys k l = (k.0, Lacks-append sep xs ys k.1 l)

encode_headers-cons :
    (h : HeaderRules) (e : Bytes × Bytes) (m : HeaderMap)
    → IsPlain h e
    → encode_headers h (e ∷ m) ≡ line_of e.0 e.1 ++ 10 ∷ encode_headers h m
unfolding encode_headers
encode_headers-cons h e m p =
    ground (arith, append_assoc e.0 (b':' ∷ 32 ∷ e.1) (10 ∷ encode_headers h m))

parse_headers-line :
    (h : HeaderRules) (e : Bytes × Bytes)
    → IsPlain h e
    → parse_headers h (some (line_of e.0 e.1)) ≡ e ∷ []
parse_headers-line h e p =
    parse_headers-eq h (line_of e.0 e.1)
    ∙ ap (parse_lines h) (split_of_Lacks 10 (line_of e.0 e.1) [] lacks)
    ∙ unfold parse_lines in (append-nil (parse_line h (line_of e.0 e.1)) ∙ parse_line_of h e p)
  where
    lacks : Lacks 10 (line_of e.0 e.1)
    lacks = Lacks-append 10 e.0 (b':' ∷ 32 ∷ e.1) p.no_feed_name (refl, (refl, p.no_feed_value))

-- The text that `handle` writes for headers which the text form can carry is parsed back to the same
-- headers in the same order, a repeated name included.
pub parse_headers-encode_headers :
    (h : HeaderRules) (m : HeaderMap)
    → All (IsPlain h) m
    → parse_headers h (some (encode_headers h m)) ≡ m
parse_headers-encode_headers h [] p = unfold parse_headers encode_headers in refl
parse_headers-encode_headers h (e ∷ m) (p, ps) =
    ap (λ s. parse_headers h (some s)) (encode_headers-cons h e m p)
    ∙ parse_headers-append h (line_of e.0 e.1) (encode_headers h m)
    ∙ rw (parse_headers-line h e p, parse_headers-encode_headers h m ps)
