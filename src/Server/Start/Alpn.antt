-- ===== src/Server/Start/Alpn.antt =====
-- lib/src/lib.rs: the ALPN list of a server.
use mathlib.Core.List.{reverse, reverse-append, reverse-reverse, reverse-cons}
use hyper4k.Prelude.{
  ◌≡◌, refl, sym, ap, ◌∙◌, subst, true, false, if◌then◌else◌, List, [], ◌∷◌, ◌++◌, map, is_empty,
  append-nil, arith, All,
}
use hyper4k.Headers.{split}
use hyper4k.Headers.RoundTrip.{Lacks, split-append, split_of_Lacks}
use hyper4k.Text.{Text, between, is_whitespace, drop_while}
use hyper4k.Server.Start.{trim, keep, alpn_list}

abbrev pub IsSpace : Text → Type 0
IsSpace = All (λ c. is_whitespace c ≡ true)

abbrev pub IsTight : Text → Type 0
IsTight [] = ⊥
IsTight (c ∷ s) = is_whitespace c ≡ false

abbrev pub HasNoComma : Text → Type 0
HasNoComma = Lacks b','

-- A protocol in a list, with white space around it.
pub record Item : Type 0 where
  pub before : Text
  pub protocol : Text
  pub after : Text

pub record IsItem (i : Item) : Type 0 where
  pub spaces_before : IsSpace i.before
  pub spaces_after : IsSpace i.after
  pub tight_start : IsTight i.protocol
  pub tight_end : IsTight (reverse i.protocol)
  pub no_comma : HasNoComma i.protocol

abbrev pub padded : Item → Text
padded i = i.before ++ (i.protocol ++ i.after)

abbrev pub comma_list : List Item → Text
comma_list [] = []
comma_list (i ∷ []) = padded i
comma_list (i ∷ j ∷ is) = padded i ++ b',' ∷ comma_list (j ∷ is)

drop_while-spaces :
    (a b : Text) → IsSpace a → drop_while is_whitespace (a ++ b) ≡ drop_while is_whitespace b
unfolding drop_while
drop_while-spaces [] b h = refl
drop_while-spaces (c ∷ a) b h = rw h.0 (drop_while-spaces a b h.1)

drop_while-tight : (a b : Text) → IsTight a → drop_while is_whitespace (a ++ b) ≡ a ++ b
unfolding drop_while
drop_while-tight [] b h = absurd h
drop_while-tight (c ∷ a) b h = rw h

IsSpace-append : (a b : Text) → IsSpace a → IsSpace b → IsSpace (a ++ b)
IsSpace-append [] b h k = k
IsSpace-append (c ∷ a) b h k = (h.0, IsSpace-append a b h.1 k)

IsSpace-reverse : (a : Text) → IsSpace a → IsSpace (reverse a)
IsSpace-reverse [] h = tt
IsSpace-reverse (c ∷ a) h =
    subst IsSpace (sym (reverse-cons c a))
      (IsSpace-append (reverse a) (c ∷ []) (IsSpace-reverse a h.1) (h.0, tt))

trim-padded : (i : Item) → IsItem i → trim (padded i) ≡ i.protocol
unfolding trim
trim-padded i v =
    ap (λ s. reverse (drop_while is_whitespace (reverse s)))
      (drop_while-spaces i.before (i.protocol ++ i.after) v.spaces_before
        ∙ drop_while-tight i.protocol i.after v.tight_start)
    ∙ ap (λ s. reverse (drop_while is_whitespace s)) (reverse-append i.protocol i.after)
    ∙ ap reverse (
        drop_while-spaces (reverse i.after) (reverse i.protocol)
          (IsSpace-reverse i.after v.spaces_after)
        ∙ ap (drop_while is_whitespace) (sym (append-nil (reverse i.protocol)))
        ∙ drop_while-tight (reverse i.protocol) [] v.tight_end
        ∙ append-nil (reverse i.protocol))
    ∙ reverse-reverse i.protocol

split-first : (s t : Text) → HasNoComma s → split b',' [] (s ++ b',' ∷ t) ≡ s ∷ split b',' [] t
split-first s t h =
    split-append b',' s t [] ∙ ap (λ l. l ++ split b',' [] t) (split_of_Lacks b',' s [] h)

HasNoComma-append : (a b : Text) → HasNoComma a → HasNoComma b → HasNoComma (a ++ b)
HasNoComma-append [] b h k = k
HasNoComma-append (c ∷ a) b h k = (h.0, HasNoComma-append a b h.1 k)

IsSpace-HasNoComma : (a : Text) → IsSpace a → HasNoComma a
unfolding is_whitespace between
IsSpace-HasNoComma [] h = tt
IsSpace-HasNoComma (c ∷ a) h = (ground arith, IsSpace-HasNoComma a h.1)

padded-HasNoComma : (i : Item) → IsItem i → HasNoComma (padded i)
padded-HasNoComma i v =
    HasNoComma-append i.before (i.protocol ++ i.after) (IsSpace-HasNoComma i.before v.spaces_before)
      (HasNoComma-append i.protocol i.after v.no_comma (IsSpace-HasNoComma i.after v.spaces_after))

keep-item : (i : Item) (ps : List Text) → IsItem i → keep (i.protocol ∷ ps) ≡ i.protocol ∷ keep ps
unfolding keep
keep-item i ps v = go i.protocol v.tight_start
  where
    go : (p : Text) → IsTight p → (if is_empty p then keep ps else p ∷ keep ps) ≡ p ∷ keep ps
    go [] t = absurd t
    go (c ∷ p) t = refl

keep-nil : keep [] ≡ []
unfolding keep
keep-nil = refl

-- A server offers the protocols of its comma-separated list in their order, whatever white space
-- stands around them; an empty list offers none.
pub alpn_list-comma_list :
    (items : List Item)
    → All IsItem items
    → alpn_list (comma_list items) ≡ map (λ i. i.protocol) items
unfolding alpn_list split trim keep drop_while
alpn_list-comma_list [] h = refl
alpn_list-comma_list (i ∷ []) h =
    ap (λ l. keep (map trim l)) (split_of_Lacks b',' (padded i) [] (padded-HasNoComma i h.0))
    ∙ ap (λ p. keep (p ∷ [])) (trim-padded i h.0)
    ∙ keep-item i [] h.0
    ∙ ap (◌∷◌ i.protocol) keep-nil
alpn_list-comma_list (i ∷ j ∷ is) h =
    ap (λ l. keep (map trim l))
      (split-first (padded i) (comma_list (j ∷ is)) (padded-HasNoComma i h.0))
    ∙ ap (λ p. keep (p ∷ map trim (split b',' [] (comma_list (j ∷ is))))) (trim-padded i h.0)
    ∙ keep-item i (map trim (split b',' [] (comma_list (j ∷ is)))) h.0
    ∙ ap (◌∷◌ i.protocol) (alpn_list-comma_list (j ∷ is) h.1)
