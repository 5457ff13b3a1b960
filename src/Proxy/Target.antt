-- ===== src/Proxy/Target.antt =====
-- lib/src/client/proxy.rs: which proxy URLs are honoured, and the address of a proxy.
use hyper4k.Prelude.{
  bind_some, some_of_bind, ℕ, ◌<◌, ◌≡◌, ◌≢◌, refl, sym, ap, ◌∙◌, Bool, true, false, ◌||◌, ==_iff,
  not, if◌then◌else◌, Option, none, some, [], ◌∷◌, ◌++◌, is_empty, is_some, arith, codes, ◌⊎◌, inl,
  inr, All,
}
use hyper4k.Headers.{Bytes}
use hyper4k.Text.{bytes_eq, contains, format_u16, parse_u16}
use hyper4k.Text.Search.{contains_of_split}
use hyper4k.Text.Decimal.{IsDigit, format_u16-IsDigit, parse_u16-format_u16}
use hyper4k.Proxy.{Uri, ProxyTarget, of_uri, parse, is_text, unwrap_or, host_port, addr}

bytes_eq-eq : (a b : Bytes) → bytes_eq a b ≡ true → a ≡ b
bytes_eq-eq [] [] e = refl
bytes_eq-eq [] (d ∷ b) e = cc
bytes_eq-eq (c ∷ a) [] e = cc
bytes_eq-eq (c ∷ a) (d ∷ b) e = cc ((==_iff c d).0 (ground arith), bytes_eq-eq a b (ground arith))

is_text-eq : (a : Option Bytes) (b : Bytes) → is_text a b ≡ true → a ≡ some b
is_text-eq none b e = cc
is_text-eq (some a) b e = ap some (bytes_eq-eq a b e)

-- What an accepted URL is like.
pub record Honours (uri : Uri) (target : ProxyTarget) : Type 0 where
  pub scheme : uri.scheme ≡ some (codes "http")
  pub authority : Bytes
  pub has_authority : uri.authority ≡ some authority
  pub no_credentials : (user host : Bytes) → authority ≢ user ++ (b'@' ∷ [] ++ host)
  pub path : (uri.path ≡ []) ⊎ (uri.path ≡ codes "/")
  pub query : uri.query ≡ none
  pub host : uri.host ≡ some target.host
  pub port : target.port ≡ unwrap_or uri.port 80

unless_some :
    {A : Type 0} (t : Bool) (o : Option A) {a : A}
    → (if t then none else o) ≡ some a
    → (t ≡ false) × (o ≡ some a)
unless_some true o e = cc
unless_some false o e = (refl, e)

path_cases :
    (path : Bytes) (query : Option Bytes)
    → (not (is_empty path || bytes_eq path (codes "/")) || is_some query) ≡ false
    → ((path ≡ []) ⊎ (path ≡ codes "/")) × (query ≡ none)
path_cases [] none e = (inl refl, refl)
path_cases path (some q) e = ground arith
path_cases (c ∷ path) none e = (inr (bytes_eq-eq (c ∷ path) (codes "/") (ground arith)), refl)

of_uri-Honours : (uri : Uri) (target : ProxyTarget) → of_uri uri ≡ some target → Honours uri target
unfolding of_uri
of_uri-Honours uri target e =
    let (http, e1) = unless_some _ _ e in
    let (authority, has, e2) = some_of_bind uri.authority _ e1 in
    let (plain, e3) = unless_some _ _ e2 in
    let (where_to, e4) = unless_some _ _ e3 in
    let (host, named, e5) = some_of_bind uri.host _ e4 in
    record {
      scheme = is_text-eq uri.scheme (codes "http") (ground arith);
      authority = authority;
      has_authority = has;
      no_credentials = λ user rest p.
          clash (contains (b'@' ∷ []) authority) plain
            (ap (contains (b'@' ∷ [])) p ∙ contains_of_split (b'@' ∷ []) user rest);
      path = (path_cases uri.path uri.query where_to).0;
      query = (path_cases uri.path uri.query where_to).1;
      host = named ∙ ap some (ap (λ t. t.host) (built host e5));
      port = sym (ap (λ t. t.port) (built host e5));
    }
  where
    built :
        (host : Bytes)
        → some (let t : ProxyTarget = record { host = host; port = unwrap_or uri.port 80 } in t)
          ≡ some target
        → (let t : ProxyTarget = record { host = host; port = unwrap_or uri.port 80 } in t) ≡ target
    built host e = cc

    clash : (b : Bool) → b ≡ false → b ≡ true → ⊥
    clash b p q = cc

-- An accepted proxy is plain HTTP on the URL's host and port, 80 if none is given; a URL with
-- another scheme, with credentials, with a path or with a query is refused.
pub parse-Honours :
    (parse_uri : Bytes → Option Uri) (raw : Bytes) (uri : Uri) (target : ProxyTarget)
    → parse_uri raw ≡ some uri
    → parse parse_uri raw ≡ some target
    → Honours uri target
unfolding parse
parse-Honours parse_uri raw uri target p e =
    of_uri-Honours uri target (sym (ap (λ u. bind_some u of_uri) p) ∙ e)

no_colon : (l r x : Bytes) → All IsDigit x → x ≡ l ++ b':' ∷ r → ⊥
no_colon [] r [] h e = cc
no_colon [] r (c ∷ x) h e = let colon : c ≡ b':' = cc in omega (arith, colon, h.0)
no_colon (d ∷ l) r [] h e = cc
no_colon (d ∷ l) r (c ∷ x) h e = no_colon l r x h.1 (let same : x ≡ l ++ b':' ∷ r = cc in same)

-- A `:` before digits alone is the last of its text.
cut_last :
    (a b x y : Bytes)
    → All IsDigit x
    → All IsDigit y
    → a ++ b':' ∷ x ≡ b ++ b':' ∷ y
    → (a ≡ b) × (x ≡ y)
cut_last [] [] x y h k e = (refl, cc)
cut_last [] (d ∷ b) x y h k e =
    absurd (no_colon b y x h (let same : x ≡ b ++ b':' ∷ y = cc in same))
cut_last (c ∷ a) [] x y h k e =
    absurd (no_colon a x y k (let same : y ≡ a ++ b':' ∷ x = cc in same))
cut_last (c ∷ a) (d ∷ b) x y h k e =
    let (p, q) = cut_last a b x y h k (let same : a ++ b':' ∷ x ≡ b ++ b':' ∷ y = cc in same) in
    (cc (p, let same : c ≡ d = cc in same), q)

same_port : (m n : ℕ) → m < 65536 → n < 65536 → format_u16 m ≡ format_u16 n → m ≡ n
same_port m n h k e =
    let p : some m ≡ some n =
      sym (parse_u16-format_u16 m h) ∙ ap parse_u16 e ∙ parse_u16-format_u16 n k in
    cc

-- Proxies with the same address are the same: host and port can be told apart in `host:port`.
pub addr-injective : (p q : ProxyTarget) → p.port < 65536 → q.port < 65536 → addr p ≡ addr q → p ≡ q
unfolding addr host_port
addr-injective p q h k e =
    let (a, b) =
      cut_last p.host q.host (format_u16 p.port) (format_u16 q.port) (format_u16-IsDigit p.port)
        (format_u16-IsDigit q.port) e in
    let c = same_port p.port q.port h k b in cc
