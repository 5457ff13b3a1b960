-- ===== src/Client/Wire/Hosts.antt =====
-- lib/src/client/handle.rs: the `Host` of a request.
use hyper4k.Prelude.{
  ℕ, suc, ◌+◌, ◌≡◌, ◌≢◌, refl, sym, ◌∙◌, Bool, true, false, ◌&&◌, if◌then◌else◌, Option, none, some,
  List, [], ◌∷◌, ◌++◌, arith, if_cases, inl, inr, append-nil, codes, ◌⊎◌, not, Yields, Yields-some,
  Yields-none,
}
use hyper4k.Headers.{Bytes}
use hyper4k.Text.{to_ascii_lowercase, between}
use hyper4k.Proxy.{Uri}
use hyper4k.Client.Setup.{Platform}
use hyper4k.Client.Requests.{RequestTemplate, validate}
use hyper4k.Client.Wire.{
  HttpRequest, host_name, is_host, saw_host, authority, headers_for, build, to_origin_form,
  wire_form,
}

-- How many `Host` entries there are.
abbrev pub hosts : List (Bytes × Bytes) → ℕ
hosts [] = 0
hosts ((n, v) ∷ headers) = if is_host n then suc (hosts headers) else hosts headers

saw_host-hosts : (headers : List (Bytes × Bytes)) → saw_host headers ≡ false → hosts headers ≡ 0
unfolding saw_host
saw_host-hosts [] e = refl
saw_host-hosts ((n, v) ∷ headers) e = ground (arith, saw_host-hosts headers)

hosts-append : (a b : List (Bytes × Bytes)) → hosts (a ++ b) ≡ hosts a + hosts b
hosts-append [] b = omega arith
hosts-append ((n, v) ∷ a) b = ground (arith, hosts-append a b)

host_name-is_host : is_host host_name ≡ true
unfolding is_host to_ascii_lowercase between
host_name-is_host = refl

-- What is built carries the template on.
pub record Carries (t : RequestTemplate) (r : HttpRequest) : Type 0 where
  pub method : r.method ≡ t.method
  pub body : r.body ≡ t.body
  pub added : List (Bytes × Bytes)
  pub headers : r.headers ≡ t.headers ++ added
  pub hosted :
      ((added ≡ []) × (saw_host t.headers ≡ true))
      ⊎ ((added ≡ (host_name, authority t) ∷ []) × (hosts r.headers ≡ 1))

headers_for-Carries :
    (t : RequestTemplate)
    → Carries t (record { method = t.method; uri = t.uri; headers = headers_for t; body = t.body })
unfolding headers_for
headers_for-Carries t = go (saw_host t.headers) refl
  where
    host : List (Bytes × Bytes)
    host = (host_name, authority t) ∷ []

    go :
        (seen : Bool)
        → saw_host t.headers ≡ seen
        → Carries t (record {
          method = t.method;
          uri = t.uri;
          headers = if seen then t.headers else t.headers ++ host;
          body = t.body;
        })
    go true e = record {
      method = refl;
      body = refl;
      added = [];
      headers = sym (append-nil t.headers);
      hosted = inl (refl, e);
    }
    go false e = record {
      method = refl;
      body = refl;
      added = host;
      headers = refl;
      hosted = inr (refl, one_host);
    }
      where
        one_host : hosts (t.headers ++ host) ≡ 1
        one_host =
            hosts-append t.headers host
            ∙ rw host_name-is_host (omega (arith, saw_host-hosts t.headers e))

build-Carries :
    (p : Platform) (t : RequestTemplate) → Yields (λ r. Carries t r × (r.uri ≡ t.uri)) (build p t)
unfolding build
build-Carries p t =
    if_cases (Yields (λ (r : HttpRequest). Carries t r × (r.uri ≡ t.uri)))
      (validate p (headers_for t))
      (λ _.
        Yields-some (λ (r : HttpRequest). Carries t r × (r.uri ≡ t.uri))
          (record { method = t.method; uri = t.uri; headers = headers_for t; body = t.body })
          (headers_for-Carries t, refl))
      (λ _. Yields-none (λ (r : HttpRequest). Carries t r × (r.uri ≡ t.uri)))

Carries-uri :
    (t : RequestTemplate) (r : HttpRequest) (u : Uri)
    → Carries t r
    → Carries t (record r { uri = u })
Carries-uri t r u c = record {
  method = c.method;
  body = c.body;
  added = c.added;
  headers = c.headers;
  hosted = c.hosted;
}

to_origin_form-Carries :
    (p : Platform) (pq : Uri → Option Bytes) (t : RequestTemplate) (r : HttpRequest)
    → Carries t r
    → Carries t (to_origin_form p pq r)
unfolding to_origin_form
to_origin_form-Carries p pq t r c =
    go (p.parse_uri (elim (pq r.uri) as (λ _. Bytes) [ none ↦ codes "/" | some s ↦ s ]))
  where
    go :
        (o : Option Uri)
        → Carries t (elim o as (λ _. HttpRequest) [ none ↦ r | some uri ↦ record r { uri = uri } ])
    go none = c
    go (some u) = Carries-uri t r u c

-- What an attempt sends has the method, the body and the headers of the call, in order, and one `Host`
-- more exactly if the call gave none. The target stays whole over HTTP/2 and towards a proxy.
pub wire_form-Carries :
    (p : Platform) (pq : Uri → Option Bytes) (t : RequestTemplate) (exclusive : Bool)
    (r : HttpRequest)
    → build p t ≡ some r
    → Carries t (wire_form p pq t exclusive r)
      × ((exclusive && not t.absolute_form) ≡ false → (wire_form p pq t exclusive r).uri ≡ t.uri)
unfolding wire_form
wire_form-Carries p pq t false r e = let c = build-Carries p t r e in (c.0, λ _. c.1)
wire_form-Carries p pq t true r e = go t.absolute_form (build-Carries p t r e)
  where
    go :
        (absolute : Bool)
        → Carries t r × (r.uri ≡ t.uri)
        → Carries t (if absolute then r else to_origin_form p pq r)
          × ((true && not absolute) ≡ false
              → (if absolute then r else to_origin_form p pq r).uri ≡ t.uri)
    go true c = (c.0, λ _. c.1)
    go false c = (to_origin_form-Carries p pq t r c.0, λ x. cc)

validate-append :
    (p : Platform) (a b : List (Bytes × Bytes))
    → validate p a ≡ true
    → validate p b ≡ true
    → validate p (a ++ b) ≡ true
unfolding validate
validate-append p [] b h k = k
validate-append p ((n, v) ∷ a) b h k = ground (arith, validate-append p a b)

-- A request that passed `validate` when it was submitted can be built in every attempt, if hyper takes
-- the authority of its URL as the value of a `Host`.
pub build_of_valid :
    (p : Platform) (t : RequestTemplate)
    → validate p t.headers ≡ true
    → p.is_header_name host_name ≡ true
    → p.is_header_value (authority t) ≡ true
    → build p t ≢ none
unfolding build headers_for validate
build_of_valid p t h n v =
    if_cases (λ (r : Option HttpRequest). r ≢ none) (validate p (headers_for t)) (λ _ e. cc)
      (λ bad e. clash (validate p (headers_for t)) bad legal)
  where
    host : List (Bytes × Bytes)
    host = (host_name, authority t) ∷ []

    legal : validate p (headers_for t) ≡ true
    legal =
        if_cases (λ l. validate p l ≡ true) (saw_host t.headers) (λ _. h)
          (λ _. validate-append p t.headers host h (ground arith))

    clash : (b : Bool) → b ≡ false → b ≡ true → ⊥
    clash b p q = cc
