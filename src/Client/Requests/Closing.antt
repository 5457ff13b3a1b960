-- ===== src/Client/Requests/Closing.antt =====
-- lib/src/client/handle.rs: what `hyper4k_client_new` accepts, and what `hyper4k_client_close` does.
use hyper4k.Prelude.{
  is_some, ℕ, ◌%◌, ◌/◌, ◌<◌, ◌≡◌, refl, sym, ap, subst, Bool, true, false, not, ◌||◌, Option, none,
  some, [], arith, ◌==◌, lookup, inl, inr, ◌⊎◌, if◌then◌else◌, int_eq, ◌≢◌,
}
use hyper4k.Abi.{Hyper4kErrorKind, err_tls_ca, status_ok}
use hyper4k.Options.{Bytes, Hyper4kClientOptions, caller_options, field}
use hyper4k.Bridge.State.{Slot, is_terminal}
use hyper4k.Client.Limits.{Limits, new}
use hyper4k.Proxy.{ProxyTarget}
use hyper4k.Tls.{ClientConfig, build_tls_config}
use hyper4k.Connectors.{TlsClientConnector, connector_with, connector_of, new_tls}
use hyper4k.Client.Setup.{
  tls_options, check_tls, tls_pool_of, Platform, Client, check_proxy, build_client,
  hyper4k_client_new,
}
use hyper4k.Client.Requests.{Submitted}
use hyper4k.Client.Requests.Submission.{Checked, require-Checked, require_some-Checked, invalid}

abbrev pub AllSettled : Client → Type 0
AllSettled c = (id : ℕ) (s : Slot) → lookup id c.requests ≡ some s → is_terminal s.state ≡ true

-- The request has been registered, and nobody has settled it.
abbrev pub IsLeftRunning : Submitted → Type 0
IsLeftRunning s =
    (id : ℕ) × (s.out_request_id ≡ some id)
    × (slot : Slot) × (lookup id s.client.requests ≡ some slot)
    × (is_terminal slot.state ≡ false)

abbrev Fine : Submitted → Type 0
Fine s = (s.status ≢ status_ok) ⊎ IsLeftRunning s

-- The TLS connector of the options, with a configuration that could be built.
abbrev pub IsBuilt :
    Platform → Hyper4kClientOptions → Option ProxyTarget → TlsClientConnector → Type 0
IsBuilt p o proxy t =
    (config : ClientConfig) × (build_tls_config p.certificates (tls_options p o proxy) ≡ inr config)
    × (t ≡ connector_with (tls_options p o proxy) config)

-- What the options of an accepted client say about it.
pub record Follows (p : Platform) (o : Hyper4kClientOptions) (c : Client) : Type 0 where
  pub known_flags : o.flags < 4
  pub h2 : c.h2_required ≡ (o.flags % 2 == 1)
  pub proxied : ((o.proxy_url == 0) || (o.proxy_url_len == 0)) ≡ false → c.via_proxy ≡ true
  pub direct : ((o.proxy_url == 0) || (o.proxy_url_len == 0)) ≡ true → c.via_proxy ≡ false
  pub pooled : is_some c.pool.proxy ≡ c.via_proxy
  pub tls : (t : TlsClientConnector) → c.tls_pool ≡ some t → IsBuilt p o c.pool.proxy t
  pub live : c.closed ≡ false
  pub fresh : (c.requests ≡ []) × (c.bridges ≡ 0) × (c.limits.inflight ≡ 0) × (c.limits.bytes ≡ 0)

check_proxy-proxied :
    (p : Platform) (o : Hyper4kClientOptions) (b : Option ProxyTarget)
    → check_proxy p o ≡ some b
    → ((o.proxy_url == 0) || (o.proxy_url_len == 0)) ≡ not (is_some b)
unfolding check_proxy
check_proxy-proxied p o b h = ground arith

check_tls-IsBuilt :
    (p : Platform) (o : Hyper4kClientOptions) (proxy : Option ProxyTarget)
    (pool : Option TlsClientConnector) (t : TlsClientConnector)
    → check_tls p o proxy ≡ some pool
    → pool ≡ some t
    → IsBuilt p o proxy t
unfolding check_tls new_tls
check_tls-IsBuilt p o proxy pool t h e =
    go (build_tls_config p.certificates (tls_options p o proxy)) refl h
  where
    none_of : (b : Bool) → (if b then none else some none) ≡ some pool → pool ≡ none
    none_of true q = cc
    none_of false q = cc

    go :
        (r : Hyper4kErrorKind ⊎ ClientConfig)
        → build_tls_config p.certificates (tls_options p o proxy) ≡ r
        → tls_pool_of (connector_of (tls_options p o proxy) r) ≡ some pool
        → IsBuilt p o proxy t
    go (inl kind) b q = absurd (clash (none_of (int_eq kind err_tls_ca) q))
      where
        clash : pool ≡ none → ⊥
        clash z = cc
    go (inr config) b q =
        (config, b, let same : t ≡ connector_with (tls_options p o proxy) config = cc in same)

new-Checked :
    (p : Platform) (mem : Bytes) (has_out : Bool)
    → Checked
        (Follows p (caller_options mem (field 4 4 mem)))
        (hyper4k_client_new p (some mem) has_out)
unfolding hyper4k_client_new
new-Checked p mem has_out = require_some-Checked F _ _ _ invalid (λ m e.
    require-Checked F _ _ _ (λ _. invalid)
      (λ _.
        require-Checked F _ _ _ (λ bad. ground arith)
          (λ _.
            require-Checked F _ _ _ (λ _. ground arith)
              (λ known.
                require-Checked F _ _ _ (λ _. ground arith)
                  (λ _. require_some-Checked F _ _ _ invalid (λ proxy chosen.
                    require_some-Checked F _ _ _ invalid
                      (λ tls_pool made. built m proxy tls_pool e known chosen made)))))))
  where
    F : Client → Type 0
    F = Follows p (caller_options mem (field 4 4 mem))

    the : Option Bytes → Bytes
    the none = mem
    the (some y) = y

    built :
        (m : Bytes) (proxy : Option ProxyTarget) (tls_pool : Option TlsClientConnector)
        → some mem ≡ some m
        → ((caller_options m (field 4 4 m)).flags / 4 == 0) ≡ true
        → check_proxy p (caller_options m (field 4 4 m)) ≡ some proxy
        → check_tls p (caller_options m (field 4 4 m)) proxy ≡ some tls_pool
        → F (build_client (caller_options m (field 4 4 m)) proxy tls_pool)
    built m proxy tls_pool e known chosen made =
        subst
          (λ y.
            Follows p (caller_options y (field 4 4 y))
              (build_client (caller_options m (field 4 4 m)) proxy tls_pool))
          (sym (ap the e))
          (let o = caller_options m (field 4 4 m) in
            let c = check_proxy-proxied p o proxy chosen in
            unfold new in
            record {
              known_flags = ground arith;
              h2 = refl;
              proxied = ground arith;
              direct = ground arith;
              pooled = refl;
              tls = λ t h. check_tls-IsBuilt p o proxy tls_pool t made h;
              live = refl;
              fresh = (refl, refl, refl, refl);
            })

-- An accepted client knows every flag it was given, requires HTTP/2 exactly if the first flag is set,
-- uses a proxy exactly if one is named, and starts open and empty with nothing reserved. Its TLS
-- connector, if it has one, is made from a configuration that the options built, with the proxy of
-- the plaintext connector.
pub new-Follows :
    (p : Platform) (mem : Bytes) (has_out : Bool) (c : Client)
    → hyper4k_client_new p (some mem) has_out ≡ inr c
    → Follows p (caller_options mem (field 4 4 mem)) c
new-Follows p mem has_out c e =
    subst (Checked (Follows p (caller_options mem (field 4 4 mem)))) e (new-Checked p mem has_out)
