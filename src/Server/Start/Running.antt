-- ===== src/Server/Start/Running.antt =====
-- lib/src/lib.rs: what a started server serves.
use hyper4k.Prelude.{
  bind_some, Yields, Yields-none, Yields-some, Yields-bind, ℕ, ◌≡◌, ◌≢◌, refl, Bool, true, not,
  if◌then◌else◌, Option, none, some, List, [], ◌∷◌, ◌++◌, is_empty, codes, All, if_cases,
}
use hyper4k.Headers.{Bytes}
use hyper4k.Text.{Text, format_u16}
use hyper4k.Server.Start.{
  Machine, ServerConfig, Hyper4kServer, keep, alpn_list, load_certs, load_key, build_tls_config,
  as_str, any_host, addr_of, listen, hyper4k_server_start_tls, Arrival, connection, accept_fails,
  shutdown, serve_plaintext, serve_tls, hyper4k_server_stop,
}

-- What holds of a TLS server that was started.
pub record Serves (m : Machine) (port : ℕ) (s : Hyper4kServer) : Type 0 where
  pub host : Text
  pub bound : (m.parse_addr (host ++ b':' ∷ format_u16 port) ≡ some s.addr) × (m.bind s.addr ≡ true)
  pub config : ServerConfig
  pub tls : s.tls ≡ some config
  pub has_certs : config.certs ≢ []
  pub fits : m.is_key_pair config.certs config.key ≡ true
  pub names : All (λ p. p ≢ []) config.alpn_protocols

keep-names : (ps : List Text) → All (λ p. p ≢ []) (keep ps)
unfolding keep
keep-names [] = tt
keep-names ([] ∷ ps) = keep-names ps
keep-names ((c ∷ p) ∷ ps) = ((λ e. cc), keep-names ps)

alpn_list-names : (alpn : Text) → All (λ p. p ≢ []) (alpn_list alpn)
unfolding alpn_list
alpn_list-names alpn = keep-names _

module _ (m : Machine) where
  -- A configuration that was built.
  abbrev Holds : ServerConfig → Type 0
  Holds c =
      (c.certs ≢ []) × (m.is_key_pair c.certs c.key ≡ true) × All (λ p. p ≢ []) c.alpn_protocols

  build_tls_config-Holds :
      (cert_path key_path alpn : Text) → Yields Holds (build_tls_config m cert_path key_path alpn)
  unfolding build_tls_config
  build_tls_config-Holds cert_path key_path alpn =
      Yields-bind Holds (load_certs m cert_path) _ (λ certs _. some_certs certs)
    where
      for_pair :
          (certs : List Bytes) (key : Bytes)
          → certs ≢ []
          → Yields Holds (
              if m.is_key_pair certs key
              then some (record { certs = certs; key = key; alpn_protocols = alpn_list alpn })
              else none)
      for_pair certs key n =
          if_cases (Yields Holds) (m.is_key_pair certs key)
            (λ pair.
              Yields-some Holds
                (record { certs = certs; key = key; alpn_protocols = alpn_list alpn })
                (n, pair, alpn_list-names alpn))
            (λ _. Yields-none Holds)

      some_certs :
          (certs : List Bytes)
          → Yields Holds (
              if is_empty certs
              then none
              else bind_some (load_key m key_path) (λ key.
                if m.is_key_pair certs key
                then some (record { certs = certs; key = key; alpn_protocols = alpn_list alpn })
                else none))
      some_certs [] = Yields-none Holds
      some_certs (c ∷ certs) =
          Yields-bind Holds (load_key m key_path) _ (λ key _. for_pair (c ∷ certs) key (λ e. cc))

  -- A TLS server runs only on an address that could be bound, with a certificate and the key that
  -- belongs to it, and offers no empty protocol name.
  pub start_tls-Serves :
      (host : Option Bytes) (port : ℕ) (cert_path key_path alpn : Option Bytes) (s : Hyper4kServer)
      → hyper4k_server_start_tls m host port cert_path key_path alpn ≡ some s
      → Serves m port s
  unfolding hyper4k_server_start_tls addr_of listen
  start_tls-Serves host port cert_path key_path alpn =
      Yields-bind (Serves m port) (addr_of m (as_str host any_host) port) _ (λ addr parsed.
        Yields-bind (Serves m port)
          (build_tls_config m (as_str cert_path []) (as_str key_path [])
            (as_str alpn (codes "http/1.1")))
          _
          (λ config built.
            let h =
              build_tls_config-Holds (as_str cert_path []) (as_str key_path [])
                (as_str alpn (codes "http/1.1")) config built in
            if_cases (Yields (Serves m port)) (not m.runtime_builds)
              (λ _. Yields-none (Serves m port))
              (λ _.
                if_cases (Yields (Serves m port)) (m.bind addr)
                  (λ free.
                    Yields-some (Serves m port) (record { addr = addr; tls = some config })
                      (record {
                        host = as_str host any_host;
                        bound = (parsed, free);
                        config = config;
                        tls = refl;
                        has_certs = h.0;
                        fits = h.1;
                        names = h.2;
                      }))
                  (λ _. Yields-none (Serves m port)))))

-- The connections for which the test holds.
abbrev pub pick : (ℕ → Bool) → List ℕ → List ℕ
pick p [] = []
pick p (c ∷ cs) = if p c then c ∷ pick p cs else pick p cs

-- A connection is served over TLS exactly if it arrived before the server was stopped and its own
-- handshake succeeds: failures of `accept`, other handshakes and what comes later change nothing.
pub served_before_stop :
    (handshake : ℕ → Bool) (before after : List Arrival) (s : Hyper4kServer)
    → serve_tls handshake (before ++ hyper4k_server_stop (some s) after)
      ≡ pick handshake (serve_plaintext before)
unfolding serve_tls serve_plaintext hyper4k_server_stop
served_before_stop handshake [] after s = refl
served_before_stop handshake (shutdown ∷ before) after s = refl
served_before_stop handshake (accept_fails ∷ before) after s =
    served_before_stop handshake before after s
served_before_stop handshake (connection c ∷ before) after s =
    rw (served_before_stop handshake before after s) refl
