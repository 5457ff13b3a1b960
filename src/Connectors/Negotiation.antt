-- ===== src/Connectors/Negotiation.antt =====
-- lib/src/client/tls.rs: which protocol a TLS connection speaks.
use hyper4k.Prelude.{
  ℕ, ◌≡◌, refl, ap, ◌∙◌, Bool, true, false, ◌&&◌, not, Option, some, arith, inl, inr, if◌then◌else◌,
  if_cases,
}
use hyper4k.Abi.{err_protocol}
use hyper4k.Headers.{Bytes}
use hyper4k.Timed.{await}
use hyper4k.Timed.Results.{result}
use hyper4k.Timed.Gives.{Gives, Gives-bind, Gives-any, Gives-ends}
use hyper4k.Proxy.{is_text}
use hyper4k.Tls.{h2}
use hyper4k.Connectors.{
  exclusive, multiplexed, Connected, TlsHandshake, settles, stalls, Network, TlsClientConnector,
  PoolKey, http2_settings, open_tcp, handshake, over_tls, tls_connect,
}

-- The connection's protocol is the one that the handshake chose.
pub record Negotiates (net : Network) (c : TlsClientConnector) (made : Connected) : Type 0 where
  pub time : ℕ
  pub protocol : Option Bytes
  pub chosen : net.tls_handshake c.config ≡ settles time (inr protocol)
  pub sender_is :
      made.sender ≡ (if is_text protocol h2 then multiplexed http2_settings else exclusive)
  pub required : c.require_h2 ≡ true → is_text protocol h2 ≡ true

abbrev Chose : Network → TlsClientConnector → Option Bytes → Type 0
Chose net c protocol = (t : ℕ) × (net.tls_handshake c.config ≡ settles t (inr protocol))

handshake-Chose :
    (net : Network) (c : TlsClientConnector)
    → Gives (Chose net c) (handshake (net.tls_handshake c.config))
unfolding handshake
handshake-Chose net c = go (net.tls_handshake c.config) refl
  where
    go : (h : TlsHandshake) → net.tls_handshake c.config ≡ h → Gives (Chose net c) (handshake h)
    go stalls p b e = cc
    go (settles t (inl chain)) p b e = cc
    go (settles t (inr protocol)) p b e =
        (t, p ∙ ap (λ q. settles t (inr q)) (let same : protocol ≡ b = cc in same))

unless : (r n : Bool) → (r && not n) ≡ false → r ≡ true → n ≡ true
unless r n e h = ground arith

-- ALPN decides: a TLS connection is HTTP/2, with the windows that the pool's accounting relies on,
-- exactly if the handshake chose `h2`. Where HTTP/2 is required, it never is HTTP/1.1.
pub tls_connect-Negotiates :
    (net : Network) (c : TlsClientConnector) (key : PoolKey) (made : Connected)
    → result (tls_connect net c key) ≡ some (inr made)
    → Negotiates net c made
unfolding tls_connect over_tls
tls_connect-Negotiates net c key =
    if_cases (Gives (Negotiates net c)) (not (net.is_server_name key.host)) (λ bad m e. cc)
      (λ good.
        Gives-bind (λ _. Unit {0}) _ (open_tcp net c.proxy key c.connect_timeout) _
          (Gives-any (open_tcp net c.proxy key c.connect_timeout))
          (λ tcp _.
            Gives-bind (Chose net c) _ (handshake (net.tls_handshake c.config)) _
              (handshake-Chose net c)
              (λ protocol chose.
                if_cases (Gives (Negotiates net c)) (c.require_h2 && not (is_text protocol h2))
                  (λ refused m e. cc)
                  (λ fine.
                    Gives-bind (λ _. Unit {0}) _ (await net.http_handshake err_protocol) _
                      (Gives-any (await net.http_handshake err_protocol))
                      (λ _ _. Gives-ends _ 0 (record {
                        time = chose.0;
                        protocol = protocol;
                        chosen = chose.1;
                        sender_is = refl;
                        required = λ r. unless (c.require_h2) (is_text protocol h2) fine r;
                      }))))))
