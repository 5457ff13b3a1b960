-- ===== src/Connectors/Routes.antt =====
-- lib/src/client/plaintext.rs and tls.rs: where the bytes of a connection go.
use hyper4k.Prelude.{
  ℕ, ◌≡◌, refl, ap, ◌∙◌, Bool, Option, none, some, [], inr, not, if_cases, ◌&&◌, ◌++◌,
}
use hyper4k.Abi.{err_connect, err_protocol}
use hyper4k.Headers.{Bytes}
use hyper4k.Timed.{Wait, await, with_timeout}
use hyper4k.Timed.Results.{result}
use hyper4k.Timed.Gives.{Gives, Gives-bind, Gives-with_timeout, Gives-any, Gives-ends}
use hyper4k.Proxy.{
  ProxyTarget, addr, host_port, is_text, TcpStream, connect_request, exchange, Route, dial, tunnel,
}
use hyper4k.Tls.{h2}
use hyper4k.Connectors.{
  PoolKey, exclusive, Connected, Network, PlaintextConnector, plaintext_addr, plaintext_connect,
  TlsClientConnector, open_tcp, handshake, over_tls, tls_connect,
}

dial-Gives :
    (socket : Wait) (address : Bytes) (timeout : Option ℕ)
    → Gives (λ s. s ≡ record { peer = address; written = [] }) (dial socket address timeout)
unfolding dial
dial-Gives socket address timeout = Gives-with_timeout _ timeout _ (
    Gives-bind (λ _. Unit {0}) _ (await socket err_connect) _ (Gives-any (await socket err_connect))
      (λ _ _. Gives-ends _ 0 refl))

tunnel-Gives :
    (route : Route) (proxy : ProxyTarget) (host : Bytes) (port : ℕ) (timeout : Option ℕ)
    → Gives
        (λ s. s ≡ record { peer = addr proxy; written = connect_request host port })
        (tunnel route proxy host port timeout)
unfolding tunnel
tunnel-Gives route proxy host port timeout =
    Gives-bind _ _ (dial route.socket (addr proxy) timeout) _
      (dial-Gives route.socket (addr proxy) timeout)
      (λ stream fresh.
        Gives-bind (λ _. Unit {0}) _ (with_timeout timeout (exchange route)) _
          (Gives-any (with_timeout timeout (exchange route)))
          (λ _ _. Gives-ends _ 0 (
            ap {A = TcpStream} (λ s. record s { written = s.written ++ connect_request host port })
              fresh)))

-- Where the first bytes of a connection to a key go: to the proxy, if there is one.
abbrev pub first_hop : Option ProxyTarget → PoolKey → Bytes
first_hop none key = host_port key.host key.port
first_hop (some p) key = addr p

-- What stands in front of the target's own bytes: for a proxy, the request for a tunnel.
abbrev pub preamble : Option ProxyTarget → PoolKey → Bytes
preamble none key = []
preamble (some p) key = connect_request key.host key.port

abbrev pub Tunnelled : Option ProxyTarget → PoolKey → TcpStream → Type 0
Tunnelled proxy key s = s ≡ record { peer = first_hop proxy key; written = preamble proxy key }

open_tcp-Gives :
    (net : Network) (proxy : Option ProxyTarget) (key : PoolKey) (timeout : Option ℕ)
    → Gives (Tunnelled proxy key) (open_tcp net proxy key timeout)
unfolding open_tcp
open_tcp-Gives net none key timeout = dial-Gives net.route.socket _ timeout
open_tcp-Gives net (some p) key timeout = tunnel-Gives net.route p key.host key.port timeout

over_tls-Gives :
    (net : Network) (require_h2 : Bool) (tcp : TcpStream) (protocol : Option Bytes)
    → Gives (λ c. c.stream ≡ tcp) (over_tls net require_h2 tcp protocol)
unfolding over_tls
over_tls-Gives net require_h2 tcp protocol =
    if_cases (Gives (λ c. c.stream ≡ tcp)) (require_h2 && not (is_text protocol h2))
      (λ refused c e. cc)
      (λ fine.
        Gives-bind (λ _. Unit {0}) _ (await net.http_handshake err_protocol) _
          (Gives-any (await net.http_handshake err_protocol)) (λ _ _. Gives-ends _ 0 refl))

-- A TLS connection runs to the target, or through a tunnel that the proxy was asked for: with a
-- proxy, no connection goes to the target directly.
pub tls_connect-Tunnelled :
    (net : Network) (c : TlsClientConnector) (key : PoolKey) (made : Connected)
    → result (tls_connect net c key) ≡ some (inr made)
    → Tunnelled c.proxy key made.stream
unfolding tls_connect
tls_connect-Tunnelled net c key =
    if_cases (Gives (λ m. Tunnelled c.proxy key m.stream)) (not (net.is_server_name key.host))
      (λ bad m e. cc)
      (λ good.
        Gives-bind (Tunnelled c.proxy key) _ (open_tcp net c.proxy key c.connect_timeout) _
          (open_tcp-Gives net c.proxy key c.connect_timeout)
          (λ tcp tunnelled.
            Gives-bind (λ _. Unit {0}) _ (handshake (net.tls_handshake c.config)) _
              (Gives-any (handshake (net.tls_handshake c.config)))
              (λ protocol _ m e. over_tls-Gives net c.require_h2 tcp protocol m e ∙ tunnelled)))

-- A plaintext connection speaks HTTP/1.1 to the proxy, or to the target without one.
pub plaintext_connect-first_hop :
    (net : Network) (c : PlaintextConnector) (key : PoolKey) (made : Connected)
    → result (plaintext_connect net c key) ≡ some (inr made)
    → made ≡ record {
      sender = exclusive;
      stream = record { peer = first_hop c.proxy key; written = [] };
    }
unfolding plaintext_connect plaintext_addr
plaintext_connect-first_hop net c key =
    Gives-bind _ _ (dial net.route.socket (plaintext_addr c.proxy key) c.connect_timeout) _
      (dial-Gives net.route.socket (plaintext_addr c.proxy key) c.connect_timeout)
      (λ stream fresh.
        Gives-bind (λ _. Unit {0}) _ (await net.http_handshake err_connect) _
          (Gives-any (await net.http_handshake err_connect))
          (λ _ _. Gives-ends _ 0 (
            ap (λ s. let m : Connected = record { sender = exclusive; stream = s } in m)
              (fresh
                ∙ ap {B = TcpStream} (λ a. record { peer = a; written = [] }) (addr_of c.proxy)))))
  where
    addr_of : (proxy : Option ProxyTarget) → plaintext_addr proxy key ≡ first_hop proxy key
    addr_of none = refl
    addr_of (some p) = refl
