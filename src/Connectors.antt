-- ===== src/Connectors.antt =====
-- lib/src/client/plaintext.rs and tls.rs: the two connectors of a client's pools, and the key of a
-- pool (pool.rs). Sockets, the TLS handshake and hyper's handshakes are parameters.
pub mod Routes
pub mod Examples
pub mod Negotiation
use hyper4k.Prelude.{
  ℕ, Bool, true, false, ◌&&◌, not, if◌then◌else◌, Option, none, some, List, [], ◌∷◌, ◌++◌, ◌⊎◌, inl,
  inr,
}
use hyper4k.Abi.{Hyper4kErrorKind, err_connect, err_tls_hostname, err_alpn_no_h2, err_protocol}
use hyper4k.Headers.{Bytes}
use hyper4k.Text.{to_ascii_lowercase}
use hyper4k.Timed.{Timed, ends, never, later, Wait, await, ◌>>=◌, ◌>>◌}
use hyper4k.Proxy.{ProxyTarget, addr, host_port, TcpStream, dial, Route, tunnel, is_text}
use hyper4k.Tls.{
  stream_window, connection_window, max_concurrent_streams, TlsOptions, Certificates, ClientConfig,
  build_tls_config, h2, Link, classify,
}

pub record PoolKey : Type 0 where
  pub scheme : Bytes
  pub host : Bytes
  pub port : ℕ  -- u16

unfoldable pub new_key : Bytes → Bytes → ℕ → PoolKey
new_key scheme host port = record {
  scheme = to_ascii_lowercase scheme;
  host = to_ascii_lowercase host;
  port = port;
}

-- `http2::Builder`, as far as it is set.
pub record Http2Settings : Type 0 where
  pub initial_stream_window_size : ℕ  -- u32
  pub initial_connection_window_size : ℕ  -- u32
  pub max_concurrent_streams : ℕ  -- u32

pub data Sender : Type 0 where
  exclusive : Sender
  multiplexed : Http2Settings → Sender

-- A connection, with the socket that carries it.
pub record Connected : Type 0 where
  pub sender : Sender
  pub stream : TcpStream

-- What a TLS handshake comes to: the chain of its error, or the protocol that ALPN chose.
pub data TlsHandshake : Type 0 where
  settles : ℕ → List Link ⊎ Option Bytes → TlsHandshake
  stalls : TlsHandshake

-- What the network and the peers do to one connect.
pub record Network : Type 0 where
  pub route : Route
  pub is_server_name : Bytes → Bool
  pub tls_handshake : ClientConfig → TlsHandshake
  pub http_handshake : Wait

pub record PlaintextConnector : Type 0 where
  pub connect_timeout : Option ℕ
  pub proxy : Option ProxyTarget

unfoldable pub plaintext_addr : Option ProxyTarget → PoolKey → Bytes
plaintext_addr none key = host_port key.host key.port
plaintext_addr (some p) key = addr p

unfoldable pub plaintext_connect : Network → PlaintextConnector → PoolKey → Timed Connected
plaintext_connect net c key =
    dial net.route.socket (plaintext_addr c.proxy key) c.connect_timeout >>= λ stream.
    await net.http_handshake err_connect >>= λ _.
    ends 0 (inr (record { sender = exclusive; stream = stream }))

pub record TlsClientConnector : Type 0 where
  pub config : ClientConfig
  pub require_h2 : Bool
  pub connect_timeout : Option ℕ
  pub proxy : Option ProxyTarget

abbrev pub connector_with : TlsOptions → ClientConfig → TlsClientConnector
connector_with opts config = record {
  config = config;
  require_h2 = opts.require_h2;
  connect_timeout = opts.connect_timeout;
  proxy = opts.proxy;
}

abbrev pub connector_of :
    TlsOptions → Hyper4kErrorKind ⊎ ClientConfig → Hyper4kErrorKind ⊎ TlsClientConnector
connector_of opts (inl kind) = inl kind
connector_of opts (inr config) = inr (connector_with opts config)

unfoldable pub new_tls : Certificates → TlsOptions → Hyper4kErrorKind ⊎ TlsClientConnector
new_tls c opts = connector_of opts (build_tls_config c opts)

unfoldable pub open_tcp : Network → Option ProxyTarget → PoolKey → Option ℕ → Timed TcpStream
open_tcp net none key timeout = dial net.route.socket (host_port key.host key.port) timeout
open_tcp net (some p) key timeout = tunnel net.route p key.host key.port timeout

-- `map_err(|e| classify(&e))`.
unfoldable pub handshake : TlsHandshake → Timed (Option Bytes)
handshake stalls = never
handshake (settles t (inl chain)) = ends t (inl (classify chain))
handshake (settles t (inr protocol)) = ends t (inr protocol)

abbrev pub http2_settings : Http2Settings
http2_settings = record {
  initial_stream_window_size = stream_window;
  initial_connection_window_size = connection_window;
  max_concurrent_streams = max_concurrent_streams;
}

-- From the negotiated protocol on.
unfoldable pub over_tls : Network → Bool → TcpStream → Option Bytes → Timed Connected
over_tls net require_h2 stream protocol =
    let negotiated_h2 = is_text protocol h2 in
    if require_h2 && not negotiated_h2
    then ends 0 (inl err_alpn_no_h2)
    else await net.http_handshake err_protocol >>= λ _. ends 0 (
        inr (record {
          sender = if negotiated_h2 then multiplexed http2_settings else exclusive;
          stream = stream;
        }))

unfoldable pub tls_connect : Network → TlsClientConnector → PoolKey → Timed Connected
tls_connect net c key =
    if not (net.is_server_name key.host)
    then ends 0 (inl err_tls_hostname)
    else open_tcp net c.proxy key c.connect_timeout >>= λ tcp.
        handshake (net.tls_handshake c.config) >>= over_tls net c.require_h2 tcp
