-- ===== src/Connectors/Examples.antt =====
-- lib/src/client/plaintext.rs and tls.rs: a concrete network that the theorems apply to.
use hyper4k.Prelude.{◌≡◌, refl, true, none, some, [], ◌∷◌, codes, inl, inr}
use hyper4k.Abi.{err_alpn_no_h2}
use hyper4k.Text.{
  contains, starts_with, from_utf8, decode, lead, first_line, line_of, nth_word, take_while,
  drop_while, is_whitespace, between, parse_u16, scan_u16,
}
use hyper4k.Headers.{strip_cr}
use hyper4k.Timed.{succeeds, with_timeout, await}
use hyper4k.Timed.Results.{result}
use hyper4k.Proxy.{
  ProxyTarget, addr, gives, connect_request, dial, tunnel, exchange, read_head, status_of,
  check_status, accept,
}
use hyper4k.Connectors.{
  PoolKey, exclusive, multiplexed, Connected, settles, Network, PlaintextConnector, plaintext_addr,
  plaintext_connect, TlsClientConnector, http2_settings, open_tcp, handshake, over_tls, tls_connect,
}
use hyper4k.Connectors.Routes.{Tunnelled, tls_connect-Tunnelled}
use hyper4k.Connectors.Negotiation.{Negotiates, tls_connect-Negotiates}

abbrev network : Network
network = record {
  route = record {
    socket = succeeds 1;
    write = succeeds 1;
    reads = (2, gives (codes "HTTP/1.1 200\r\n\r\n")) ∷ [];
  };
  is_server_name = λ h. true;
  tls_handshake = λ c. settles 4 (inr (some (codes "h2")));
  http_handshake = succeeds 1;
}

abbrev local : ProxyTarget
local = record { host = codes "p"; port = 80 }

abbrev key : PoolKey
key = record { scheme = codes "https"; host = codes "a.b"; port = 443 }

abbrev connector : TlsClientConnector
connector = record {
  config = record { roots = []; alpn_protocols = codes "h2" ∷ [] };
  require_h2 = true;
  connect_timeout = some 10;
  proxy = some local;
}

abbrev made : Connected
made = record {
  sender = multiplexed http2_settings;
  stream = record { peer = addr local; written = connect_request (codes "a.b") 443 };
}

makes : result (tls_connect network connector key) ≡ some (inr made)
unfolding tls_connect open_tcp tunnel dial with_timeout await exchange read_head contains
    starts_with check_status accept status_of from_utf8 decode lead first_line line_of nth_word
    take_while drop_while is_whitespace between parse_u16 scan_u16 strip_cr handshake over_tls
makes = refl

tls_connect-Tunnelled_example : Tunnelled (some local) key made.stream
tls_connect-Tunnelled_example = tls_connect-Tunnelled network connector key made makes

tls_connect-Negotiates_example : Negotiates network connector made
tls_connect-Negotiates_example = tls_connect-Negotiates network connector key made makes

-- A peer that chose HTTP/1.1 where HTTP/2 is required.
downgrade_refused :
    result (
      tls_connect
        (record network { tls_handshake = λ c. settles 4 (inr none) })
        (record connector { proxy = none })
        key)
    ≡ some (inl err_alpn_no_h2)
unfolding tls_connect open_tcp dial with_timeout await handshake over_tls
downgrade_refused = refl

abbrev plain : PlaintextConnector
plain = record { connect_timeout = none; proxy = some local }

abbrev plain_made : Connected
plain_made = record { sender = exclusive; stream = record { peer = addr local; written = [] } }

plain_makes : result (plaintext_connect network plain key) ≡ some (inr plain_made)
unfolding plaintext_connect plaintext_addr dial with_timeout await
plain_makes = refl
