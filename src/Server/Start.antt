-- ===== src/Server/Start.antt =====
-- lib/src/lib.rs: starting a server, its TLS configuration, the loops that accept connections, and
-- stopping. Files, sockets, certificates and the reading of an address are parameters; strings are
-- their characters.
pub mod Alpn
pub mod Running
pub mod Examples
use mathlib.Core.List.{reverse, filter}
use hyper4k.Prelude.{
  bind_some, ℕ, Bool, true, false, not, if◌then◌else◌, Option, none, some, List, [], ◌∷◌, ◌++◌, map,
  is_empty, codes,
}
use hyper4k.Headers.{Bytes, split}
use hyper4k.Text.{Text, from_utf8, is_whitespace, drop_while, format_u16}

-- What the operating system and rustls do. `open` gives what a file holds; `bind` whether an address
-- is free; `pem_certs` an item for each certificate, or an error.
pub record Machine : Type 0 where
  pub parse_addr : Text → Option Text
  pub runtime_builds : Bool
  pub bind : Text → Bool
  pub open_file : Text → Option Bytes
  pub pem_certs : Bytes → List (Option Bytes)
  pub private_key : Bytes → Option Bytes
  pub is_key_pair : List Bytes → Bytes → Bool

pub record ServerConfig : Type 0 where
  pub certs : List Bytes
  pub key : Bytes
  pub alpn_protocols : List Text

pub record Hyper4kServer : Type 0 where
  pub addr : Text
  pub tls : Option ServerConfig

-- `collect` into a result: an error anywhere fails.
unfoldable pub collect : List (Option Bytes) → Option (List Bytes)
collect [] = some []
collect (none ∷ items) = none
collect (some item ∷ items) = bind_some (collect items) (λ rest. some (item ∷ rest))

-- `str::trim`.
unfoldable pub trim : Text → Text
trim s = reverse (drop_while is_whitespace (reverse (drop_while is_whitespace s)))

unfoldable pub keep : List Text → List Text
keep [] = []
keep (p ∷ ps) = if is_empty p then keep ps else p ∷ keep ps

-- The protocols of a comma-separated list.
unfoldable pub alpn_list : Text → List Text
alpn_list alpn = keep (map trim (split b',' [] alpn))

unfoldable pub load_certs : Machine → Text → Option (List Bytes)
load_certs m path = bind_some (m.open_file path) (λ file. collect (m.pem_certs file))

unfoldable pub load_key : Machine → Text → Option Bytes
load_key m path = bind_some (m.open_file path) m.private_key

unfoldable pub build_tls_config : Machine → Text → Text → Text → Option ServerConfig
build_tls_config m cert_path key_path alpn = bind_some (load_certs m cert_path) (λ certs.
    if is_empty certs
    then none
    else bind_some (load_key m key_path) (λ key.
      if m.is_key_pair certs key
      then some (record { certs = certs; key = key; alpn_protocols = alpn_list alpn })
      else none))

-- The text behind a pointer, or the fallback for NULL and for what is no text.
unfoldable pub as_str : Option Bytes → Text → Text
as_str none fallback = fallback
as_str (some raw) fallback = elim (from_utf8 raw) [ none ↦ fallback | some s ↦ s ]

abbrev pub any_host : Text
any_host = codes "0.0.0.0"

unfoldable pub addr_of : Machine → Text → ℕ → Option Text
addr_of m host port = m.parse_addr (host ++ b':' ∷ format_u16 port)

-- The runtime and the listener, once the address is known.
unfoldable pub listen : Machine → Text → Option ServerConfig → Option Hyper4kServer
listen m addr tls =
    if not m.runtime_builds
    then none
    else if m.bind addr
    then some (record { addr = addr; tls = tls })
    else none

-- `none` is NULL.
unfoldable pub hyper4k_server_start : Machine → Option Bytes → ℕ → Option Hyper4kServer
hyper4k_server_start m host port =
    bind_some (addr_of m (as_str host any_host) port) (λ addr. listen m addr none)

unfoldable pub hyper4k_server_start_tls :
    Machine → Option Bytes → ℕ → (cert_path key_path alpn : Option Bytes) → Option Hyper4kServer
hyper4k_server_start_tls m host port cert_path key_path alpn =
    bind_some (addr_of m (as_str host any_host) port) (λ addr.
      bind_some
        (build_tls_config m (as_str cert_path []) (as_str key_path [])
          (as_str alpn (codes "http/1.1")))
        (λ config. listen m addr (some config)))

-- What `select!` brings to an accept loop: a connection, an error of `accept`, or the shutdown.
pub data Arrival : Type 0 where
  connection : ℕ → Arrival
  accept_fails shutdown : Arrival

-- The connections that get a task, in order.
unfoldable pub serve_plaintext : List Arrival → List ℕ
serve_plaintext [] = []
serve_plaintext (shutdown ∷ rest) = []
serve_plaintext (accept_fails ∷ rest) = serve_plaintext rest
serve_plaintext (connection c ∷ rest) = c ∷ serve_plaintext rest

-- The connections whose task gets past its handshake, which runs on that task.
unfoldable pub serve_tls : (ℕ → Bool) → List Arrival → List ℕ
serve_tls handshake [] = []
serve_tls handshake (shutdown ∷ rest) = []
serve_tls handshake (accept_fails ∷ rest) = serve_tls handshake rest
serve_tls handshake (connection c ∷ rest) =
    if handshake c then c ∷ serve_tls handshake rest else serve_tls handshake rest

-- What is still to come when the server is stopped: the shutdown is sent, NULL is left alone.
unfoldable pub hyper4k_server_stop : Option Hyper4kServer → List Arrival → List Arrival
hyper4k_server_stop none rest = rest
hyper4k_server_stop (some s) rest = shutdown ∷ rest
