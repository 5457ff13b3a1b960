-- ===== src/Client/Setup.antt =====
-- lib/src/client/handle.rs: the client, and `hyper4k_client_new`. What hyper and rustls make of their
-- inputs is a parameter, and so is the memory behind the caller's pointers. A pool is its connector
-- here.
use hyper4k.Prelude.{
  ℕ, ◌/◌, ◌%◌, Bool, true, false, ◌||◌, ◌&&◌, Option, none, some, List, [], if◌then◌else◌, ◌==◌,
  is_some, take, int_eq, ◌⊎◌, inl, inr,
}
use hyper4k.Abi.{
  Hyper4kStatus, Hyper4kErrorKind, status_ok, status_invalid_arg, status_unknown_flags, status_oom,
  err_tls_ca,
}
use hyper4k.Retry.{Method}
use hyper4k.Options.{
  Bytes, field, Hyper4kClientOptions, caller_options, validate_header, options_min_size,
}
use hyper4k.Bridge.State.{Slot}
use hyper4k.Text.{from_utf8}
use hyper4k.Proxy.{Uri, ProxyTarget, parse}
use hyper4k.Tls.{Certificates, TlsOptions}
use hyper4k.Connectors.{PlaintextConnector, TlsClientConnector, new_tls}
use hyper4k.Client.Limits.{Limits, new}

-- `memory` gives the bytes from an address on.
pub record Platform : Type 0 where
  pub memory : ℕ → Bytes
  pub runtime_builds : Bool
  pub certificates : Certificates
  pub method_from_bytes : Bytes → Option Method
  pub parse_uri : Bytes → Option Uri
  pub is_header_name : Bytes → Bool
  pub is_header_value : Bytes → Bool

pub record Client : Type 0 where
  pub closed : Bool
  pub next_id : ℕ  -- u64
  pub requests : List (ℕ × Slot)
  pub bridges : ℕ  -- u32
  pub limits : Limits
  pub queue_capacity : ℕ
  pub pool : PlaintextConnector
  pub tls_pool : Option TlsClientConnector
  pub h2_required : Bool
  pub via_proxy : Bool
  pub max_retries : ℕ
  pub connect_timeout : Option ℕ
  pub request_timeout : Option ℕ
  pub read_idle_timeout : Option ℕ

module _ {ℓ} {A : Type ℓ} where
  -- `return st`, unless the test holds.
  unfoldable pub require : Bool → Hyper4kStatus → Hyper4kStatus ⊎ A → Hyper4kStatus ⊎ A
  require true st go = go
  require false st go = inl st

  -- `let Some(b) = o else { return st }`.
  unfoldable pub require_some :
      {B : Type 0} → Option B → Hyper4kStatus → (B → Hyper4kStatus ⊎ A) → Hyper4kStatus ⊎ A
  require_some none st go = inl st
  require_some (some b) st go = go b

-- `?`, for a result that is a status already.
unfoldable pub and_then :
    {A B : Type 0} → Hyper4kStatus ⊎ A → (A → Hyper4kStatus ⊎ B) → Hyper4kStatus ⊎ B
and_then (inl st) go = inl st
and_then (inr a) go = go a

abbrev pub some_unless_zero : ℕ → Option ℕ
some_unless_zero n = if n == 0 then none else some n

-- The proxy of the options: none, accepted, or refused.
unfoldable pub check_proxy : Platform → Hyper4kClientOptions → Option (Option ProxyTarget)
check_proxy p o =
    let raw = take o.proxy_url_len (p.memory o.proxy_url) in
    let target = parse p.parse_uri raw in
    if (o.proxy_url == 0) || (o.proxy_url_len == 0)
    then some none
    else if is_some (from_utf8 raw) && is_some target
    then some target
    else none

abbrev pub tls_options : Platform → Hyper4kClientOptions → Option ProxyTarget → TlsOptions
tls_options p o proxy = record {
  custom_ca_pem =
      if (o.custom_ca_pem == 0) || (o.custom_ca_pem_len == 0)
      then none
      else some (take o.custom_ca_pem_len (p.memory o.custom_ca_pem));
  replace_system_roots = o.flags / 2 % 2 == 1;
  require_h2 = o.flags % 2 == 1;
  proxy = proxy;
  connect_timeout = some_unless_zero o.connect_timeout_ms;
}

-- The TLS pool, if it can be had; a bad CA bundle is refused.
abbrev pub tls_pool_of : Hyper4kErrorKind ⊎ TlsClientConnector → Option (Option TlsClientConnector)
tls_pool_of (inr c) = some (some c)
tls_pool_of (inl kind) = if int_eq kind err_tls_ca then none else some none

unfoldable pub check_tls :
    Platform → Hyper4kClientOptions → Option ProxyTarget → Option (Option TlsClientConnector)
check_tls p o proxy = tls_pool_of (new_tls p.certificates (tls_options p o proxy))

abbrev pub build_client :
    Hyper4kClientOptions → Option ProxyTarget → Option TlsClientConnector → Client
build_client o proxy tls_pool = record {
  closed = false;
  next_id = 1;
  requests = [];
  bridges = 0;
  limits = new o.max_inflight_requests o.max_buffered_bytes;
  queue_capacity = 8;
  pool = record { connect_timeout = some_unless_zero o.connect_timeout_ms; proxy = proxy };
  tls_pool = tls_pool;
  h2_required = o.flags % 2 == 1;
  via_proxy = is_some proxy;
  max_retries = o.max_retries;
  connect_timeout = some_unless_zero o.connect_timeout_ms;
  request_timeout = some_unless_zero o.request_timeout_ms;
  read_idle_timeout = some_unless_zero o.read_idle_timeout_ms;
}

-- The known flags are the two lowest bits.
unfoldable pub hyper4k_client_new : Platform → Option Bytes → Bool → Hyper4kStatus ⊎ Client
hyper4k_client_new p opts has_out = require_some opts status_invalid_arg (λ mem.
    require has_out status_invalid_arg (
      let st = validate_header (field 0 4 mem) (field 4 4 mem) options_min_size in
      require (int_eq st status_ok) st (
        let o = caller_options mem (field 4 4 mem) in
        require (o.flags / 4 == 0) status_unknown_flags (
          require p.runtime_builds status_oom (
            require_some (check_proxy p o) status_invalid_arg (λ proxy.
              require_some (check_tls p o proxy) status_invalid_arg
                (λ tls_pool. inr (build_client o proxy tls_pool))))))))
