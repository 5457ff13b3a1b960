-- ===== src/Abi.antt =====
-- lib/src/abi.rs: the fixed-width constants that cross the C ABI. Every type here is an `i32`, a
-- `u32` or a `u64` in the source; the signed ones are integers, the unsigned ones numbers.
use Prim.Native.Nat.{bit_or}
use hyper4k.Prelude.{ℕ, ℤ, pos, neg, ◌*◌, ◌^◌}

abbrev pub Hyper4kStatus : Type 0
Hyper4kStatus = ℤ

abbrev pub status_ok : Hyper4kStatus
status_ok = pos 0

abbrev pub status_abi_mismatch : Hyper4kStatus
status_abi_mismatch = neg 1

abbrev pub status_struct_size : Hyper4kStatus
status_struct_size = neg 2

abbrev pub status_unknown_flags : Hyper4kStatus
status_unknown_flags = neg 3

abbrev pub status_invalid_arg : Hyper4kStatus
status_invalid_arg = neg 4

abbrev pub status_unsupported : Hyper4kStatus
status_unsupported = neg 5

abbrev pub status_client_closed : Hyper4kStatus
status_client_closed = neg 6

abbrev pub status_oom : Hyper4kStatus
status_oom = neg 7

abbrev pub status_resource_exhausted : Hyper4kStatus
status_resource_exhausted = neg 8

abbrev pub status_not_found : Hyper4kStatus
status_not_found = neg 20

abbrev pub status_already_done : Hyper4kStatus
status_already_done = neg 21

abbrev pub status_not_paused : Hyper4kStatus
status_not_paused = neg 22

abbrev pub Hyper4kErrorKind : Type 0
Hyper4kErrorKind = ℤ

abbrev pub err_none : Hyper4kErrorKind
err_none = pos 0

abbrev pub err_dns : Hyper4kErrorKind
err_dns = pos 1

abbrev pub err_connect : Hyper4kErrorKind
err_connect = pos 2

abbrev pub err_tls_ca : Hyper4kErrorKind
err_tls_ca = pos 3

abbrev pub err_tls_hostname : Hyper4kErrorKind
err_tls_hostname = pos 4

abbrev pub err_tls_expired : Hyper4kErrorKind
err_tls_expired = pos 5

abbrev pub err_tls_other : Hyper4kErrorKind
err_tls_other = pos 6

abbrev pub err_alpn_no_h2 : Hyper4kErrorKind
err_alpn_no_h2 = pos 7

abbrev pub err_protocol : Hyper4kErrorKind
err_protocol = pos 8

abbrev pub err_timeout : Hyper4kErrorKind
err_timeout = pos 9

abbrev pub err_idle_timeout : Hyper4kErrorKind
err_idle_timeout = pos 10

abbrev pub err_cancelled : Hyper4kErrorKind
err_cancelled = pos 11

abbrev pub err_truncated : Hyper4kErrorKind
err_truncated = pos 12

abbrev pub err_outcome_unknown : Hyper4kErrorKind
err_outcome_unknown = pos 13

-- `Hyper4kHeadersAction` and `Hyper4kChunkAction`.
abbrev pub headers_continue : ℤ
headers_continue = pos 0

abbrev pub headers_cancel : ℤ
headers_cancel = pos 2

abbrev pub chunk_continue : ℤ
chunk_continue = pos 0

abbrev pub chunk_pause : ℤ
chunk_pause = pos 1

abbrev pub chunk_cancel : ℤ
chunk_cancel = pos 2

-- `(4 << 16) | 1`.
abbrev pub hyper4k_abi_version : ℕ
hyper4k_abi_version = bit_or (4 * 2 ^ 16) 1

abbrev pub server_cap_http1 : ℕ
server_cap_http1 = 2 ^ 0

abbrev pub server_cap_h2c : ℕ
server_cap_h2c = 2 ^ 1

abbrev pub server_cap_streaming : ℕ
server_cap_streaming = 2 ^ 2

abbrev pub hyper4k_server_capabilities : ℕ
hyper4k_server_capabilities = bit_or (bit_or server_cap_http1 server_cap_h2c) server_cap_streaming

abbrev pub client_cap_http1 : ℕ
client_cap_http1 = 2 ^ 0

abbrev pub client_cap_http2 : ℕ
client_cap_http2 = 2 ^ 1

abbrev pub client_cap_tls : ℕ
client_cap_tls = 2 ^ 2

abbrev pub client_cap_custom_ca : ℕ
client_cap_custom_ca = 2 ^ 3

abbrev pub client_cap_cancel : ℕ
client_cap_cancel = 2 ^ 4

abbrev pub client_cap_streaming : ℕ
client_cap_streaming = 2 ^ 5

abbrev pub client_cap_proxy : ℕ
client_cap_proxy = 2 ^ 6

abbrev pub hyper4k_client_capabilities : ℕ
hyper4k_client_capabilities =
    bit_or
      (bit_or
        (bit_or
          (bit_or (bit_or (bit_or client_cap_http1 client_cap_http2) client_cap_tls)
            client_cap_custom_ca)
          client_cap_cancel)
        client_cap_streaming)
      client_cap_proxy
