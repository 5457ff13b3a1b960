-- ===== src/Options.antt =====
-- lib/src/client/mod.rs: the versioned structs that cross the C ABI. Memory is a list of bytes, and
-- the structs have the layout of a 64-bit little-endian target.
pub mod Prefix
pub mod Examples
use hyper4k.Prelude.{
  ℕ, zero, suc, ◌+◌, ◌-◌, ◌*◌, ◌/◌, ◌%◌, ◌^◌, min, Bool, Option, none, some, List, [], ◌∷◌, ◌++◌,
  if◌then◌else◌, ltb, ◌==◌, take, drop, length,
}
use hyper4k.Abi.{
  Hyper4kStatus, status_ok, status_invalid_arg, status_struct_size, status_abi_mismatch,
  hyper4k_abi_version,
}

abbrev pub Bytes : Type 0
Bytes = List ℕ

-- An unsigned number in `w` bytes, lowest first.
unfoldable pub le : ℕ → ℕ → Bytes
le zero n = []
le (suc w) n = n % 256 ∷ le w (n / 256)

unfoldable pub of_le : Bytes → ℕ
of_le [] = 0
of_le (b ∷ bs) = b + 256 * of_le bs

-- A pointer is an address, 0 for NULL.
pub record Hyper4kClientOptions : Type 0 where
  pub abi_version : ℕ
  pub struct_size : ℕ
  pub flags : ℕ
  pub connect_timeout_ms : ℕ
  pub request_timeout_ms : ℕ
  pub read_idle_timeout_ms : ℕ
  pub max_retries : ℕ
  pub max_inflight_requests : ℕ
  pub max_buffered_bytes : ℕ
  pub custom_ca_pem : ℕ
  pub custom_ca_pem_len : ℕ
  pub proxy_url : ℕ
  pub proxy_url_len : ℕ

unfoldable pub options_bytes : Hyper4kClientOptions → Bytes
options_bytes o =
    le 4 o.abi_version
    ++ le 4 o.struct_size
    ++ le 8 o.flags
    ++ le 8 o.connect_timeout_ms
    ++ le 8 o.request_timeout_ms
    ++ le 8 o.read_idle_timeout_ms
    ++ le 4 o.max_retries
    ++ le 4 o.max_inflight_requests
    ++ le 8 o.max_buffered_bytes
    ++ le 8 o.custom_ca_pem
    ++ le 8 o.custom_ca_pem_len
    ++ le 8 o.proxy_url
    ++ le 8 o.proxy_url_len

abbrev pub field : ℕ → ℕ → Bytes → ℕ
field at w b = of_le (take w (drop at b))

unfoldable pub read_options : Bytes → Hyper4kClientOptions
read_options b = record {
  abi_version = field 0 4 b;
  struct_size = field 4 4 b;
  flags = field 8 8 b;
  connect_timeout_ms = field 16 8 b;
  request_timeout_ms = field 24 8 b;
  read_idle_timeout_ms = field 32 8 b;
  max_retries = field 40 4 b;
  max_inflight_requests = field 44 4 b;
  max_buffered_bytes = field 48 8 b;
  custom_ca_pem = field 56 8 b;
  custom_ca_pem_len = field 64 8 b;
  proxy_url = field 72 8 b;
  proxy_url_len = field 80 8 b;
}

pub record Hyper4kClientRequest : Type 0 where
  pub abi_version : ℕ
  pub struct_size : ℕ
  pub method_ptr : ℕ
  pub method_len : ℕ
  pub url_ptr : ℕ
  pub url_len : ℕ
  pub headers : ℕ
  pub header_count : ℕ
  pub body_ptr : ℕ
  pub body_len : ℕ
  pub read_idle_timeout_ms : ℕ

unfoldable pub request_bytes : Hyper4kClientRequest → Bytes
request_bytes r =
    le 4 r.abi_version
    ++ le 4 r.struct_size
    ++ le 8 r.method_ptr
    ++ le 8 r.method_len
    ++ le 8 r.url_ptr
    ++ le 8 r.url_len
    ++ le 8 r.headers
    ++ le 8 r.header_count
    ++ le 8 r.body_ptr
    ++ le 8 r.body_len
    ++ le 8 r.read_idle_timeout_ms

unfoldable pub read_request : Bytes → Hyper4kClientRequest
read_request b = record {
  abi_version = field 0 4 b;
  struct_size = field 4 4 b;
  method_ptr = field 8 8 b;
  method_len = field 16 8 b;
  url_ptr = field 24 8 b;
  url_len = field 32 8 b;
  headers = field 40 8 b;
  header_count = field 48 8 b;
  body_ptr = field 56 8 b;
  body_len = field 64 8 b;
  read_idle_timeout_ms = field 72 8 b;
}

-- Through `url`: 8 + 2 * 16.
abbrev pub request_min_size : ℕ
request_min_size = 40

-- `size_of::<Hyper4kClientRequest>()`.
abbrev pub request_size : ℕ
request_size = 80

abbrev pub options_min_size : ℕ
options_min_size = 16

-- `size_of::<Hyper4kClientOptions>()`.
abbrev pub options_size : ℕ
options_size = 88

-- `none` is the NULL pointer; otherwise the memory from the pointer on.
unfoldable pub init_prefix : Option Bytes → ℕ → ℕ → Bytes → Option Bytes × Hyper4kStatus
init_prefix none struct_size min_size defaults = (none, status_invalid_arg)
init_prefix (some mem) struct_size min_size defaults =
    if ltb struct_size min_size
    then (some mem, status_struct_size)
    else (let writable = min struct_size (length defaults) in
        (some (take writable defaults ++ drop writable mem), status_ok))

unfoldable pub default_options : ℕ → Hyper4kClientOptions
default_options struct_size = record {
  abi_version = hyper4k_abi_version;
  struct_size = struct_size;
  flags = 0;
  connect_timeout_ms = 10000;
  request_timeout_ms = 60000;
  read_idle_timeout_ms = 60000;
  max_retries = 2;
  max_inflight_requests = 1024;
  max_buffered_bytes = 64 * 1024 * 1024;
  custom_ca_pem = 0;
  custom_ca_pem_len = 0;
  proxy_url = 0;
  proxy_url_len = 0;
}

unfoldable pub hyper4k_client_options_init : Option Bytes → ℕ → Option Bytes × Hyper4kStatus
hyper4k_client_options_init opts struct_size =
    init_prefix opts struct_size options_min_size (options_bytes (default_options struct_size))

-- The idle timeout is `u64::MAX`, which inherits.
unfoldable pub default_request : ℕ → Hyper4kClientRequest
default_request struct_size = record {
  abi_version = hyper4k_abi_version;
  struct_size = struct_size;
  method_ptr = 0;
  method_len = 0;
  url_ptr = 0;
  url_len = 0;
  headers = 0;
  header_count = 0;
  body_ptr = 0;
  body_len = 0;
  read_idle_timeout_ms = 2 ^ 64 - 1;
}

unfoldable pub hyper4k_client_request_init : Option Bytes → ℕ → Option Bytes × Hyper4kStatus
hyper4k_client_request_init request struct_size =
    init_prefix request struct_size request_min_size (request_bytes (default_request struct_size))

unfoldable pub copy_prefix : Bytes → ℕ → Bytes → Bytes
copy_prefix src caller_size defaults =
    let n = min caller_size (length defaults) in take n src ++ drop n defaults

-- `defaults_options`, and what `hyper4k_client_new` reads from its caller.
unfoldable pub caller_options : Bytes → ℕ → Hyper4kClientOptions
caller_options src raw_size =
    read_options (copy_prefix src raw_size (options_bytes (default_options options_size)))

unfoldable pub caller_request : Bytes → ℕ → Hyper4kClientRequest
caller_request src raw_size =
    read_request (copy_prefix src raw_size (request_bytes (default_request request_size)))

unfoldable pub validate_header : ℕ → ℕ → ℕ → Hyper4kStatus
validate_header abi_version struct_size min_size =
    if abi_version / 2 ^ 16 == hyper4k_abi_version / 2 ^ 16
    then (if ltb struct_size min_size then status_struct_size else status_ok)
    else status_abi_mismatch
