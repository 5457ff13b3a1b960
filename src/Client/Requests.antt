-- ===== src/Client/Requests.antt =====
-- lib/src/client/handle.rs: `hyper4k_client_send`, `close`, `resume` and `cancel` on the table of
-- requests.
pub mod Submission
pub mod Closing
pub mod Examples
use hyper4k.Prelude.{
  is_some, ℕ, zero, suc, codes, ◌-◌, ◌+◌, ◌*◌, ◌/◌, ◌%◌, ◌^◌, Bool, true, false, not, ◌||◌, ◌&&◌,
  Option, none, some, List, [], ◌∷◌, ◌++◌, if◌then◌else◌, ◌==◌, length, take, drop, lookup, insert,
  remove, contains, int_eq, map, ◌⊎◌, inl, inr,
}
use hyper4k.Abi.{
  Hyper4kStatus, Hyper4kErrorKind, status_ok, status_invalid_arg, status_unknown_flags, status_oom,
  status_client_closed, status_unsupported, status_resource_exhausted, status_not_found,
  err_cancelled, err_tls_ca,
}
use hyper4k.Retry.{Method}
use hyper4k.Options.{
  Bytes, of_le, le, field, Hyper4kClientOptions, caller_options, copy_prefix, validate_header,
  options_min_size, Hyper4kClientRequest, caller_request, request_min_size,
}
use hyper4k.Bridge.State.{Terminal, Slot, spawn, enter}
use hyper4k.Bridge.Slice.{settle_slot, resume, cancel}
use hyper4k.Client.Limits.{Limits, new, try_reserve, release}
use hyper4k.Client.Attempts.{RequestPolicy}
use hyper4k.Text.{bytes_eq, from_utf8}
use hyper4k.Proxy.{Uri}
use hyper4k.Client.Setup.{
  Platform, Client, require, require_some, and_then, some_unless_zero, check_proxy, check_tls,
  build_client, hyper4k_client_new,
}

-- `none` is a NULL pointer with a length.
unfoldable pub slice_bytes : Platform → ℕ → ℕ → Option Bytes
slice_bytes p ptr len =
    if len == 0 then some [] else if ptr == 0 then none else some (take len (p.memory ptr))

pub record RequestTemplate : Type 0 where
  pub method : Method
  pub uri : Uri
  pub headers : List (Bytes × Bytes)
  pub body : Bytes
  pub host : Bytes
  pub port : ℕ
  pub https : Bool
  pub absolute_form : Bool

abbrev http : Bytes
http = codes "http"

abbrev https_scheme : Bytes
https_scheme = codes "https"

-- The port of the URL, or that of its scheme.
unfoldable pub port_of : Option ℕ → Bytes → Option ℕ
port_of (some n) scheme = some n
port_of none scheme =
    if bytes_eq scheme https_scheme
    then some 443
    else if bytes_eq scheme http
    then some 80
    else none

-- The headers of the C array from an address on: four numbers of eight bytes for each.
unfoldable pub read_headers : Platform → ℕ → ℕ → Option (List (Bytes × Bytes))
read_headers p at zero = some []
read_headers p at (suc n) =
    let b = p.memory at in
    let rest = read_headers p (at + 32) n in
    elim (slice_bytes p (field 0 8 b) (field 8 8 b)) [
      | none ↦ none
      | some name ↦ elim (slice_bytes p (field 16 8 b) (field 24 8 b)) [
        | none ↦ none
        | some value ↦ elim rest [ none ↦ none | some hs ↦ some ((name, value) ∷ hs) ]
      ]
    ]

-- With a count of 0 the pointer is not looked at.
unfoldable pub headers_of : Platform → Hyper4kClientRequest → Option (List (Bytes × Bytes))
headers_of p r =
    if r.header_count == 0
    then some []
    else if r.headers == 0
    then none
    else read_headers p r.headers r.header_count

-- `RequestTemplate::validate`.
unfoldable pub validate : Platform → List (Bytes × Bytes) → Bool
validate p [] = true
validate p ((name, value) ∷ hs) =
    p.is_header_name name && (p.is_header_value value && validate p hs)

abbrev scheme_of : Uri → Bytes
scheme_of u = elim u.scheme [ none ↦ [] | some s ↦ s ]

-- The URL and what depends on it, up to the port.
unfoldable pub target_of :
    Platform → Client → Hyper4kClientRequest → Hyper4kStatus ⊎ (Uri × Bytes × ℕ × Bool)
target_of p c r = require_some (slice_bytes p r.url_ptr r.url_len) status_invalid_arg (λ url.
    require (is_some (from_utf8 url)) status_invalid_arg (
      require_some (p.parse_uri url) status_invalid_arg (λ uri.
        let scheme = scheme_of uri in
        let is_https = bytes_eq scheme https_scheme in
        require_some uri.host status_invalid_arg (λ host.
          require_some (port_of uri.port scheme) status_invalid_arg (λ port.
            require (bytes_eq scheme http || is_https) status_invalid_arg (
              require (not (bytes_eq scheme http && c.h2_required)) status_unsupported
                (inr (uri, host, port, is_https))))))))

-- Headers, body and transport.
unfoldable pub build_template :
    Platform
    → Client
    → Hyper4kClientRequest
    → Method
    → Uri × Bytes × ℕ × Bool
    → Hyper4kStatus ⊎ (Hyper4kClientRequest × RequestTemplate)
build_template p c r method (uri, host, port, https) =
    require_some (headers_of p r) status_invalid_arg (λ headers.
      require_some (slice_bytes p r.body_ptr r.body_len) status_invalid_arg (λ body.
        require (not https || is_some c.tls_pool) status_unsupported (
          require (validate p headers) status_invalid_arg (
            inr (
              r,
              record {
                method = method;
                uri = uri;
                headers = headers;
                body = body;
                host = host;
                port = port;
                https = https;
                absolute_form = c.via_proxy && not https;
              },
            )))))

-- All of `hyper4k_client_send` up to the template: it only reads.
unfoldable pub prepare :
    Platform
    → Client
    → Option Bytes
    → (has_out has_on_headers has_on_done : Bool)
    → Hyper4kStatus ⊎ (Hyper4kClientRequest × RequestTemplate)
prepare p c request has_out has_on_headers has_on_done =
    require_some request status_invalid_arg (λ mem.
      require (has_out && (has_on_headers && has_on_done)) status_invalid_arg (
        let st = validate_header (field 0 4 mem) (field 4 4 mem) request_min_size in
        require (int_eq st status_ok) st (
          let r = caller_request mem (field 4 4 mem) in
          require (not c.closed) status_client_closed (
            require_some (slice_bytes p r.method_ptr r.method_len) status_invalid_arg (λ method_b.
              require_some (slice_bytes p r.url_ptr r.url_len) status_invalid_arg (λ url_b.
                require_some (p.method_from_bytes method_b) status_invalid_arg
                  (λ method. and_then (target_of p c r) (λ t. build_template p c r method t))))))))

-- The idle timeout: `u64::MAX` inherits, 0 disables, anything else overrides.
unfoldable pub policy_of : Client → Hyper4kClientRequest → RequestPolicy
policy_of c r = record {
  max_retries = c.max_retries;
  request_timeout = c.request_timeout;
  read_idle_timeout =
      if r.read_idle_timeout_ms == 2 ^ 64 - 1
      then c.read_idle_timeout
      else some_unless_zero r.read_idle_timeout_ms;
}

-- What a call of `send` gives back, with the id written and the task that was spawned.
pub record Submitted : Type 0 where
  pub client : Client
  pub status : Hyper4kStatus
  pub out_request_id : Option ℕ
  pub task : Option (RequestTemplate × RequestPolicy)

abbrev pub refused : Client → Hyper4kStatus → Submitted
refused c st = record { client = c; status = st; out_request_id = none; task = none }

-- The id is taken first, then the room.
unfoldable pub submit : Client → Hyper4kClientRequest → RequestTemplate → Submitted
submit c r template =
    let id = c.next_id in
    let c₁ = record c { next_id = (id + 1) % 2 ^ 64 } in
    let (limits, reservation) =
      try_reserve c.limits (length template.body + c.queue_capacity * 64 * 1024) in
    elim reservation [
      | none ↦ refused (record c₁ { limits = limits }) status_resource_exhausted
      | some n ↦
          let bridges = enter c.bridges in
          record {
            client = record c₁ {
              limits = limits;
              bridges = bridges;
              requests = insert id (spawn id c.queue_capacity bridges) c.requests;
            };
            status = status_ok;
            out_request_id = some id;
            task = some (template, policy_of c r);
          }
    ]

-- A call that no other gets into: `prepare` reads `closed`, `submit` registers the request.
unfoldable pub hyper4k_client_send :
    Platform → Client → Option Bytes → (has_out has_on_headers has_on_done : Bool) → Submitted
hyper4k_client_send p c request has_out has_on_headers has_on_done =
    elim (prepare p c request has_out has_on_headers has_on_done) [
      | inl st ↦ refused c st
      | inr (r, template) ↦ submit c r template
    ]

abbrev put : Client → ℕ → Slot → Client
put c id s = record c { requests = insert id s c.requests }

unfoldable pub hyper4k_client_resume : Client → ℕ → Client × Hyper4kStatus
hyper4k_client_resume c id = elim (lookup id c.requests) [
  | none ↦ (c, status_not_found)
  | some s ↦ let (t, st) = resume s in (put c id t, st)
]

unfoldable pub hyper4k_client_cancel : Client → ℕ → Client × Hyper4kStatus
hyper4k_client_cancel c id = elim (lookup id c.requests) [
  | none ↦ (c, status_not_found)
  | some s ↦ let (t, st) = cancel s in (put c id t, st)
]

abbrev pub client_closed : Terminal
client_closed = record { kind = err_cancelled; protocol_code = 0; message = "client closed" }

abbrev pub settle_all : List (ℕ × Slot) → List (ℕ × Slot)
settle_all [] = []
settle_all ((id, s) ∷ rest) = (id, settle_slot s client_closed true) ∷ settle_all rest

-- The two steps of `close`. Another call can get in between them.
unfoldable pub store_closed : Client → Client
store_closed c = record c { closed = true }

unfoldable pub settle_requests : Client → Client
settle_requests c = record c { requests = settle_all c.requests }

-- The pools are shut down in the background.
unfoldable pub hyper4k_client_close : Client → Client
unfolding store_closed settle_requests
hyper4k_client_close c = settle_requests (store_closed c)

-- The `finished` closure of a request: its reservation is dropped, and it leaves the table.
unfoldable pub cleanup : Client → ℕ → ℕ → Client
cleanup c id reserved = record c {
  limits = release c.limits reserved;
  requests = remove id c.requests;
}

unfoldable pub hyper4k_client_inflight_count : Client → ℕ
hyper4k_client_inflight_count c = c.limits.inflight
