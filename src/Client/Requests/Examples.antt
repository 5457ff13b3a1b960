-- ===== src/Client/Requests/Examples.antt =====
-- lib/src/client/handle.rs: a client with the default options, and a request to it.
use hyper4k.Prelude.{◌≡◌, ◌≢◌, refl, true, false, none, some, [], ◌∷◌, codes}
use hyper4k.Abi.{status_ok}
use hyper4k.Retry.{get}
use hyper4k.Options.{
  Hyper4kClientRequest, Bytes, le, of_le, field, options_bytes, read_options, default_options,
  caller_options, copy_prefix, validate_header, request_bytes, read_request, caller_request,
  default_request,
}
use hyper4k.Client.Limits.{try_reserve, new}
use hyper4k.Text.{from_utf8, decode, lead}
use hyper4k.Tls.{build_tls_config, system_roots, custom_roots, add_native, try, alpn}
use hyper4k.Connectors.{connector_with, new_tls}
use hyper4k.Client.Setup.{
  tls_options, Platform, Client, hyper4k_client_new, check_proxy, check_tls, require, require_some,
  build_client, and_then,
}
use hyper4k.Client.Requests.{
  RequestTemplate, hyper4k_client_send, hyper4k_client_close, prepare, target_of, build_template,
  headers_of, slice_bytes, validate, port_of, submit,
}
use hyper4k.Client.Requests.Submission.{Accepts, Refuses, send-cases}
use hyper4k.Client.Requests.Closing.{Follows, new-Follows}

-- At every address stands the text of a URL; every URL is read as `https://a`.
abbrev platform : Platform
platform = record {
  memory = λ at. codes "https://a";
  runtime_builds = true;
  certificates = record {
    native_certs = codes "root" ∷ [];
    is_root = λ c. true;
    pem_certs = λ b. some b ∷ [];
  };
  method_from_bytes = λ b. some get;
  parse_uri = λ b. some (record {
    scheme = some (codes "https");
    authority = some (codes "a");
    host = some (codes "a");
    port = none;
    path = codes "/";
    query = none;
  });
  is_header_name = λ b. true;
  is_header_value = λ b. true;
}

abbrev options : Bytes
options = options_bytes (default_options 88)

abbrev client : Client
client = build_client (default_options 88) none (
    some (
      connector_with (tls_options platform (default_options 88) none)
        (record { roots = codes "root" ∷ []; alpn_protocols = alpn false })))

new-Follows_example : Follows platform (caller_options options (field 4 4 options)) client
unfolding hyper4k_client_new caller_options copy_prefix options_bytes read_options default_options
    le of_le validate_header require require_some check_proxy check_tls new_tls build_tls_config
    system_roots custom_roots add_native try alpn
new-Follows_example = new-Follows platform options true client refl

abbrev request : Bytes
request = request_bytes (record (default_request 80) { url_ptr = 4096; url_len = 9 })

-- The request is accepted.
test_send : (hyper4k_client_send platform client (some request) true true true).status ≡ status_ok
unfolding hyper4k_client_send from_utf8 decode lead prepare require_some require validate_header
    of_le request_bytes le default_request slice_bytes caller_request read_request copy_prefix
    and_then target_of port_of build_template headers_of validate submit try_reserve new
    default_options
test_send = refl

send-cases_example :
    let s = hyper4k_client_send platform client (some request) true true true in
    (s.status ≡ status_ok → Accepts client s) × (s.status ≢ status_ok → Refuses client s)
send-cases_example = send-cases platform client (some request) true true true

abbrev template : RequestTemplate
template = record {
  method = get;
  uri = record {
    scheme = some (codes "https");
    authority = some (codes "a");
    host = some (codes "a");
    port = none;
    path = codes "/";
    query = none;
  };
  headers = [];
  body = [];
  host = codes "a";
  port = 443;
  https = true;
  absolute_form = false;
}

abbrev other : Hyper4kClientRequest
other = default_request 80

-- The call that had passed its checks is accepted by the closed client.
late_is_accepted : (submit (hyper4k_client_close client) other template).status ≡ status_ok
unfolding hyper4k_client_close submit try_reserve new default_options
late_is_accepted = refl
