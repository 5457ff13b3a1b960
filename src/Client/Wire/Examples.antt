-- ===== src/Client/Wire/Examples.antt =====
-- lib/src/client/handle.rs: a concrete request on the wire.
use hyper4k.Prelude.{◌≡◌, refl, true, false, ◌&&◌, not, some, none, [], ◌∷◌, codes}
use hyper4k.Retry.{get}
use hyper4k.Text.{to_ascii_lowercase, between, format_u16, digits}
use hyper4k.Proxy.{Uri, host_port}
use hyper4k.Client.Setup.{Platform}
use hyper4k.Client.Requests.{RequestTemplate, validate}
use hyper4k.Client.Wire.{
  HttpRequest, is_host, saw_host, authority, headers_for, build, to_origin_form, wire_form,
}
use hyper4k.Client.Wire.Hosts.{Carries, wire_form-Carries}

abbrev target : Uri
target = record {
  scheme = some (codes "http");
  authority = some (codes "a");
  host = some (codes "a");
  port = none;
  path = codes "/p";
  query = none;
}

abbrev path_only : Uri
path_only = record target { scheme = none; authority = none; host = none }

abbrev platform : Platform
platform = record {
  memory = λ at. [];
  runtime_builds = true;
  certificates = record { native_certs = []; is_root = λ c. true; pem_certs = λ b. [] };
  method_from_bytes = λ b. some get;
  parse_uri = λ b. some path_only;
  is_header_name = λ b. true;
  is_header_value = λ b. true;
}

abbrev template : RequestTemplate
template = record {
  method = get;
  uri = target;
  headers = (codes "accept", codes "*/*") ∷ [];
  body = [];
  host = codes "a";
  port = 80;
  https = false;
  absolute_form = false;
}

abbrev built : HttpRequest
built = record {
  method = get;
  uri = target;
  headers = (codes "accept", codes "*/*") ∷ (codes "host", codes "a:80") ∷ [];
  body = [];
}

builds : build platform template ≡ some built
unfolding build headers_for saw_host is_host to_ascii_lowercase between authority host_port
    format_u16 digits validate
builds = refl

origin_form : (wire_form platform (λ u. some u.path) template true built).uri ≡ path_only
unfolding wire_form to_origin_form
origin_form = refl

wire_form-Carries_example :
    Carries template (wire_form platform (λ u. some u.path) template true built)
    × ((true && not false) ≡ false
        → (wire_form platform (λ u. some u.path) template true built).uri ≡ target)
wire_form-Carries_example = wire_form-Carries platform (λ u. some u.path) template true built builds
