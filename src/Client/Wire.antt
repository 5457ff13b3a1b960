-- ===== src/Client/Wire.antt =====
-- lib/src/client/handle.rs: the request that an attempt puts on a connection. What hyper's builder
-- takes is a parameter, and so is its form of a path with a query.
pub mod Hosts
pub mod Examples
use hyper4k.Prelude.{
  ℕ, Bool, true, false, not, ◌&&◌, if◌then◌else◌, Option, none, some, List, [], ◌∷◌, ◌++◌, codes,
}
use hyper4k.Retry.{Method}
use hyper4k.Headers.{Bytes}
use hyper4k.Text.{bytes_eq, to_ascii_lowercase}
use hyper4k.Proxy.{Uri, host_port}
use hyper4k.Client.Setup.{Platform}
use hyper4k.Client.Requests.{RequestTemplate, validate}

pub record HttpRequest : Type 0 where
  pub method : Method
  pub uri : Uri
  pub headers : List (Bytes × Bytes)
  pub body : Bytes

abbrev pub host_name : Bytes
host_name = codes "host"

-- `eq_ignore_ascii_case(b"host")`.
unfoldable pub is_host : Bytes → Bool
is_host name = bytes_eq (to_ascii_lowercase name) host_name

unfoldable pub saw_host : List (Bytes × Bytes) → Bool
saw_host [] = false
saw_host ((n, v) ∷ headers) = if is_host n then true else saw_host headers

-- `authority` of the template.
unfoldable pub authority : RequestTemplate → Bytes
authority t = host_port t.host t.port

unfoldable pub headers_for : RequestTemplate → List (Bytes × Bytes)
headers_for t = if saw_host t.headers then t.headers else t.headers ++ (host_name, authority t) ∷ []

-- The builder refuses what `validate` refuses, and the whole request fails.
unfoldable pub build : Platform → RequestTemplate → Option HttpRequest
build p t =
    if validate p (headers_for t)
    then some (record { method = t.method; uri = t.uri; headers = headers_for t; body = t.body })
    else none

-- `path_and_query` gives the text of a target's path with its query, if it has one.
unfoldable pub to_origin_form : Platform → (Uri → Option Bytes) → HttpRequest → HttpRequest
to_origin_form p path_and_query req =
    let text : Bytes = elim (path_and_query req.uri) [ none ↦ codes "/" | some t ↦ t ] in
    elim (p.parse_uri text) [ none ↦ req | some uri ↦ record req { uri = uri } ]

-- HTTP/1.1 wants origin form, unless the request goes to a proxy; HTTP/2 keeps the whole target.
unfoldable pub wire_form :
    Platform → (Uri → Option Bytes) → RequestTemplate → Bool → HttpRequest → HttpRequest
wire_form p path_and_query t exclusive req =
    if exclusive
    then (if t.absolute_form then req else to_origin_form p path_and_query req)
    else req
