-- ===== src/Proxy.antt =====
-- lib/src/client/proxy.rs: forward proxies. `hyper::Uri` and the sockets are parameters; what the
-- proxy answers is a list of reads, each with the time that it takes.
pub mod Reading
pub mod Tunnel
pub mod Examples
pub mod Target
use hyper4k.Prelude.{
  bind_some, ℕ, Bool, true, false, ◌||◌, ◌&&◌, not, leb, ltb, ◌==◌, if◌then◌else◌, Option, none,
  some, List, [], ◌∷◌, ◌++◌, is_empty, is_some, length, codes, inl, inr,
}
use hyper4k.Abi.{Hyper4kErrorKind, err_connect, err_protocol}
use hyper4k.Headers.{Bytes}
use hyper4k.Text.{
  Text, bytes_eq, starts_with, contains, format_u16, from_utf8, first_line, nth_word, parse_u16,
}
use hyper4k.Timed.{Timed, ends, never, later, Wait, await, with_timeout, ◌>>=◌, ◌>>◌}

-- What `hyper::Uri` makes of a text. `query` is there also if it is empty.
pub record Uri : Type 0 where
  pub scheme : Option Bytes
  pub authority : Option Bytes
  pub host : Option Bytes
  pub port : Option ℕ  -- u16
  pub path : Bytes
  pub query : Option Bytes

pub record ProxyTarget : Type 0 where
  pub host : Bytes
  pub port : ℕ  -- u16

abbrev pub unwrap_or : Option ℕ → ℕ → ℕ
unwrap_or none n = n
unwrap_or (some m) n = m

-- `scheme_str() != Some(..)`, the other way round.
abbrev pub is_text : Option Bytes → Bytes → Bool
is_text none b = false
is_text (some a) b = bytes_eq a b

unfoldable pub of_uri : Uri → Option ProxyTarget
of_uri uri =
    if not (is_text uri.scheme (codes "http"))
    then none
    else bind_some uri.authority (λ authority.
      if contains (b'@' ∷ []) authority
      then none
      else if not (is_empty uri.path || bytes_eq uri.path (codes "/")) || is_some uri.query
      then none
      else bind_some uri.host (λ host. some (record { host = host; port = unwrap_or uri.port 80 })))

unfoldable pub parse : (Bytes → Option Uri) → Bytes → Option ProxyTarget
parse parse_uri raw = bind_some (parse_uri raw) of_uri

-- `format!("{}:{}", host, port)`.
unfoldable pub host_port : Bytes → ℕ → Bytes
host_port host port = host ++ b':' ∷ format_u16 port

unfoldable pub addr : ProxyTarget → Bytes
unfolding host_port
addr p = host_port p.host p.port

-- A connected socket: where it leads, and what was written to it.
pub record TcpStream : Type 0 where
  pub peer : Bytes
  pub written : Bytes

unfoldable pub dial : Wait → Bytes → Option ℕ → Timed TcpStream
dial socket address timeout =
    with_timeout timeout
      (await socket err_connect >>= λ _. ends 0 (inr (record { peer = address; written = [] })))

-- One `read`: the bytes that it gave, none at the end of the stream; or an error.
pub data Read : Type 0 where
  gives : Bytes → Read
  breaks : Read

abbrev pub crlf_crlf : Bytes
crlf_crlf = 13 ∷ 10 ∷ 13 ∷ 10 ∷ []

-- The loop. Past the end of the list the proxy is silent.
unfoldable pub read_head : Bytes → List (ℕ × Read) → Timed Bytes
read_head head [] = never
read_head head ((t, breaks) ∷ reads) = ends t (inl err_connect)
read_head head ((t, gives []) ∷ reads) = ends t (inl err_connect)
read_head head ((t, gives (c ∷ b)) ∷ reads) =
    let rest = later t (read_head (head ++ c ∷ b) reads) in
    if contains crlf_crlf (head ++ c ∷ b)
    then ends t (inr (head ++ c ∷ b))
    else if ltb 8192 (length (head ++ c ∷ b))
    then ends t (inl err_protocol)
    else rest

-- The status: the second word of the first line.
unfoldable pub status_of : Bytes → Option ℕ
status_of head =
    bind_some (from_utf8 head)
      (λ s. bind_some (first_line s) (λ l. bind_some (nth_word 1 l) parse_u16))

-- `ok_or`, then the test of the range.
unfoldable pub accept : Option ℕ → Timed (Unit {0})
accept none = ends 0 (inl err_protocol)
accept (some status) =
    if leb 200 status && ltb status 300 then ends 0 (inr tt) else ends 0 (inl err_protocol)

unfoldable pub check_status : Bytes → Timed (Unit {0})
check_status head = accept (status_of head)

unfoldable pub connect_request : Bytes → ℕ → Bytes
connect_request host port =
    codes "CONNECT "
    ++ (host_port host port ++ (codes " HTTP/1.1\r\nHost: " ++ (host_port host port ++ crlf_crlf)))

-- What the network does to a tunnel: the connect, the write, and the reads.
pub record Route : Type 0 where
  pub socket : Wait
  pub write : Wait
  pub reads : List (ℕ × Read)

unfoldable pub exchange : Route → Timed (Unit {0})
exchange route = await route.write err_connect >>= λ _. read_head [] route.reads >>= check_status

unfoldable pub tunnel : Route → ProxyTarget → Bytes → ℕ → Option ℕ → Timed TcpStream
tunnel route proxy host port timeout = dial route.socket (addr proxy) timeout >>= λ stream.
    with_timeout timeout (exchange route) >>= λ _.
    ends 0 (inr (record stream { written = stream.written ++ connect_request host port }))
