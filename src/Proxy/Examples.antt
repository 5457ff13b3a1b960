-- ===== src/Proxy/Examples.antt =====
-- lib/src/client/proxy.rs: concrete URLs, proxies and networks that the theorems apply to.
use hyper4k.Prelude.{
  ℕ, Option, ◌≡◌, ◌≢◌, refl, none, some, if◌then◌else◌, ◌+◌, List, [], ◌∷◌, arith, codes, ◌⊎◌, inl,
  inr,
}
use hyper4k.Abi.{err_timeout, err_connect}
use hyper4k.Headers.{strip_cr}
use hyper4k.Text.{
  contains, starts_with, format_u16, digits, from_utf8, decode, lead, first_line, line_of, nth_word,
  take_while, drop_while, is_whitespace, between, parse_u16, scan_u16,
}
use hyper4k.Timed.{ends, succeeds, with_timeout, await}
use hyper4k.Timed.Bounds.{Within}
use hyper4k.Timed.Results.{result}
use hyper4k.Proxy.{
  Uri, ProxyTarget, of_uri, parse, dial, exchange, check_status, accept, addr, Read, gives,
  read_head, status_of, Route, tunnel,
}
use hyper4k.Proxy.Reading.{arrived}
use hyper4k.Proxy.Tunnel.{
  Answers, opened, verdict, ends_at, spends, is_timely, tunnel-Within, tunnel-whole_answer,
}

abbrev local : ProxyTarget
local = record { host = codes "10.0.0.1"; port = 3128 }

abbrev local_uri : Uri
local_uri = record {
  scheme = some (codes "http");
  authority = some (codes "10.0.0.1:3128");
  host = some (codes "10.0.0.1");
  port = some 3128;
  path = codes "/";
  query = none;
}

address_text : addr local ≡ codes "10.0.0.1:3128"
unfolding addr format_u16 digits
address_text = refl

credentials_refused :
    parse (λ raw. some (record local_uri { authority = some (codes "user:pw@10.0.0.1:3128") })) []
    ≡ none
unfolding parse of_uri contains starts_with
credentials_refused = refl

-- The answer in two reads, cut inside the status.
abbrev answer : List (ℕ × Read)
answer = (5, gives (codes "HTTP/1.1 2")) ∷ (7, gives (codes "00 OK\r\n\r\n")) ∷ []

abbrev network : Route
network = record { socket = succeeds 3; write = succeeds 1; reads = answer }

answers : Answers network
unfolding contains starts_with
answers = record {
  connected_in = 3;
  connects = refl;
  written_in = 1;
  writes = refl;
  flows = (tt, (tt, tt));
  ascii = omega arith;
  marked = refl;
  fits = omega arith;
}

tunnel_opens :
    tunnel network local (codes "a.b") 443 (some 50)
    ≡ ends 16 (inr (opened local (codes "a.b") 443))
unfolding tunnel dial with_timeout await exchange read_head contains starts_with check_status accept
    status_of from_utf8 decode lead first_line line_of nth_word take_while drop_while is_whitespace
    between parse_u16 scan_u16 strip_cr
tunnel_opens = refl

abbrev allowed : Option ℕ
allowed = some 50

tunnel-whole_answer_example :
    ((allowed ≢ none)
      × (result (tunnel network local (codes "a.b") 443 allowed) ≡ some (inl err_timeout)))
    ⊎ (result (tunnel network local (codes "a.b") 443 allowed)
        ≡ some (verdict (status_of (arrived answer)) (opened local (codes "a.b") 443)))
tunnel-whole_answer_example = tunnel-whole_answer network local (codes "a.b") 443 allowed answers

-- The connect takes 9 of 10, and the proxy then stays silent: nearly twice the timeout.
abbrev silent : Route
silent = record network { socket = succeeds 9; reads = [] }

twice_is_near : ends_at (tunnel silent local (codes "a.b") 443 (some 10)) ≡ some 19
unfolding tunnel dial with_timeout await exchange read_head
twice_is_near = refl

tunnel-Within_example :
    (ends_at (tunnel silent local (codes "a.b") 443 (some 10))
      ≡ some (
          spends 10 (await (succeeds 9) err_connect)
          + (if is_timely 10 (await (succeeds 9) err_connect)
              then spends 10 (exchange silent)
              else 0)))
    × Within 20 (tunnel silent local (codes "a.b") 443 (some 10))
tunnel-Within_example = tunnel-Within silent local (codes "a.b") 443 10
