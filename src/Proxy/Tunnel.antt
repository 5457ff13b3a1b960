-- ===== src/Proxy/Tunnel.antt =====
-- lib/src/client/proxy.rs: what `dial` and `tunnel` come to, and when.
use hyper4k.Prelude.{
  ℕ, ◌+◌, ◌≤◌, ◌≢◌, ◌≡◌, refl, sym, ap, ◌∙◌, subst, Bool, true, false, Option, none, some, [], ◌++◌,
  arith, length, All, ◌⊎◌, inl, inr, ltb, leb, ◌&&◌, if◌then◌else◌,
}
use hyper4k.Abi.{Hyper4kErrorKind, err_connect, err_timeout, err_protocol}
use hyper4k.Headers.{Bytes}
use hyper4k.Text.{contains, starts_with}
use hyper4k.Text.Lines.{IsAscii}
use hyper4k.Timed.{
  Timed, ends, Wait, succeeds, fails, hangs, later, never, await, with_timeout, ◌>>=◌,
}
use hyper4k.Timed.Bounds.{Within, with_timeout-Within, >>=-Within}
use hyper4k.Timed.Results.{
  result, result-later, with_timeout-result, result-bind, result-continues, result-stops,
}
use hyper4k.Proxy.{
  ProxyTarget, addr, TcpStream, dial, crlf_crlf, read_head, accept, check_status, connect_request,
  status_of, Route, exchange, tunnel,
}
use hyper4k.Proxy.Reading.{arrived, Flows, Finds, read_head-Finds, status_of-head}

pub dial-Within :
    (socket : Wait) (address : Bytes) (d : ℕ) → Within d (dial socket address (some d))
unfolding dial
dial-Within socket address d = with_timeout-Within d _

-- When a computation ends.
abbrev pub ends_at : {A : Type 0} → Timed A → Option ℕ
ends_at (ends t r) = some t
ends_at never = none

-- When it has ended or its time is up.
abbrev pub spends : {A : Type 0} → ℕ → Timed A → ℕ
spends d (ends t r) = if ltb d t then d else t
spends d never = d

-- It succeeds before its time is up.
abbrev pub is_timely : {A : Type 0} → ℕ → Timed A → Bool
is_timely d (ends t (inr a)) = if ltb d t then false else true
is_timely d (ends t (inl kind)) = false
is_timely d never = false

abbrev cut_off : ℕ → Bool → Timed (Unit {0}) → Timed (Unit {0})
cut_off d late m = if late then ends d (inl err_timeout) else m

shrink : {A : Type 0} {d : ℕ} {m : Timed A} → Within (d + 0) m → Within d m
shrink (t, r, p, le) = (t, r, p, omega arith)

exchange_part :
    (d : ℕ) (m : Timed (Unit {0})) (stream : TcpStream)
    → ends_at (with_timeout (some d) m >>= λ _. ends 0 (inr stream)) ≡ some (spends d m)
unfolding with_timeout
exchange_part d never stream = refl
exchange_part d (ends t (inl kind)) stream = go (ltb d t)
  where
    go :
        (b : Bool)
        → ends_at (cut_off d b (ends t (inl kind)) >>= λ _. ends 0 (inr stream))
          ≡ some (if b then d else t)
    go true = refl
    go false = refl
exchange_part d (ends t (inr x)) stream = go (ltb d t)
  where
    go :
        (b : Bool)
        → ends_at (cut_off d b (ends t (inr x)) >>= λ _. ends 0 (inr stream))
          ≡ some (if b then d else t)
    go true = refl
    go false = ap some (omega arith)

-- With a connect timeout, the connect has the whole of it, and after a connect in time the exchange
-- has the whole of it again, however long the connect took: the times that the two spend, each cut
-- at the timeout, add up. So whatever the network and the proxy do, silence included, a tunnel is
-- open or refused within twice the timeout.
pub tunnel-Within :
    (route : Route) (proxy : ProxyTarget) (host : Bytes) (port d : ℕ)
    → let connect = await route.socket err_connect in
      (ends_at (tunnel route proxy host port (some d))
        ≡ some (spends d connect + (if is_timely d connect then spends d (exchange route) else 0)))
      × Within (d + d) (tunnel route proxy host port (some d))
unfolding tunnel dial await with_timeout
tunnel-Within route proxy host port d = (
  spent route.socket,
  >>=-Within (dial route.socket (addr proxy) (some d)) _ (dial-Within route.socket (addr proxy) d)
      (λ stream. shrink (
        >>=-Within {e = 0} (with_timeout (some d) (exchange route)) _
          (with_timeout-Within d (exchange route)) (λ _. (0, _, refl, omega arith)))),
)
  where
    finish : TcpStream → Timed TcpStream
    finish stream = with_timeout (some d) (exchange route) >>= λ _.
        ends 0 (inr (record stream { written = stream.written ++ connect_request host port }))

    late : (t u : ℕ) (m : Timed TcpStream) → ends_at m ≡ some u → ends_at (later t m) ≡ some (t + u)
    late t u (ends v r) e = ground arith
    late t u never e = cc

    fresh : TcpStream
    fresh = record { peer = addr proxy; written = [] }

    connected :
        (t : ℕ) (b : Bool)
        → ends_at ((if b then ends d (inl err_timeout) else ends t (inr fresh)) >>= finish)
          ≡ some (
              (if b then d else t)
              + (if (if b then false else true) then spends d (exchange route) else 0))
    connected t true = ap some (omega arith)
    connected t false =
        late t (spends d (exchange route)) (finish fresh) (exchange_part d (exchange route) _)

    failed :
        (t : ℕ) (b : Bool)
        → ends_at ((if b then ends d (inl err_timeout) else ends t (inl err_connect)) >>= finish)
          ≡ some ((if b then d else t) + 0)
    failed t true = ap some (omega arith)
    failed t false = ap some (omega arith)

    spent :
        (socket : Wait)
        → ends_at (dial socket (addr proxy) (some d) >>= finish)
          ≡ some (
              spends d (await socket err_connect)
              + (if is_timely d (await socket err_connect) then spends d (exchange route) else 0))
    spent (succeeds t) =
        subst
          (λ k.
            ends_at ((if ltb d k then ends d (inl err_timeout) else ends k (inr fresh)) >>= finish)
            ≡ some (
                (if ltb d t then d else t)
                + (if (if ltb d t then false else true) then spends d (exchange route) else 0)))
          (let e : t ≡ t + 0 = omega arith in e) (connected t (ltb d t))
    spent (fails t) = failed t (ltb d t)
    spent hangs = ap some (omega arith)

check_status-head :
    (head behind : Bytes)
    → IsAscii (head ++ behind)
    → contains crlf_crlf head ≡ true
    → check_status head ≡ check_status (head ++ behind)
unfolding check_status
check_status-head head behind ascii marked = ap accept (status_of-head head behind ascii marked)

exchange-whole :
    (route : Route) (t : ℕ)
    → route.write ≡ succeeds t
    → All Flows route.reads
    → IsAscii (arrived route.reads)
    → contains crlf_crlf (arrived route.reads) ≡ true
    → length (arrived route.reads) ≤ 8192
    → result (exchange route) ≡ result (check_status (arrived route.reads))
unfolding exchange await contains starts_with
exchange-whole route t w flows ascii marked fits =
    rw w (result-later t _ ∙ go (read_head-Finds [] route.reads flows refl marked fits))
  where
    go :
        Finds (arrived route.reads) (read_head [] route.reads)
        → result (read_head [] route.reads >>= check_status)
          ≡ result (check_status (arrived route.reads))
    go f =
        ap (λ m. result (m >>= check_status)) f.found
        ∙ result-later f.time (check_status f.head)
        ∙ ap result (
            check_status-head f.head f.behind (subst IsAscii f.whole ascii) f.marked
            ∙ ap check_status (sym f.whole))

-- A network that connects, takes the request, and brings the answer in one or more reads, each with
-- something in it; the answer is ASCII, has its end mark, and is at most 8 KiB long.
pub record Answers (route : Route) : Type 0 where
  pub connected_in : ℕ
  pub connects : route.socket ≡ succeeds connected_in
  pub written_in : ℕ
  pub writes : route.write ≡ succeeds written_in
  pub flows : All Flows route.reads
  pub ascii : IsAscii (arrived route.reads)
  pub marked : contains crlf_crlf (arrived route.reads) ≡ true
  pub fits : length (arrived route.reads) ≤ 8192

abbrev pub opened : ProxyTarget → Bytes → ℕ → TcpStream
opened proxy host port = record { peer = addr proxy; written = connect_request host port }

-- The stream for a status from 200 to 299.
abbrev pub verdict : Option ℕ → TcpStream → Hyper4kErrorKind ⊎ TcpStream
verdict none stream = inl err_protocol
verdict (some status) stream =
    if leb 200 status && ltb status 300 then inr stream else inl err_protocol

accept-verdict :
    (status : Option ℕ) (stream : TcpStream)
    → result (accept status >>= λ _. ends 0 (inr stream)) ≡ some (verdict status stream)
unfolding accept
accept-verdict none stream = refl
accept-verdict (some n) stream = ground arith

-- On a network that connects and takes the request, where the answer is ASCII, has its end mark and is
-- at most 8 KiB long, and no read fails or is empty, how the answer is cut into reads does not matter:
-- a tunnel times out, if there is a timeout, or is opened or refused by the status in the whole answer.
pub tunnel-whole_answer :
    (route : Route) (proxy : ProxyTarget) (host : Bytes) (port : ℕ) (timeout : Option ℕ)
    → Answers route
    → ((timeout ≢ none) × (result (tunnel route proxy host port timeout) ≡ some (inl err_timeout)))
      ⊎ (result (tunnel route proxy host port timeout)
          ≡ some (verdict (status_of (arrived route.reads)) (opened proxy host port)))
unfolding tunnel dial await check_status
tunnel-whole_answer route proxy host port timeout a =
    go (with_timeout-result timeout connect) (with_timeout-result timeout (exchange route))
  where
    connect : Timed TcpStream
    connect = await route.socket err_connect >>= λ _.
        ends 0 (inr (record { peer = addr proxy; written = [] }))

    finish : TcpStream → Timed TcpStream
    finish stream = with_timeout timeout (exchange route) >>= λ _.
        ends 0 (inr (record stream { written = stream.written ++ connect_request host port }))

    fresh : TcpStream
    fresh = record { peer = addr proxy; written = [] }

    connected :
        with_timeout timeout connect ≡ connect
        → result (with_timeout timeout connect) ≡ some (inr fresh)
    connected e =
        ap result e ∙ ap (λ w. result (await w err_connect >>= λ _. ends 0 (inr fresh))) a.connects

    proceed :
        {r : Option (Hyper4kErrorKind ⊎ TcpStream)}
        → with_timeout timeout connect ≡ connect
        → result (finish fresh) ≡ r
        → result (with_timeout timeout connect >>= finish) ≡ r
    proceed e k = result-continues (with_timeout timeout connect) finish (connected e) ∙ k

    judge :
        with_timeout timeout (exchange route) ≡ exchange route
        → result (finish fresh)
          ≡ some (verdict (status_of (arrived route.reads)) (opened proxy host port))
    judge k =
        result-bind (with_timeout timeout (exchange route)) (check_status (arrived route.reads)) _
          (ap result k ∙ exchange-whole route a.written_in a.writes a.flows a.ascii a.marked a.fits)
        ∙ accept-verdict (status_of (arrived route.reads)) (opened proxy host port)

    go :
        (((timeout ≢ none) × (result (with_timeout timeout connect) ≡ some (inl err_timeout)))
          ⊎ (with_timeout timeout connect ≡ connect))
        → (((timeout ≢ none)
              × (result (with_timeout timeout (exchange route)) ≡ some (inl err_timeout)))
            ⊎ (with_timeout timeout (exchange route) ≡ exchange route))
        → ((timeout ≢ none)
            × (result (with_timeout timeout connect >>= finish) ≡ some (inl err_timeout)))
          ⊎ (result (with_timeout timeout connect >>= finish)
              ≡ some (verdict (status_of (arrived route.reads)) (opened proxy host port)))
    go (inl (n, e)) k = inl (n, result-stops (with_timeout timeout connect) finish e)
    go (inr e) (inl (n, k)) =
        inl (n, proceed e (result-stops (with_timeout timeout (exchange route)) _ k))
    go (inr e) (inr k) = inr (proceed e (judge k))
