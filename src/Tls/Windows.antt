-- ===== src/Tls/Windows.antt =====
-- lib/src/client/tls.rs and pool.rs: the flow-control windows of a shared connection.
use hyper4k.Prelude.{ℕ, ◌+◌, ◌*◌, ◌^◌, ◌≤◌, ◌<◌, List, [], ◌∷◌, length, All, arith}
use hyper4k.Pool.{default_paused_cap}
use hyper4k.Tls.{stream_window, connection_window}

abbrev pub sum : List ℕ → ℕ
sum [] = 0
sum (n ∷ ns) = n + sum ns

sum-le : (w : ℕ) (parked : List ℕ) → All (λ n. n ≤ w) parked → sum parked ≤ length parked * w
sum-le w [] h = omega arith
sum-le w (n ∷ parked) h = grind (arith, sum-le w parked h.1)

-- Whatever as many paused streams as the pool allows on one connection have parked, each within its
-- own window, at least 4 MiB of the connection's window are left for the others; and the window is a
-- legal one of HTTP/2, below 2 to the power of 31.
pub windows_reserve :
    (parked : List ℕ)
    → length parked ≤ default_paused_cap
    → All (λ n. n ≤ stream_window) parked
    → (sum parked + 4 * 1024 * 1024 ≤ connection_window) × (connection_window < 2 ^ 31)
windows_reserve parked h k = (omega (arith, sum-le stream_window parked k), omega arith)
