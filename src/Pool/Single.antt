-- ===== src/Pool/Single.antt =====
-- lib/src/client/pool.rs: `Pool::shutdown` called twice, from `close` and from `free`: the call that
-- loses `shutting_down` waits for the one that wins. The steps are those between which the other can
-- get in; a `Notified` of tokio gets every `notify_waiters` from its creation on.
pub mod Waking
pub mod Examples
use hyper4k.Prelude.{Bool, true, false, if◌then◌else◌, List, [], ◌∷◌}

-- The call that loses: before its first look at `shutdown_complete`, before and after it creates its
-- waiter, awaiting that, and back.
pub data Loser : Type 0 where
  looking creating looking_again awaiting returned : Loser

-- The call that wins: while it aborts and joins the drivers, with the flag set, and with the waiters
-- told.
pub data Winner : Type 0 where
  working flagged told : Winner

pub record Flight : Type 0 where
  pub shutdown_complete : Bool
  pub winner : Winner
  pub loser : Loser
  pub notified : Bool  -- the waiter of the loser has its signal

pub data Turn : Type 0 where
  wins loses : Turn

abbrev pub take_off : Flight
take_off = record { shutdown_complete = false; winner = working; loser = looking; notified = false }

-- `notify_waiters` reaches a waiter that exists.
abbrev pub has_waiter : Loser → Bool
has_waiter looking_again = true
has_waiter awaiting = true
has_waiter _ = false

unfoldable pub win_from : Flight → Winner → Flight
win_from f working = record f { shutdown_complete = true; winner = flagged }
win_from f flagged = record f {
  winner = told;
  notified = if has_waiter f.loser then true else f.notified;
}
win_from f told = f

-- The loop of the call that loses; a new waiter has no signal yet.
unfoldable pub lose_from : Flight → Loser → Flight
lose_from f looking = record f { loser = if f.shutdown_complete then returned else creating }
lose_from f creating = record f { loser = looking_again; notified = false }
lose_from f looking_again = record f { loser = if f.shutdown_complete then returned else awaiting }
lose_from f awaiting = if f.notified then record f { loser = looking } else f
lose_from f returned = f

unfoldable pub turn : Flight → Turn → Flight
turn f wins = win_from f f.winner
turn f loses = lose_from f f.loser

unfoldable pub turns : Flight → List Turn → Flight
turns f [] = f
turns f (t ∷ ts) = turns (turn f t) ts
