-- ===== src/Pool/Single/Waking.antt =====
-- lib/src/client/pool.rs: the second `shutdown` returns, and not too early.
use hyper4k.Prelude.{
  ℕ, suc, ◌-◌, ◌≤◌, ◌≡◌, refl, ap, ◌∙◌, if_cases, subst, Bool, true, false, List, [], ◌∷◌, ◌++◌,
  arith,
}
use hyper4k.Pool.Single.{
  Loser, looking, creating, looking_again, awaiting, returned, Winner, working, flagged, told,
  Flight, Turn, wins, loses, take_off, win_from, lose_from, turn, turns,
}

-- What holds at all times: the flag follows the winner, nobody returns before the flag, and a waiter
-- that is awaited while the winner is through has its signal.
abbrev FlagOf : Winner → Bool → Type 0
FlagOf working b = b ≡ false
FlagOf _ b = b ≡ true

abbrev NoEarly : Loser → Bool → Type 0
NoEarly returned b = b ≡ true
NoEarly _ b = Unit {0}

abbrev Signalled : Winner → Loser → Bool → Type 0
Signalled told awaiting n = n ≡ true
Signalled _ _ n = Unit {0}

abbrev Sound : Bool → Winner → Loser → Bool → Type 0
Sound c w l n = FlagOf w c × NoEarly l c × Signalled w l n

abbrev pub IsSound : Flight → Type 0
IsSound f = Sound f.shutdown_complete f.winner f.loser f.notified

-- How many turns of its own the loser has left once the winner is through.
abbrev pub left : Loser → ℕ
left returned = 0
left looking = 1
left looking_again = 1
left creating = 2
left awaiting = 2

abbrev pub count : Turn → List Turn → ℕ
count t [] = 0
count wins (wins ∷ ts) = suc (count wins ts)
count wins (loses ∷ ts) = count wins ts
count loses (loses ∷ ts) = suc (count loses ts)
count loses (wins ∷ ts) = count loses ts

flight : Bool → Winner → Loser → Bool → Flight
flight c w l n = record { shutdown_complete = c; winner = w; loser = l; notified = n }

early_or_set : (l : Loser) → NoEarly l true
early_or_set returned = refl
early_or_set looking = tt
early_or_set creating = tt
early_or_set looking_again = tt
early_or_set awaiting = tt

win-Sound :
    (c : Bool) (w : Winner) (l : Loser) (n : Bool)
    → Sound c w l n
    → IsSound (win_from (flight c w l n) w)
unfolding win_from flight
win-Sound c working l n s = (refl, early_or_set l, tt)
win-Sound c told l n s = s
win-Sound c flagged awaiting n s = (s.0, s.1, refl)
win-Sound c flagged looking n s = (s.0, s.1, tt)
win-Sound c flagged creating n s = (s.0, s.1, tt)
win-Sound c flagged looking_again n s = (s.0, s.1, tt)
win-Sound c flagged returned n s = (s.0, s.1, tt)

quiet : (w : Winner) (l : Loser) (n : Bool) → (l ≡ awaiting → ⊥) → Signalled w l n
quiet working l n h = tt
quiet flagged l n h = tt
quiet told awaiting n h = absurd (h refl)
quiet told looking n h = tt
quiet told creating n h = tt
quiet told looking_again n h = tt
quiet told returned n h = tt

not_yet : (w : Winner) (n : Bool) → FlagOf w false → Signalled w awaiting n
not_yet working n e = tt
not_yet flagged n e = tt
not_yet told n e = cc

lose-Sound :
    (c : Bool) (w : Winner) (l : Loser) (n : Bool)
    → Sound c w l n
    → IsSound (lose_from (flight c w l n) l)
unfolding lose_from flight
lose-Sound true w looking n s = (s.0, refl, quiet w returned n (λ e. cc))
lose-Sound false w looking n s = (s.0, tt, quiet w creating n (λ e. cc))
lose-Sound c w creating n s = (s.0, tt, quiet w looking_again false (λ e. cc))
lose-Sound true w looking_again n s = (s.0, refl, quiet w returned n (λ e. cc))
lose-Sound false w looking_again n s = (s.0, tt, not_yet w n s.0)
lose-Sound c w awaiting true s = (s.0, tt, quiet w looking true (λ e. cc))
lose-Sound c w awaiting false s = s
lose-Sound c w returned n s = s

turn-IsSound : (f : Flight) (t : Turn) → IsSound f → IsSound (turn f t)
unfolding turn flight
turn-IsSound f wins s = win-Sound f.shutdown_complete f.winner f.loser f.notified s
turn-IsSound f loses s = lose-Sound f.shutdown_complete f.winner f.loser f.notified s

turns-IsSound : (f : Flight) (ts : List Turn) → IsSound f → IsSound (turns f ts)
unfolding turns
turns-IsSound f [] s = s
turns-IsSound f (t ∷ ts) s = turns-IsSound (turn f t) ts (turn-IsSound f t s)

take_off-IsSound : IsSound take_off
take_off-IsSound = (refl, tt, tt)

-- A call of `shutdown` that loses does not return before the pool is shut down.
pub returns_after_flag :
    (ts : List Turn)
    → (turns take_off ts).loser ≡ returned
    → (turns take_off ts).shutdown_complete ≡ true
returns_after_flag ts e =
    let s = turns-IsSound take_off ts take_off-IsSound in
    subst (λ l. NoEarly l (turns take_off ts).shutdown_complete) e s.1

-- The turns that the winner has left.
abbrev to_go : Winner → ℕ
to_go working = 2
to_go flagged = 1
to_go told = 0

win-to_go : (f : Flight) (w : Winner) → f.winner ≡ w → to_go (win_from f w).winner ≡ to_go w - 1
unfolding win_from
win-to_go f working e = omega arith
win-to_go f flagged e = omega arith
win-to_go f told e = ap to_go e ∙ (let z : 0 ≡ 0 - 1 = omega arith in z)

lose-winner : (f : Flight) (l : Loser) → (lose_from f l).winner ≡ f.winner
unfolding lose_from
lose-winner f looking = refl
lose-winner f creating = refl
lose-winner f looking_again = refl
lose-winner f awaiting =
    if_cases (λ (g : Flight). g.winner ≡ f.winner) f.notified (λ _. refl) (λ _. refl)
lose-winner f returned = refl

turns-to_go :
    (f : Flight) (ts : List Turn) → to_go (turns f ts).winner ≡ to_go f.winner - count wins ts
unfolding turns turn
turns-to_go f [] = omega arith
turns-to_go f (wins ∷ ts) =
    omega (arith, turns-to_go (win_from f f.winner) ts, win-to_go f f.winner refl)
turns-to_go f (loses ∷ ts) =
    omega (arith, turns-to_go (lose_from f f.loser) ts, ap to_go (lose-winner f f.loser))

through : (w : Winner) → to_go w ≡ 0 → w ≡ told
through told e = refl
through working e = absurd (omega arith)
through flagged e = absurd (omega arith)

lose-left :
    (f : Flight) (l : Loser)
    → f.shutdown_complete ≡ true
    → Signalled told l f.notified
    → f.loser ≡ l
    → left (lose_from f l).loser ≤ left l - 1
unfolding lose_from
lose-left f looking c s e = rw c (omega arith)
lose-left f creating c s e = omega arith
lose-left f looking_again c s e = rw c (omega arith)
lose-left f awaiting c s e =
    if_cases (λ (g : Flight). left g.loser ≤ 1) f.notified (λ _. omega arith)
      (λ n. clash f.notified s n)
  where
    clash : (b : Bool) → b ≡ true → b ≡ false → left f.loser ≤ 1
    clash b p q = cc
lose-left f returned c s e = omega (arith, ap left e)

win-loser : (f : Flight) (w : Winner) → (win_from f w).loser ≡ f.loser
unfolding win_from
win-loser f working = refl
win-loser f flagged = refl
win-loser f told = refl

turn-IsSound_wins : (f : Flight) → IsSound f → IsSound (win_from f f.winner)
turn-IsSound_wins f s = unfold turn in turn-IsSound f wins s

turn-IsSound_loses : (f : Flight) → IsSound f → IsSound (lose_from f f.loser)
turn-IsSound_loses f s = unfold turn in turn-IsSound f loses s

still : (f : Flight) → f.winner ≡ told → (win_from f f.winner).winner ≡ told
still f w =
    through (win_from f f.winner).winner (omega (arith, win-to_go f f.winner refl, ap to_go w))

most : (l : Loser) → left l ≤ 2
most returned = omega arith
most looking = omega arith
most looking_again = omega arith
most creating = omega arith
most awaiting = omega arith

home : (l : Loser) → left l ≡ 0 → l ≡ returned
home returned e = refl
home looking e = absurd (omega arith)
home looking_again e = absurd (omega arith)
home creating e = absurd (omega arith)
home awaiting e = absurd (omega arith)

turns-append : (f : Flight) (ts us : List Turn) → turns f (ts ++ us) ≡ turns (turns f ts) us
unfolding turns
turns-append f [] us = refl
turns-append f (t ∷ ts) us = turns-append (turn f t) ts us

turns-left :
    (f : Flight) (ts : List Turn)
    → IsSound f
    → f.winner ≡ told
    → left (turns f ts).loser ≤ left f.loser - count loses ts
unfolding turns turn
turns-left f [] s w = omega arith
turns-left f (wins ∷ ts) s w = omega (
  arith,
  turns-left (win_from f f.winner) ts (turn-IsSound_wins f s) (still f w),
  ap left (win-loser f f.winner),
)
turns-left f (loses ∷ ts) s w = omega (
  arith,
  turns-left (lose_from f f.loser) ts (turn-IsSound_loses f s) (lose-winner f f.loser ∙ w),
  lose-left f f.loser (subst (λ v. FlagOf v f.shutdown_complete) w s.0)
      (subst (λ v. Signalled v f.loser f.notified) w s.2) refl,
)

-- No wake-up is lost: once the call that wins has set the flag and told the waiters, the call that
-- loses returns within two turns of its own, wherever it stood.
pub second_shutdown-returns :
    (ts us : List Turn)
    → 2 ≤ count wins ts
    → 2 ≤ count loses us
    → (turns take_off (ts ++ us)).loser ≡ returned
second_shutdown-returns ts us a b =
    ap (λ (f : Flight). f.loser) (turns-append take_off ts us)
    ∙ home (turns (turns take_off ts) us).loser
        (omega (arith, bound, most (turns take_off ts).loser))
  where
    sound : IsSound (turns take_off ts)
    sound = turns-IsSound take_off ts take_off-IsSound

    done : (turns take_off ts).winner ≡ told
    done = through (turns take_off ts).winner (omega (arith, turns-to_go take_off ts))

    bound :
        left (turns (turns take_off ts) us).loser ≤ left (turns take_off ts).loser - count loses us
    bound = turns-left (turns take_off ts) us sound done
