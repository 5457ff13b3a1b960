-- ===== src/Pool/Single/Examples.antt =====
-- lib/src/client/pool.rs: two concrete calls of `shutdown`.
use hyper4k.Prelude.{◌≡◌, refl, [], ◌∷◌, ◌++◌, arith}
use hyper4k.Pool.Single.{
  awaiting, returned, wins, loses, take_off, win_from, lose_from, turn, turns,
}
use hyper4k.Pool.Single.Waking.{second_shutdown-returns}

-- The loser is in its wait when the flag is set.
waits : (turns take_off (loses ∷ loses ∷ loses ∷ wins ∷ [])).loser ≡ awaiting
unfolding turns turn win_from lose_from
waits = refl

second_shutdown-returns_example :
    (turns take_off ((loses ∷ loses ∷ loses ∷ wins ∷ wins ∷ []) ++ (loses ∷ loses ∷ []))).loser
    ≡ returned
second_shutdown-returns_example =
    second_shutdown-returns (loses ∷ loses ∷ loses ∷ wins ∷ wins ∷ []) (loses ∷ loses ∷ [])
      (omega arith) (omega arith)
