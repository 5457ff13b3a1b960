-- ===== src/Pool/Counts.antt =====
-- lib/src/client/pool.rs and handle.rs: the counts that a caller can ask for.
use hyper4k.Prelude.{ℕ, ◌+◌, ◌%◌, ◌^◌, Option, none, some, List, [], ◌∷◌, lookup}
use hyper4k.Pool.{ConnEntry, Pool, all_ids}

abbrev pub paused_in : List (ℕ × ConnEntry) → List ℕ → ℕ
paused_in entries [] = 0
paused_in entries (id ∷ ids) =
    (elim (lookup id entries) as (λ _. ℕ) [ none ↦ 0 | some e ↦ e.paused ]) + paused_in entries ids

unfoldable pub total_paused : Pool → ℕ
total_paused p = paused_in p.entries (all_ids p.conns) % 2 ^ 32

-- The pool for plaintext, and the one for TLS if there is one.
unfoldable pub paused_stream_count : Pool → Option Pool → ℕ
paused_stream_count p none = total_paused p
paused_stream_count p (some q) = (total_paused p + total_paused q) % 2 ^ 32
