-- ===== src/Retry.antt =====
-- lib/src/client/retry.rs: the retry policy.
use hyper4k.Prelude.{ℕ, Bool, true, false, ◌||◌, ◌==◌, if◌then◌else◌}

-- `hyper::Method`: the methods with a constant, and any other token.
pub data Method : Type 0 where
  get head put delete options trace post patch connect : Method
  extension : ℕ → Method

unfoldable pub is_idempotent : Method → Bool
is_idempotent get = true
is_idempotent head = true
is_idempotent put = true
is_idempotent delete = true
is_idempotent options = true
is_idempotent trace = true
is_idempotent _ = false

unfoldable pub may_retry : Bool → Bool → Bool → ℕ → Bool
may_retry committed provably_unsent method_idempotent budget_left =
    if committed
    then false
    else if budget_left == 0
    then false
    else provably_unsent || method_idempotent
