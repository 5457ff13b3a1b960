-- ===== src/Timed.antt =====
-- Results that take time: what an `async` block of lib/src/client/proxy.rs and tls.rs comes to, and
-- `tokio::time::timeout` around it.
pub mod Bounds
pub mod Gives
pub mod Results
use hyper4k.Prelude.{ℕ, ◌+◌, ◌⊎◌, inl, inr, Option, none, some, ltb, if◌then◌else◌}
use hyper4k.Abi.{Hyper4kErrorKind, err_timeout}

-- `ends t r`: after `t` milliseconds with `r`.
pub data Timed (A : Type 0) : Type 0 where
  ends : ℕ → Hyper4kErrorKind ⊎ A → Timed A
  never : Timed A

abbrev pub later : {A : Type 0} → ℕ → Timed A → Timed A
later t (ends u r) = ends (t + u) r
later t never = never

-- `.await?`, and what follows.
infixl 5 ◌>>=◌ ◌>>◌
abbrev pub ◌>>=◌ : {A B : Type 0} → Timed A → (A → Timed B) → Timed B
ends t (inl kind) >>= f = ends t (inl kind)
ends t (inr a) >>= f = later t (f a)
never >>= f = never

abbrev pub ◌>>◌ : {A B : Type 0} → Timed A → Timed B → Timed B
m >> k = m >>= λ _. k

-- Something outside that ends, well or with the given kind, or never does.
pub data Wait : Type 0 where
  succeeds fails : ℕ → Wait
  hangs : Wait

unfoldable pub await : Wait → Hyper4kErrorKind → Timed (Unit {0})
await (succeeds t) kind = ends t (inr tt)
await (fails t) kind = ends t (inl kind)
await hangs kind = never

-- `match timeout`: with a duration, the future is dropped when that has passed.
unfoldable pub with_timeout : {A : Type 0} → Option ℕ → Timed A → Timed A
with_timeout none m = m
with_timeout (some d) never = ends d (inl err_timeout)
with_timeout (some d) (ends t r) = if ltb d t then ends d (inl err_timeout) else ends t r
