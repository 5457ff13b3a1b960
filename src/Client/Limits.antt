-- ===== src/Client/Limits.antt =====
-- lib/src/client/handle.rs: `Limits` and `Reservation`, also step by step for calls that interleave.
pub mod Counters
use hyper4k.Prelude.{
  ℕ, zero, suc, ◌+◌, ◌-◌, ◌*◌, ◌%◌, ◌^◌, Bool, true, false, Option, none, some, List, [], ◌∷◌,
  if◌then◌else◌, ltb, leb, ◌==◌,
}

abbrev pub default_max_inflight : ℕ
default_max_inflight = 1024

abbrev pub default_max_buffered_bytes : ℕ
default_max_buffered_bytes = 64 * 1024 * 1024

pub record Limits : Type 0 where
  pub max_inflight : ℕ
  pub max_bytes : ℕ
  pub inflight : ℕ  -- u32
  pub bytes : ℕ  -- u64

unfoldable pub new : ℕ → ℕ → Limits
new max_inflight max_bytes = record {
  max_inflight = if max_inflight == 0 then default_max_inflight else max_inflight;
  max_bytes = if max_bytes == 0 then default_max_buffered_bytes else max_bytes;
  inflight = 0;
  bytes = 0;
}

-- The four atomic updates.
unfoldable pub add_inflight : Limits → Limits
add_inflight l = record l { inflight = (l.inflight + 1) % 2 ^ 32 }

unfoldable pub sub_inflight : Limits → Limits
sub_inflight l = record l { inflight = (l.inflight + 2 ^ 32 - 1) % 2 ^ 32 }

unfoldable pub add_bytes : Limits → ℕ → Limits
add_bytes l n = record l { bytes = (l.bytes + n) % 2 ^ 64 }

unfoldable pub sub_bytes : Limits → ℕ → Limits
sub_bytes l n = record l { bytes = (l.bytes + 2 ^ 64 - n) % 2 ^ 64 }

-- What `fetch_add` gave is compared with the limit.
abbrev pub over_inflight : Limits → Bool
over_inflight l = leb l.max_inflight l.inflight

abbrev pub over_bytes : Limits → ℕ → Bool
over_bytes l n = ltb l.max_bytes ((l.bytes + n) % 2 ^ 64)

-- A reservation is known by its bytes.
unfoldable pub try_reserve : Limits → ℕ → Limits × Option ℕ
unfolding add_inflight sub_inflight add_bytes sub_bytes
try_reserve l n =
    let counted = add_inflight l in
    if over_inflight l
    then (sub_inflight counted, none)
    else if over_bytes counted n
    then (sub_inflight (sub_bytes (add_bytes counted n) n), none)
    else (add_bytes counted n, some n)

-- `Reservation` is dropped.
unfoldable pub release : Limits → ℕ → Limits
unfolding sub_inflight sub_bytes
release l n = sub_inflight (sub_bytes l n)

-- The calls in progress, by what they do next: add their bytes; give the count back; give the bytes
-- back; and the reservations that are held.
pub record Callers : Type 0 where
  pub limits : Limits
  pub counted : List ℕ
  pub leaving : ℕ
  pub refused : List ℕ
  pub held : List ℕ

pub data Step : Type 0 where
  counts : ℕ → Step
  adds drops gives_back : ℕ → Step
  leaves : Step

unfoldable pub pick : ℕ → List ℕ → Option (ℕ × List ℕ)
pick k [] = none
pick zero (x ∷ xs) = some (x, xs)
pick (suc k) (x ∷ xs) = elim (pick k xs) [ none ↦ none | some (y, ys) ↦ some (y, x ∷ ys) ]

-- One atomic update of one of the calls.
unfoldable pub advance : Callers → Step → Callers
unfolding add_inflight sub_inflight add_bytes sub_bytes
advance c (counts n) =
    let l = add_inflight c.limits in
    if over_inflight c.limits
    then record c { limits = l; leaving = c.leaving + 1 }
    else record c { limits = l; counted = n ∷ c.counted }
advance c (adds k) = elim (pick k c.counted) [
  | none ↦ c
  | some (n, rest) ↦
      let d = record c { limits = add_bytes c.limits n; counted = rest } in
      if over_bytes c.limits n
      then record d { refused = n ∷ d.refused }
      else record d { held = n ∷ d.held }
]
advance c (drops k) = elim (pick k c.held) [
  | none ↦ c
  | some (n, rest) ↦ record c {
    limits = sub_bytes c.limits n;
    held = rest;
    leaving = c.leaving + 1;
  }
]
advance c (gives_back k) = elim (pick k c.refused) [
  | none ↦ c
  | some (n, rest) ↦ record c {
    limits = sub_bytes c.limits n;
    refused = rest;
    leaving = c.leaving + 1;
  }
]
advance c leaves =
    if c.leaving == 0
    then c
    else record c { limits = sub_inflight c.limits; leaving = c.leaving - 1 }

unfoldable pub advance_all : Callers → List Step → Callers
advance_all c [] = c
advance_all c (s ∷ ss) = advance_all (advance c s) ss

unfoldable pub start : ℕ → ℕ → Callers
start max_inflight max_bytes = record {
  limits = new max_inflight max_bytes;
  counted = [];
  leaving = 0;
  refused = [];
  held = [];
}
