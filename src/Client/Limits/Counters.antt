-- ===== src/Client/Limits/Counters.antt =====
-- lib/src/client/handle.rs: the limits hold however the calls interleave, and nothing leaks.
use hyper4k.Prelude.{
  ℕ, zero, suc, ◌+◌, ◌^◌, ◌≤◌, ◌<◌, ◌≡◌, refl, Option, none, some, List, [], ◌∷◌, if◌then◌else◌,
  ◌==◌, arith, length, ◌∙◌, ◌≢◌,
}
use hyper4k.Client.Limits.{
  Limits, new, add_inflight, sub_inflight, add_bytes, sub_bytes, over_bytes, try_reserve, release,
  Callers, Step, counts, adds, drops, gives_back, leaves, pick, advance, advance_all, start,
}

abbrev pub sum : List ℕ → ℕ
sum [] = 0
sum (x ∷ xs) = x + sum xs

abbrev Parts : List ℕ → ℕ → List ℕ → Type 0
Parts xs x ys = (length xs ≡ suc (length ys)) × (sum xs ≡ x + sum ys)

pick-Parts : (k : ℕ) (xs : List ℕ) (x : ℕ) (ys : List ℕ) → pick k xs ≡ some (x, ys) → Parts xs x ys
unfolding pick
pick-Parts k [] y ys h = ground arith
pick-Parts zero (x ∷ xs) y ys h = ground arith
pick-Parts (suc k) (x ∷ xs) z zs h = go (pick k xs) (pick-Parts k xs) h
  where
    go :
        (o : Option (ℕ × List ℕ))
        → ((y : ℕ) (ys : List ℕ) → o ≡ some (y, ys) → Parts xs y ys)
        → elim o as (λ _. Option (ℕ × List ℕ)) [ none ↦ none | some (y, ys) ↦ some (y, x ∷ ys) ]
          ≡ some (z, zs)
        → Parts (x ∷ xs) z zs
    go none ih h = ground arith
    go (some (y, ys)) ih h = let p = ih y ys refl in ground arith

-- The counters are those of the calls, and the limits hold.
pub record Counted (c : Callers) : Type 0 where
  pub inflight_is :
      c.limits.inflight ≡ length c.counted + c.leaving + length c.refused + length c.held
  pub bytes_is : c.limits.bytes ≡ sum c.refused + sum c.held
  pub passed : length c.counted + length c.refused + length c.held ≤ c.limits.max_inflight
  pub within : sum c.held ≤ c.limits.max_bytes
  pub no_wrap : c.limits.inflight < 2 ^ 32
  pub no_wrap_bytes : c.limits.bytes < 2 ^ 64

-- The step overflows no counter: there are fewer than 2^32 calls, and fewer than 2^64 bytes.
abbrev pub Fits : Callers → Step → Type 0
Fits c (counts n) = c.limits.inflight + 1 < 2 ^ 32
Fits c (adds k) = elim (pick k c.counted) [
  | none ↦ Unit
  | some (n, rest) ↦ c.limits.bytes + n < 2 ^ 64
]
Fits c _ = Unit

abbrev pub AllFit : Callers → List Step → Type 0
AllFit c [] = Unit
AllFit c (s ∷ ss) = Fits c s × AllFit (advance c s) ss

advance-Counted : (c : Callers) (s : Step) → Fits c s → Counted c → Counted (advance c s)
unfolding advance add_inflight sub_inflight add_bytes sub_bytes
advance-Counted c (counts n) f v = record {
  inflight_is = ground arith;
  bytes_is = ground arith;
  passed = ground arith;
  within = ground arith;
  no_wrap = ground arith;
  no_wrap_bytes = ground arith;
}
advance-Counted c (adds k) f v = go (pick k c.counted) (pick-Parts k c.counted) f
  where
    go :
        (o : Option (ℕ × List ℕ))
        → ((y : ℕ) (ys : List ℕ) → o ≡ some (y, ys) → Parts c.counted y ys)
        → elim o as (λ _. Type 0) [ none ↦ Unit | some (n, rest) ↦ c.limits.bytes + n < 2 ^ 64 ]
        → Counted (elim o as (λ _. Callers) [
          | none ↦ c
          | some (n, rest) ↦
              let d = record c { limits = add_bytes c.limits n; counted = rest } in
              if over_bytes c.limits n
              then record d { refused = n ∷ d.refused }
              else record d { held = n ∷ d.held }
        ])
    go none parts f = v
    go (some (n, rest)) parts f =
        let p = parts n rest refl in
        record {
          inflight_is = ground arith;
          bytes_is = ground arith;
          passed = ground arith;
          within = ground arith;
          no_wrap = ground arith;
          no_wrap_bytes = ground arith;
        }
advance-Counted c (drops k) f v = go (pick k c.held) (pick-Parts k c.held)
  where
    go :
        (o : Option (ℕ × List ℕ))
        → ((y : ℕ) (ys : List ℕ) → o ≡ some (y, ys) → Parts c.held y ys)
        → Counted (elim o as (λ _. Callers) [
          | none ↦ c
          | some (n, rest) ↦ record c {
            limits = sub_bytes c.limits n;
            held = rest;
            leaving = c.leaving + 1;
          }
        ])
    go none parts = v
    go (some (n, rest)) parts =
        let p = parts n rest refl in
        record {
          inflight_is = ground arith;
          bytes_is = ground arith;
          passed = ground arith;
          within = ground arith;
          no_wrap = ground arith;
          no_wrap_bytes = ground arith;
        }
advance-Counted c (gives_back k) f v = go (pick k c.refused) (pick-Parts k c.refused)
  where
    go :
        (o : Option (ℕ × List ℕ))
        → ((y : ℕ) (ys : List ℕ) → o ≡ some (y, ys) → Parts c.refused y ys)
        → Counted (elim o as (λ _. Callers) [
          | none ↦ c
          | some (n, rest) ↦ record c {
            limits = sub_bytes c.limits n;
            refused = rest;
            leaving = c.leaving + 1;
          }
        ])
    go none parts = v
    go (some (n, rest)) parts =
        let p = parts n rest refl in
        record {
          inflight_is = ground arith;
          bytes_is = ground arith;
          passed = ground arith;
          within = ground arith;
          no_wrap = ground arith;
          no_wrap_bytes = ground arith;
        }
advance-Counted c leaves f v = record {
  inflight_is = ground arith;
  bytes_is = ground arith;
  passed = ground arith;
  within = ground arith;
  no_wrap = ground arith;
  no_wrap_bytes = ground arith;
}

advance-keeps_limits :
    (c : Callers) (s : Step)
    → ((advance c s).limits.max_inflight ≡ c.limits.max_inflight)
      × ((advance c s).limits.max_bytes ≡ c.limits.max_bytes)
unfolding advance add_inflight sub_inflight add_bytes sub_bytes
advance-keeps_limits c (counts n) = ground arith
advance-keeps_limits c (adds k) = ground arith
advance-keeps_limits c (drops k) = ground arith
advance-keeps_limits c (gives_back k) = ground arith
advance-keeps_limits c leaves = ground arith

advance_all-Counted :
    (c : Callers) (ss : List Step)
    → AllFit c ss
    → Counted c
    → Counted (advance_all c ss)
      × ((advance_all c ss).limits.max_inflight ≡ c.limits.max_inflight)
      × ((advance_all c ss).limits.max_bytes ≡ c.limits.max_bytes)
unfolding advance_all
advance_all-Counted c [] fits v = (v, refl, refl)
advance_all-Counted c (s ∷ ss) fits v =
    let r = advance_all-Counted (advance c s) ss fits.1 (advance-Counted c s fits.0 v) in
    let k = advance-keeps_limits c s in (r.0, r.1 ∙ k.0, r.2 ∙ k.1)

-- However the atomic updates of the calls interleave, as long as no counter overflows: the
-- reservations held are at most as many as the limit and their bytes at most the byte limit, where a
-- limit of 0 means the default; and the counters are what the calls in progress account for, so both
-- are 0 once none is left.
pub reservations_within :
    (max_inflight max_bytes : ℕ) (ss : List Step)
    → AllFit (start max_inflight max_bytes) ss
    → let c = advance_all (start max_inflight max_bytes) ss in
      (length c.held ≤ (if max_inflight == 0 then 1024 else max_inflight))
      × (sum c.held ≤ (if max_bytes == 0 then 67108864 else max_bytes))
      × (c.limits.inflight ≡ length c.counted + c.leaving + length c.refused + length c.held)
      × (c.limits.bytes ≡ sum c.refused + sum c.held)
reservations_within max_inflight max_bytes ss fits =
    let (v, same, same_bytes) =
      advance_all-Counted (start max_inflight max_bytes) ss fits
        (unfold start in unfold new in ground arith) in
    let passed = v.passed in
    let within = v.within in
    (
      unfold start in unfold new in ground arith,
      unfold start in unfold new in ground arith,
      v.inflight_is,
      v.bytes_is,
    )

-- A call that is not interleaved with others reserves exactly if a request and its bytes fit; a
-- refusal leaves the limits as they were, and so does a reservation that is dropped again.
pub try_reserve-exact :
    (l : Limits) (n : ℕ)
    → l.inflight + 1 < 2 ^ 32
    → l.bytes + n < 2 ^ 64
    → let (l', r) = try_reserve l n in
      ((l.inflight < l.max_inflight) × (l.bytes + n ≤ l.max_bytes) → r ≡ some n)
      × (r ≡ some n
          → (l.inflight < l.max_inflight) × (l.bytes + n ≤ l.max_bytes) × (release l' n ≡ l))
      × (r ≢ some n → l' ≡ l)
unfolding try_reserve release add_inflight sub_inflight add_bytes sub_bytes
try_reserve-exact l n f g =
    (ground arith, (λ h. (ground arith, ground arith, ground arith)), ground arith)
