-- ===== src/Text/Decimal.antt =====
-- Decimal numbers: printed and parsed.
use hyper4k.Prelude.{
  ℕ, zero, suc, ◌≢◌, ap, if_cases, ◌+◌, ◌-◌, ◌*◌, ◌/◌, ◌%◌, ◌<◌, ◌≤◌, ◌≡◌, refl, ◌∙◌, ltb, some, [],
  ◌∷◌, arith, All,
}
use hyper4k.Headers.{Bytes}
use hyper4k.Text.{Text, scan_u16, parse_u16, digits, format_u16}

abbrev pub IsDigit : ℕ → Type 0
IsDigit c = (b'0' ≤ c) × (c ≤ b'9')

-- 10 to the power of `fuel`.
abbrev bound : ℕ → ℕ
bound zero = 1
bound (suc fuel) = 10 * bound fuel

scan_u16-digit :
    (n c : ℕ) (out : Bytes)
    → IsDigit c
    → n * 10 + (c - b'0') < 65536
    → scan_u16 n (c ∷ out) ≡ scan_u16 (n * 10 + (c - b'0')) out
unfolding scan_u16
scan_u16-digit n c out h k = ground arith

positive : (fuel : ℕ) {n : ℕ} → n < bound (suc fuel) → 10 ≤ n → 0 < fuel
positive zero h k = absurd (omega arith)
positive (suc fuel) h k = omega arith

-- The text behind the digits of `n` is read on from `n`.
scan_u16-digits :
    (fuel n : ℕ) (out : Bytes)
    → n < bound fuel
    → n < 65536
    → 0 < fuel
    → scan_u16 0 (digits fuel n out) ≡ scan_u16 n out
unfolding digits
scan_u16-digits zero n out h k z = absurd (omega arith)
scan_u16-digits (suc fuel) n out h k z =
    if_cases (λ d. scan_u16 0 d ≡ scan_u16 n out) (ltb n 10) (λ small. small_step (ground arith))
      (λ large.
        scan_u16-digits fuel (n / 10) ((b'0' + n % 10) ∷ out) (omega arith) (omega arith)
          (more (ground arith))
        ∙ next)
  where
    small_step : n < 10 → scan_u16 0 ((b'0' + n) ∷ out) ≡ scan_u16 n out
    small_step lt =
        scan_u16-digit 0 (b'0' + n) out (omega arith) (omega arith)
        ∙ ap (λ m. scan_u16 m out) (omega arith)

    next : scan_u16 (n / 10) ((b'0' + n % 10) ∷ out) ≡ scan_u16 n out
    next =
        scan_u16-digit (n / 10) (b'0' + n % 10) out (omega arith) (omega arith)
        ∙ ap (λ m. scan_u16 m out) (omega arith)

    more : 10 ≤ n → 0 < fuel
    more le = positive fuel h le

All-digits : (fuel n : ℕ) (out : Bytes) → All IsDigit out → All IsDigit (digits fuel n out)
unfolding digits
All-digits zero n out h = h
All-digits (suc fuel) n out h =
    if_cases (All IsDigit) (ltb n 10) (λ small. (ground arith, h))
      (λ large. All-digits fuel (n / 10) ((b'0' + n % 10) ∷ out) (omega arith, h))

pub format_u16-IsDigit : (n : ℕ) → All IsDigit (format_u16 n)
unfolding format_u16
format_u16-IsDigit n = All-digits 5 n [] tt

parse_u16-digit : (c : ℕ) (s : Text) → IsDigit c → parse_u16 (c ∷ s) ≡ scan_u16 0 (c ∷ s)
unfolding parse_u16
parse_u16-digit c [] h = refl
parse_u16-digit c (d ∷ s) h = ground arith

parse_u16-of_digits : (s : Text) → s ≢ [] → All IsDigit s → parse_u16 s ≡ scan_u16 0 s
parse_u16-of_digits [] n h = absurd (n refl)
parse_u16-of_digits (c ∷ s) n h = parse_u16-digit c s h.0

digits-ne-nil : (fuel n : ℕ) (c : ℕ) (out : Bytes) → digits fuel n (c ∷ out) ≢ []
unfolding digits
digits-ne-nil zero n c out = λ e. cc
digits-ne-nil (suc fuel) n c out =
    if_cases (λ d. d ≢ []) (ltb n 10) (λ small e. cc)
      (λ large. digits-ne-nil fuel (n / 10) (b'0' + n % 10) (c ∷ out))

format_u16-ne-nil : (n : ℕ) → format_u16 n ≢ []
unfolding format_u16 digits
format_u16-ne-nil n =
    if_cases (λ d. d ≢ []) (ltb n 10) (λ small e. cc)
      (λ large. digits-ne-nil 4 (n / 10) (b'0' + n % 10) [])

scan_u16-format_u16 : (n : ℕ) → n < 65536 → scan_u16 0 (format_u16 n) ≡ some n
unfolding format_u16 scan_u16
scan_u16-format_u16 n h = scan_u16-digits 5 n [] (omega arith) h (omega arith)

-- A port is read back from its digits.
pub parse_u16-format_u16 : (n : ℕ) → n < 65536 → parse_u16 (format_u16 n) ≡ some n
parse_u16-format_u16 n h =
    parse_u16-of_digits (format_u16 n) (format_u16-ne-nil n) (format_u16-IsDigit n)
    ∙ scan_u16-format_u16 n h
