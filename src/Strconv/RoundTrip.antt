-- ===== src/Strconv/RoundTrip.antt =====
-- `atoi` reads what `itoa` prints, and a print has digits and a sign only.
use mathlib.Core.List.{cons-ne-nil}
use redis_go.Prelude.{
  ℕ, zero, suc, ◌+◌, ◌/◌, ◌%◌, ◌≤◌, ◌<◌, ◌≡◌, ◌≢◌, refl, some, [], ◌∷◌, Bytes, arith, All,
}
use redis_go.Prelude.Int.{ℤ, pos, negsuc, IsInt64}
use redis_go.Strconv.{digits, format_ℕ, itoa, scan, parse_ℕ, atoi, fit_pos}

scan-digits : (f n : ℕ) (out : Bytes) → n < f → scan (digits f n out) 0 ≡ scan out n
unfolding scan digits
scan-digits zero n out h = absurd (omega arith)
scan-digits (suc f) n out h = ground (arith, scan-digits f (n / 10) ((b'0' + n % 10) ∷ out))

digits-ne-nil : (f n : ℕ) (out : Bytes) → out ≢ [] → digits f n out ≢ []
unfolding digits
digits-ne-nil zero n out h = h
digits-ne-nil (suc f) n out h = ground (arith, digits-ne-nil f (n / 10) ((b'0' + n % 10) ∷ out))

format_ℕ-ne-nil : (n : ℕ) → format_ℕ n ≢ []
unfolding format_ℕ
format_ℕ-ne-nil n = digits-ne-nil n (n / 10) _ (cons-ne-nil (b'0' + n % 10) [])

parse_ℕ-scan : (s : Bytes) → s ≢ [] → parse_ℕ s ≡ scan s 0
unfolding parse_ℕ
parse_ℕ-scan [] h = absurd (h refl)
parse_ℕ-scan (c ∷ s) h = refl

pub parse_ℕ-format_ℕ : (n : ℕ) → parse_ℕ (format_ℕ n) ≡ some n
unfolding format_ℕ scan digits
parse_ℕ-format_ℕ n = rw (parse_ℕ-scan _ (format_ℕ-ne-nil n)) (last n)
  where
    last : (k : ℕ) → scan (format_ℕ k) 0 ≡ some k
    last zero = refl
    last (suc k) = ground (arith, scan-digits (suc k) (suc k / 10) ((b'0' + suc k % 10) ∷ []))

-- Digits are all that a print of a number holds.
abbrev pub IsDigit : ℕ → Type 0
IsDigit c = (b'0' ≤ c) × (c ≤ b'9')

digits-IsDigit : (f n : ℕ) (out : Bytes) → All IsDigit out → All IsDigit (digits f n out)
unfolding digits
digits-IsDigit zero n out h = h
digits-IsDigit (suc f) n out h = ground (arith, digits-IsDigit f (n / 10) ((b'0' + n % 10) ∷ out))

pub format_ℕ-IsDigit : (n : ℕ) → All IsDigit (format_ℕ n)
unfolding format_ℕ
format_ℕ-IsDigit n = ground (arith, digits-IsDigit n (n / 10) ((b'0' + n % 10) ∷ []))

atoi-digits : (s : Bytes) → All IsDigit s → atoi s ≡ fit_pos (parse_ℕ s)
unfolding atoi
atoi-digits [] h = refl
atoi-digits (c ∷ s) h = ground arith

-- Every 64-bit integer is read back from its decimal print.
pub atoi-itoa : (z : ℤ) → IsInt64 z → atoi (itoa z) ≡ some z
unfolding itoa
atoi-itoa (pos n) h =
    ground (arith, atoi-digits (format_ℕ n) (format_ℕ-IsDigit n), parse_ℕ-format_ℕ n)
atoi-itoa (negsuc n) h = unfold atoi in ground (arith, parse_ℕ-format_ℕ (n + 1))
