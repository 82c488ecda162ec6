-- ===== src/Strconv.antt =====
-- What the code uses of Go's `strconv`: `Itoa`, `FormatInt(n, 10)`, `Atoi` and `ParseInt(s, 10, 64)`,
-- on a platform whose `int` has 64 bits.
pub mod RoundTrip
use redis_go.Prelude.{
  ℕ, zero, suc, ◌+◌, ◌-◌, ◌*◌, ◌/◌, ◌%◌, ◌≤◌, ◌&&◌, Bool, Option, none, some, [], ◌∷◌, Bytes, ltb,
  leb, ◌==◌, if◌then◌else◌,
}
use redis_go.Prelude.Int.{ℤ, pos, negsuc, half_range}

-- the decimal digits of `n` in front of `out`, and none for 0; any fuel above `n` is enough
pub digits : ℕ → ℕ → Bytes → Bytes
digits zero n out = out
digits (suc f) n out =
    let rest = digits f (n / 10) ((b'0' + n % 10) ∷ out) in if n == 0 then out else rest

unfoldable pub format_ℕ : ℕ → Bytes
unfolding digits
format_ℕ n = digits n (n / 10) ((b'0' + n % 10) ∷ [])

unfoldable pub itoa : ℤ → Bytes
unfolding format_ℕ
itoa (pos n) = format_ℕ n
itoa (negsuc n) = b'-' ∷ format_ℕ (n + 1)

abbrev pub is_digit : ℕ → Bool
is_digit c = leb b'0' c && leb c b'9'

-- the number that digits spell behind `n`
pub scan : Bytes → ℕ → Option ℕ
scan [] n = some n
scan (c ∷ s) n = if is_digit c then scan s (n * 10 + (c - b'0')) else none

pub parse_ℕ : Bytes → Option ℕ
unfolding scan
parse_ℕ [] = none
parse_ℕ (c ∷ s) = scan (c ∷ s) 0

-- the range checks of a magnitude behind no sign or `+`, and behind `-`
abbrev pub fit_pos : Option ℕ → Option ℤ
fit_pos none = none
fit_pos (some n) = if ltb n half_range then some (pos n) else none

abbrev pub fit_neg : Option ℕ → Option ℤ
fit_neg none = none
fit_neg (some zero) = some (pos 0)
fit_neg (some (suc n)) = if ltb n half_range then some (negsuc n) else none

unfoldable pub atoi : Bytes → Option ℤ
unfolding parse_ℕ
atoi [] = none
atoi (c ∷ s) =
    if c == b'-'
    then fit_neg (parse_ℕ s)
    else if c == b'+'
    then fit_pos (parse_ℕ s)
    else fit_pos (parse_ℕ (c ∷ s))
