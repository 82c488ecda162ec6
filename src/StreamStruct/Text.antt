-- ===== src/StreamStruct/Text.antt =====
-- memdb/stream_struct.go: identifiers as text.
use redis_go.Prelude.{ℕ, ◌<◌, ◌≡◌, refl, some, [], ◌∷◌, ◌++◌, Bytes, All, arith}
use redis_go.Prelude.Int.{pos, half_range}
use redis_go.Strconv.{itoa}
use redis_go.Strconv.RoundTrip.{atoi-itoa, IsDigit, format_ℕ-IsDigit}
use redis_go.StreamStruct.{format, split, parse}

split-digits : (s : Bytes) → All IsDigit s → split s ≡ s ∷ []
unfolding split
split-digits [] h = refl
split-digits (c ∷ s) h = ground (arith, split-digits s)

split-dash : (s t : Bytes) → All IsDigit s → split (s ++ b'-' ∷ t) ≡ s ∷ split t
unfolding split
split-dash [] t h = refl
split-dash (c ∷ s) t h = ground (arith, split-dash s t)

itoa-IsDigit : (n : ℕ) → All IsDigit (itoa (pos n))
unfolding itoa
itoa-IsDigit n = format_ℕ-IsDigit n

-- An identifier with two parts that are not negative is read back from its text.
pub parse-format :
    (t n : ℕ)
    → t < half_range
    → n < half_range
    → parse (format (record { time = pos t; seq_num = pos n }))
      ≡ some (record { time = pos t; seq_num = pos n })
unfolding parse format
parse-format t n ht hn =
    rw
      (
        split-dash (itoa (pos t)) (itoa (pos n)) (itoa-IsDigit t),
        split-digits (itoa (pos n)) (itoa-IsDigit n),
        atoi-itoa (pos t) ht,
        atoi-itoa (pos n) hn,
      )
      refl
