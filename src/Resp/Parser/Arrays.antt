-- ===== src/Resp/Parser/Arrays.antt =====
-- One datum on the wire is one round of the loop, and a bulk is two.
use redis_go.Prelude.{
  ℕ, suc, ◌+◌, ◌-◌, ◌≤◌, ◌≡◌, ◌≢◌, refl, ap, ◌∙◌, true, false, [], ◌∷◌, ◌++◌, append_assoc, none,
  some, Bytes, length, take, length-append, take-append_length, ltb, arith, All,
}
use redis_go.Prelude.Int.{ℤ, pos, negsuc, IsInt64}
use redis_go.Prelude.Outcome.{ok}
use redis_go.Strconv.{itoa, format_ℕ, atoi}
use redis_go.Strconv.RoundTrip.{atoi-itoa, format_ℕ-IsDigit, IsDigit}
use redis_go.Resp.Structure.{
  RedisData, string_data, bulk_data, int_data, error_data, array_data, nil_array, plain_data, crlf,
  to_bytes, bulk_to_bytes,
}
use redis_go.Resp.State.{ReadState, parsed}
use redis_go.Resp.Reader.{Ending, max_alloc}
use redis_go.Resp.Reader.Lines.{IsLine, read_line-line, read_line-bulk}
use redis_go.Resp.Parser.{
  payload, single, parse_single_line, parse_multi_line, int_or_error, parse_bulk_header,
  bulk_header_state, parse_array_header, array_header_state, Round, next, bulk_read, deliver,
  bulk_round, message_round, line_round, round, follow, run,
}

-- The data that hold no other data, within what the protocol can carry: a text with no line feed, a
-- 64-bit integer, and bytes that `make` can hold.
abbrev pub IsFlat : RedisData → Type 0
IsFlat (string_data s) = IsLine s
IsFlat (error_data s) = IsLine s
IsFlat (int_data n) = IsInt64 n
IsFlat (bulk_data none) = Unit
IsFlat (bulk_data (some s)) = length s + 2 ≤ max_alloc
IsFlat _ = ⊥

-- how many rounds a flat datum takes
abbrev pub rounds : RedisData → ℕ
rounds (bulk_data (some s)) = 2
rounds _ = 1

digits-IsLine : (s : Bytes) → All IsDigit s → IsLine s
digits-IsLine [] h = tt
digits-IsLine (c ∷ s) (h, hs) = (λ e. omega arith, digits-IsLine s hs)

pub itoa-IsLine : (n : ℤ) → IsLine (itoa n)
unfolding itoa
itoa-IsLine (pos n) = digits-IsLine (format_ℕ n) (format_ℕ-IsDigit n)
itoa-IsLine (negsuc n) =
    (λ e. omega arith, digits-IsLine (format_ℕ (n + 1)) (format_ℕ-IsDigit (n + 1)))

take_before_crlf : (s : Bytes) → take (length (s ++ crlf) - 2) (s ++ crlf) ≡ s
take_before_crlf s =
    let e : length (s ++ crlf) - 2 ≡ length s = omega (arith, length-append s crlf) in
    rw e (take-append_length s crlf)

long_enough : (s : Bytes) → ltb (length (s ++ crlf)) 2 ≡ false
long_enough s = ground (arith, length-append s crlf)

pub payload-line : (c : ℕ) (s : Bytes) → payload (c ∷ s ++ crlf) ≡ ok s
unfolding payload
payload-line c s = rw (long_enough s, take_before_crlf s)

single_line : (c : ℕ) (s : Bytes) → parse_single_line (c ∷ s ++ crlf) ≡ single c s
unfolding parse_single_line
single_line c s = rw (long_enough s, take_before_crlf s)

multi_line : (s : Bytes) → parse_multi_line (s ++ crlf) ≡ parsed (bulk_data (some s))
unfolding parse_multi_line
multi_line s = rw (long_enough s, take_before_crlf s)

bulk_header :
    (c : ℕ) (s : Bytes) (st : ReadState)
    → parse_bulk_header (c ∷ s ++ crlf) st ≡ ok (bulk_header_state (atoi s) st)
unfolding parse_bulk_header
bulk_header c s st = rw (payload-line c s, parse_bulk_header)

pub array_header :
    (c : ℕ) (s : Bytes) (st : ReadState)
    → parse_array_header (c ∷ s ++ crlf) st ≡ ok (array_header_state (atoi s) st)
unfolding parse_array_header
array_header c s st = rw (payload-line c s, parse_array_header)

pub run-step :
    (e : Ending) (st : ReadState) (f g : ℕ) (s : Bytes) {r : Round}
    → g ≡ suc f
    → round e st s ≡ r
    → run g e st s ≡ follow (run f) e r
unfolding run
run-step e st f g s n h = rw (n, run) (ap (follow (run f) e) h)

-- the bytes of a bulk, header first
pub regroup : (a b c d e : Bytes) → a ++ b ++ c ++ d ++ e ≡ a ++ b ++ (c ++ d ++ e)
regroup a b c d e = simp append_assoc

module _ (e : Ending) (st : ReadState) where
  -- a line behind an idle state goes to `switch msg[0]`
  pub round-line :
      (c : ℕ) (s rest : Bytes)
      → c ≢ 10
      → IsLine s
      → round e (bulk_read st) (c ∷ s ++ crlf ++ rest)
        ≡ message_round (bulk_read st) (c ∷ s ++ crlf) rest
  unfolding round line_round
  round-line c s rest n h = rw (read_line-line e (bulk_read st) (c ∷ s) rest refl (n, h))

  round-string :
      (s rest : Bytes)
      → IsLine s
      → round e (bulk_read st) (to_bytes (string_data s) ++ rest)
        ≡ deliver (bulk_read st) (parsed (string_data s)) rest
  unfolding message_round to_bytes single
  round-string s rest h = rw (round-line b'+' s rest (λ p. omega arith) h, single_line b'+' s)

  round-error :
      (s rest : Bytes)
      → IsLine s
      → round e (bulk_read st) (to_bytes (error_data s) ++ rest)
        ≡ deliver (bulk_read st) (parsed (error_data s)) rest
  unfolding message_round to_bytes single
  round-error s rest h = rw (round-line b'-' s rest (λ p. omega arith) h, single_line b'-' s)

  round-int :
      (n : ℤ) (rest : Bytes)
      → IsInt64 n
      → round e (bulk_read st) (to_bytes (int_data n) ++ rest)
        ≡ deliver (bulk_read st) (parsed (int_data n)) rest
  unfolding message_round to_bytes single int_or_error
  round-int n rest h = rw (
    round-line b':' (itoa n) rest (λ p. omega arith) (itoa-IsLine n),
    single_line b':' (itoa n),
    atoi-itoa n h,
  )

  round-nil :
      (rest : Bytes)
      → round e (bulk_read st) (to_bytes (bulk_data none) ++ rest)
        ≡ deliver (bulk_read st) (parsed (bulk_data none)) rest
  unfolding to_bytes bulk_to_bytes message_round parse_bulk_header bulk_round bulk_header_state
      payload atoi
  round-nil rest = rw (round-line b'$' (b'-' ∷ b'1' ∷ []) rest (λ p. omega arith) (omega arith))

  round-bulk_header :
      (s rest : Bytes)
      → length s + 2 ≤ max_alloc
      → round e (bulk_read st) (b'$' ∷ itoa (pos (length s)) ++ crlf ++ rest)
        ≡ next [] (record st { bulk_len = pos (length s); multi_line = true }) rest
  unfolding message_round bulk_round bulk_header_state
  round-bulk_header s rest h =
      rw
        (
          round-line b'$' (itoa (pos (length s))) rest (λ p. omega arith)
              (itoa-IsLine (pos (length s))),
          bulk_header b'$' (itoa (pos (length s))) (bulk_read st),
          atoi-itoa (pos (length s)) (omega arith),
        )
        (ground arith)

  round-bulk_body :
      (s rest : Bytes)
      → length s + 2 ≤ max_alloc
      → round e (record st { bulk_len = pos (length s); multi_line = true }) (s ++ crlf ++ rest)
        ≡ deliver (bulk_read st) (parsed (bulk_data (some s))) rest
  unfolding round line_round
  round-bulk_body s rest h = rw (
    read_line-bulk e (record st { bulk_len = pos (length s); multi_line = true }) s rest refl refl
        h,
    multi_line s,
  )

  -- what a flat datum's rounds do: they deliver it to the state
  pub run-flat :
      (f : ℕ) (d : RedisData) (rest : Bytes)
      → IsFlat d
      → run (rounds d + f) e (bulk_read st) (to_bytes d ++ rest)
        ≡ follow (run f) e (deliver (bulk_read st) (parsed d) rest)
  unfolding to_bytes bulk_to_bytes follow
  run-flat f (string_data s) rest h =
      run-step e (bulk_read st) f (1 + f) _ (omega arith) (round-string s rest h)
  run-flat f (error_data s) rest h =
      run-step e (bulk_read st) f (1 + f) _ (omega arith) (round-error s rest h)
  run-flat f (int_data n) rest h =
      run-step e (bulk_read st) f (1 + f) _ (omega arith) (round-int n rest h)
  run-flat f (bulk_data none) rest h =
      run-step e (bulk_read st) f (1 + f) _ (omega arith) (round-nil rest)
  run-flat f (bulk_data (some s)) rest h =
      rw (regroup (b'$' ∷ itoa (pos (length s))) crlf s crlf rest) (
        run-step e (bulk_read st) (suc f) (2 + f) _ (omega arith)
          (round-bulk_header s (s ++ crlf ++ rest) h)
        ∙ run-step e _ f (suc f) _ refl (round-bulk_body s rest h))
  run-flat f (array_data ds) rest h = elim h [ ]
  run-flat f nil_array rest h = elim h [ ]
  run-flat f (plain_data s) rest h = elim h [ ]
