-- ===== src/Resp/Parser/RoundTrip.antt =====
-- What a client writes by `ToBytes` is what the parser sends on.
use redis_go.Prelude.{
  ℕ, ◌+◌, ◌<◌, ◌≡◌, refl, sym, ◌∙◌, true, false, [], ◌∷◌, ◌++◌, ap, append-nil, append_assoc, some,
  Bytes, length, arith,
}
use redis_go.Prelude.Int.{pos, half_range}
use redis_go.Prelude.Outcome.{ok}
use redis_go.Strconv.{itoa}
use redis_go.Strconv.RoundTrip.{atoi-itoa}
use redis_go.Resp.Structure.{
  RedisData, array_data, Elements, nil, cons, count, append_data, crlf, to_bytes, elements_to_bytes,
}
use redis_go.Resp.State.{ReadState, parsed, init}
use redis_go.Resp.Reader.{Ending, size}
use redis_go.Resp.Parser.{
  array_round, array_header_state, Round, next, deliver, message_round, round, follow, run, prepend,
  Transcript, parse_stream,
}
use redis_go.Resp.Parser.Progress.{run-agrees, parse_stream-terminates}
use redis_go.Resp.Parser.Arrays.{
  IsFlat, rounds, itoa-IsLine, array_header, round-line, run-step, run-flat,
}

abbrev pub AllFlat : Elements → Type 0
AllFlat nil = Unit
AllFlat (cons d ds) = IsFlat d × AllFlat ds

abbrev all_rounds : Elements → ℕ
all_rounds nil = 0
all_rounds (cons d ds) = rounds d + all_rounds ds

abbrev append_all : Elements → Elements → Elements
append_all nil es = es
append_all (cons d ds) es = cons d (append_all ds es)

count-append_data : (ds : Elements) (d : RedisData) → count (append_data ds d) ≡ count ds + 1
unfolding append_data
count-append_data nil d = refl
count-append_data (cons e ds) d = omega (arith, count-append_data ds d)

append_all-append_data :
    (ds : Elements) (d : RedisData) (es : Elements)
    → append_all (append_data ds d) es ≡ append_all ds (cons d es)
unfolding append_data
append_all-append_data nil d es = refl
append_all-append_data (cons e ds) d es = rw (append_all-append_data ds d es)

append_data-last : (ds : Elements) (d : RedisData) → append_data ds d ≡ append_all ds (cons d nil)
unfolding append_data
append_data-last nil d = refl
append_data-last (cons e ds) d = rw (append_data-last ds d)

-- the state in an array of n elements, of which `done` are read
abbrev reading : ℕ → Elements → ReadState
reading n done = record {
  bulk_len = pos 0;
  array_len = pos n;
  multi_line = false;
  elements = done;
  in_array = true;
}

deliver-last :
    (n : ℕ) (done : Elements) (d : RedisData) (rest : Bytes)
    → n ≡ count done + 1
    → deliver (reading n done) (parsed d) rest
      ≡ next (parsed (array_data (append_all done (cons d nil))) ∷ []) init rest
unfolding deliver
deliver-last n done d rest h = ground (arith, count-append_data done d, append_data-last done d)

deliver-more :
    (n : ℕ) (done : Elements) (d : RedisData) (rest : Bytes)
    → count done + 1 < n
    → deliver (reading n done) (parsed d) rest ≡ next [] (reading n (append_data done d)) rest
unfolding deliver
deliver-more n done d rest h = ground (arith, count-append_data done d)

run-elements :
    (e : Ending) (n f : ℕ) (done : Elements) (d : RedisData) (ds : Elements) (rest : Bytes)
    → n ≡ count done + count (cons d ds)
    → AllFlat (cons d ds)
    → run (all_rounds (cons d ds) + f) e (reading n done) (elements_to_bytes (cons d ds) ++ rest)
      ≡ prepend (parsed (array_data (append_all done (cons d ds))) ∷ []) (run f e init rest)
unfolding to_bytes follow
run-elements e n f done d nil rest h (flat, _) =
    let fuel : rounds d + 0 + f ≡ rounds d + f = omega arith in
    rw (fuel, append-nil)
      (run-flat e (reading n done) f d rest flat
        ∙ ap (follow (run f) e) (deliver-last n done d rest h))
run-elements e n f done d (cons c ds) rest h (flat, more) =
    let left : ℕ = all_rounds (cons c ds) + f in
    let fuel : rounds d + all_rounds (cons c ds) + f ≡ rounds d + left = omega arith in
    rw (fuel, append_assoc)
      (run-flat e (reading n done) left d (elements_to_bytes (cons c ds) ++ rest) flat
        ∙ ap (follow (run left) e) (deliver-more n done d _ (omega arith))
        ∙ run-elements e n f (append_data done d) c ds rest
            (omega (arith, count-append_data done d)) more
        ∙ ap (λ es. prepend (parsed (array_data es) ∷ []) (run f e init rest))
            (append_all-append_data done d (cons c ds)))

abbrev behind_header : Elements → Bytes → Round
behind_header nil rest = next (parsed (array_data nil) ∷ []) init rest
behind_header (cons d ds) rest = next [] (reading (count (cons d ds)) nil) rest

-- the header's round
round-header :
    (e : Ending) (ds : Elements) (rest : Bytes)
    → count ds < half_range
    → round e init (b'*' ∷ itoa (pos (count ds)) ++ crlf ++ rest) ≡ behind_header ds rest
unfolding message_round array_round array_header_state
round-header e ds rest h =
    rw
      (
        round-line e init b'*' (itoa (pos (count ds))) rest (λ p. omega arith)
            (itoa-IsLine (pos (count ds))),
        array_header b'*' (itoa (pos (count ds))) init,
        atoi-itoa (pos (count ds)) h,
      )
      (split ds)
  where
    split :
        (es : Elements)
        → array_round
            (b'*' ∷ itoa (pos (count ds)) ++ crlf)
            rest
            (ok (array_header_state (some (pos (count es))) init))
          ≡ behind_header es rest
    split nil = refl
    split (cons d es) = ground arith

run-array :
    (e : Ending) (f : ℕ) (ds : Elements) (rest : Bytes)
    → AllFlat ds
    → count ds < half_range
    → run (1 + (all_rounds ds + f)) e init (to_bytes (array_data ds) ++ rest)
      ≡ prepend (parsed (array_data ds) ∷ []) (run f e init rest)
unfolding to_bytes follow
run-array e f nil rest flat h =
    rw append-nil (run-step e init f (1 + (0 + f)) _ (omega arith) (round-header e nil rest h))
run-array e f (cons d ds) rest flat h =
    let es : Elements = cons d ds in
    rw append_assoc (
      run-step e init (all_rounds es + f) (1 + (all_rounds es + f)) _ (omega arith)
        (round-header e es (elements_to_bytes es ++ rest) h)
      ∙ run-elements e (count es) f nil d ds rest (omega arith) flat)

-- An array of flat data that a client writes by `ToBytes` comes out of the parser as it was, whatever
-- follows it on the connection, and the parser goes on with what follows: so requests may be sent one
-- behind another. The data are texts with no line feed, 64-bit integers, nil bulks and bulks of any
-- bytes that `make` can hold, and the array's length is an `int`.
pub parse_stream-to_bytes :
    (e : Ending) (ds : Elements) (rest : Bytes)
    → AllFlat ds
    → count ds < half_range
    → parse_stream e (to_bytes (array_data ds) ++ rest)
      ≡ prepend (parsed (array_data ds) ∷ []) (parse_stream e rest)
unfolding parse_stream
parse_stream-to_bytes e ds rest flat h =
    let f : ℕ = length rest + size e + 1 in
    let once : run (1 + (all_rounds ds + f)) e init (to_bytes (array_data ds) ++ rest)
        ≡ prepend (parsed (array_data ds) ∷ []) (run f e init rest) =
      run-array e f ds rest flat h in
    run-agrees _ _ e init _ (parse_stream-terminates e (to_bytes (array_data ds) ++ rest))
      (λ n. parse_stream-terminates e rest (sym (ap (λ (t : Transcript). t.fate) once) ∙ n))
    ∙ once
