-- ===== src/Tests/Protocol.antt =====
-- The parser, the printing of integers and the patterns.
use redis_go.Prelude.{◌≡◌, refl, none, some, [], ◌∷◌, ◌++◌, ◌≢◌, ◌⊎◌, codes, arith}
use redis_go.Prelude.Int.{negsuc}
use redis_go.Prelude.Outcome.{ok, panic, stuck}
use redis_go.Strconv.{itoa, atoi}
use redis_go.Strconv.RoundTrip.{atoi-itoa}
use redis_go.Resp.Structure.{Elements, nil, cons, bulk_data, int_data, array_data, to_bytes}
use redis_go.Resp.State.{parsed}
use redis_go.Resp.Reader.{Ending, eof, failing}
use redis_go.Resp.Parser.{parse_stream, prepend, process_crash, out_of_fuel}
use redis_go.Resp.Parser.Progress.{parse_stream-terminates}
use redis_go.Resp.Parser.RoundTrip.{parse_stream-to_bytes}
use redis_go.Resp.Parser.Crash.{line_feed_crashes}
use redis_go.Util.Pattern.{patten_match}
use redis_go.Util.Pattern.Stars.{patten_match-Runs}
use redis_go.Util.Pattern.Glob.{glob}
use redis_go.Util.Pattern.Prefix.{patten_match-glob}

-- the request `SET a -3` with a nil at its end
abbrev request : Elements
request =
    cons (bulk_data (some (codes "SET")))
      (cons (bulk_data (some (codes "a"))) (cons (int_data (negsuc 2)) (cons (bulk_data none) nil)))

-- a read fails, and then comes the header of a bulk, and the end
abbrev one_error : Ending
one_error = failing (codes "$3") eof

parse_stream-terminates_example : (parse_stream one_error (codes "*1")).fate ≢ out_of_fuel
parse_stream-terminates_example = parse_stream-terminates one_error (codes "*1")

parse_stream-to_bytes_example :
    parse_stream eof (to_bytes (array_data request) ++ codes "x")
    ≡ prepend (parsed (array_data request) ∷ []) (parse_stream eof (codes "x"))
parse_stream-to_bytes_example =
    parse_stream-to_bytes eof request (codes "x")
      (omega arith, (omega arith, (omega arith, (tt, tt)))) (omega arith)

line_feed_crashes_example :
    parse_stream eof (to_bytes (array_data request) ++ 10 ∷ codes "x")
    ≡ record { sent = parsed (array_data request) ∷ []; fate = process_crash }
line_feed_crashes_example =
    line_feed_crashes eof request (codes "x") (omega arith, (omega arith, (omega arith, (tt, tt))))
      (omega arith)

atoi-itoa_example : atoi (itoa (negsuc 41)) ≡ some (negsuc 41)
atoi-itoa_example = atoi-itoa (negsuc 41) (omega arith)

patten_match-Runs_example : patten_match (codes "a[b-") (codes "ab") ≢ stuck
patten_match-Runs_example = patten_match-Runs (codes "a[b-") (codes "ab")

patten_match-glob_example :
    (patten_match (codes "a*c") (codes "abc") ≡ ok (glob (codes "a*c") (codes "abc")))
    ⊎ (patten_match (codes "a*c") (codes "abc") ≡ panic)
patten_match-glob_example = patten_match-glob (codes "a*c") (codes "abc") refl
