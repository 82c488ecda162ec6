-- ===== src/Resp/Parser/Crash.antt =====
-- A line feed with no carriage return, where a line is expected.
use redis_go.Prelude.{◌+◌, ◌<◌, ◌≡◌, ap, ◌∙◌, refl, [], ◌∷◌, ◌++◌, Bytes, length, arith}
use redis_go.Prelude.Int.{half_range}
use redis_go.Resp.Structure.{Elements, array_data, count, to_bytes}
use redis_go.Resp.State.{parsed, init}
use redis_go.Resp.Reader.{Ending, size}
use redis_go.Resp.Reader.Lines.{read_line-line_feed}
use redis_go.Resp.Parser.{crashed, line_round, round, follow, prepend, process_crash, parse_stream}
use redis_go.Resp.Parser.Arrays.{run-step}
use redis_go.Resp.Parser.RoundTrip.{AllFlat, parse_stream-to_bytes}

round-line_feed : (e : Ending) (s : Bytes) → round e init (10 ∷ s) ≡ crashed
unfolding round line_round
round-line_feed e s = rw (read_line-line_feed e init s refl)

stream-line_feed :
    (e : Ending) (s : Bytes) → parse_stream e (10 ∷ s) ≡ record { sent = []; fate = process_crash }
unfolding parse_stream follow
stream-line_feed e s =
    run-step e init (length s + size e + 1) (length (10 ∷ s) + size e + 1) (10 ∷ s) (omega arith)
      (round-line_feed e s)

-- After a request is read, an empty line that ends in a line feed alone makes `readLine` index its
-- message at -1: the request has been sent on, and then the process crashes, whatever follows.
pub line_feed_crashes :
    (e : Ending) (ds : Elements) (rest : Bytes)
    → AllFlat ds
    → count ds < half_range
    → parse_stream e (to_bytes (array_data ds) ++ 10 ∷ rest)
      ≡ record { sent = parsed (array_data ds) ∷ []; fate = process_crash }
line_feed_crashes e ds rest flat h =
    parse_stream-to_bytes e ds (10 ∷ rest) flat h
    ∙ ap (prepend (parsed (array_data ds) ∷ [])) (stream-line_feed e rest)
