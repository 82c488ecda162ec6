-- ===== src/Tests/Streams.antt =====
-- Streams and their identifiers.
use redis_go.Prelude.{◌≡◌, refl, some, [], ◌∷◌, codes, arith}
use redis_go.Prelude.Int.{ℤ, pos, negsuc}
use redis_go.StreamStruct.{StreamId, Stream, format, parse, add_entry}
use redis_go.StreamStruct.Text.{parse-format}
use redis_go.StreamStruct.Adding.{timed, Adds, add_entry-Adds}
use redis_go.Tests.Data.{key_a, key_b}

abbrev id : ℤ → ℤ → StreamId
id t n = record { time = t; seq_num = n }

-- a stream of two entries
abbrev stream_2 : Stream
stream_2 = record {
  time_stamps = id (pos 5) (pos 0) ∷ id (pos 7) (pos 3) ∷ [];
  entry = (codes "5-0", key_a ∷ []) ∷ (codes "7-3", key_b ∷ []) ∷ [];
}

add_entry-Adds_example :
    Adds
      (timed (pos 7) (id (negsuc 0) (negsuc 0)))
      (key_b ∷ [])
      stream_2
      (add_entry (pos 7) (id (negsuc 0) (negsuc 0)) (key_b ∷ []) stream_2)
add_entry-Adds_example =
    add_entry-Adds (pos 7) (id (negsuc 0) (negsuc 0)) (key_b ∷ []) stream_2 (refl, tt)
      (ground arith, ground arith)

parse-format_example : parse (format (id (pos 1526) (pos 7))) ≡ some (id (pos 1526) (pos 7))
parse-format_example = parse-format 1526 7 (ground arith) (ground arith)
