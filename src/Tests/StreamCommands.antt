-- ===== src/Tests/StreamCommands.antt =====
-- The commands on streams.
use redis_go.Prelude.{◌≡◌, ◌≢◌, refl, ap, [], ◌∷◌, Bytes, codes, List, arith}
use redis_go.Prelude.Int.{pos}
use redis_go.Prelude.Outcome.{stuck}
use redis_go.StreamStruct.{add_entry}
use redis_go.MemDb.Expiry.{new_mem_db_lem}
use redis_go.MemDb.Objects.{absent, wrong, found}
use redis_go.MemDb.Objects.Laws.{IsWell}
use redis_go.MemDb.Streams.{stream_kind, StreamDb, found_value, no_options, xadd, parse_loop}
use redis_go.MemDb.Streams.Laws.{Stores, stream_of, xadd-Stores}
use redis_go.MemDb.Streams.Spinning.{xadd_spins, parse_loop-terminates}
use redis_go.Tests.Data.{key_a, empty_db, empty_db-IsSound}

-- a new database, with no stream
abbrev no_stream : StreamDb
no_stream = record { mem = empty_db; objects = [] }

no_stream-absent : (k : Bytes) → found stream_kind no_stream.mem k ≡ absent
no_stream-absent k = ap found_value (new_mem_db_lem (pos 4) k).0

no_stream-IsWell : IsWell stream_kind no_stream
no_stream-IsWell = record {
  sound = empty_db-IsSound;
  inside = λ k a e. let n = no_stream-absent k in ground arith;
  apart = λ k j a e f. let n = no_stream-absent k in ground arith;
}

no_stream-right : found stream_kind no_stream.mem key_a ≢ wrong
no_stream-right e = let n = no_stream-absent key_a in ground arith

xadd-Stores_example :
    Stores key_a no_stream
      (add_entry (pos 1526) no_options.id (codes "f" ∷ codes "x" ∷ []) (stream_of no_stream key_a))
      (xadd 9 (pos 1526) (codes "XADD" ∷ key_a ∷ codes "*" ∷ codes "f" ∷ codes "x" ∷ []) no_stream)
xadd-Stores_example =
    xadd-Stores 8 (pos 1526) (codes "XADD") key_a (codes "f") (codes "x") [] no_stream
      no_stream-IsWell no_stream-right refl

xadd_spins_example :
    xadd 99
      (pos 1526)
      (codes "XADD" ∷ key_a ∷ codes "~" ∷ codes "*" ∷ codes "f" ∷ codes "x" ∷ [])
      no_stream
    ≡ stuck
xadd_spins_example =
    xadd_spins 99 (pos 1526) (codes "XADD") key_a (codes "*") (codes "f") (codes "x" ∷ []) no_stream

abbrev few_words : List Bytes
few_words = codes "MAXLEN" ∷ codes "5" ∷ codes "*" ∷ codes "f" ∷ codes "x" ∷ []

parse_loop-terminates_example : parse_loop 6 few_words no_options ≢ stuck
parse_loop-terminates_example =
    parse_loop-terminates 6 few_words no_options (ground arith)
      (refl, (refl, (refl, (refl, (refl, tt)))))
