-- ===== src/Tests/Commands.antt =====
-- The commands on strings.
use redis_go.Prelude.{true, List, [], ◌∷◌, Bytes, codes, arith}
use redis_go.Prelude.Int.{pos, add64, neg64}
use redis_go.Strconv.{itoa}
use redis_go.Strconv.RoundTrip.{atoi-itoa}
use redis_go.MemDb.{MemDb}
use redis_go.MemDb.Strings.{held}
use redis_go.MemDb.Strings.Laws.{IsText}
use redis_go.MemDb.Counters.{incr_string, decr_string, incr_by_string, decr_by_string}
use redis_go.MemDb.Counters.Laws.{Counts, Stores, counters_lem}
use redis_go.MemDb.SetString.{Options, no_options}
use redis_go.Tests.Data.{key_a, a_db, a_db-IsSound, a_db-held}

a_db-IsText : IsText (held a_db key_a)
a_db-IsText = rw a_db-held tt

a_db-Counts : Counts a_db key_a (pos 7)
a_db-Counts = rw a_db-held (atoi-itoa (pos 7) (omega arith))

counters_lem_example :
    Stores a_db key_a (pos 8) (incr_string (codes "INCR" ∷ key_a ∷ []) a_db)
    × Stores a_db key_a (pos 6) (decr_string (codes "DECR" ∷ key_a ∷ []) a_db)
    × Stores a_db key_a (pos 12) (incr_by_string (codes "INCRBY" ∷ key_a ∷ itoa (pos 5) ∷ []) a_db)
    × Stores a_db key_a (pos 2) (decr_by_string (codes "DECRBY" ∷ key_a ∷ itoa (pos 5) ∷ []) a_db)
unfolding add64 neg64
counters_lem_example =
    counters_lem a_db key_a (itoa (pos 5)) (pos 7) (pos 5) a_db-IsSound a_db-Counts (omega arith)
      (atoi-itoa (pos 5) (omega arith))

abbrev two_pairs : List (Bytes × Bytes)
two_pairs = (key_a, codes "x") ∷ (key_a, codes "y") ∷ []

-- SET with XX
abbrev xx_options : Options
xx_options = record no_options { xx = true }
