-- ===== src/MemDb/SetString/Sound.antt =====
-- SET keeps the invariant of the database.
use redis_go.Prelude.{arith, List, [], ◌∷◌, Bytes, to_lower}
use redis_go.Prelude.Int.{ℤ}
use redis_go.MemDb.{MemDb}
use redis_go.MemDb.Expiry.{IsSound}
use redis_go.MemDb.Sound.{Keeps}
use redis_go.MemDb.Strings.{Held, absent, wrong, bytes, held}
use redis_go.MemDb.SetString.{
  Options, no_options, Parsed, options, refused, index_panic, parse_options, present, write,
  set_held, set_parsed, set_string,
}
use redis_go.MemDb.SetString.Laws.{write_lem, apply_ttl_lem}

module _ (m : MemDb) (h : IsSound m) (now : ℤ) (key text : Bytes) where
  written-IsSound : (o : Options) (old : Held) → IsSound (write o key text m (present old)).0
  written-IsSound o old = (write_lem o key text m (present old) key h).0

  set_held-Keeps : (o : Options) (old : Held) → Keeps (set_held now o key text m old)
  unfolding set_held
  set_held-Keeps o wrong = h
  set_held-Keeps o absent = (apply_ttl_lem now o key _ key (written-IsSound o absent)).0
  set_held-Keeps o (bytes s) = (apply_ttl_lem now o key _ key (written-IsSound o (bytes s))).0

  set_parsed-Keeps : (p : Parsed) → Keeps (set_parsed now key text m p)
  unfolding set_parsed
  set_parsed-Keeps (refused why) = h
  set_parsed-Keeps index_panic = tt
  set_parsed-Keeps (options o) = ground (arith, set_held-Keeps o (held m key))

pub set_string-Keeps :
    (m : MemDb) → IsSound m → (now : ℤ) (cmd : List Bytes) → Keeps (set_string now cmd m)
unfolding set_string
set_string-Keeps m h now [] = tt
set_string-Keeps m h now (c ∷ []) = tt
set_string-Keeps m h now (c ∷ key ∷ []) = h
set_string-Keeps m h now (c ∷ key ∷ text ∷ opts) =
    set_parsed-Keeps m h now (to_lower key) text (parse_options opts no_options)
