-- ===== src/MemDb/Strings/Sound.antt =====
-- The string commands keep the invariant of the database.
use redis_go.Prelude.{ℕ, arith, Option, none, some, List, [], ◌∷◌, Bytes}
use redis_go.Prelude.Int.{ℤ, pos, negsuc}
use redis_go.Strconv.{atoi}
use redis_go.MemDb.{bytes_value, MemDb}
use redis_go.MemDb.Expiry.{IsSound}
use redis_go.MemDb.Sound.{Keeps, set-IsSound, set_ttl-IsSound, set_if_not_exist-IsSound}
use redis_go.MemDb.Strings.{
  Held, absent, wrong, bytes, held, set_bytes, get_held, get_string, set_range_held, set_range_at,
  set_range_string, m_get_string, pairs, m_set_pairs, m_set_string, set_ex_at, set_ex_string,
  set_nx_string, str_len_held, str_len_string, append_held, append_string,
}
use redis_go.MemDb.Strings.Laws.{m_set_loop_lem}

module _ (m : MemDb) (h : IsSound m) where
  get_held-Keeps : (o : Held) → Keeps (get_held m o)
  unfolding get_held
  get_held-Keeps absent = h
  get_held-Keeps wrong = h
  get_held-Keeps (bytes s) = h

  pub get_string-Keeps : (cmd : List Bytes) → Keeps (get_string cmd m)
  unfolding get_string
  get_string-Keeps [] = tt
  get_string-Keeps (c ∷ []) = ground arith
  get_string-Keeps (c ∷ key ∷ []) = ground (arith, get_held-Keeps (held m key))
  get_string-Keeps (c ∷ key ∷ a ∷ args) = ground arith

  set_range_held-Keeps :
      (n : ℕ) (key text : Bytes) (o : Held) → Keeps (set_range_held n key text m o)
  unfolding set_range_held
  set_range_held-Keeps n key text absent = set-IsSound m key h _
  set_range_held-Keeps n key text wrong = h
  set_range_held-Keeps n key text (bytes s) = set-IsSound m key h _

  set_range_at-Keeps : (o : Option ℤ) (key text : Bytes) → Keeps (set_range_at o key text m)
  unfolding set_range_at
  set_range_at-Keeps none key text = h
  set_range_at-Keeps (some (negsuc n)) key text = h
  set_range_at-Keeps (some (pos n)) key text = set_range_held-Keeps n key text (held m key)

  pub set_range_string-Keeps : (cmd : List Bytes) → Keeps (set_range_string cmd m)
  unfolding set_range_string
  set_range_string-Keeps [] = tt
  set_range_string-Keeps (c ∷ []) = ground arith
  set_range_string-Keeps (c ∷ key ∷ []) = ground arith
  set_range_string-Keeps (c ∷ key ∷ n ∷ []) = ground arith
  set_range_string-Keeps (c ∷ key ∷ n ∷ text ∷ []) =
      ground (arith, set_range_at-Keeps (atoi n) key text)
  set_range_string-Keeps (c ∷ key ∷ n ∷ text ∷ a ∷ args) = ground arith

  pub m_get_string-Keeps : (cmd : List Bytes) → Keeps (m_get_string cmd m)
  unfolding m_get_string
  m_get_string-Keeps [] = tt
  m_get_string-Keeps (c ∷ []) = ground arith
  m_get_string-Keeps (c ∷ key ∷ args) = ground arith

  m_set_pairs-Keeps : (o : Option (List (Bytes × Bytes))) → Keeps (m_set_pairs o m)
  unfolding m_set_pairs
  m_set_pairs-Keeps none = h
  m_set_pairs-Keeps (some []) = h
  m_set_pairs-Keeps (some (p ∷ ps)) = (m_set_loop_lem (p ∷ ps) m [] h).0

  pub m_set_string-Keeps : (cmd : List Bytes) → Keeps (m_set_string cmd m)
  unfolding m_set_string
  m_set_string-Keeps [] = tt
  m_set_string-Keeps (c ∷ args) = ground (arith, m_set_pairs-Keeps (pairs args))

  set_ex_at-Keeps :
      (now : ℤ) (o : Option ℤ) (n key text : Bytes) → Keeps (set_ex_at now o n key text m)
  unfolding set_ex_at
  set_ex_at-Keeps now none n key text = h
  set_ex_at-Keeps now (some ex) n key text =
      set_ttl-IsSound (set_bytes m key text) key (set-IsSound m key h (bytes_value text)) _

  pub set_ex_string-Keeps : (now : ℤ) (cmd : List Bytes) → Keeps (set_ex_string now cmd m)
  unfolding set_ex_string
  set_ex_string-Keeps now [] = tt
  set_ex_string-Keeps now (c ∷ []) = ground arith
  set_ex_string-Keeps now (c ∷ key ∷ []) = ground arith
  set_ex_string-Keeps now (c ∷ key ∷ n ∷ []) = ground arith
  set_ex_string-Keeps now (c ∷ key ∷ n ∷ text ∷ []) =
      ground (arith, set_ex_at-Keeps now (atoi n) n key text)
  set_ex_string-Keeps now (c ∷ key ∷ n ∷ text ∷ a ∷ args) = ground arith

  pub set_nx_string-Keeps : (cmd : List Bytes) → Keeps (set_nx_string cmd m)
  unfolding set_nx_string
  set_nx_string-Keeps [] = tt
  set_nx_string-Keeps (c ∷ []) = ground arith
  set_nx_string-Keeps (c ∷ key ∷ []) = ground arith
  set_nx_string-Keeps (c ∷ key ∷ text ∷ []) =
      ground (arith, set_if_not_exist-IsSound m key h (bytes_value text))
  set_nx_string-Keeps (c ∷ key ∷ text ∷ a ∷ args) = ground arith

  str_len_held-Keeps : (o : Held) → Keeps (str_len_held m o)
  unfolding str_len_held
  str_len_held-Keeps absent = h
  str_len_held-Keeps wrong = h
  str_len_held-Keeps (bytes s) = h

  pub str_len_string-Keeps : (cmd : List Bytes) → Keeps (str_len_string cmd m)
  unfolding str_len_string
  str_len_string-Keeps [] = tt
  str_len_string-Keeps (c ∷ []) = ground arith
  str_len_string-Keeps (c ∷ key ∷ []) = ground (arith, str_len_held-Keeps (held m key))
  str_len_string-Keeps (c ∷ key ∷ a ∷ args) = ground arith

  append_held-Keeps : (key text : Bytes) (o : Held) → Keeps (append_held key text m o)
  unfolding append_held
  append_held-Keeps key text absent = set-IsSound m key h _
  append_held-Keeps key text wrong = h
  append_held-Keeps key text (bytes s) = set-IsSound m key h _

  pub append_string-Keeps : (cmd : List Bytes) → Keeps (append_string cmd m)
  unfolding append_string
  append_string-Keeps [] = tt
  append_string-Keeps (c ∷ []) = ground arith
  append_string-Keeps (c ∷ key ∷ []) = ground arith
  append_string-Keeps (c ∷ key ∷ text ∷ []) =
      ground (arith, append_held-Keeps key text (held m key))
  append_string-Keeps (c ∷ key ∷ text ∷ a ∷ args) = ground arith
