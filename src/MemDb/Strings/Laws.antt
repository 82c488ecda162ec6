-- ===== src/MemDb/Strings/Laws.antt =====
-- What the string commands leave at every key.
use redis_go.Prelude.{
  ◌≡◌, refl, Bool, true, false, Option, none, some, List, [], ◌∷◌, ◌++◌, Bytes, codes, bytes_equal,
  bytes_equal_refl, length, if◌then◌else◌, arith,
}
use redis_go.ConcurrentMap.Laws.{set_lem}
use redis_go.Resp.Structure.{bulk_data}
use redis_go.MemDb.{Value, bytes_value, MemDb, del_ttl}
use redis_go.MemDb.Expiry.{IsSound, value_of, ttl_at, del_ttl_lem}
use redis_go.MemDb.Reply.{reply, reply_int}
use redis_go.MemDb.Strings.{
  set_bytes, Held, absent, wrong, bytes, held, get_held, get_string, append_held, append_string,
  str_len_held, str_len_string, m_set_loop,
}

-- the write of a string at one key
pub set_bytes_lem :
    (m : MemDb) (key s j : Bytes)
    → IsSound m
    → IsSound (set_bytes m key s)
      × (value_of (set_bytes m key s) j
          ≡ (if bytes_equal key j then some (bytes_value s) else value_of m j))
set_bytes_lem m key s j h = ground (arith, set_lem m.db key h.db (bytes_value s) j)

-- the value that the pairs give a key: the last one counts
abbrev pub last_value : List (Bytes × Bytes) → Bytes → Option Value → Option Value
last_value [] j old = old
last_value ((key, text) ∷ ps) j old =
    last_value ps j (if bytes_equal key j then some (bytes_value text) else old)

abbrev pub is_key : List (Bytes × Bytes) → Bytes → Bool
is_key [] j = false
is_key ((key, text) ∷ ps) j = if bytes_equal key j then true else is_key ps j

-- On a sound database, which stays sound, the loop of MSET gives every key of the command its last
-- value and takes its time to expire away; every other key keeps its value and its time.
pub m_set_loop_lem :
    (ps : List (Bytes × Bytes)) (m : MemDb) (j : Bytes)
    → IsSound m
    → IsSound (m_set_loop ps m)
      × (value_of (m_set_loop ps m) j ≡ last_value ps j (value_of m j))
      × (ttl_at (m_set_loop ps m) j ≡ (if is_key ps j then none else ttl_at m j))
unfolding m_set_loop
m_set_loop_lem [] m j h = (h, refl, refl)
m_set_loop_lem ((key, text) ∷ ps) m j h =
    let (s1, n, v1, t1) = del_ttl_lem key m j h in
    let m' : MemDb = set_bytes (del_ttl key m).0 key text in
    let (s2, v2) = set_bytes_lem (del_ttl key m).0 key text j s1 in
    let (s3, v3, t3) = m_set_loop_lem ps m' j s2 in (s3, ground arith, ground arith)

abbrev get_one : Bytes → List Bytes
get_one key = codes "GET" ∷ key ∷ []

abbrev append_one : Bytes → Bytes → List Bytes
append_one key text = codes "APPEND" ∷ key ∷ text ∷ []

abbrev str_len_one : Bytes → List Bytes
str_len_one key = codes "STRLEN" ∷ key ∷ []

-- the bytes that APPEND adds to: none at an absent key
abbrev pub old_bytes : Held → Bytes
old_bytes (bytes s) = s
old_bytes _ = []

abbrev pub IsText : Held → Type 0
IsText wrong = ⊥
IsText _ = Unit

append_held_lem :
    (m : MemDb) (key text : Bytes) (o : Held)
    → IsText o
    → append_held key text m o
      ≡ reply_int (set_bytes m key (old_bytes o ++ text)) (length (old_bytes o ++ text))
unfolding append_held
append_held_lem m key text absent t = refl
append_held_lem m key text wrong t = elim t [ ]
append_held_lem m key text (bytes s) t = refl

-- a key holds what was written
pub held-set_bytes :
    (m : MemDb) (key s : Bytes) → IsSound m → held (set_bytes m key s) key ≡ bytes s
held-set_bytes m key s h =
    ground (arith, set_lem m.db key h.db (bytes_value s) key, bytes_equal_refl key)

-- APPEND, on a sound database, at a key that holds a string or nothing: the reply is the new length,
-- GET and STRLEN read the old bytes with the new ones behind them, and every other key keeps its value.
pub append_string_lem :
    (m : MemDb) (key text j : Bytes)
    → IsSound m
    → IsText (held m key)
    → let s = old_bytes (held m key) ++ text in
      (m' : MemDb) × (append_string (append_one key text) m ≡ reply_int m' (length s))
      × (get_string (get_one key) m' ≡ reply m' (bulk_data (some s)))
      × (str_len_string (str_len_one key) m' ≡ reply_int m' (length s))
      × (value_of m' j ≡ (if bytes_equal key j then some (bytes_value s) else value_of m j))
unfolding append_string get_string str_len_string
append_string_lem m key text j h t =
    let s : Bytes = old_bytes (held m key) ++ text in
    let new : held (set_bytes m key s) key ≡ bytes s = held-set_bytes m key s h in
    (
      set_bytes m key s,
      append_held_lem m key text (held m key) t,
      rw (new, get_held),
      rw (new, str_len_held),
      (set_bytes_lem m key s j h).1,
    )
