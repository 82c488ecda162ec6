-- ===== src/MemDb/Counters/Laws.antt =====
-- The counter commands add to the integer that a key holds.
use redis_go.Prelude.{◌≡◌, refl, some, [], ◌∷◌, Bytes, codes, bytes_equal, if◌then◌else◌, arith}
use redis_go.Prelude.Int.{
  ℤ, pos, negsuc, IsInt64, add64, neg64, wrap-IsInt64, ◌+ℤ◌, sub_ℕ, neg_part, pos_part,
}
use redis_go.Strconv.{itoa, atoi}
use redis_go.Strconv.RoundTrip.{atoi-itoa}
use redis_go.Resp.Structure.{int_data}
use redis_go.MemDb.{bytes_value, MemDb}
use redis_go.MemDb.Reply.{Reply, reply}
use redis_go.MemDb.Expiry.{IsSound, value_of}
use redis_go.MemDb.Strings.{Held, absent, wrong, bytes, held, set_bytes}
use redis_go.MemDb.Strings.Laws.{set_bytes_lem, held-set_bytes}
use redis_go.MemDb.Counters.{
  store_int, add_to, add_held, incr_string, decr_string, incr_by, incr_by_string, decr_by,
  decr_by_string,
}

-- what is held is this integer in print, or nothing, which counts as 0
abbrev pub HoldsInt : Held → ℤ → Type 0
HoldsInt absent n = n ≡ pos 0
HoldsInt wrong n = ⊥
HoldsInt (bytes s) n = atoi s ≡ some n

-- The key holds this integer in print, or nothing, which counts as 0.
abbrev pub Counts : MemDb → Bytes → ℤ → Type 0
Counts m key n = HoldsInt (held m key) n

add64-IsInt64 : (a b : ℤ) → IsInt64 (add64 a b)
unfolding add64
add64-IsInt64 a b = wrap-IsInt64 (a +ℤ b)

add64-zero : (n : ℤ) → IsInt64 n → add64 (pos 0) n ≡ n
unfolding add64
add64-zero (pos k) h = ground arith
add64-zero (negsuc k) h = ground arith

-- the new value is stored, and counts as what the reply says
abbrev pub Stores : MemDb → Bytes → ℤ → Reply → Type 0
Stores m key n r =
    (m' : MemDb) × (r ≡ reply m' (int_data n))
    × Counts m' key n
    × ((j : Bytes)
        → value_of m' j ≡ (if bytes_equal key j then some (bytes_value (itoa n)) else value_of m j))

store_int_lem :
    (m : MemDb) (key : Bytes) (n : ℤ) → IsSound m → IsInt64 n → Stores m key n (store_int m key n)
unfolding store_int
store_int_lem m key n h k = (
  set_bytes m key (itoa n),
  refl,
  rw (held-set_bytes m key (itoa n) h) (atoi-itoa n k),
  λ j. (set_bytes_lem m key (itoa n) j h).1,
)

add_held_lem :
    (m : MemDb) (key : Bytes) (o : Held) (n inc : ℤ)
    → IsSound m
    → IsInt64 inc
    → HoldsInt o n
    → Stores m key (add64 n inc) (add_held m key inc inc o)
unfolding add_held add_to
add_held_lem m key absent n inc h k c = rw (c, add64-zero inc k) (store_int_lem m key inc h k)
add_held_lem m key wrong n inc h k c = elim c [ ]
add_held_lem m key (bytes s) n inc h k c =
    rw c (store_int_lem m key (add64 n inc) h (add64-IsInt64 n inc))

neg64-IsInt64 : (a : ℤ) → IsInt64 (neg64 a)
unfolding neg64
neg64-IsInt64 a = wrap-IsInt64 (sub_ℕ (neg_part a) (pos_part a))

-- INCR, DECR, INCRBY and DECRBY, on a sound database, at a key that counts as n: the reply is n plus or
-- minus the step, as a 64-bit integer that wraps around; the key counts as that from then on, so the
-- commands may follow one another; and every other key keeps its value. The step is a 64-bit integer,
-- and its text any that `ParseInt` reads.
pub counters_lem :
    (m : MemDb) (key text : Bytes) (n step : ℤ)
    → IsSound m
    → Counts m key n
    → IsInt64 step
    → atoi text ≡ some step
    → Stores m key (add64 n (pos 1)) (incr_string (codes "INCR" ∷ key ∷ []) m)
      × Stores m key (add64 n (negsuc 0)) (decr_string (codes "DECR" ∷ key ∷ []) m)
      × Stores m key (add64 n step) (incr_by_string (codes "INCRBY" ∷ key ∷ text ∷ []) m)
      × Stores m key (add64 n (neg64 step)) (decr_by_string (codes "DECRBY" ∷ key ∷ text ∷ []) m)
unfolding incr_string decr_string incr_by_string decr_by_string incr_by decr_by
counters_lem m key text n step h c k e = (
  add_held_lem m key (held m key) n (pos 1) h (omega arith) c,
  add_held_lem m key (held m key) n (negsuc 0) h (omega arith) c,
  rw (e, incr_by) (add_held_lem m key (held m key) n step h k c),
  rw (e, decr_by) (add_held_lem m key (held m key) n (neg64 step) h (neg64-IsInt64 step) c),
)
