-- ===== src/HashStruct/Increment.antt =====
-- `IncrBy` of a hash's field.
use redis_go.Prelude.{◌≡◌, refl, some, [], ◌∷◌, Bytes, arith}
use redis_go.Prelude.Int.{ℤ, pos, negsuc, IsInt64, add64}
use redis_go.Strconv.{itoa, atoi}
use redis_go.HashStruct.{Hash, set_field, get_field, incr_value, incr_by}

-- the bytes print this integer, or are empty, which counts as 0
abbrev pub Prints : Bytes → ℤ → Type 0
Prints [] n = n ≡ pos 0
Prints (c ∷ s) n = atoi (c ∷ s) ≡ some n

add64-zero : (n : ℤ) → IsInt64 n → add64 (pos 0) n ≡ n
unfolding add64
add64-zero (pos k) h = ground arith
add64-zero (negsuc k) h = ground arith

incr_bytes :
    (h : Hash) (key : Bytes) (incr n : ℤ) (s : Bytes)
    → IsInt64 incr
    → Prints s n
    → get_field h key ≡ s
    → incr_by h key incr ≡ (set_field h key (itoa (add64 n incr)), some (add64 n incr))
unfolding incr_by incr_value
incr_bytes h key incr n [] k p e = rw (e, incr_by, p, add64-zero incr k) refl
incr_bytes h key incr n (c ∷ s) k p e = rw (e, incr_by, p) refl

pub incr_by_lem :
    (h : Hash) (key : Bytes) (incr n : ℤ)
    → IsInt64 incr
    → Prints (get_field h key) n
    → incr_by h key incr ≡ (set_field h key (itoa (add64 n incr)), some (add64 n incr))
incr_by_lem h key incr n k p = incr_bytes h key incr n (get_field h key) k p refl
