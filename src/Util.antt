-- ===== src/Util.antt =====
-- util/util.go: the hash of a key, and (in Pattern) the glob patterns of KEYS.
pub mod Pattern
use Prim.Native.Nat.{bit_xor}
use redis_go.Prelude.{ℕ, ◌*◌, ◌%◌, ◌^◌, ◌<◌, List, [], ◌∷◌, ◌++◌, Bytes, codes, arith, ◌≡◌, refl}

abbrev offset_32 : ℕ
offset_32 = 2166136261

abbrev prime_32 : ℕ
prime_32 = 16777619

-- `hash/fnv`'s 32-bit FNV-1, over uint32
fnv_32 : ℕ → Bytes → ℕ
fnv_32 h [] = h
fnv_32 h (c ∷ s) = fnv_32 (bit_xor (h * prime_32 % 2 ^ 32) c % 2 ^ 32) s

unfoldable pub hash_key : Bytes → ℕ
unfolding fnv_32
hash_key key = fnv_32 offset_32 (codes "@#&" ++ key ++ codes "*^%$")

fnv_32-lt : (s : Bytes) (h : ℕ) → h < 2 ^ 32 → fnv_32 h s < 2 ^ 32
unfolding fnv_32
fnv_32-lt [] h lt = lt
fnv_32-lt (c ∷ s) h lt = fnv_32-lt s (bit_xor (h * prime_32 % 2 ^ 32) c % 2 ^ 32) (omega arith)

-- `int` has 64 bits, so the conversion from uint32 is never negative.
pub hash_key-lt : (key : Bytes) → hash_key key < 2 ^ 32
unfolding hash_key
hash_key-lt key = fnv_32-lt (codes "@#&" ++ key ++ codes "*^%$") offset_32 (omega arith)
