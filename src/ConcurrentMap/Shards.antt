-- ===== src/ConcurrentMap/Shards.antt =====
-- The table of shards, read and written at a position.
use redis_go.Prelude.{
  ℕ, zero, suc, ◌+◌, ◌<◌, ◌≤◌, ◌≡◌, refl, ap, List, [], ◌∷◌, length, ◌==◌, if◌then◌else◌, arith,
  All,
}
use redis_go.GoMap.{GoMap, IsUnique}
use redis_go.ConcurrentMap.{shard_at, set_shard, empty_shards}

module _ {V : Type 0} where
  pub length-set_shard :
      (ts : List (GoMap V)) (i : ℕ) (s : GoMap V) → length (set_shard ts i s) ≡ length ts
  unfolding set_shard
  length-set_shard [] i s = refl
  length-set_shard (t ∷ ts) zero s = refl
  length-set_shard (t ∷ ts) (suc i) s = ap suc (length-set_shard ts i s)

  pub shard_at-set_shard :
      (ts : List (GoMap V)) (i j : ℕ) (s : GoMap V)
      → i < length ts
      → shard_at (set_shard ts i s) j ≡ (if i == j then s else shard_at ts j)
  unfolding set_shard shard_at
  shard_at-set_shard [] i j s h = absurd (omega arith)
  shard_at-set_shard (t ∷ ts) zero zero s h = refl
  shard_at-set_shard (t ∷ ts) zero (suc j) s h = ground arith
  shard_at-set_shard (t ∷ ts) (suc i) zero s h = ground arith
  shard_at-set_shard (t ∷ ts) (suc i) (suc j) s h =
      ground (arith, shard_at-set_shard ts i j s (omega arith))

  pub shard_at-IsUnique : (ts : List (GoMap V)) (i : ℕ) → All IsUnique ts → IsUnique (shard_at ts i)
  unfolding shard_at
  shard_at-IsUnique [] i h = tt
  shard_at-IsUnique (t ∷ ts) zero h = h.0
  shard_at-IsUnique (t ∷ ts) (suc i) h = shard_at-IsUnique ts i h.1

  pub set_shard-IsUnique :
      (ts : List (GoMap V)) (i : ℕ) (s : GoMap V)
      → All IsUnique ts
      → IsUnique s
      → All IsUnique (set_shard ts i s)
  unfolding set_shard
  set_shard-IsUnique [] i s h u = tt
  set_shard-IsUnique (t ∷ ts) zero s h u = (u, h.1)
  set_shard-IsUnique (t ∷ ts) (suc i) s h u = (h.0, set_shard-IsUnique ts i s h.1 u)

  -- the number of keys in all shards
  abbrev pub total : List (GoMap V) → ℕ
  total [] = 0
  total (s ∷ ts) = length s + total ts

  pub total-set_shard :
      (ts : List (GoMap V)) (i : ℕ) (s : GoMap V)
      → i < length ts
      → total (set_shard ts i s) + length (shard_at ts i) ≡ total ts + length s
  unfolding set_shard shard_at
  total-set_shard [] i s h = absurd (omega arith)
  total-set_shard (t ∷ ts) zero s h = omega arith
  total-set_shard (t ∷ ts) (suc i) s h = omega (arith, total-set_shard ts i s (omega arith))

  pub shard_at-le-total : (ts : List (GoMap V)) (i : ℕ) → length (shard_at ts i) ≤ total ts
  unfolding shard_at
  shard_at-le-total [] i = omega arith
  shard_at-le-total (t ∷ ts) zero = omega arith
  shard_at-le-total (t ∷ ts) (suc i) = omega (arith, shard_at-le-total ts i)

module _ (V : Type 0) where
  pub shard_at-empty_shards : (n i : ℕ) → shard_at (empty_shards {V = V} n) i ≡ []
  unfolding shard_at
  shard_at-empty_shards zero i = refl
  shard_at-empty_shards (suc n) zero = refl
  shard_at-empty_shards (suc n) (suc i) = shard_at-empty_shards n i

  pub length-empty_shards : (n : ℕ) → length (empty_shards {V = V} n) ≡ n
  length-empty_shards zero = refl
  length-empty_shards (suc n) = ap suc (length-empty_shards n)

  pub total-empty_shards : (n : ℕ) → total (empty_shards {V = V} n) ≡ 0
  total-empty_shards zero = refl
  total-empty_shards (suc n) = omega (arith, total-empty_shards n)

  pub empty_shards-IsUnique : (n : ℕ) → All IsUnique (empty_shards {V = V} n)
  empty_shards-IsUnique zero = tt
  empty_shards-IsUnique (suc n) = (tt, empty_shards-IsUnique n)
