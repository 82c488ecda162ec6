-- ===== src/MemDb/Keys/Exists.antt =====
-- What EXISTS counts.
use redis_go.Prelude.{
  ℕ, ◌+◌, ◌≡◌, refl, sym, ap, ◌∙◌, inl, inr, Bool-cases, Bool, true, not, ◌&&◌, List, [], ◌∷◌,
  Bytes, codes, bytes_equal, bytes_equal_iff, bytes_equal_refl, if◌then◌else◌, arith,
}
use redis_go.Prelude.Int.{ℤ}
use redis_go.GoMap.{is_some}
use redis_go.GoMap.Laws.{bit}
use redis_go.ConcurrentMap.{lookup}
use redis_go.MemDb.{MemDb, check_ttl}
use redis_go.MemDb.Reply.{reply_int}
use redis_go.MemDb.Expiry.{IsSound, value_of, ttl_at, is_due, check_ttl_lem}
use redis_go.MemDb.Keys.{exists_loop, exists_keys, exists_key}

-- the key is there and not expired
abbrev pub is_alive : ℤ → MemDb → Bytes → Bool
is_alive now m k = not (is_due now (ttl_at m k)) && is_some (value_of m k)

-- how many words of the list name such a key
abbrev pub count_alive : (Bytes → Bool) → List Bytes → ℕ
count_alive alive [] = 0
count_alive alive (k ∷ ks) = bit (alive k) + count_alive alive ks

is_alive-check_ttl :
    (now : ℤ) (k : Bytes) (m : MemDb) (j : Bytes)
    → IsSound m
    → is_alive now (check_ttl now k m).0 j ≡ is_alive now m j
is_alive-check_ttl now k m j h =
    let (a, b, c, d) = check_ttl_lem now k m j h in
    elim (Bool-cases (is_due now (ttl_at m k) && bytes_equal k j)) [
      | inl gone ↦
          let due : is_due now (ttl_at m k) ≡ true = ground arith in
          let one : k ≡ j = (bytes_equal_iff k j).0 (ground arith) in
          let due_j : is_due now (ttl_at m j) ≡ true =
            ap (λ i. is_due now (ttl_at m i)) (sym one) ∙ due in
          rw (c, d, gone, due_j) refl
      | inr kept ↦ rw (c, d, kept) refl
    ]

exists_loop-count :
    (now : ℤ) (ks : List Bytes) (m : MemDb) (n : ℕ) (alive : Bytes → Bool)
    → IsSound m
    → ((j : Bytes) → is_alive now m j ≡ alive j)
    → (exists_loop now ks m n).1 ≡ n + count_alive alive ks
unfolding exists_loop
exists_loop-count now [] m n alive h same = omega arith
exists_loop-count now (k ∷ ks) m n alive h same =
    let (a, b, c, d) = check_ttl_lem now k m k h in
    let m' = (check_ttl now k m).0 in
    let counted = (check_ttl now k m).1 && is_some (lookup m'.db k) in
    let here : counted ≡ alive k = ground (arith, b, c, same k, bytes_equal_refl k) in
    let rest =
      exists_loop-count now ks m' (if counted then n + 1 else n) alive a
        (λ j. is_alive-check_ttl now k m j h ∙ same j) in
    ground (arith, rest, here)

-- On a sound database EXISTS counts the words of the command that name a key which is there and not
-- expired, a key that is named twice twice.
pub exists_key_lem :
    (now : ℤ) (k : Bytes) (ks : List Bytes) (m : MemDb)
    → IsSound m
    → (m' : MemDb) × (exists_key now (codes "EXISTS" ∷ k ∷ ks) m
        ≡ reply_int m' (count_alive (is_alive now m) (k ∷ ks)))
unfolding exists_key exists_keys
exists_key_lem now k ks m h =
    let n : (exists_loop now (k ∷ ks) m 0).1 ≡ count_alive (is_alive now m) (k ∷ ks) =
      omega (arith, exists_loop-count now (k ∷ ks) m 0 (is_alive now m) h (λ j. refl)) in
    ((exists_loop now (k ∷ ks) m 0).0, ap (reply_int (exists_loop now (k ∷ ks) m 0).0) n)
