-- ===== src/MemDb/Sets/Crash.antt =====
-- SINTER on keys that are not there: `sets[shortestSet]` is out of range.
use redis_go.Prelude.{
  ◌≡◌, refl, true, none, some, List, [], ◌∷◌, Bytes, codes, bytes_equal_refl, arith,
}
use redis_go.Prelude.Int.{ℤ}
use redis_go.Prelude.Outcome.{panic}
use redis_go.ConcurrentMap.{lookup}
use redis_go.GoMap.Laws.{contains}
use redis_go.MemDb.Reply.{named}
use redis_go.MemDb.Expiry.{IsSound, check_ttl_lem}
use redis_go.MemDb.Objects.{checked}
use redis_go.MemDb.Sets.{SetDb, check_all, gather, s_inter_set}

-- none of these keys has a value
abbrev pub Lacks : SetDb → List Bytes → Type 0
Lacks m keys = (k : Bytes) → contains k keys ≡ true → lookup m.mem.db k ≡ none

gather-Lacks : (keys : List Bytes) (m : SetDb) → Lacks m keys → gather m keys ≡ some []
unfolding gather
gather-Lacks [] m lacks = refl
gather-Lacks (k ∷ ks) m lacks =
    let here : lookup m.mem.db k ≡ none = lacks k (rw (bytes_equal_refl k) refl) in
    let rest = gather-Lacks ks m (λ j e. lacks j (ground (arith, e))) in rw (here, rest) refl

lookup-check_all :
    (now : ℤ) (ks : List Bytes) (m : SetDb) (j : Bytes)
    → IsSound m.mem
    → lookup m.mem.db j ≡ none
    → lookup (check_all now ks m).mem.db j ≡ none
lookup-check_all now [] m j sound e = e
lookup-check_all now (k ∷ ks) m j sound e =
    let (sound', b, c, d) = check_ttl_lem now k m.mem j sound in
    lookup-check_all now ks (checked now k m) j sound' (ground (arith, c, e))

-- SINTER, under its name in any case, panics on a sound database that has none of its keys.
pub s_inter_set_crashes :
    (now : ℤ) (c key : Bytes) (keys : List Bytes) (m : SetDb)
    → named c (codes "sinter") ≡ true
    → IsSound m.mem
    → Lacks m (key ∷ keys)
    → s_inter_set now (c ∷ key ∷ keys) m ≡ panic
unfolding s_inter_set
s_inter_set_crashes now c key keys m name sound lacks =
    let m' = check_all now (key ∷ keys) m in
    let gathered =
      gather-Lacks (key ∷ keys) m'
        (λ k e. lookup-check_all now (key ∷ keys) m k sound (lacks k e)) in
    rw (name, gathered) refl
