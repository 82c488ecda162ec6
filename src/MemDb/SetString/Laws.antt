-- ===== src/MemDb/SetString/Laws.antt =====
-- What SET leaves at every key, and what it replies.
use redis_go.Prelude.{
  ◌≡◌, refl, ◌∙◌, inl, inr, Bool-cases, Bool, true, false, not, ◌&&◌, ◌||◌, Option, none, some,
  Bytes, codes, bytes_equal, if◌then◌else◌, arith,
}
use redis_go.Prelude.Int.{ℤ, add64}
use redis_go.GoMap.{is_some}
use redis_go.Resp.Structure.{RedisData, string_data, bulk_data}
use redis_go.MemDb.{bytes_value, MemDb, del_ttl}
use redis_go.MemDb.Expiry.{IsSound, value_of, ttl_at, del_ttl_lem, set_ttl_lem}
use redis_go.MemDb.Strings.{Held}
use redis_go.MemDb.Strings.Laws.{set_bytes_lem}
use redis_go.MemDb.SetString.{Options, seconds, present, write, old_reply, set_ttl_at, apply_ttl}

-- the time to expire that an option gives a key that is there
abbrev pub timed : Bool → (ℤ → ℤ) → Option ℤ → Option ℤ → Option ℤ
timed there at none old = old
timed there at (some n) old = if there then some (at n) else old

-- The time to expire behind SET: the old one is kept with KEEPTTL, and EX, PX and EXAT set a new one if
-- the key is there.
abbrev pub new_ttl : ℤ → Options → Bool → Option ℤ → Option ℤ
new_ttl now o there old =
    timed there (λ n. n) o.exat
      (timed there (λ n. add64 now (seconds n)) o.px
        (timed there (λ n. add64 now n) o.ex (if o.keepttl then old else none)))

set_ttl_at_lem :
    (at : ℤ → ℤ) (key : Bytes) (n : Option ℤ) (m : MemDb) (j : Bytes)
    → IsSound m
    → IsSound (set_ttl_at at key n m)
      × (value_of (set_ttl_at at key n m) j ≡ value_of m j)
      × (ttl_at (set_ttl_at at key n m) j ≡ (
          if bytes_equal key j
          then timed (is_some (value_of m key)) at n (ttl_at m j)
          else ttl_at m j))
unfolding set_ttl_at
set_ttl_at_lem at key none m j h = (h, refl, ground arith)
set_ttl_at_lem at key (some n) m j h = ground (arith, set_ttl_lem key (at n) m j h)

-- the keeping or deleting of the old time
kept_lem :
    (b : Bool) (key : Bytes) (m : MemDb) (j : Bytes)
    → IsSound m
    → let m' = if b then m else (del_ttl key m).0 in
      IsSound m'
      × (value_of m' j ≡ value_of m j)
      × (ttl_at m' j ≡ (if bytes_equal key j then (if b then ttl_at m j else none) else ttl_at m j))
kept_lem true key m j h = (h, refl, ground arith)
kept_lem false key m j h = let (a, b, c, d) = del_ttl_lem key m j h in (a, c, d)

pub apply_ttl_lem :
    (now : ℤ) (o : Options) (key : Bytes) (m : MemDb) (j : Bytes)
    → IsSound m
    → let m' = apply_ttl now o key m in
      IsSound m'
      × (value_of m' j ≡ value_of m j)
      × (ttl_at m' j ≡ (
          if bytes_equal key j
          then new_ttl now o (is_some (value_of m key)) (ttl_at m j)
          else ttl_at m j))
unfolding apply_ttl
apply_ttl_lem now o key m j h =
    let m1 : MemDb = if o.keepttl then m else (del_ttl key m).0 in
    let (s1, v1, t1) = kept_lem o.keepttl key m j h in
    let (s1', v1', t1') = kept_lem o.keepttl key m key h in
    let m2 : MemDb = set_ttl_at (λ n. add64 now n) key o.ex m1 in
    let (s2, v2, t2) = set_ttl_at_lem (λ n. add64 now n) key o.ex m1 j s1 in
    let (s2', v2', t2') = set_ttl_at_lem (λ n. add64 now n) key o.ex m1 key s1 in
    let m3 : MemDb = set_ttl_at (λ n. add64 now (seconds n)) key o.px m2 in
    let (s3, v3, t3) = set_ttl_at_lem (λ n. add64 now (seconds n)) key o.px m2 j s2 in
    let (s3', v3', t3') = set_ttl_at_lem (λ n. add64 now (seconds n)) key o.px m2 key s2 in
    let (s4, v4, t4) = set_ttl_at_lem (λ n. n) key o.exat m3 j s3 in
    (
      s4,
      v4 ∙ v3 ∙ v2 ∙ v1,
      elim (Bool-cases (bytes_equal key j)) [
        | inl same ↦ rw (t4, t3, t2, t1, v3', v2', v1', same)
        | inr other ↦ rw (t4, t3, t2, t1, other)
      ],
    )

-- whether SET writes the key
abbrev pub writes : Options → Bool → Bool
writes o old = if o.nx then not old else not o.xx || old

-- what SET replies; it is a nil interface behind NX that writes, and no value of the protocol
abbrev pub set_reply : Options → Held → Option RedisData
set_reply o old =
    if o.get
    then some (old_reply old)
    else if o.nx && not (present old)
    then none
    else if writes o (present old)
    then some (string_data (codes "OK"))
    else some (bulk_data none)

pub write_lem :
    (o : Options) (key text : Bytes) (m : MemDb) (old : Bool) (j : Bytes)
    → IsSound m
    → let m' = (write o key text m old).0 in
      IsSound m'
      × (value_of m' j
          ≡ (if writes o old && bytes_equal key j then some (bytes_value text) else value_of m j))
      × (ttl_at m' j ≡ ttl_at m j)
unfolding write
write_lem o key text m old j h = ground (arith, set_bytes_lem m key text j h)
