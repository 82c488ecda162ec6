-- ===== src/MemDb/Sets/Laws.antt =====
-- What SADD leaves at every key, and what SISMEMBER then replies.
use redis_go.Prelude.{
  ℕ, ◌+◌, ◌≡◌, ◌≢◌, refl, sym, ap, ◌∙◌, false, ◌||◌, Option, none, some, List, [], ◌∷◌, Bytes,
  bytes_equal, if◌then◌else◌, arith,
}
use redis_go.Prelude.Int.{ℤ}
use mathlib.Core.Path.{subst}
use redis_go.GoMap.Laws.{contains}
use redis_go.SetStruct
use redis_go.SetStruct.{Set, new_set, add}
use redis_go.SetStruct.Algebra.{has-add, len-add}
use redis_go.MemDb.Expiry.{ttl_at, is_due, check_ttl_lem}
use redis_go.MemDb.Objects.{Found, absent, wrong, at, found, object_at, write, add_object, checked}
use redis_go.MemDb.Objects.Laws.{
  IsWell, object_of, object_found, write-IsWell, write_lem, add_object-IsWell, object_of-add_object,
  found-checked, checked-IsWell, object_of-checked,
}
use redis_go.MemDb.Sets.{set_kind, SetDb, answer_int}
use redis_go.MemDb.Sets.Writes.{add_counted, add_found, s_add_set}

-- the set of a key, and an empty one where there is none
abbrev pub or_empty : Option Set → Set
or_empty none = new_set
or_empty (some s) = s

abbrev pub set_of : SetDb → Bytes → Set
set_of m key = or_empty (object_of set_kind m key)

-- These members were added, and this many were new.
abbrev pub Adds : List Bytes → Set → Set × ℕ → Type 0
Adds vs s (s', n) =
    ((j : Bytes) → SetStruct.has s' j ≡ (contains j vs || SetStruct.has s j))
    × (SetStruct.len s' ≡ SetStruct.len s + n)

pub add_counted-Adds : (vs : List Bytes) (s : Set) → Adds vs s (add_counted s vs)
unfolding add_counted
add_counted-Adds [] s = (λ j. refl, omega arith)
add_counted-Adds (v ∷ vs) s =
    let (h, l) = add_counted-Adds vs (add s v).0 in
    (λ j. ground (arith, h j, (has-add s v j).0), omega (arith, l, len-add s v))

add_found_lem :
    (key : Bytes) (vs : List Bytes) (m : SetDb) (j : Bytes) (f : Found)
    → IsWell set_kind m
    → found set_kind m.mem key ≡ f
    → f ≢ wrong
    → (m' : SetDb) × (add_found key vs m f
        ≡ answer_int m' (add_counted (or_empty (object_found set_kind m f)) vs).1)
      × IsWell set_kind m'
      × (object_of set_kind m' j ≡ (
          if bytes_equal key j
          then some (add_counted (or_empty (object_found set_kind m f)) vs).0
          else object_of set_kind m j))
      × (ttl_at m'.mem j ≡ ttl_at m.mem j)
add_found_lem key vs m j absent well e n = (
  add_object set_kind key (add_counted new_set vs).0 m,
  refl,
  add_object-IsWell set_kind key (add_counted new_set vs).0 m well,
  object_of-add_object set_kind key j (add_counted new_set vs).0 m well,
  refl,
)
add_found_lem key vs m j wrong well e n = absurd (n refl)
add_found_lem key vs m j (at a) well e n = (
  write m a (add_counted (object_at set_kind m a) vs).0,
  refl,
  write-IsWell set_kind a (add_counted (object_at set_kind m a) vs).0 m well,
  write_lem set_kind key j a (add_counted (object_at set_kind m a) vs).0 m well e,
  refl,
)

pub ttl-checked :
    (now : ℤ) (key j : Bytes) (m : SetDb)
    → IsWell set_kind m
    → is_due now (ttl_at m.mem key) ≡ false
    → ttl_at (checked now key m).mem j ≡ ttl_at m.mem j
ttl-checked now key j m well due =
    let (a, b, c, d) = check_ttl_lem now key m.mem j well.sound in ground (arith, d, due)

-- SADD, on a well-formed database, which stays so, at a key that is not expired and holds a set or
-- nothing: the key has a set, whose members are the ones given and those that it had; the reply is the
-- number by which it grew; the set of every other key stays as it was, and so does every time to
-- expire.
pub s_add_set_lem :
    (now : ℤ) (c key v : Bytes) (vs : List Bytes) (m : SetDb) (j : Bytes)
    → IsWell set_kind m
    → is_due now (ttl_at m.mem key) ≡ false
    → found set_kind m.mem key ≢ wrong
    → (m' : SetDb) × (s : Set) × (n : ℕ) × (s_add_set now (c ∷ key ∷ v ∷ vs) m ≡ answer_int m' n)
      × IsWell set_kind m'
      × (object_of set_kind m' j ≡ (if bytes_equal key j then some s else object_of set_kind m j))
      × Adds (v ∷ vs) (set_of m key) (s, n)
      × (ttl_at m'.mem j ≡ ttl_at m.mem j)
unfolding s_add_set
s_add_set_lem now c key v vs m j well due right =
    let m1 : SetDb = checked now key m in
    let well1 = checked-IsWell set_kind now key m well due in
    let same = found-checked set_kind now key key m well.sound due in
    let same_key = object_of-checked set_kind now key key m well.sound due in
    let same_j = object_of-checked set_kind now key j m well.sound due in
    let (m', reply, well', objects, ttl) =
      add_found_lem key (v ∷ vs) m1 j (found set_kind m1.mem key) well1 refl
        (λ w. right (sym same ∙ w)) in
    (
      m',
      (add_counted (set_of m1 key) (v ∷ vs)).0,
      (add_counted (set_of m1 key) (v ∷ vs)).1,
      reply,
      well',
      objects
          ∙ ap (λ o. if bytes_equal key j then some (add_counted (set_of m1 key) (v ∷ vs)).0 else o)
              same_j,
      subst (λ o. Adds (v ∷ vs) (or_empty o) (add_counted (set_of m1 key) (v ∷ vs))) same_key
          (add_counted-Adds (v ∷ vs) (set_of m1 key)),
      ttl ∙ ttl-checked now key j m well due,
    )
