-- ===== src/MemDb/Sets/RoundTrip.antt =====
-- SADD, and then SISMEMBER.
use redis_go.Prelude.{
  ℕ, ◌≡◌, ◌≢◌, refl, sym, ap, ◌∙◌, false, ◌||◌, some, List, [], ◌∷◌, Bytes, codes, bytes_equal_refl,
  if◌then◌else◌, arith,
}
use redis_go.Prelude.Int.{ℤ, pos}
use redis_go.Resp.Structure.{int_data}
use redis_go.GoMap.Laws.{contains}
use redis_go.SetStruct
use redis_go.SetStruct.{Set, new_set}
use redis_go.SetStruct.Algebra.{has-new_set}
use redis_go.MemDb.Expiry.{ttl_at, is_due, check_ttl_lem}
use redis_go.MemDb.Objects.{Found, absent, wrong, at, found, checked}
use redis_go.MemDb.Objects.Laws.{IsWell, object_of, object_found, found-checked, object_of-checked}
use redis_go.MemDb.Sets.{set_kind, SetDb, answer_int, read_set, read_found, s_is_member_set}
use redis_go.MemDb.Sets.Writes.{s_add_set}
use redis_go.MemDb.Sets.Laws.{or_empty, set_of, s_add_set_lem}

-- the reply of SISMEMBER
abbrev pub test : Set → Bytes → ℕ
test s v = if SetStruct.has s v then 1 else 0

member_found :
    (m : SetDb) (v : Bytes) (f : Found)
    → f ≢ wrong
    → read_found (int_data (pos 0)) (λ s. int_data (pos (test s v))) m f
      ≡ answer_int m (test (or_empty (object_found set_kind m f)) v)
member_found m v absent right = rw (has-new_set v) refl
member_found m v wrong right = absurd (right refl)
member_found m v (at a) right = refl

s_is_member_set_lem :
    (now : ℤ) (key v : Bytes) (m : SetDb)
    → IsWell set_kind m
    → is_due now (ttl_at m.mem key) ≡ false
    → found set_kind m.mem key ≢ wrong
    → s_is_member_set now (codes "SISMEMBER" ∷ key ∷ v ∷ []) m
      ≡ answer_int (checked now key m) (test (set_of m key) v)
unfolding s_is_member_set read_set
s_is_member_set_lem now key v m well due right =
    let (b, alive, c, d) = check_ttl_lem now key m.mem key well.sound in
    let same = found-checked set_kind now key key m well.sound due in
    let read =
      member_found (checked now key m) v (found set_kind (checked now key m).mem key)
        (λ w. right (sym same ∙ w)) in
    let kept = object_of-checked set_kind now key key m well.sound due in
    rw (alive, due) (read ∙ ap (λ o. answer_int (checked now key m) (test (or_empty o) v)) kept)

object_found-right :
    (m : SetDb) (f : Found) (s : Set) → object_found set_kind m f ≡ some s → f ≢ wrong
object_found-right m absent s e = ground arith
object_found-right m wrong s e = ground arith
object_found-right m (at a) s e = λ w. ground arith

-- SADD, and then SISMEMBER, on a well-formed database at a key that is expired at neither time and
-- holds a set or nothing: SISMEMBER replies 1 for the members that SADD was given and those that the
-- set had, and 0 for all others.
pub s_add-s_is_member :
    (now later : ℤ) (c key v : Bytes) (vs : List Bytes) (w : Bytes) (m : SetDb)
    → IsWell set_kind m
    → is_due now (ttl_at m.mem key) ≡ false
    → is_due later (ttl_at m.mem key) ≡ false
    → found set_kind m.mem key ≢ wrong
    → (m' : SetDb) × (n : ℕ) × (s_add_set now (c ∷ key ∷ v ∷ vs) m ≡ answer_int m' n)
      × (s_is_member_set later (codes "SISMEMBER" ∷ key ∷ w ∷ []) m'
          ≡ answer_int
              (checked later key m')
              (if contains w (v ∷ vs) || SetStruct.has (set_of m key) w then 1 else 0))
s_add-s_is_member now later c key v vs w m well due due' right =
    let (m', s, n, reply, well', objects, (has, len), ttl) =
      s_add_set_lem now c key v vs m key well due right in
    let here : object_of set_kind m' key ≡ some s = objects ∙ rw (bytes_equal_refl key) refl in
    let got =
      s_is_member_set_lem later key w m' well' (ap (is_due later) ttl ∙ due')
        (object_found-right m' (found set_kind m'.mem key) s here) in
    (
      m',
      n,
      reply,
      got
          ∙ ap (λ o. answer_int (checked later key m') (test (or_empty o) w)) here
          ∙ ap (λ b. answer_int (checked later key m') (if b then 1 else 0)) (has w),
    )
