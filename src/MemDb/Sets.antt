-- ===== src/MemDb/Sets.antt =====
-- memdb/sets.go: the sets that the database points to, and the commands that read them: SCARD,
-- SISMEMBER, SMEMBERS, SDIFF, SINTER, SUNION. SRANDMEMBER is not modelled.
pub mod Writes
pub mod Stores
pub mod Laws
pub mod RoundTrip
pub mod Moving
pub mod Crash
use redis_go.Prelude.{
  ℕ, ◌≡◌, refl, Bool, true, false, Option, none, some, List, [], ◌∷◌, ◌++◌, Bytes, codes, length,
  ltb, ◌==◌, if◌then◌else◌,
}
use redis_go.Prelude.Int.{ℤ, pos}
use redis_go.Prelude.Outcome.{Outcome, ok, panic}
use redis_go.Resp.Structure.{
  RedisData, bulk_data, string_data, int_data, error_data, array_data, Elements, nil, cons,
}
use redis_go.SetStruct
use redis_go.SetStruct.{Set, new_set, members, union, intersect, difference}
use redis_go.MemDb.{Value, set_ref, MemDb, check_ttl}
use redis_go.MemDb.Reply.{named, wrong_type}
use redis_go.MemDb.Objects.{Found, absent, wrong, at, Kind, Store, found, object_at, checked}

abbrev pub found_value : Option Value → Found
found_value none = absent
found_value (some (set_ref a)) = at a
found_value (some v) = wrong

abbrev pub set_kind : Kind Set
set_kind = record {
  empty = new_set;
  ref = set_ref;
  found_value = found_value;
  found_ref = λ a. refl;
}

abbrev pub SetDb : Type 0
SetDb = Store Set

abbrev pub SetReply : Type 0
SetReply = Outcome (SetDb × Option RedisData)

abbrev pub answer : SetDb → RedisData → SetReply
answer m d = ok (m, some d)

abbrev pub answer_int : SetDb → ℕ → SetReply
answer_int m n = answer m (int_data (pos n))

abbrev pub answer_error : SetDb → Bytes → SetReply
answer_error m text = answer m (error_data text)

abbrev pub wrong_count : Bytes → SetDb → SetReply
wrong_count name m =
    answer_error m (codes "wrong number of arguments for '" ++ name ++ codes "' command")

-- the replies of a command with a wrong name, or a wrong number of arguments
abbrev pub refuse : Bytes → Bytes → SetDb → SetReply
refuse c name m = if named c name then wrong_count name m else answer_error m (codes "server error")

abbrev pub bulks : List Bytes → Elements
bulks [] = nil
bulks (s ∷ ss) = cons (bulk_data (some s)) (bulks ss)

abbrev pub strings : List Bytes → Elements
strings [] = nil
strings (s ∷ ss) = cons (string_data s) (strings ss)

abbrev pub empty_array : RedisData
empty_array = array_data nil

abbrev pub members_of : Set → RedisData
members_of s = array_data (bulks (members s))

-- What the commands that read one set share; `missing` is the reply where there is no key.
abbrev pub read_found : RedisData → (Set → RedisData) → SetDb → Found → SetReply
read_found missing f m absent = answer m missing
read_found missing f m wrong = answer_error m wrong_type
read_found missing f m (at a) = answer m (f (object_at set_kind m a))

unfoldable pub read_set : ℤ → Bytes → RedisData → (Set → RedisData) → SetDb → SetReply
read_set now key missing f m =
    let m' = checked now key m in
    if (check_ttl now key m.mem).1
    then read_found missing f m' (found set_kind m'.mem key)
    else answer m' missing

pub s_card_set : ℤ → List Bytes → SetDb → SetReply
s_card_set now [] m = panic
s_card_set now (c ∷ key ∷ []) m =
    if named c (codes "scard")
    then read_set now key (int_data (pos 0)) (λ s. int_data (pos (SetStruct.len s))) m
    else refuse c (codes "scard") m
s_card_set now (c ∷ args) m = refuse c (codes "scard") m

unfoldable pub s_is_member_set : ℤ → List Bytes → SetDb → SetReply
s_is_member_set now [] m = panic
s_is_member_set now (c ∷ key ∷ v ∷ []) m =
    if named c (codes "sismember")
    then read_set now key (int_data (pos 0))
        (λ s. int_data (pos (if SetStruct.has s v then 1 else 0))) m
    else refuse c (codes "sismember") m
s_is_member_set now (c ∷ args) m = refuse c (codes "sismember") m

pub s_members_set : ℤ → List Bytes → SetDb → SetReply
s_members_set now (c ∷ key ∷ []) m =
    read_set now key empty_array (λ s. array_data (strings (members s))) m
s_members_set now args m = wrong_count (codes "smembers") m

-- `for _, key := range keys { m.CheckTTL(key) }`
abbrev pub check_all : ℤ → List Bytes → SetDb → SetDb
check_all now [] m = m
check_all now (k ∷ ks) m = check_all now ks (checked now k m)

-- the keys that are not expired, and the tests that tell them
abbrev pub alive_keys : ℤ → List Bytes → SetDb → SetDb × List Bytes
alive_keys now [] m = (m, [])
alive_keys now (k ∷ ks) m =
    let rest = alive_keys now ks (checked now k m) in
    (rest.0, if (check_ttl now k m.mem).1 then k ∷ rest.1 else rest.1)

-- The sets of the keys that are there, and `none` where a value is of another type.
abbrev pub onto : Found → SetDb → Option (List Set) → Option (List Set)
onto absent m rest = rest
onto wrong m rest = none
onto (at a) m none = none
onto (at a) m (some sets) = some (object_at set_kind m a ∷ sets)

unfoldable pub gather : SetDb → List Bytes → Option (List Set)
gather m [] = some []
gather m (k ∷ ks) = onto (found set_kind m.mem k) m (gather m ks)

-- The first of the shortest sets, and the others in order.
abbrev pub shortest : Set → List Set → Set × List Set
shortest s [] = (s, [])
shortest s (t ∷ ts) =
    let best = shortest t ts in
    if ltb (SetStruct.len best.0) (SetStruct.len s) then (best.0, s ∷ best.1) else (s, t ∷ ts)

-- `sets[shortestSet]`, out of range where there are no sets
abbrev pub intersection : List Set → Outcome Set
intersection [] = panic
intersection (s ∷ sets) = let best = shortest s sets in ok (intersect best.0 best.1)

abbrev pub differ : SetDb → Set → List Bytes → Option (List Set) → SetReply
differ m s rest none = answer_error m wrong_type
differ m s [] (some sets) = answer m (members_of s)
differ m s (k ∷ ks) (some sets) = answer m (members_of (difference s sets))

abbrev pub differ_found : SetDb → List Bytes → Found → SetReply
differ_found m rest absent = answer m empty_array
differ_found m rest wrong = answer_error m wrong_type
differ_found m rest (at a) = differ m (object_at set_kind m a) rest (gather m rest)

pub s_diff_set : ℤ → List Bytes → SetDb → SetReply
s_diff_set now [] m = panic
s_diff_set now (c ∷ key ∷ keys) m =
    if named c (codes "sdiff")
    then (let m' = check_all now (key ∷ keys) m in differ_found m' keys (found set_kind m'.mem key))
    else refuse c (codes "sdiff") m
s_diff_set now (c ∷ args) m = refuse c (codes "sdiff") m

abbrev pub inter_reply : SetDb → Outcome Set → SetReply
inter_reply m panic = panic
inter_reply m (ok s) = answer m (members_of s)
inter_reply m _ = panic

abbrev pub inter_sets : SetDb → Option (List Set) → SetReply
inter_sets m none = answer_error m wrong_type
inter_sets m (some sets) = inter_reply m (intersection sets)

unfoldable pub s_inter_set : ℤ → List Bytes → SetDb → SetReply
s_inter_set now [] m = panic
s_inter_set now (c ∷ key ∷ keys) m =
    if named c (codes "sinter")
    then (let m' = check_all now (key ∷ keys) m in inter_sets m' (gather m' (key ∷ keys)))
    else refuse c (codes "sinter") m
s_inter_set now (c ∷ args) m = refuse c (codes "sinter") m

abbrev pub union_sets : SetDb → Option (List Set) → SetReply
union_sets m none = answer_error m wrong_type
union_sets m (some []) = answer m empty_array
union_sets m (some (s ∷ sets)) = answer m (members_of (union s sets))

pub s_union_set : ℤ → List Bytes → SetDb → SetReply
s_union_set now [] m = panic
s_union_set now (c ∷ key ∷ keys) m =
    if named c (codes "sunion")
    then (let alive = alive_keys now (key ∷ keys) m in union_sets alive.0 (gather alive.0 alive.1))
    else refuse c (codes "sunion") m
s_union_set now (c ∷ args) m = refuse c (codes "sunion") m
