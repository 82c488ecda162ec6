-- ===== src/MemDb/Sets/Writes.antt =====
-- memdb/sets.go: SADD, SREM, SPOP and SMOVE.
use redis_go.Prelude.{
  ℕ, zero, suc, ◌+◌, Option, none, some, List, [], ◌∷◌, Bytes, codes, length, ◌==◌, if◌then◌else◌,
}
use redis_go.Prelude.Int.{ℤ, pos}
use redis_go.Prelude.Outcome.{panic}
use redis_go.Strconv.{atoi}
use redis_go.ConcurrentMap.{delete}
use redis_go.Resp.Structure.{bulk_data, array_data}
use redis_go.SetStruct
use redis_go.SetStruct.{Set, new_set, add, pop}
use redis_go.MemDb.{check_ttl, del_ttl}
use redis_go.MemDb.Reply.{named, wrong_type}
use redis_go.MemDb.Objects.{Found, absent, wrong, at, found, object_at, write, add_object, checked}
use redis_go.MemDb.Sets.{
  set_kind, SetDb, SetReply, answer, answer_int, answer_error, wrong_count, refuse, empty_array,
  bulks,
}

-- `res += sets.Add(…)` over the members
unfoldable pub add_counted : Set → List Bytes → Set × ℕ
add_counted s [] = (s, 0)
add_counted s (v ∷ vs) = let (s', n) = add s v in let (s'', k) = add_counted s' vs in (s'', n + k)

-- A key that is absent gets a new set, by a pointer through which the members are added.
abbrev pub add_found : Bytes → List Bytes → SetDb → Found → SetReply
add_found key vs m absent =
    answer_int (add_object set_kind key (add_counted new_set vs).0 m) (add_counted new_set vs).1
add_found key vs m wrong = answer_error m wrong_type
add_found key vs m (at a) =
    let s = object_at set_kind m a in
    answer_int (write m a (add_counted s vs).0) (add_counted s vs).1

unfoldable pub s_add_set : ℤ → List Bytes → SetDb → SetReply
s_add_set now (c ∷ key ∷ v ∷ vs) m =
    let m' = checked now key m in add_found key (v ∷ vs) m' (found set_kind m'.mem key)
s_add_set now args m = wrong_count (codes "sadd") m

-- what SREM and SPOP do last: a set that is empty is deleted, with its time to expire
abbrev pub drop_empty : Bytes → Set → SetDb → SetDb
drop_empty key s m =
    if SetStruct.len s == 0
    then record m { mem = (del_ttl key (record m.mem { db = (delete m.mem.db key).0 })).0 }
    else m

-- `res += set.Remove(…)` over the members
unfoldable pub remove_counted : Set → List Bytes → Set × ℕ
remove_counted s [] = (s, 0)
remove_counted s (v ∷ vs) =
    let (s', n) = SetStruct.remove s v in let (s'', k) = remove_counted s' vs in (s'', n + k)

abbrev pub rem_found : Bytes → List Bytes → SetDb → Found → SetReply
rem_found key vs m absent = answer_int m 0
rem_found key vs m wrong = answer_error m wrong_type
rem_found key vs m (at a) =
    let (s, n) = remove_counted (object_at set_kind m a) vs in
    answer_int (drop_empty key s (write m a s)) n

unfoldable pub s_rem_set : ℤ → List Bytes → SetDb → SetReply
s_rem_set now [] m = panic
s_rem_set now (c ∷ key ∷ v ∷ vs) m =
    if named c (codes "srem")
    then (let m' = checked now key m in
        if (check_ttl now key m.mem).1
        then rem_found key (v ∷ vs) m' (found set_kind m'.mem key)
        else answer_int m' 0)
    else refuse c (codes "srem") m
s_rem_set now (c ∷ args) m = refuse c (codes "srem") m

-- `for i := 0; i < count; i++ { … }`, which an empty string ends
unfoldable pub pop_many : ℕ → Set → Set × List Bytes
pop_many zero s = (s, [])
pop_many (suc n) s =
    let (s', v) = pop s in
    let rest = pop_many n s' in if length v == 0 then (s', []) else (rest.0, v ∷ rest.1)

abbrev pub pop_at : Bytes → ℕ → SetDb → ℕ → SetReply
pop_at key zero m a = answer m empty_array
pop_at key (suc zero) m a =
    let (s, v) = pop (object_at set_kind m a) in
    answer (drop_empty key s (write m a s)) (bulk_data (some v))
pop_at key (suc (suc n)) m a =
    let (s, vs) = pop_many (suc (suc n)) (object_at set_kind m a) in
    answer (drop_empty key s (write m a s)) (array_data (bulks vs))

abbrev pub pop_found : Bytes → ℕ → SetDb → Found → SetReply
pop_found key n m absent = answer m (bulk_data none)
pop_found key n m wrong = answer_error m wrong_type
pop_found key n m (at a) = pop_at key n m a

abbrev pub pop_counted : ℤ → Bytes → Option ℤ → SetDb → SetReply
pop_counted now key (some (pos n)) m =
    let m' = checked now key m in
    if (check_ttl now key m.mem).1
    then pop_found key n m' (found set_kind m'.mem key)
    else answer m' (bulk_data none)
pop_counted now key _ m = answer_error m (codes "count value must be a positive integer")

pub s_pop_set : ℤ → List Bytes → SetDb → SetReply
unfolding pop_many
s_pop_set now [] m = panic
s_pop_set now (c ∷ key ∷ []) m =
    if named c (codes "spop")
    then pop_counted now key (some (pos 1)) m
    else refuse c (codes "spop") m
s_pop_set now (c ∷ key ∷ n ∷ []) m =
    if named c (codes "spop") then pop_counted now key (atoi n) m else refuse c (codes "spop") m
s_pop_set now (c ∷ args) m = refuse c (codes "spop") m

-- what SMOVE does with the address of the source, and the value of the destination
abbrev pub move_to : Bytes → Bytes → SetDb → ℕ → Found → SetReply
move_to des v m a wrong = answer_error m wrong_type
move_to des v m a absent =
    let (s, n) = SetStruct.remove (object_at set_kind m a) v in
    if n == 0
    then answer_int (write m a s) 0
    else answer_int (add_object set_kind des (add new_set v).0 (write m a s)) 1
move_to des v m a (at b) =
    let (s, n) = SetStruct.remove (object_at set_kind m a) v in
    let m' = write m a s in
    if n == 0
    then answer_int m' 0
    else answer_int (write m' b (add (object_at set_kind m' b) v).0) 1

abbrev pub move_found : Bytes → Bytes → SetDb → Found → SetReply
move_found des v m absent = answer_int m 0
move_found des v m wrong = answer_error m wrong_type
move_found des v m (at a) = move_to des v m a (found set_kind m.mem des)

unfoldable pub s_move_set : ℤ → List Bytes → SetDb → SetReply
s_move_set now (c ∷ src ∷ des ∷ v ∷ []) m =
    let m1 = checked now des m in
    let m2 = checked now src m1 in
    if (check_ttl now src m1.mem).1
    then move_found des v m2 (found set_kind m2.mem src)
    else answer_int m2 0
s_move_set now args m = wrong_count (codes "smove") m
