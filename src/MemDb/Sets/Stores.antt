-- ===== src/MemDb/Sets/Stores.antt =====
-- memdb/sets.go: SDIFFSTORE, SINTERSTORE and SUNIONSTORE.
use redis_go.Prelude.{Option, none, some, List, [], ◌∷◌, Bytes, codes, ◌==◌, if◌then◌else◌}
use redis_go.Prelude.Int.{ℤ}
use redis_go.Prelude.Outcome.{Outcome, ok, panic}
use redis_go.SetStruct
use redis_go.SetStruct.{Set, new_set, union, difference}
use redis_go.MemDb.Reply.{named, wrong_type}
use redis_go.MemDb.Objects.{Found, absent, wrong, at, found, object_at, add_object, checked}
use redis_go.MemDb.Sets.{
  set_kind, SetDb, SetReply, answer, answer_int, answer_error, refuse, empty_array, alive_keys,
  gather, intersection,
}

-- the destination is tested again, and the result stored there unless it is empty
abbrev store_found : Bytes → Set → SetDb → Found → SetReply
store_found des s m wrong = answer_error m wrong_type
store_found des s m _ =
    answer_int (if SetStruct.len s == 0 then m else add_object set_kind des s m) (SetStruct.len s)

abbrev pub store : ℤ → Bytes → Set → SetDb → SetReply
store now des s m = let m' = checked now des m in store_found des s m' (found set_kind m'.mem des)

abbrev with_keys : (SetDb → Bytes → List Bytes → SetReply) → SetDb → List Bytes → SetReply
with_keys f m [] = answer_int m 0
with_keys f m (k ∷ ks) = f m k ks

-- What the three commands share: the destination is no value of another type, and some source is not
-- expired.
abbrev on_sources :
    ℤ → Bytes → List Bytes → (SetDb → Bytes → List Bytes → SetReply) → SetDb → Found → SetReply
on_sources now des keys f m wrong = answer_error m wrong_type
on_sources now des keys f m _ = let alive = alive_keys now keys m in with_keys f alive.0 alive.1

abbrev sources : ℤ → Bytes → List Bytes → (SetDb → Bytes → List Bytes → SetReply) → SetDb → SetReply
sources now des keys f m =
    let m' = checked now des m in on_sources now des keys f m' (found set_kind m'.mem des)

abbrev diff_rest : ℤ → Bytes → Set → SetDb → Option (List Set) → SetReply
diff_rest now des s m none = answer_error m wrong_type
diff_rest now des s m (some sets) = store now des (difference s sets) m

abbrev diff_first : ℤ → Bytes → List Bytes → SetDb → Found → SetReply
diff_first now des keys m absent = store now des new_set m
diff_first now des keys m wrong = answer_error m wrong_type
diff_first now des keys m (at a) = diff_rest now des (object_at set_kind m a) m (gather m keys)

pub s_diff_store_set : ℤ → List Bytes → SetDb → SetReply
s_diff_store_set now [] m = panic
s_diff_store_set now (c ∷ des ∷ key ∷ keys) m =
    if named c (codes "sdiffstore")
    then sources now des (key ∷ keys)
        (λ m' k ks. diff_first now des ks m' (found set_kind m'.mem k)) m
    else refuse c (codes "sdiffstore") m
s_diff_store_set now (c ∷ args) m = refuse c (codes "sdiffstore") m

abbrev inter_store : ℤ → Bytes → SetDb → Outcome Set → SetReply
inter_store now des m (ok s) = store now des s m
inter_store now des m _ = panic

abbrev inter_all : ℤ → Bytes → SetDb → Option (List Set) → SetReply
inter_all now des m none = answer_error m wrong_type
inter_all now des m (some sets) = inter_store now des m (intersection sets)

pub s_inter_store_set : ℤ → List Bytes → SetDb → SetReply
s_inter_store_set now [] m = panic
s_inter_store_set now (c ∷ des ∷ key ∷ keys) m =
    if named c (codes "sinterstore")
    then sources now des (key ∷ keys) (λ m' k ks. inter_all now des m' (gather m' (k ∷ ks))) m
    else refuse c (codes "sinterstore") m
s_inter_store_set now (c ∷ args) m = refuse c (codes "sinterstore") m

abbrev union_all : ℤ → Bytes → SetDb → Option (List Set) → SetReply
union_all now des m none = answer_error m wrong_type
union_all now des m (some []) = answer m empty_array
union_all now des m (some (s ∷ sets)) = store now des (union s sets) m

pub s_union_store_set : ℤ → List Bytes → SetDb → SetReply
s_union_store_set now [] m = panic
s_union_store_set now (c ∷ des ∷ key ∷ keys) m =
    if named c (codes "sunionstore")
    then sources now des (key ∷ keys) (λ m' k ks. union_all now des m' (gather m' (k ∷ ks))) m
    else refuse c (codes "sunionstore") m
s_union_store_set now (c ∷ args) m = refuse c (codes "sunionstore") m
