-- ===== src/Tests/Sets.antt =====
-- The commands on sets.
use redis_go.Prelude.{ℕ, ◌≡◌, ◌≢◌, refl, ap, false, some, [], ◌∷◌, Bytes, codes, arith}
use redis_go.Prelude.Int.{pos}
use redis_go.Prelude.Outcome.{panic}
use redis_go.SetStruct.{Set, new_set, add}
use redis_go.MemDb.Expiry.{ttl_at, is_due, new_mem_db_lem}
use redis_go.MemDb.Objects.{absent, wrong, at, found, add_object}
use redis_go.MemDb.Objects.Laws.{IsWell, object_of, add_object-IsWell, found-add_object}
use redis_go.MemDb.Sets.{set_kind, SetDb, found_value, answer_int, s_inter_set}
use redis_go.MemDb.Sets.Writes.{s_add_set, s_move_set}
use redis_go.MemDb.Sets.Laws.{set_of, Adds, s_add_set_lem}
use redis_go.MemDb.Sets.Moving.{Moves, s_move_set_lem}
use redis_go.MemDb.Sets.Crash.{s_inter_set_crashes}
use redis_go.Tests.Data.{key_a, key_b, empty_db, empty_db-IsSound}

-- a new database, with no set
abbrev no_set : SetDb
no_set = record { mem = empty_db; objects = [] }

no_set-absent : (k : Bytes) → found set_kind no_set.mem k ≡ absent
no_set-absent k = ap found_value (new_mem_db_lem (pos 4) k).0

no_set-IsWell : IsWell set_kind no_set
no_set-IsWell = record {
  sound = empty_db-IsSound;
  inside = λ k a e. let n = no_set-absent k in ground arith;
  apart = λ k j a e f. let n = no_set-absent k in ground arith;
}

no_set-not_due : (k : Bytes) → is_due (pos 5) (ttl_at no_set.mem k) ≡ false
no_set-not_due k = ap (is_due (pos 5)) (new_mem_db_lem (pos 4) k).1

no_set-right : found set_kind no_set.mem key_a ≢ wrong
no_set-right e = let n = no_set-absent key_a in ground arith

-- `key_a` has the set of one member, `x`
abbrev one_set : SetDb
one_set = add_object set_kind key_a (add new_set (codes "x")).0 no_set

one_set-IsWell : IsWell set_kind one_set
one_set-IsWell = add_object-IsWell set_kind key_a (add new_set (codes "x")).0 no_set no_set-IsWell

one_set-a : found set_kind one_set.mem key_a ≡ at 0
one_set-a = found-add_object set_kind key_a key_a (add new_set (codes "x")).0 no_set no_set-IsWell

one_set-right : found set_kind one_set.mem key_b ≢ wrong
one_set-right e =
    let f =
      found-add_object set_kind key_a key_b (add new_set (codes "x")).0 no_set no_set-IsWell in
    let n = no_set-absent key_b in ground arith

s_add_set_lem_example :
    (m' : SetDb) × (s : Set) × (n : ℕ) × (s_add_set
        (pos 5)
        (codes "SADD" ∷ key_a ∷ codes "x" ∷ codes "y" ∷ [])
        no_set
      ≡ answer_int m' n)
    × IsWell set_kind m'
    × (object_of set_kind m' key_a ≡ some s)
    × Adds (codes "x" ∷ codes "y" ∷ []) (set_of no_set key_a) (s, n)
    × (ttl_at m'.mem key_a ≡ ttl_at no_set.mem key_a)
s_add_set_lem_example =
    s_add_set_lem (pos 5) (codes "SADD") key_a (codes "x") (codes "y" ∷ []) no_set key_a
      no_set-IsWell (no_set-not_due key_a) no_set-right

s_move_set_lem_example :
    (m' : SetDb) × (n : ℕ) × (s_move_set
        (pos 5)
        (codes "SMOVE" ∷ key_a ∷ key_b ∷ codes "x" ∷ [])
        one_set
      ≡ answer_int m' n)
    × Moves key_a key_b (codes "x") key_b one_set m' n
s_move_set_lem_example =
    s_move_set_lem (pos 5) (codes "SMOVE") key_a key_b (codes "x") key_b one_set 0 one_set-IsWell
      (no_set-not_due key_a) (no_set-not_due key_b) one_set-a one_set-right

s_inter_set_crashes_example :
    s_inter_set (pos 5) (codes "SINTER" ∷ key_a ∷ key_b ∷ []) no_set ≡ panic
s_inter_set_crashes_example =
    s_inter_set_crashes (pos 5) (codes "SINTER") key_a (key_b ∷ []) no_set refl empty_db-IsSound
      (λ k e. (new_mem_db_lem (pos 4) k).0)
