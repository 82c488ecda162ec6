-- ===== src/Tests/Tables.antt =====
-- The sharded map and the sets.
use redis_go.Prelude.{◌+◌, ◌≡◌, not, ◌&&◌, ◌||◌, none, some, [], ◌∷◌}
use redis_go.GoMap.{is_some}
use redis_go.GoMap.Laws.{bit}
use redis_go.ConcurrentMap.{set, lookup, delete}
use redis_go.ConcurrentMap.Laws.{IsValid, set_lem, delete_lem}
use redis_go.SetStruct.{Set, new_set, add, has, union, intersect, difference}
use redis_go.SetStruct.Algebra.{Holds, in_any, in_all, set_algebra}
use redis_go.Tests.Data.{key_a, key_b, map_4, map_4-IsValid}

set_lem_example :
    IsValid (set map_4 key_a key_b).0
    × (lookup (set map_4 key_a key_b).0 key_a ≡ some key_b)
    × ((set map_4 key_a key_b).1 + bit (is_some (lookup map_4 key_a)) ≡ 1)
set_lem_example = set_lem map_4 key_a map_4-IsValid key_b key_a

delete_lem_example :
    IsValid (delete (set map_4 key_a key_b).0 key_a).0
    × (lookup (delete (set map_4 key_a key_b).0 key_a).0 key_a ≡ none)
    × ((delete (set map_4 key_a key_b).0 key_a).1
        ≡ bit (is_some (lookup (set map_4 key_a key_b).0 key_a)))
delete_lem_example =
    delete_lem (set map_4 key_a key_b).0 key_a (set_lem map_4 key_a map_4-IsValid key_b key_a).0
      key_a

abbrev set_a : Set
set_a = (add new_set key_a).0

set_algebra_example :
    Holds (union set_a (new_set ∷ [])) (λ j. has set_a j || in_any (new_set ∷ []) j)
    × Holds (intersect set_a (new_set ∷ [])) (λ j. has set_a j && in_all (new_set ∷ []) j)
    × Holds (difference set_a (new_set ∷ [])) (λ j. has set_a j && not (in_any (new_set ∷ []) j))
set_algebra_example = set_algebra set_a (new_set ∷ [])
