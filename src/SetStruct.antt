-- ===== src/SetStruct.antt =====
-- memdb/sets_struct.go: a set of strings, a Go map with no values.
pub mod Algebra
use redis_go.Prelude.{ℕ, Bool, true, false, List, [], ◌∷◌, Bytes, length, if◌then◌else◌}
use redis_go.GoMap
use redis_go.GoMap.{GoMap, put, keys, is_some}

-- `struct Set`, whose one field is the table
pub record Set : Type 0 where
  pub table : GoMap (Unit {0})

pub new_set : Set
new_set = record { table = [] }

pub has : Set → Bytes → Bool
has s key = is_some (GoMap.get key s.table)

pub add : Set → Bytes → Set × ℕ
add s key = if has s key then (s, 0) else (record { table = put key tt s.table }, 1)

pub remove : Set → Bytes → Set × ℕ
remove s key = if has s key then (record { table = GoMap.remove key s.table }, 1) else (s, 0)

pub len : Set → ℕ
len s = length s.table

pub clear : Set → Set
clear s = record { table = [] }

pub members : Set → List Bytes
members s = keys s.table

-- the first key that `range` meets, and the empty string for an empty set
pop_key : Set → List Bytes → Set × Bytes
pop_key s [] = (s, [])
pop_key s (key ∷ ks) = ((remove s key).0, key)

pub pop : Set → Set × Bytes
unfolding pop_key
pop s = pop_key s (members s)

-- `for key := range … { res.Add(key) }`
add_all : Set → List Bytes → Set
add_all res [] = res
add_all res (key ∷ ks) = add_all (add res key).0 ks

-- `for key := range … { res.Remove(key) }`
remove_all : Set → List Bytes → Set
remove_all res [] = res
remove_all res (key ∷ ks) = remove_all (remove res key).0 ks

-- `for key := range … { if !set.Has(key) { res.Remove(key) } }`; the range is over `res` itself, and
-- Go visits each key that is not yet removed once
retain : Set → Set → List Bytes → Set
retain set res [] = res
retain set res (key ∷ ks) = retain set (if has set key then res else (remove res key).0) ks

union_loop : Set → List Set → Set
union_loop res [] = res
union_loop res (set ∷ sets) = union_loop (add_all res (members set)) sets

pub union : Set → List Set → Set
union s sets = union_loop (add_all new_set (members s)) sets

intersect_loop : Set → List Set → Set
intersect_loop res [] = res
intersect_loop res (set ∷ sets) = intersect_loop (retain set res (members res)) sets

pub intersect : Set → List Set → Set
intersect s sets = intersect_loop (add_all new_set (members s)) sets

difference_loop : Set → List Set → Set
difference_loop res [] = res
difference_loop res (set ∷ sets) = difference_loop (remove_all res (members set)) sets

pub difference : Set → List Set → Set
difference s sets = difference_loop (add_all new_set (members s)) sets

subset_loop : Set → List Bytes → Bool
subset_loop set [] = true
subset_loop set (key ∷ ks) = if has set key then subset_loop set ks else false

pub is_subset : Set → Set → Bool
is_subset s set = subset_loop set (members s)
