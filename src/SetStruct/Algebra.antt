-- ===== src/SetStruct/Algebra.antt =====
-- The methods of `Set` as operations on sets of keys.
use redis_go.Prelude.{
  ◌+◌, ◌≡◌, refl, Bool, true, false, not, ◌&&◌, ◌||◌, List, [], ◌∷◌, Bytes, bytes_equal,
  bytes_equal_iff, if◌then◌else◌, arith, ◌↔◌,
}
use redis_go.GoMap
use redis_go.GoMap.{GoMap, put, keys, is_some, IsUnique}
use redis_go.GoMap.Laws.{
  bit, get-put, get-remove, put-IsUnique, remove-IsUnique, length-put, contains, contains-keys,
}
use redis_go.SetStruct.{
  Set, new_set, has, add, remove, len, members, add_all, remove_all, retain, union_loop, union,
  intersect_loop, intersect, difference_loop, difference, subset_loop, is_subset,
}

-- no key twice
abbrev pub IsProper : Set → Type 0
IsProper s = IsUnique s.table

pub has-new_set : (j : Bytes) → has new_set j ≡ false
unfolding has new_set GoMap.get
has-new_set j = refl

-- `Add` and `Remove` change the membership of one key, and say whether they did.
pub has-add :
    (s : Set) (k j : Bytes)
    → (has (add s k).0 j ≡ (bytes_equal k j || has s j)) × ((add s k).1 + bit (has s k) ≡ 1)
unfolding has add
has-add s k j = ground (arith, get-put k j tt s.table, bytes_equal_iff k j)

add-IsProper : (s : Set) (k : Bytes) → IsProper s → IsProper (add s k).0
unfolding add
add-IsProper s k h = ground (arith, put-IsUnique k tt s.table h)

pub has-remove :
    (s : Set) (k j : Bytes)
    → IsProper s
    → (has (remove s k).0 j ≡ (not (bytes_equal k j) && has s j)) × ((remove s k).1 ≡ bit (has s k))
unfolding has remove
has-remove s k j h = ground (arith, get-remove k j s.table h, bytes_equal_iff k j)

-- `Remove` says whether the key was there.
pub remove_count : (s : Set) (k : Bytes) → (remove s k).1 ≡ (if has s k then 1 else 0)
unfolding has remove
remove_count s k = ground arith

remove-IsProper : (s : Set) (k : Bytes) → IsProper s → IsProper (remove s k).0
unfolding remove
remove-IsProper s k h = ground (arith, remove-IsUnique k s.table h)

-- `Len` counts the members.
pub len-add : (s : Set) (k : Bytes) → len (add s k).0 ≡ len s + (add s k).1
unfolding has add len
len-add s k = ground (arith, length-put k tt s.table)

-- The set is proper, and this test tells its members.
abbrev pub Holds : Set → (Bytes → Bool) → Type 0
Holds s f = ((j : Bytes) → has s j ≡ f j) × IsProper s

contains-members : (s : Set) (j : Bytes) → contains j (members s) ≡ has s j
unfolding members has
contains-members s j = contains-keys j s.table

add_all_lem :
    (s : Set) (ks : List Bytes) → IsProper s → Holds (add_all s ks) (λ j. contains j ks || has s j)
unfolding add_all
add_all_lem s [] h = (λ j. refl, h)
add_all_lem s (k ∷ ks) h =
    let (ih, proper) = add_all_lem (add s k).0 ks (add-IsProper s k h) in
    (λ j. ground (arith, ih j, (has-add s k j).0), proper)

remove_all_lem :
    (s : Set) (ks : List Bytes)
    → IsProper s
    → Holds (remove_all s ks) (λ j. not (contains j ks) && has s j)
unfolding remove_all
remove_all_lem s [] h = (λ j. refl, h)
remove_all_lem s (k ∷ ks) h =
    let (ih, proper) = remove_all_lem (remove s k).0 ks (remove-IsProper s k h) in
    (λ j. ground (arith, ih j, (has-remove s k j h).0), proper)

-- one round of the loop over the keys
retain_one :
    (t s : Set) (k : Bytes)
    → IsProper s
    → Holds
        (if has t k then s else (remove s k).0)
        (λ j. has s j && (not (bytes_equal k j) || has t j))
retain_one t s k h = (
  λ j. ground (arith, (has-remove s k j h).0, bytes_equal_iff k j),
  ground (arith, remove-IsProper s k h),
)

retain_lem :
    (t s : Set) (ks : List Bytes)
    → IsProper s
    → Holds (retain t s ks) (λ j. has s j && (not (contains j ks) || has t j))
unfolding retain
retain_lem t s [] h = (λ j. ground arith, h)
retain_lem t s (k ∷ ks) h =
    let next : Set = if has t k then s else (remove s k).0 in
    let (step, kept) = retain_one t s k h in
    let (ih, proper) = retain_lem t next ks kept in
    (λ j. ground (arith, ih j, step j, bytes_equal_iff k j), proper)

copy_lem : (s : Set) → Holds (add_all new_set (members s)) (has s)
unfolding new_set
copy_lem s =
    let (h, proper) = add_all_lem new_set (members s) tt in
    (λ j. ground (arith, h j, contains-members s j, has-new_set j), proper)

abbrev pub in_any : List Set → Bytes → Bool
in_any [] j = false
in_any (t ∷ ts) j = has t j || in_any ts j

abbrev pub in_all : List Set → Bytes → Bool
in_all [] j = true
in_all (t ∷ ts) j = has t j && in_all ts j

union_loop_lem :
    (s : Set) (ts : List Set) → IsProper s → Holds (union_loop s ts) (λ j. has s j || in_any ts j)
unfolding union_loop
union_loop_lem s [] h = (λ j. ground arith, h)
union_loop_lem s (t ∷ ts) h =
    let (step, proper) = add_all_lem s (members t) h in
    let (ih, proper') = union_loop_lem (add_all s (members t)) ts proper in
    (λ j. ground (arith, ih j, step j, contains-members t j), proper')

intersect_loop_lem :
    (s : Set) (ts : List Set)
    → IsProper s
    → Holds (intersect_loop s ts) (λ j. has s j && in_all ts j)
unfolding intersect_loop
intersect_loop_lem s [] h = (λ j. ground arith, h)
intersect_loop_lem s (t ∷ ts) h =
    let (step, proper) = retain_lem t s (members s) h in
    let (ih, proper') = intersect_loop_lem (retain t s (members s)) ts proper in
    (λ j. ground (arith, ih j, step j, contains-members s j), proper')

difference_loop_lem :
    (s : Set) (ts : List Set)
    → IsProper s
    → Holds (difference_loop s ts) (λ j. has s j && not (in_any ts j))
unfolding difference_loop
difference_loop_lem s [] h = (λ j. ground arith, h)
difference_loop_lem s (t ∷ ts) h =
    let (step, proper) = remove_all_lem s (members t) h in
    let (ih, proper') = difference_loop_lem (remove_all s (members t)) ts proper in
    (λ j. ground (arith, ih j, step j, contains-members t j), proper')

-- `Union`, `Intersect` and `Difference` are what they are called, on any number of sets: the members
-- of the result are those of the first set or of another one, of the first and of all others, and of
-- the first and of no other; and no key stands in the result twice.
pub set_algebra :
    (s : Set) (ts : List Set)
    → Holds (union s ts) (λ j. has s j || in_any ts j)
      × Holds (intersect s ts) (λ j. has s j && in_all ts j)
      × Holds (difference s ts) (λ j. has s j && not (in_any ts j))
unfolding union intersect difference
set_algebra s ts =
    let (copy, proper) = copy_lem s in
    let (u, pu) = union_loop_lem _ ts proper in
    let (i, pi) = intersect_loop_lem _ ts proper in
    let (d, pd) = difference_loop_lem _ ts proper in
    (
      (λ j. ground (arith, u j, copy j), pu),
      (λ j. ground (arith, i j, copy j), pi),
      (λ j. ground (arith, d j, copy j), pd),
    )

subset_loop_sound :
    (t : Set) (ks : List Bytes) (j : Bytes)
    → subset_loop t ks ≡ true
    → contains j ks ≡ true
    → has t j ≡ true
unfolding subset_loop
subset_loop_sound t [] j h c = ground arith
subset_loop_sound t (k ∷ ks) j h c = ground (arith, subset_loop_sound t ks j, bytes_equal_iff k j)

subset_loop_complete :
    (t : Set) (ks : List Bytes)
    → ((j : Bytes) → contains j ks ≡ true → has t j ≡ true)
    → subset_loop t ks ≡ true
unfolding subset_loop
subset_loop_complete t [] h = refl
subset_loop_complete t (k ∷ ks) h =
    rw (h k (ground (arith, bytes_equal_iff k k)))
      (subset_loop_complete t ks (λ j c. h j (ground arith)))

-- `IsSubset` returns true exactly if every member of the set is a member of the other.
pub is_subset_iff :
    (s t : Set) → (is_subset s t ≡ true) ↔ ((j : Bytes) → (not (has s j) || has t j) ≡ true)
unfolding is_subset
is_subset_iff s t = (
  λ h j. ground (arith, subset_loop_sound t (members s) j h, contains-members s j),
  λ h. subset_loop_complete t (members s) (λ j c. ground (arith, h j, contains-members s j)),
)
