-- ===== src/Locks/Order.antt =====
-- `sortedLockPoses`: the positions of the keys, each once, in ascending order.
use redis_go.Prelude.{
  ℕ, ◌+◌, ◌<◌, ◌≡◌, refl, ◌∙◌, Bool, true, false, not, ◌||◌, List, [], ◌∷◌, Bytes, leb, ◌==◌, arith,
  All, if◌then◌else◌,
}
use redis_go.Locks.{get_key_pos, member, pos_set, insert, sort_ints, sorted_lock_poses}

abbrev pub IsAscending : List ℕ → Type 0
IsAscending [] = Unit
IsAscending (p ∷ ps) = All (λ q. p < q) ps × IsAscending ps

-- some key has its lock at this position
abbrev pub has_pos : ℕ → ℕ → List Bytes → Bool
has_pos size p [] = false
has_pos size p (key ∷ keys) = if p == get_key_pos size key then true else has_pos size p keys

abbrev NoTwice : List ℕ → Type 0
NoTwice [] = Unit
NoTwice (p ∷ ps) = (member p ps ≡ false) × NoTwice ps

member-insert : (p q : ℕ) (ps : List ℕ) → member p (insert q ps) ≡ (p == q || member p ps)
unfolding insert
member-insert p q [] = ground arith
member-insert p q (r ∷ rs) = ground (arith, member-insert p q rs)

member-sort_ints : (p : ℕ) (ps : List ℕ) → member p (sort_ints ps) ≡ member p ps
unfolding sort_ints
member-sort_ints p [] = refl
member-sort_ints p (q ∷ qs) =
    ground (arith, member-insert p q (sort_ints qs), member-sort_ints p qs)

All-insert : (b q : ℕ) (ps : List ℕ) → b < q → All (λ r. b < r) ps → All (λ r. b < r) (insert q ps)
unfolding insert
All-insert b q [] h a = ground arith
All-insert b q (r ∷ rs) h (a, rest) = ground (arith, All-insert b q rs h rest)

All-weaken : (a b : ℕ) (ps : List ℕ) → a < b → All (λ r. b < r) ps → All (λ r. a < r) ps
All-weaken a b [] h all = tt
All-weaken a b (p ∷ ps) h (x, xs) = (omega arith, All-weaken a b ps h xs)

insert-IsAscending :
    (q : ℕ) (ps : List ℕ) → member q ps ≡ false → IsAscending ps → IsAscending (insert q ps)
unfolding insert
insert-IsAscending q [] m h = ground arith
insert-IsAscending q (r ∷ rs) m (a, rest) =
    ground (arith, insert-IsAscending q rs, All-insert r q rs, All-weaken q r rs)

sort_ints-IsAscending : (ps : List ℕ) → NoTwice ps → IsAscending (sort_ints ps)
unfolding sort_ints
sort_ints-IsAscending [] h = tt
sort_ints-IsAscending (p ∷ ps) (n, h) =
    insert-IsAscending p (sort_ints ps) (member-sort_ints p ps ∙ n) (sort_ints-IsAscending ps h)

pos_set-NoTwice :
    (size : ℕ) (keys : List Bytes) (set : List ℕ) → NoTwice set → NoTwice (pos_set size keys set)
unfolding pos_set
pos_set-NoTwice size [] set h = h
pos_set-NoTwice size (key ∷ keys) set h =
    let pos : ℕ = get_key_pos size key in
    pos_set-NoTwice size keys (if member pos set then set else pos ∷ set) (ground arith)

member-pos_set :
    (size p : ℕ) (keys : List Bytes) (set : List ℕ)
    → member p (pos_set size keys set) ≡ (has_pos size p keys || member p set)
unfolding pos_set
member-pos_set size p [] set = refl
member-pos_set size p (key ∷ keys) set =
    let pos : ℕ = get_key_pos size key in
    ground (arith, member-pos_set size p keys (if member pos set then set else pos ∷ set))

has_pos-lt : (size p : ℕ) (keys : List Bytes) → 0 < size → has_pos size p keys ≡ true → p < size
unfolding get_key_pos
has_pos-lt size p [] h e = ground arith
has_pos-lt size p (key ∷ keys) h e = ground (arith, has_pos-lt size p keys h)

-- On a table with a lock at least, the positions that `LockMulti` locks are in ascending order, each of
-- them once; they are those of the keys, and no other; and each is one of the table.
pub sorted_lock_poses_lem :
    (size : ℕ) (keys : List Bytes) (p : ℕ)
    → 0 < size
    → IsAscending (sorted_lock_poses size keys)
      × (member p (sorted_lock_poses size keys) ≡ has_pos size p keys)
      × ((not (member p (sorted_lock_poses size keys)) || leb (p + 1) size) ≡ true)
unfolding sorted_lock_poses
sorted_lock_poses_lem size keys p h =
    let m : member p (sort_ints (pos_set size keys [])) ≡ has_pos size p keys =
      member-sort_ints p (pos_set size keys []) ∙ ground (arith, member-pos_set size p keys []) in
    (
      sort_ints-IsAscending (pos_set size keys []) (pos_set-NoTwice size keys [] tt),
      m,
      ground (arith, m, has_pos-lt size p keys h),
    )
