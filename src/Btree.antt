-- ===== src/Btree.antt =====
-- memdb/btree.go and memdb/sorted_set_struct.go: the search tree of a sorted set, less its table from
-- names to nodes. A call through a nil pointer is a panic.
pub mod Sequence
pub mod Inserting
pub mod Balance
pub mod Deleting
pub mod Searching
use redis_go.Prelude.{
  ℕ, suc, ◌+◌, ◌-◌, Bool, true, false, not, ◌||◌, Option, none, some, List, [], ◌∷◌, ◌++◌, Bytes,
  map, length, ◌==◌, ltb, leb, if◌then◌else◌,
}
use redis_go.Prelude.Outcome.{Outcome, ok, panic, ◌>>=◌}
use redis_go.GoMap
use redis_go.GoMap.{GoMap, put, keys}

-- A score is a `float64` that is not NaN, given by its place in the order of these values: the tree
-- does nothing with a score but compare it.
abbrev pub Score : Type 0
Score = ℕ

-- `struct SortedSetNode`
pub record Member : Type 0 where
  pub names : GoMap (Unit {0})
  pub score : Score

-- `struct Node`, and nil
pub data Tree : Type 0 where
  leaf : Tree
  node : Tree → Member → ℕ → Tree → Tree

-- `for name := range … { AddName(name) }`
abbrev pub add_names : List Bytes → GoMap (Unit {0}) → GoMap (Unit {0})
add_names [] names = names
add_names (n ∷ ns) names = add_names ns (put n tt names)

-- `for name := range … { DeleteName(name) }`
abbrev pub delete_names : List Bytes → GoMap (Unit {0}) → GoMap (Unit {0})
delete_names [] names = names
delete_names (n ∷ ns) names = delete_names ns (GoMap.remove n names)

abbrev pub height : Tree → ℕ
height leaf = 0
height (node _ _ h _) = h

abbrev pub max_height : Tree → Tree → ℕ
max_height l r = if ltb (height l) (height r) then height r else height l

-- the node with its height computed anew
abbrev pub with_height : Tree → Member → Tree → Tree
with_height l v r = node l v (suc (max_height l r)) r

-- `balance(n) > 1` and `balance(n) < -1`
abbrev pub left_heavy : Tree → Bool
left_heavy leaf = false
left_heavy (node l _ _ r) = ltb (suc (height r)) (height l)

abbrev pub right_heavy : Tree → Bool
right_heavy leaf = false
right_heavy (node l _ _ r) = ltb (suc (height l)) (height r)

unfoldable pub rotate_right : Tree → Outcome Tree
rotate_right leaf = panic
rotate_right (node leaf v h r) = panic
rotate_right (node (node ll lv lh lr) v h r) = ok (with_height ll lv (with_height lr v r))

unfoldable pub rotate_left : Tree → Outcome Tree
rotate_left leaf = panic
rotate_left (node l v h leaf) = panic
rotate_left (node l v h (node rl rv rh rr)) = ok (with_height (with_height l v rl) rv rr)

-- `n.left = n.left.rotateLeft(); return n.rotateRight()`, and its mirror image
unfoldable pub rotate_left_right : Tree → Outcome Tree
rotate_left_right leaf = panic
rotate_left_right (node l v h r) = do l' ← rotate_left l; rotate_right (node l' v h r)

unfoldable pub rotate_right_left : Tree → Outcome Tree
rotate_right_left leaf = panic
rotate_right_left (node l v h r) = do r' ← rotate_right r; rotate_left (node l v h r')

-- The end of `insert`: the rotation that is chosen by the place of the target beside the node itself.
unfoldable pub settle : Tree → Score → Score → Outcome Tree
settle n at target =
    if left_heavy n
    then (if ltb target at
        then rotate_right n
        else if ltb at target
        then rotate_left_right n
        else ok n)
    else if right_heavy n
    then (if ltb at target
        then rotate_left n
        else if ltb target at
        then rotate_right_left n
        else ok n)
    else ok n

-- The second component is what `*added` is set to.
unfoldable pub insert : Tree → Member → Outcome (Tree × Bool)
insert leaf x = ok (node leaf x 1 leaf, true)
insert (node l v h r) x =
    let in_left = (do
      q ← insert l x
      n ← settle (with_height q.0 v r) v.score x.score
      ok (n, q.1)) in
    let in_right = (do
      q ← insert r x
      n ← settle (with_height l v q.0) v.score x.score
      ok (n, q.1)) in
    if ltb v.score x.score
    then in_right
    else if ltb x.score v.score
    then in_left
    else ok (node l (record v { names = add_names (keys x.names) v.names }) h r, false)

-- `balance(n) < 0` and `balance(n) > 0`
abbrev pub leans_right : Tree → Bool
leans_right leaf = false
leans_right (node l _ _ r) = ltb (height l) (height r)

abbrev pub leans_left : Tree → Bool
leans_left leaf = false
leans_left (node l _ _ r) = ltb (height r) (height l)

unfoldable pub rebalance : Tree → Outcome Tree
rebalance leaf = ok leaf
rebalance (node l v h r) =
    let n = with_height l v r in
    if left_heavy n
    then (if leans_right l then rotate_left_right n else rotate_right n)
    else if right_heavy n
    then (if leans_left r then rotate_right_left n else rotate_left n)
    else ok n

-- `min`, which goes left as long as it can
unfoldable pub min : Tree → Option Member
min leaf = none
min (node l v _ _) = elim (min l) [ none ↦ some v | some w ↦ some w ]

abbrev pub is_nil : Tree → Bool
is_nil leaf = true
is_nil (node _ _ _ _) = false

-- all the names, or the target's as many
abbrev pub whole : Member → Member → Bool
whole v x = (length v.names == 0) || (length x.names == length v.names)

-- The second component is what `*deleted` is set to.
unfoldable pub delete_node : Tree → Member → Outcome (Tree × Bool)
delete_node leaf x = ok (leaf, false)
delete_node (node l v h r) x =
    let in_left = (do q ← delete_node l x; n ← rebalance (node q.0 v h r); ok (n, q.1)) in
    let in_right = (do q ← delete_node r x; n ← rebalance (node l v h q.0); ok (n, q.1)) in
    let replaced = λ (m : Member). (do q ← delete_node r m; ok (node l m h q.0, true)) in
    if ltb x.score v.score
    then in_left
    else if ltb v.score x.score
    then in_right
    else if whole v x
    then (if is_nil l
        then ok (r, true)
        else if is_nil r
        then ok (l, true)
        else elim (min r) [ none ↦ panic | some m ↦ replaced m ])
    else ok (node l (record v { names = delete_names (keys x.names) v.names }) h r, false)

-- `get`, by the score of the target
unfoldable pub get : Tree → Score → Option Member
get leaf s = none
get (node l v h r) s =
    let below = get l s in
    let above = get r s in if ltb s v.score then below else if ltb v.score s then above else some v

-- the members, in the order of `Ascend`
unfoldable pub ascend : Tree → List Member
ascend leaf = []
ascend (node l v h r) = ascend l ++ v ∷ ascend r

-- The members, in the order of `Descend`: `rIterate` calls `iterate` on both children.
unfoldable pub descend : Tree → List Member
descend leaf = []
descend (node l v h r) = ascend r ++ v ∷ ascend l

-- `Head`, the leftmost value, and `Tail`
unfoldable pub head : Tree → Option Member
head leaf = none
head (node l v h r) = elim (head l) [ none ↦ some v | some w ↦ some w ]

unfoldable pub tail : Tree → Option Member
tail leaf = none
tail (node l v h r) = elim (tail r) [ none ↦ some v | some w ↦ some w ]

-- `Rank`, which adds up heights
unfoldable pub rank : Tree → Score → ℕ
rank leaf s = 0
rank (node l v h r) s =
    let below = rank l s in
    let above = rank r s in if ltb v.score s then 1 + height l + above else below

-- `struct Btree`, less `dict` and the cache `values`
pub record Btree : Type 0 where
  pub root : Tree
  pub len : ℕ

unfoldable pub new_btree : Btree
new_btree = record { root = leaf; len = 0 }

-- `Btree.Insert`
unfoldable pub insert_value : Btree → Member → Outcome (Btree × Bool)
insert_value t x = do
  q ← insert t.root x
  ok (record { root = q.0; len = if q.1 then suc t.len else t.len }, q.1)

-- `Btree.Delete`, with the value of the node that the table has for the name, if any; the flag says
-- whether the tree is returned, and not nil
unfoldable pub delete_value : Btree → Option Member → Outcome (Btree × Bool)
delete_value t none = ok (t, false)
delete_value t (some x) = do
  q ← delete_node t.root x
  ok (record { root = q.0; len = if q.1 then t.len - 1 else t.len }, true)
