-- ===== src/Tests/Trees.antt =====
-- The tree of a sorted set.
use redis_go.Prelude.{ℕ, ◌+◌, ◌≡◌, refl, true, some, List, [], ◌∷◌, arith}
use redis_go.Prelude.Outcome.{Outcome, ok, panic, ◌>>=◌, Returns}
use redis_go.Btree.{
  Member, Tree, leaf, node, ascend, Btree, new_btree, insert, insert_value, delete_value, get, rank,
  rotate_right, rotate_left, rotate_right_left, settle,
}
use redis_go.Btree.Sequence.{Sorted, place, find}
use redis_go.Btree.Balance.{IsBalanced, IsMeasured, insert-place, insert_crashes}
use redis_go.Btree.Inserting.{Placed}
use redis_go.Btree.Searching.{
  IsCounted, Deletes, get-find, insert_value-IsCounted, delete_value-IsCounted,
}
use redis_go.Tests.Data.{key_a}

-- a member with one name
abbrev member : ℕ → Member
member s = record { names = (key_a, tt) ∷ []; score = s }

abbrev tree_3 : Tree
tree_3 = node (node leaf (member 1) 1 leaf) (member 2) 2 (node leaf (member 4) 1 leaf)

abbrev set_3 : Btree
set_3 = record { root = tree_3; len = 3 }

set_3-IsCounted : IsCounted set_3
unfolding ascend
set_3-IsCounted = omega arith

tree_3-Sorted : Sorted (ascend tree_3)
tree_3-Sorted = set_3-IsCounted.0

tree_3-IsBalanced : IsBalanced tree_3
tree_3-IsBalanced = omega arith

insert-place_example :
    Returns (λ q. Placed (member 3) (ascend tree_3) q × IsMeasured q.0) (insert tree_3 (member 3))
insert-place_example = insert-place tree_3 (member 3) tree_3-Sorted tree_3-IsBalanced

insert_value-IsCounted_example :
    Returns
      (λ q. IsCounted q.0 × (ascend q.0.root ≡ place (member 3) (ascend tree_3)))
      (insert_value set_3 (member 3))
insert_value-IsCounted_example =
    insert_value-IsCounted set_3 (member 3) set_3-IsCounted tree_3-IsBalanced

delete_value-IsCounted_example :
    Returns
      (λ q. IsCounted q.0 × Deletes set_3 (some (member 2)) q)
      (delete_value set_3 (some (member 2)))
delete_value-IsCounted_example = delete_value-IsCounted set_3 (some (member 2)) set_3-IsCounted

get-find_example : get tree_3 4 ≡ find 4 (ascend tree_3)
get-find_example = get-find tree_3 4 tree_3-Sorted

abbrev crooked : Tree
crooked = node (node (node leaf (member 0) 2 leaf) (member 1) 3 leaf) (member 2) 4 leaf

insert_crashes_example : insert crooked (member 3) ≡ panic
unfolding insert
insert_crashes_example =
    insert_crashes (node leaf (member 0) 2 leaf) (member 1) (member 2) (member 3) 4 3 leaf
      (node leaf (member 3) 1 leaf) true refl (omega arith) (omega arith)

insert_all : Btree → List ℕ → Outcome Btree
insert_all t [] = ok t
insert_all t (s ∷ ss) = do q ← insert_value t (member s); insert_all q.0 ss

-- Eleven insertions into an empty set panic.
insertions_panic :
    insert_all new_btree (13 ∷ 17 ∷ 7 ∷ 14 ∷ 11 ∷ 6 ∷ 1 ∷ 3 ∷ 12 ∷ 5 ∷ 0 ∷ []) ≡ panic
unfolding insert_all new_btree insert_value insert settle rotate_right rotate_left rotate_right_left
insertions_panic = refl

-- A rank counts heights: of the seven scores below 8, six are counted.
abbrev three : ℕ → Tree
three s = node (node leaf (member s) 1 leaf) (member (s + 1)) 2 (node leaf (member (s + 2)) 1 leaf)

rank_runs : rank (node (three 1) (member 4) 3 (three 5)) 8 ≡ 6
unfolding rank
rank_runs = refl
