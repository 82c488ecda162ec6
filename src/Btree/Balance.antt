-- ===== src/Btree/Balance.antt =====
-- memdb/btree.go: heights and balance, and when `Insert` returns.
use redis_go.Prelude.{
  ℕ, suc, ◌≤◌, ◌<◌, ◌≡◌, refl, Bool, true, false, arith, ltb, ltb→lt, inl, inr, Bool-cases,
}
use redis_go.Prelude.Outcome.{
  ok, panic, Returns, returns, Safely, returned, panicked, Safely-bind, Returns-and, Returns-bind,
  Returns-mono,
}
use redis_go.Btree.{
  Score, Member, Tree, leaf, node, height, max_height, with_height, left_heavy, right_heavy,
  rotate_right, rotate_left, rotate_left_right, rotate_right_left, settle, insert, ascend,
}
use redis_go.Btree.Sequence.{Sorted}
use redis_go.Btree.Inserting.{Placed, insert-Placed}

-- The stored heights are those of the tree.
abbrev pub IsMeasured : Tree → Type 0
IsMeasured leaf = Unit
IsMeasured (node l v h r) = IsMeasured l × (h ≡ suc (max_height l r)) × IsMeasured r

-- An AVL tree: measured, and the heights of two siblings differ by one at most.
abbrev pub IsBalanced : Tree → Type 0
IsBalanced leaf = Unit
IsBalanced (node l v h r) =
    IsBalanced l
    × (h ≡ suc (max_height l r))
    × (height l ≤ suc (height r))
    × (height r ≤ suc (height l))
    × IsBalanced r

rotate_right-IsMeasured : (t : Tree) → IsMeasured t → Safely IsMeasured (rotate_right t)
unfolding rotate_right
rotate_right-IsMeasured leaf m = panicked
rotate_right-IsMeasured (node leaf v h r) m = panicked
rotate_right-IsMeasured (node (node a u k b) v h r) m = returned (m.0.0, refl, (m.0.2, refl, m.2))

rotate_left-IsMeasured : (t : Tree) → IsMeasured t → Safely IsMeasured (rotate_left t)
unfolding rotate_left
rotate_left-IsMeasured leaf m = panicked
rotate_left-IsMeasured (node l v h leaf) m = panicked
rotate_left-IsMeasured (node l v h (node a u k b)) m = returned ((m.0, refl, m.2.0), refl, m.2.2)

-- A rotation measures its two nodes anew, whatever their heights were.
rotate_right-measures :
    (l : Tree) (v : Member) (h : ℕ) (r : Tree)
    → IsMeasured l
    → IsMeasured r
    → Safely IsMeasured (rotate_right (node l v h r))
unfolding rotate_right
rotate_right-measures leaf v h r m n = panicked
rotate_right-measures (node a u k b) v h r m n = returned (m.0, refl, (m.2, refl, n))

rotate_left-measures :
    (l : Tree) (v : Member) (h : ℕ) (r : Tree)
    → IsMeasured l
    → IsMeasured r
    → Safely IsMeasured (rotate_left (node l v h r))
unfolding rotate_left
rotate_left-measures l v h leaf m n = panicked
rotate_left-measures l v h (node a u k b) m n = returned ((m, refl, n.0), refl, n.2)

settle-IsMeasured :
    (l : Tree) (v : Member) (r : Tree) (at target : Score)
    → IsMeasured l
    → IsMeasured r
    → Safely IsMeasured (settle (with_height l v r) at target)
unfolding settle rotate_left_right rotate_right_left
settle-IsMeasured l v r at target m n =
    let t = with_height l v r in
    elim (Bool-cases (left_heavy t)) [
      | inl e ↦ elim (Bool-cases (ltb target at)) [
        | inl f ↦ rw (e, f) (rotate_right-measures l v _ r m n)
        | inr f ↦ elim (Bool-cases (ltb at target)) [
          | inl g ↦
              rw (e, f, g)
                (Safely-bind (rotate_left-IsMeasured l m)
                  λ l' p. rotate_right-measures l' v _ r p n)
          | inr g ↦ rw (e, f, g) (returned (m, refl, n))
        ]
      ]
      | inr e ↦ elim (Bool-cases (right_heavy t)) [
        | inr g ↦ rw (e, g) (returned (m, refl, n))
        | inl g ↦ elim (Bool-cases (ltb at target)) [
          | inl f ↦ rw (e, g, f) (rotate_left-measures l v _ r m n)
          | inr f ↦ elim (Bool-cases (ltb target at)) [
            | inl k ↦
                rw (e, g, f, k)
                  (Safely-bind (rotate_right-IsMeasured r n)
                    λ r' p. rotate_left-measures l v _ r' m p)
            | inr k ↦ rw (e, g, f, k) (returned (m, refl, n))
          ]
        ]
      ]
    ]

insert-IsMeasured :
    (t : Tree) (x : Member) → IsMeasured t → Safely (λ q. IsMeasured q.0) (insert t x)
unfolding insert
insert-IsMeasured leaf x m = returned (tt, refl, tt)
insert-IsMeasured (node l v h r) x m = elim (Bool-cases (ltb v.score x.score)) [
  | inl more ↦ rw more (
      Safely-bind (insert-IsMeasured r x m.2)
        λ q p. Safely-bind (settle-IsMeasured l v q.0 v.score x.score m.0 p) λ n e. returned e)
  | inr not_more ↦ elim (Bool-cases (ltb x.score v.score)) [
    | inl less ↦
        rw (not_more, less)
          (Safely-bind (insert-IsMeasured l x m.0)
            λ q p. Safely-bind (settle-IsMeasured q.0 v r v.score x.score p m.2) λ n e. returned e)
    | inr not_less ↦ rw (not_more, not_less) (returned m)
  ]
]

-- In an AVL tree the one rotation that `insert` makes is possible, and its result is no lower.
settle-right :
    (l : Tree) (v : Member) (h : ℕ) (r r' : Tree) (target : Score)
    → h ≡ suc (max_height l r)
    → height l ≤ suc (height r)
    → height r ≤ suc (height l)
    → height r ≤ height r'
    → v.score < target
    → Returns (λ n. h ≤ height n) (settle (with_height l v r') v.score target)
unfolding settle rotate_left
settle-right l v h r leaf target hh low high le lt =
    let e : left_heavy (with_height l v leaf) ≡ false = ground arith in
    let g : right_heavy (with_height l v leaf) ≡ false = ground arith in
    rw (e, g) (returns (ground arith))
settle-right l v h r (node a u k c) target hh low high le lt =
    let t = with_height l v (node a u k c) in
    let e : left_heavy t ≡ false = ground arith in
    elim (Bool-cases (right_heavy t)) [
      | inr g ↦ rw (e, g) (returns (ground arith))
      | inl g ↦
          let f : ltb v.score target ≡ true = ground arith in rw (e, g, f) (returns (ground arith))
    ]

settle-left :
    (l : Tree) (v : Member) (h : ℕ) (r l' : Tree) (target : Score)
    → h ≡ suc (max_height l r)
    → height l ≤ suc (height r)
    → height r ≤ suc (height l)
    → height l ≤ height l'
    → target < v.score
    → Returns (λ n. h ≤ height n) (settle (with_height l' v r) v.score target)
unfolding settle rotate_right
settle-left l v h r leaf target hh low high le lt =
    let e : left_heavy (with_height leaf v r) ≡ false = ground arith in
    let g : right_heavy (with_height leaf v r) ≡ false = ground arith in
    rw (e, g) (returns (ground arith))
settle-left l v h r (node a u k c) target hh low high le lt =
    let t = with_height (node a u k c) v r in
    let e : right_heavy t ≡ false = ground arith in
    elim (Bool-cases (left_heavy t)) [
      | inr g ↦ rw (g, e) (returns (ground arith))
      | inl g ↦
          let f : ltb target v.score ≡ true = ground arith in rw (g, f) (returns (ground arith))
    ]

IsBalanced-IsMeasured : (t : Tree) → IsBalanced t → IsMeasured t
IsBalanced-IsMeasured leaf b = tt
IsBalanced-IsMeasured (node l v h r) b =
    (IsBalanced-IsMeasured l b.0, b.1, IsBalanced-IsMeasured r b.4)

-- Into an AVL tree `insert` returns: it does not go through a nil pointer.
insert-Returns :
    (t : Tree) (x : Member)
    → IsBalanced t
    → Returns (λ q. (height t ≤ height q.0) × IsMeasured q.0) (insert t x)
unfolding insert
insert-Returns leaf x b = returns (omega arith, (tt, refl, tt))
insert-Returns (node l v h r) x b = elim (Bool-cases (ltb v.score x.score)) [
  | inl more ↦ rw more (
      Returns-bind (insert-Returns r x b.4) λ q p.
        Returns-bind
          (Returns-and
            (settle-right l v h r q.0 x.score b.1 b.2 b.3 p.0 (ltb→lt v.score x.score more))
            (settle-IsMeasured l v q.0 v.score x.score (IsBalanced-IsMeasured l b.0) p.1))
          λ n e. returns e)
  | inr not_more ↦ elim (Bool-cases (ltb x.score v.score)) [
    | inl less ↦
        rw (not_more, less)
          (Returns-bind (insert-Returns l x b.0) λ q p.
            Returns-bind
              (Returns-and
                (settle-left l v h r q.0 x.score b.1 b.2 b.3 p.0 (ltb→lt x.score v.score less))
                (settle-IsMeasured q.0 v r v.score x.score p.1 (IsBalanced-IsMeasured r b.4)))
              λ n e. returns e)
    | inr not_less ↦
        rw (not_more, not_less)
          (returns (omega arith, (IsBalanced-IsMeasured l b.0, b.1, IsBalanced-IsMeasured r b.4)))
  ]
]

-- `insert` puts a member into an AVL tree with growing scores without a panic: the sequence of the
-- members has it at the place of its score, or has its names added there where the score exists; the
-- flag says that the score is new; and the heights stored are those of the new tree.
pub insert-place :
    (t : Tree) (x : Member)
    → Sorted (ascend t)
    → IsBalanced t
    → Returns (λ q. Placed x (ascend t) q × IsMeasured q.0) (insert t x)
insert-place t x s b =
    Returns-mono (Returns-and (insert-Returns t x b) (insert-Placed t x s)) λ q p. (p.1, p.0.1)

-- Where the left child of a node has no right child and is higher by two than the right one with the
-- new member in it, the insertion of that member panics: the rotation is chosen by the place of the
-- member beside the node, and goes through the missing child.
pub insert_crashes :
    (a : Tree) (u v x : Member) (h k : ℕ) (r r' : Tree) (added : Bool)
    → insert r x ≡ ok (r', added)
    → v.score < x.score
    → suc (height r') < k
    → insert (node (node a u k leaf) v h r) x ≡ panic
unfolding insert settle rotate_left_right rotate_left
insert_crashes a u v x h k r r' added e lt high =
    let more : ltb v.score x.score ≡ true = ground arith in
    let not_less : ltb x.score v.score ≡ false = ground arith in
    let heavy : ltb (suc (height r')) k ≡ true = ground arith in rw (more, e, heavy, not_less) refl
