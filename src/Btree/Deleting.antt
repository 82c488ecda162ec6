-- ===== src/Btree/Deleting.antt =====
-- memdb/btree.go: `deleteNode`, against the sequence of the members.
use redis_go.Prelude.{
  ℕ, ◌<◌, ◌≡◌, refl, ap, sym, ◌∙◌, Bool, true, false, Option, none, some, List, [], ◌∷◌, ◌++◌,
  append-nil, append_assoc, arith, ltb, ltb→lt, if◌then◌else◌, inl, inr, ◌⊎◌, Bool-cases,
}
use redis_go.Prelude.Outcome.{Returns, returns, Returns-bind}
use redis_go.Btree.{
  Member, Tree, leaf, node, with_height, left_heavy, right_heavy, leans_left, leans_right,
  rotate_right, rotate_left, rotate_left_right, rotate_right_left, rebalance, delete_names, min,
  is_nil, whole, delete_node, ascend,
}
use redis_go.GoMap.{keys}
use redis_go.Btree.Sequence.{
  Sorted, take_out, find, Sorted-left, Sorted-right, take_out-left, take_out-right, take_out-here,
  find-left, find-right, find-here,
}
use redis_go.Btree.Inserting.{Keeps}

-- A rotation of a node with the child that it lifts.
lift_left :
    (l : Tree) (v : Member) (h : ℕ) (r : Tree)
    → is_nil l ≡ false
    → Returns (Keeps (ascend l ++ v ∷ ascend r)) (rotate_right (node l v h r))
unfolding rotate_right ascend
lift_left leaf v h r e = absurd (cc)
lift_left (node a u k b) v h r e =
    returns (sym (append_assoc (ascend a) (u ∷ ascend b) (v ∷ ascend r)))

lift_right :
    (l : Tree) (v : Member) (h : ℕ) (r : Tree)
    → is_nil r ≡ false
    → Returns (Keeps (ascend l ++ v ∷ ascend r)) (rotate_left (node l v h r))
unfolding rotate_left ascend
lift_right l v h leaf e = absurd (cc)
lift_right l v h (node a u k b) e = returns (append_assoc (ascend l) (v ∷ ascend a) (u ∷ ascend b))

-- The double rotations, where the child leans to the inner side.
lift_inner_left :
    (l : Tree) (v : Member) (h : ℕ) (r : Tree)
    → leans_right l ≡ true
    → Returns (Keeps (ascend l ++ v ∷ ascend r)) (rotate_left_right (node l v h r))
unfolding rotate_left_right rotate_left rotate_right ascend
lift_inner_left leaf v h r e = absurd (cc)
lift_inner_left (node a u k leaf) v h r e = absurd (ground arith)
lift_inner_left (node a u k (node b w j c)) v h r e = returns (simp append_assoc)

lift_inner_right :
    (l : Tree) (v : Member) (h : ℕ) (r : Tree)
    → leans_left r ≡ true
    → Returns (Keeps (ascend l ++ v ∷ ascend r)) (rotate_right_left (node l v h r))
unfolding rotate_right_left rotate_left rotate_right ascend
lift_inner_right l v h leaf e = absurd (cc)
lift_inner_right l v h (node leaf u k b) e = absurd (ground arith)
lift_inner_right l v h (node (node a w j b) u k c) e = returns (simp append_assoc)

-- `rebalance` does not panic, and keeps the members in order.
rebalance-Keeps :
    (l : Tree) (v : Member) (h : ℕ) (r : Tree)
    → Returns (Keeps (ascend l ++ v ∷ ascend r)) (rebalance (node l v h r))
unfolding rebalance ascend
rebalance-Keeps l v h r =
    let t = with_height l v r in
    elim (Bool-cases (left_heavy t)) [
      | inl e ↦ elim (Bool-cases (leans_right l)) [
        | inl f ↦ rw (e, f) (lift_inner_left l v _ r f)
        | inr f ↦ rw (e, f) (lift_left l v _ r (heavy_left l v r e))
      ]
      | inr e ↦ elim (Bool-cases (right_heavy t)) [
        | inr g ↦ rw (e, g) (returns refl)
        | inl g ↦ elim (Bool-cases (leans_left r)) [
          | inl f ↦ rw (e, g, f) (lift_inner_right l v _ r f)
          | inr f ↦ rw (e, g, f) (lift_right l v _ r (heavy_right l v r g))
        ]
      ]
    ]
  where
    heavy_left :
        (a : Tree) (u : Member) (b : Tree)
        → left_heavy (with_height a u b) ≡ true
        → is_nil a ≡ false
    heavy_left leaf u b e = absurd (ground arith)
    heavy_left (node _ _ _ _) u b e = refl

    heavy_right :
        (a : Tree) (u : Member) (b : Tree)
        → right_heavy (with_height a u b) ≡ true
        → is_nil b ≡ false
    heavy_right a u leaf e = absurd (ground arith)
    heavy_right a u (node _ _ _ _) e = refl

-- `min` is the first member.
min-first :
    (t : Tree)
    → ((min t ≡ none) × (ascend t ≡ []))
      ⊎ ((m : Member) × (ms : List Member) × (min t ≡ some m) × (ascend t ≡ m ∷ ms))
unfolding min ascend
min-first leaf = inl (refl, refl)
min-first (node l v h r) = elim (min-first l) [
  | inl (e, f) ↦ inr (v, ascend r, ground (arith, e), ap (λ ms. ms ++ v ∷ ascend r) f)
  | inr (m, ms, e, f) ↦
      inr (m, ms ++ v ∷ ascend r, ground (arith, e), ap (λ ns. ns ++ v ∷ ascend r) f)
]

-- Whether the deletion takes a member out.
abbrev pub taken : Member → Option Member → Bool
taken x none = false
taken x (some v) = whole v x

abbrev pub Taken : Member → List Member → Tree × Bool → Type 0
Taken x ms (t, deleted) = (ascend t ≡ take_out x ms) × (deleted ≡ taken x (find x.score ms))

-- What is behind a member that the deletion meets.
abbrev left_over : Member → Member → List Member → Bool → List Member
left_over v x ms b = if b then ms else record v { names = delete_names (keys x.names) v.names } ∷ ms

nil-ascend : (t : Tree) → is_nil t ≡ true → ascend t ≡ []
unfolding ascend
nil-ascend leaf e = refl
nil-ascend (node l v h r) e = absurd (cc)

ascend-nil : (t : Tree) → ascend t ≡ [] → is_nil t ≡ true
unfolding ascend
ascend-nil leaf e = refl
ascend-nil (node l v h r) e = absurd (not_nil (ascend l) v (ascend r) e)
  where
    not_nil : (ms : List Member) (w : Member) (ns : List Member) → ms ++ w ∷ ns ≡ [] → ⊥
    not_nil [] w ns e = cc
    not_nil (m ∷ ms) w ns e = cc

-- A member takes itself out.
take_out-first : (m : Member) (ms : List Member) → take_out m (m ∷ ms) ≡ ms
unfolding take_out
take_out-first m ms = ground arith

take_out-nil : (x : Member) → (take_out x [] ≡ []) × (taken x (find x.score []) ≡ false)
unfolding take_out find
take_out-nil x = (refl, refl)

-- `deleteNode` takes the member with the target's score out of a sequence with growing scores, or,
-- where it has names of its own and not as many as the target, the target's names out of it; it
-- returns whether it took the member out, and does not panic, whatever the heights.
pub delete_node-Taken :
    (t : Tree) (x : Member) → Sorted (ascend t) → Returns (Taken x (ascend t)) (delete_node t x)
unfolding delete_node ascend
delete_node-Taken leaf x s = returns (sym (take_out-nil x).0, sym (take_out-nil x).1)
delete_node-Taken (node l v h r) x s =
    let (left, below) = Sorted-left (ascend l) v (ascend r) s in
    let right = Sorted-right (ascend l) (v ∷ ascend r) s in
    elim (Bool-cases (ltb x.score v.score)) [
      | inl less ↦
          let lt : x.score < v.score = ltb→lt x.score v.score less in
          rw less (
            Returns-bind (delete_node-Taken l x left) λ q p.
              Returns-bind (rebalance-Keeps q.0 v h r) λ n e. returns (
                e
                    ∙ ap (λ ms. ms ++ v ∷ ascend r) p.0
                    ∙ sym (take_out-left x v (ascend l) (ascend r) lt),
                p.1 ∙ sym (ap (taken x) (find-left x.score v (ascend l) (ascend r) lt)),
              ))
      | inr not_less ↦ elim (Bool-cases (ltb v.score x.score)) [
        | inl more ↦
            let lt : v.score < x.score = ltb→lt v.score x.score more in
            rw (not_less, more)
              (Returns-bind (delete_node-Taken r x right.1) λ q p.
                Returns-bind (rebalance-Keeps l v h q.0) λ n e. returns (
                  e
                      ∙ ap (λ ms. ascend l ++ v ∷ ms) p.0
                      ∙ sym (take_out-right x v (ascend l) (ascend r) below lt),
                  p.1 ∙ sym (ap (taken x) (find-right x v (ascend l) (ascend r) below x.score lt)),
                ))
        | inr not_more ↦
            let eq : v.score ≡ x.score = ground arith in
            let there = take_out-here x v (ascend l) (ascend r) below eq in
            let seen = ap (taken x) (find-here x v (ascend l) (ascend r) below x.score eq) in
            elim (Bool-cases (whole v x)) [
              | inr names ↦
                  rw (not_less, not_more, names)
                    (returns (
                      sym (there ∙ ap (λ b. ascend l ++ left_over v x (ascend r) b) names),
                      sym (seen ∙ names),
                    ))
              | inl all ↦
                  let gone = sym (there ∙ ap (λ b. ascend l ++ left_over v x (ascend r) b) all) in
                  let was = sym (seen ∙ all) in
                  elim (Bool-cases (is_nil l)) [
                    | inl no_left ↦
                        rw (not_less, not_more, all, no_left)
                          (returns
                            (ap (λ ms. ms ++ ascend r) (sym (nil-ascend l no_left)) ∙ gone, was))
                    | inr some_left ↦ elim (Bool-cases (is_nil r)) [
                      | inl no_right ↦
                          rw (not_less, not_more, all, some_left, no_right)
                            (returns (
                              sym (append-nil (ascend l))
                                  ∙ ap (λ ms. ascend l ++ ms) (sym (nil-ascend r no_right))
                                  ∙ gone,
                              was,
                            ))
                      | inr some_right ↦ elim (min-first r) [
                        | inl (_, none_there) ↦ absurd (ground (arith, ascend-nil r none_there))
                        | inr (m, ms, e, f) ↦
                            rw (not_less, not_more, all, some_left, some_right, e)
                              (Returns-bind (delete_node-Taken r m right.1) λ q p. returns (
                                ap (λ ns. ascend l ++ m ∷ ns)
                                      (p.0 ∙ ap (take_out m) f ∙ take_out-first m ms)
                                    ∙ ap (λ ns. ascend l ++ ns) (sym f)
                                    ∙ gone,
                                was,
                              ))
                      ]
                    ]
                  ]
            ]
      ]
    ]
