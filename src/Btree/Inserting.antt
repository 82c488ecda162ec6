-- ===== src/Btree/Inserting.antt =====
-- memdb/btree.go: `Insert`, against the sequence of the members.
use redis_go.Prelude.{
  ◌<◌, ◌≡◌, refl, ap, sym, ◌∙◌, Bool, true, false, Option, none, some, List, [], ◌∷◌, ◌++◌,
  append_assoc, arith, ltb, inl, inr, Bool-cases,
}
use redis_go.Prelude.Outcome.{Safely, returned, panicked, Safely-bind, Safely-mono}
use redis_go.Btree.{
  Score, Member, Tree, leaf, node, with_height, left_heavy, right_heavy, rotate_right, rotate_left,
  rotate_left_right, rotate_right_left, settle, insert, ascend,
}
use redis_go.Btree.Sequence.{
  Sorted, place, find, Sorted-left, Sorted-right, place-left, place-right, place-here, find-left,
  find-right, find-here,
}

abbrev pub Keeps : List Member → Tree → Type 0
Keeps ms t = ascend t ≡ ms

pub rotate_right-Keeps : (t : Tree) → Safely (Keeps (ascend t)) (rotate_right t)
unfolding rotate_right ascend
rotate_right-Keeps leaf = panicked
rotate_right-Keeps (node leaf v h r) = panicked
rotate_right-Keeps (node (node a u k b) v h r) =
    returned (sym (append_assoc (ascend a) (u ∷ ascend b) (v ∷ ascend r)))

pub rotate_left-Keeps : (t : Tree) → Safely (Keeps (ascend t)) (rotate_left t)
unfolding rotate_left ascend
rotate_left-Keeps leaf = panicked
rotate_left-Keeps (node l v h leaf) = panicked
rotate_left-Keeps (node l v h (node a u k b)) =
    returned (append_assoc (ascend l) (v ∷ ascend a) (u ∷ ascend b))

pub rotate_left_right-Keeps : (t : Tree) → Safely (Keeps (ascend t)) (rotate_left_right t)
unfolding rotate_left_right ascend
rotate_left_right-Keeps leaf = panicked
rotate_left_right-Keeps (node l v h r) = Safely-bind (rotate_left-Keeps l) λ l' e.
    Safely-mono (rotate_right-Keeps (node l' v h r)) λ t f. f ∙ ap (λ ms. ms ++ v ∷ ascend r) e

pub rotate_right_left-Keeps : (t : Tree) → Safely (Keeps (ascend t)) (rotate_right_left t)
unfolding rotate_right_left ascend
rotate_right_left-Keeps leaf = panicked
rotate_right_left-Keeps (node l v h r) = Safely-bind (rotate_right-Keeps r) λ r' e.
    Safely-mono (rotate_left-Keeps (node l v h r')) λ t f. f ∙ ap (λ ms. ascend l ++ v ∷ ms) e

settle-Keeps : (t : Tree) (at target : Score) → Safely (Keeps (ascend t)) (settle t at target)
unfolding settle
settle-Keeps t at target = elim (Bool-cases (left_heavy t)) [
  | inl e ↦ elim (Bool-cases (ltb target at)) [
    | inl f ↦ rw (e, f) (rotate_right-Keeps t)
    | inr f ↦ elim (Bool-cases (ltb at target)) [
      | inl g ↦ rw (e, f, g) (rotate_left_right-Keeps t)
      | inr g ↦ rw (e, f, g) (returned refl)
    ]
  ]
  | inr e ↦ elim (Bool-cases (right_heavy t)) [
    | inr g ↦ rw (e, g) (returned refl)
    | inl g ↦ elim (Bool-cases (ltb at target)) [
      | inl f ↦ rw (e, g, f) (rotate_left-Keeps t)
      | inr f ↦ elim (Bool-cases (ltb target at)) [
        | inl k ↦ rw (e, g, f, k) (rotate_right_left-Keeps t)
        | inr k ↦ rw (e, g, f, k) (returned refl)
      ]
    ]
  ]
]

abbrev pub absent : Option Member → Bool
absent none = true
absent (some _) = false

-- Whether no member has the score.
abbrev pub is_new : Score → List Member → Bool
is_new s ms = absent (find s ms)

abbrev pub Placed : Member → List Member → Tree × Bool → Type 0
Placed x ms (t, added) = (ascend t ≡ place x ms) × (added ≡ is_new x.score ms)

insert-leaf : (x : Member) → Safely (Placed x []) (insert leaf x)
unfolding insert place find ascend
insert-leaf x = returned (refl, refl)

pub insert-Placed :
    (t : Tree) (x : Member) → Sorted (ascend t) → Safely (Placed x (ascend t)) (insert t x)
unfolding insert ascend
insert-Placed leaf x s = insert-leaf x
insert-Placed (node l v h r) x s =
    let (left, below) = Sorted-left (ascend l) v (ascend r) s in
    let right = Sorted-right (ascend l) (v ∷ ascend r) s in
    elim (Bool-cases (ltb v.score x.score)) [
      | inl more ↦
          let lt : v.score < x.score = ground arith in
          rw more (
            Safely-bind (insert-Placed r x right.1) λ q p.
              Safely-bind (settle-Keeps (with_height l v q.0) v.score x.score) λ n e. returned (
                e
                    ∙ ap (λ ms. ascend l ++ v ∷ ms) p.0
                    ∙ sym (place-right x v (ascend l) (ascend r) below lt),
                p.1 ∙ sym (ap absent (find-right x v (ascend l) (ascend r) below x.score lt)),
              ))
      | inr not_more ↦ elim (Bool-cases (ltb x.score v.score)) [
        | inl less ↦
            let lt : x.score < v.score = ground arith in
            rw (not_more, less)
              (Safely-bind (insert-Placed l x left) λ q p.
                Safely-bind (settle-Keeps (with_height q.0 v r) v.score x.score) λ n e. returned (
                  e
                      ∙ ap (λ ms. ms ++ v ∷ ascend r) p.0
                      ∙ sym (place-left x v (ascend l) (ascend r) lt),
                  p.1 ∙ sym (ap absent (find-left x.score v (ascend l) (ascend r) lt)),
                ))
        | inr not_less ↦
            let eq : v.score ≡ x.score = ground arith in
            rw (not_more, not_less)
              (returned (
                sym (place-here x v (ascend l) (ascend r) below eq),
                sym (ap absent (find-here x v (ascend l) (ascend r) below x.score eq)),
              ))
      ]
    ]
