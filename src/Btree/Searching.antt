-- ===== src/Btree/Searching.antt =====
-- memdb/btree.go: the lookups, and the tree with its count, as a sequence of members.
use mathlib.Core.Path.{subst}
use redis_go.Prelude.{
  ℕ, suc, ◌+◌, ◌-◌, ◌<◌, ◌≡◌, refl, ap, sym, ◌∙◌, Bool, true, false, Option, none, some, List, [],
  ◌∷◌, arith, ltb, ltb→lt, length, if◌then◌else◌, inl, inr, Bool-cases,
}
use redis_go.Prelude.Outcome.{Returns, returns, Returns-bind, Returns-mono}
use redis_go.Btree.{Score, Member, Tree, leaf, node, get, ascend, Btree, insert_value, delete_value}
use redis_go.Btree.Sequence.{
  Sorted, Above, place, take_out, find, Sorted-left, Sorted-right, find-left, find-right, find-here,
}
use redis_go.Btree.Inserting.{is_new}
use redis_go.Btree.Balance.{IsBalanced, insert-place}
use redis_go.Btree.Deleting.{taken, delete_node-Taken}

find-nil : (s : Score) → find s [] ≡ none
unfolding find
find-nil s = refl

-- `get` finds the member with the score, if there is one, where the scores grow.
pub get-find : (t : Tree) (s : Score) → Sorted (ascend t) → get t s ≡ find s (ascend t)
unfolding get ascend
get-find leaf s h = sym (find-nil s)
get-find (node l v h r) s o =
    let (left, below) = Sorted-left (ascend l) v (ascend r) o in
    let right = Sorted-right (ascend l) (v ∷ ascend r) o in
    elim (Bool-cases (ltb s v.score)) [
      | inl less ↦
          rw less
            (get-find l s left ∙ sym (find-left s v (ascend l) (ascend r) (ltb→lt s v.score less)))
      | inr not_less ↦ elim (Bool-cases (ltb v.score s)) [
        | inl more ↦
            rw (not_less, more)
              (get-find r s right.1
                ∙ sym (find-right v v (ascend l) (ascend r) below s (ltb→lt v.score s more)))
        | inr not_more ↦
            rw (not_less, not_more)
              (sym (find-here v v (ascend l) (ascend r) below s (ground arith)))
      ]
    ]

Above-place :
    (k : Score) (x : Member) (ms : List Member) → k < x.score → Above k ms → Above k (place x ms)
unfolding place
Above-place k x [] h a = (h, tt)
Above-place k x (m ∷ ms) h a = ground (arith, Above-place k x ms)

place-Sorted : (x : Member) (ms : List Member) → Sorted ms → Sorted (place x ms)
unfolding place
place-Sorted x [] s = (tt, tt)
place-Sorted x (m ∷ ms) s = elim (Bool-cases (ltb m.score x.score)) [
  | inl more ↦
      rw more (Above-place m.score x ms (ltb→lt m.score x.score more) s.0, place-Sorted x ms s.1)
  | inr not_more ↦ elim (Bool-cases (ltb x.score m.score)) [
    | inl less ↦
        let lt = ltb→lt x.score m.score less in
        rw (not_more, less) ((lt, Above-lt x.score m.score ms lt s.0), s)
    | inr not_less ↦ rw (not_more, not_less) s
  ]
]
  where
    Above-lt : (j k : Score) (ns : List Member) → j < k → Above k ns → Above j ns
    Above-lt j k [] h a = tt
    Above-lt j k (n ∷ ns) h a = (omega (arith, a.0), Above-lt j k ns h a.1)

Above-take_out : (k : Score) (x : Member) (ms : List Member) → Above k ms → Above k (take_out x ms)
unfolding take_out
Above-take_out k x [] a = tt
Above-take_out k x (m ∷ ms) a = ground (arith, Above-take_out k x ms)

take_out-Sorted : (x : Member) (ms : List Member) → Sorted ms → Sorted (take_out x ms)
unfolding take_out
take_out-Sorted x [] s = tt
take_out-Sorted x (m ∷ ms) s = ground (arith, take_out-Sorted x ms, Above-take_out m.score x ms)

length-place :
    (x : Member) (ms : List Member)
    → length (place x ms) ≡ (if is_new x.score ms then suc (length ms) else length ms)
unfolding place find
length-place x [] = refl
length-place x (m ∷ ms) = ground (arith, length-place x ms)

length-take_out :
    (x : Member) (ms : List Member)
    → length (take_out x ms) + (if taken x (find x.score ms) then 1 else 0) ≡ length ms
unfolding take_out find
length-take_out x [] = refl
length-take_out x (m ∷ ms) = ground (arith, length-take_out x ms)

counted :
    {b c : Bool} {m n : ℕ} → b ≡ c → m ≡ n → (if b then suc m else m) ≡ (if c then suc n else n)
counted e f = ground arith

less :
    {b c : Bool} {m n k : ℕ}
    → b ≡ c
    → m ≡ n
    → k + (if c then 1 else 0) ≡ n
    → (if b then m - 1 else m) ≡ k
less e f g = ground arith

-- The scores of the tree grow, and the count is that of its members.
abbrev pub IsCounted : Btree → Type 0
IsCounted t = Sorted (ascend t.root) × (t.len ≡ length (ascend t.root))

-- `Insert` keeps the scores of an AVL tree growing and its count right, and puts the member at its
-- place.
pub insert_value-IsCounted :
    (t : Btree) (x : Member)
    → IsCounted t
    → IsBalanced t.root
    → Returns (λ q. IsCounted q.0 × (ascend q.0.root ≡ place x (ascend t.root))) (insert_value t x)
unfolding insert_value
insert_value-IsCounted t x (s, n) b = Returns-bind (insert-place t.root x s b) λ q p. returns (
  (
    subst Sorted (sym p.0.0) (place-Sorted x (ascend t.root) s),
    counted p.0.1 n ∙ sym (length-place x (ascend t.root)) ∙ sym (ap length p.0.0),
  ),
  p.0.0,
)

delete-Taken :
    (t : Btree) (x : Member)
    → IsCounted t
    → Returns
        (λ q. IsCounted q.0 × (ascend q.0.root ≡ take_out x (ascend t.root)) × (q.1 ≡ true))
        (delete_value t (some x))
unfolding delete_value
delete-Taken t x (s, n) = Returns-bind (delete_node-Taken t.root x s) λ q p. returns (
  (
    subst Sorted (sym p.0) (take_out-Sorted x (ascend t.root) s),
    less p.1 n (length-take_out x (ascend t.root)) ∙ sym (ap length p.0),
  ),
  p.0,
  refl,
)

-- what `Delete` does, with the node that the table has for the name, or without one
abbrev pub Deletes : Btree → Option Member → Btree × Bool → Type 0
Deletes t none (t', deleted) = (t' ≡ t) × (deleted ≡ false)
Deletes t (some x) (t', deleted) = (ascend t'.root ≡ take_out x (ascend t.root)) × (deleted ≡ true)

-- `Delete` keeps the scores growing and the count right, whatever the heights, and does not panic. It
-- takes the member of the node that the table names, or its names, out; without a node it changes
-- nothing, and returns nil.
pub delete_value-IsCounted :
    (t : Btree) (o : Option Member)
    → IsCounted t
    → Returns (λ q. IsCounted q.0 × Deletes t o q) (delete_value t o)
unfolding delete_value
delete_value-IsCounted t none c = returns (c, (refl, refl))
delete_value-IsCounted t (some x) c = Returns-mono (delete-Taken t x c) (λ q p. (p.0, (p.1, p.2)))
