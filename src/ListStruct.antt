-- ===== src/ListStruct.antt =====
-- memdb/list_struct.go: the doubly linked list, on a heap of its own. A node is an address, its
-- fields are three maps, address 0 is nil, and a field of nil is a panic.
pub mod Linked
pub mod Rep
pub mod Walks
pub mod Edits
pub mod Ends
pub mod Reading
pub mod Scanning
pub mod Inserting
pub mod Removing
use redis_go.Prelude.{ℕ, suc, ◌-◌, Option, none, some, List, [], ◌∷◌, Bytes, ◌==◌, if◌then◌else◌}
use redis_go.Prelude.Outcome.{Outcome, ok, panic, ◌>>=◌}

abbrev pub Ptr : Type 0
Ptr = ℕ

-- A field of every node: `ListNode.Prev` or `ListNode.Next`.
abbrev pub Links : Type 0
Links = Ptr → Ptr

abbrev pub set {ℓ} : {A : Type ℓ} → (Ptr → A) → Ptr → A → Ptr → A
set m p v q = if q == p then v else m q

-- `struct List` with the nodes that it allocated, those below `fresh`. A subscription is an
-- identifier with its channel.
pub record DList : Type 0 where
  pub head : Ptr
  pub tail : Ptr
  pub len : ℕ
  pub prev : Links
  pub next : Links
  pub val : Ptr → Bytes
  pub fresh : Ptr
  pub l_subs : List (Bytes × ℕ)

-- `p.Next` or `p.Prev`, read
abbrev pub load : Links → Ptr → Outcome Ptr
load m p = if p == 0 then panic else ok (m p)

abbrev pub load_val : DList → Ptr → Outcome Bytes
load_val l p = if p == 0 then panic else ok (l.val p)

abbrev pub store_next : Ptr → Ptr → DList → Outcome DList
store_next p q l = if p == 0 then panic else ok (record l { next = set l.next p q })

abbrev pub store_prev : Ptr → Ptr → DList → Outcome DList
store_prev p q l = if p == 0 then panic else ok (record l { prev = set l.prev p q })

-- `&ListNode{Prev: p, Next: n, Val: v}`, at the address `l.fresh`
abbrev pub alloc : Ptr → Ptr → Bytes → DList → DList
alloc p n v l = record l {
  prev = set l.prev l.fresh p;
  next = set l.next l.fresh n;
  val = set l.val l.fresh v;
  fresh = suc l.fresh;
}

pub new_list : DList
new_list = record {
  head = 1;
  tail = 2;
  len = 0;
  prev = set (λ _. 0) 2 1;
  next = set (λ _. 0) 1 2;
  val = λ _. [];
  fresh = 3;
  l_subs = [];
}

unfoldable pub l_pop : DList → Outcome (DList × Ptr)
l_pop l = if l.len == 0 then ok (l, 0) else do
  node ← load l.next l.head
  after ← load l.next node
  l1 ← store_next l.head after l
  behind ← load l1.next node
  l2 ← store_prev behind l.head l1
  l3 ← store_prev node 0 l2
  l4 ← store_next node 0 l3
  ok (record l4 { len = l4.len - 1 }, node)

unfoldable pub r_pop : DList → Outcome (DList × Ptr)
r_pop l = if l.len == 0 then ok (l, 0) else do
  node ← load l.prev l.tail
  before ← load l.prev node
  l1 ← store_prev l.tail before l
  front ← load l1.prev node
  l2 ← store_next front l.tail l1
  l3 ← store_prev node 0 l2
  l4 ← store_next node 0 l3
  ok (record l4 { len = l4.len - 1 }, node)

-- What both pushes do last: with a subscription on the left, the first value is popped and sent.
-- The second component is the channel with the value.
deliver : DList → List (Bytes × ℕ) → Outcome (DList × Option (ℕ × Bytes))
deliver l [] = ok (l, none)
deliver l ((_, out) ∷ _) = do (l1, node) ← l_pop l; v ← load_val l1 node; ok (l1, some (out, v))

pub l_push : DList → Bytes → Outcome (DList × Option (ℕ × Bytes))
unfolding deliver
l_push l v = do
  after ← load l.next l.head
  let l1 = alloc l.head after v l
  l2 ← store_next l.head l.fresh l1
  behind ← load l2.next l.fresh
  l3 ← store_prev behind l.fresh l2
  deliver (record l3 { len = suc l3.len }) l3.l_subs

pub r_push : DList → Bytes → Outcome (DList × Option (ℕ × Bytes))
unfolding deliver
r_push l v = do
  before ← load l.prev l.tail
  let l1 = alloc before l.tail v l
  l2 ← store_prev l.tail l.fresh l1
  front ← load l2.prev l.fresh
  l3 ← store_next front l.fresh l2
  deliver (record l3 { len = suc l3.len }) l3.l_subs
