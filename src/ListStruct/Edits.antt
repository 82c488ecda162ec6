-- ===== src/ListStruct/Edits.antt =====
-- memdb/list_struct.go: insertion beside a value, removal, `Trim` and `Clear`.
use redis_go.Prelude.{
  ℕ, zero, suc, ◌+◌, ◌-◌, Bool, not, ◌||◌, Option, none, some, Bytes, bytes_equal, ◌==◌, ltb,
  if◌then◌else◌,
}
use redis_go.Prelude.Int.{ℤ, pos, negsuc, neg64, ltb_ℤ, is_neg, pos_part}
use redis_go.Prelude.Outcome.{Outcome, ok, stuck, ◌>>=◌}
use redis_go.ListStruct.{Ptr, Links, DList, load, load_val, store_next, store_prev, alloc}
use redis_go.ListStruct.Walks.{from_end}

-- a new node with the value `v` before the node `now`
unfoldable pub link_before : DList → Bytes → Ptr → Outcome DList
link_before l v now = do
  p ← load l.prev now
  let l1 = alloc p now v l
  l2 ← store_prev now l.fresh l1
  q ← load l2.prev l.fresh
  store_next q l.fresh l2

-- a new node with the value `v` after the node `now`
unfoldable pub link_after : DList → Bytes → Ptr → Outcome DList
link_after l v now = do
  n ← load l.next now
  let l1 = alloc now n v l
  l2 ← store_next now l.fresh l1
  q ← load l2.next l.fresh
  store_prev q l.fresh l2

-- The node that the loop of both insertions stops at, with its position: the first with the value
-- `tar`.
unfoldable pub find_loop : DList → Bytes → ℕ → Ptr → ℕ → Outcome (Option (Ptr × ℕ))
find_loop l tar zero now i = stuck
find_loop l tar (suc f) now i =
    let rest = (do q ← load l.next now; find_loop l tar f q (i + 1)) in
    if now == l.tail
    then ok none
    else do w ← load_val l now; if bytes_equal w tar then ok (some (now, i)) else rest

unfoldable pub insert_before : DList → Bytes → Bytes → Outcome (DList × ℤ)
insert_before l v tar = do
  first ← load l.next l.head
  found ← find_loop l tar l.fresh first 0
  elim found [ none ↦ ok (l, negsuc 0) | some r ↦ do l1 ← link_before l v r.0; ok (l1, pos r.1) ]

unfoldable pub insert_after : DList → Bytes → Bytes → Outcome (DList × ℤ)
insert_after l v tar = do
  first ← load l.next l.head
  found ← find_loop l tar l.fresh first 0
  elim found [
    | none ↦ ok (l, negsuc 0)
    | some r ↦ do l1 ← link_after l v r.0; ok (l1, pos (r.1 + 1))
  ]

-- `now.Prev.Next = now.Next; now.Next.Prev = now.Prev; now.Prev = nil; now.Next = nil`
unfoldable pub unlink : DList → Ptr → Outcome DList
unlink l now = do
  p ← load l.prev now
  n ← load l.next now
  l1 ← store_next p n l
  n1 ← load l1.next now
  p1 ← load l1.prev now
  l2 ← store_prev n1 p1 l1
  l3 ← store_prev now 0 l2
  store_next now 0 l3

-- The two loops of `RemoveElement`, which differ in the links that they follow and in the end of the
-- list that stops them: on fuel, with the number of nodes removed so far.
unfoldable pub remove_loop :
    (DList → Links) → Ptr → Bytes → ℕ → ℕ → DList → Ptr → ℕ → Outcome (DList × ℕ)
remove_loop links stop v count zero l now removed = stuck
remove_loop links stop v count (suc f) l now removed =
    let go = λ (hit : Bool) (tem : Ptr) (l1 : DList).
      remove_loop links stop v count f l1 tem (if hit then suc removed else removed) in
    if (now == stop) || not (ltb removed count) then ok (l, removed) else do
      w ← load_val l now
      tem ← load (links l) now
      l1 ← (if bytes_equal w v then unlink l now else ok l)
      go (bytes_equal w v) tem l1

unfoldable pub remove_element : DList → Bytes → ℤ → Outcome (DList × ℕ)
remove_element l v (pos n) = if l.len == 0 then ok (l, 0) else do
  first ← load l.next l.head
  remove_loop (λ m. m.next) l.tail v (if n == 0 then l.len - 1 else n) l.fresh l first 0
remove_element l v (negsuc n) = if l.len == 0 then ok (l, 0) else do
  last ← load l.prev l.tail
  remove_loop (λ m. m.prev) l.head v (pos_part (neg64 (negsuc n))) l.fresh l last 0

unfoldable pub clear : DList → Outcome DList
clear l = if l.len == 0 then ok l else do
  first ← load l.next l.head
  last ← load l.prev l.tail
  l1 ← store_next l.head l.tail l
  l2 ← store_prev l.tail l.head l1
  l3 ← store_prev first 0 (record l2 { len = 0 })
  store_next last 0 l3

-- The loop of `Trim`, on fuel: the nodes at the positions `s` and `e`, nil where none is.
unfoldable pub trim_loop : DList → (s e : ℕ) → ℕ → Ptr → ℕ → Ptr → Outcome (Ptr × Ptr)
trim_loop l s e zero now i start_node = stuck
trim_loop l s e (suc f) now i start_node =
    let start_node' = if i == s then now else start_node in
    let rest = (do q ← load l.next now; trim_loop l s e f q (i + 1) start_node') in
    if now == l.tail then ok (start_node, 0) else if i == e then ok (start_node', now) else rest

-- `p.Prev.Next = nil` unless `p.Prev` is nil, and likewise on the other side
unfoldable pub cut_before : Ptr → DList → Outcome DList
cut_before p l = do q ← load l.prev p; if q == 0 then ok l else store_next q 0 l

unfoldable pub cut_after : Ptr → DList → Outcome DList
cut_after p l = do q ← load l.next p; if q == 0 then ok l else store_prev q 0 l

-- what `Trim` does with the bounds in range, and the nodes found
unfoldable pub trim_to : DList → (s e : ℕ) → Ptr × Ptr → Outcome DList
trim_to l s e (start_node, end_node) = do
  first ← load l.next l.head
  l1 ← store_prev first 0 l
  last ← load l1.prev l1.tail
  l2 ← store_next last 0 l1
  l3 ← cut_before start_node l2
  l4 ← cut_after end_node l3
  l5 ← store_next l4.head start_node l4
  l6 ← store_prev start_node l5.head l5
  l7 ← store_prev l6.tail end_node l6
  l8 ← store_next end_node l7.tail l7
  ok (record l8 { len = e - s + 1 })

unfoldable pub trim : DList → ℤ → ℤ → Outcome DList
trim l start end =
    if l.len == 0
    then ok l
    else (let s = from_end l.len start in
        let e = from_end l.len end in
        if ltb_ℤ e s || not (ltb_ℤ s (pos l.len)) || is_neg e
        then clear l
        else (let s' = pos_part s in
            let e' = if ltb (pos_part e) l.len then pos_part e else l.len - 1 in
            do
              first ← load l.next l.head
              nodes ← trim_loop l s' e' l.fresh first 0 0
              trim_to l s' e' nodes))
