-- ===== src/ListStruct/Walks.antt =====
-- memdb/list_struct.go: the methods that walk along the list, and `Set`.
use redis_go.Prelude.{
  ℕ, zero, suc, ◌+◌, Bool, true, false, not, ◌||◌, List, [], ◌∷◌, Bytes, bytes_equal, ◌==◌, ltb,
  if◌then◌else◌,
}
use redis_go.Prelude.Int.{ℤ, pos, negsuc, add64, neg64, ltb_ℤ, is_neg, pos_part}
use redis_go.Prelude.Outcome.{Outcome, ok, panic, stuck, ◌>>=◌}
use redis_go.ListStruct.{Ptr, Links, set, DList, load, load_val}

-- `for … { node = node.Next }`, or `node.Prev`, a number of times
unfoldable pub walk : Links → ℕ → Ptr → Outcome Ptr
walk m zero p = ok p
walk m (suc k) p = do q ← load m p; walk m k q

unfoldable pub index : DList → ℤ → Outcome Ptr
index l (negsuc k) =
    if ltb_ℤ (pos l.len) (neg64 (negsuc k))
    then ok 0
    else do node ← load l.prev l.tail; walk l.prev k node
index l (pos k) =
    if not (ltb k l.len) then ok 0 else do node ← load l.next l.head; walk l.next k node

-- `for node != stop && n more rounds { node = node.Next }`
unfoldable pub walk_to : Links → Ptr → ℕ → Ptr → Outcome Ptr
walk_to m stop zero p = ok p
walk_to m stop (suc k) p =
    let rest = (do q ← load m p; walk_to m stop k q) in if p == stop then ok p else rest

-- `List.Set`
unfoldable pub set_value : DList → ℤ → Bytes → Outcome (DList × Bool)
set_value l (negsuc k) v = if ltb_ℤ (pos l.len) (neg64 (negsuc k)) then ok (l, false) else do
  node ← walk_to l.prev l.head (suc k) l.tail
  if node == 0 then panic else ok (record l { val = set l.val node v }, true)
set_value l (pos k) v = if not (ltb k l.len) then ok (l, false) else do
  node ← walk_to l.next l.tail (suc k) l.head
  if node == 0 then panic else ok (record l { val = set l.val node v }, true)

-- The loop of `Range` from `i` on, with `n` rounds left, behind `node`.
unfoldable pub range_loop : DList → (start : ℕ) → (n i : ℕ) → Ptr → Outcome (List Bytes)
range_loop l start zero i node = ok []
range_loop l start (suc n) i node = do
  p ← load l.next node
  v ← load_val l p
  rest ← range_loop l start n (suc i) p
  ok (if ltb i start then rest else v ∷ rest)

-- a negative index counts from the end
abbrev pub from_end : ℕ → ℤ → ℤ
from_end n i = if is_neg i then add64 (pos n) i else i

unfoldable pub range : DList → ℤ → ℤ → Outcome (List Bytes)
range l start end =
    let s = from_end l.len start in
    let e = from_end l.len end in
    if ltb_ℤ e s || not (ltb_ℤ s (pos l.len)) || is_neg e
    then ok []
    else range_loop l (pos_part s) (if ltb (pos_part e) l.len then suc (pos_part e) else l.len) 0
        l.head

-- The loop of `Pos`, on fuel, at the node `now` and the position `i`.
unfoldable pub pos_loop : DList → Bytes → ℕ → Ptr → ℕ → Outcome ℤ
pos_loop l v zero now i = stuck
pos_loop l v (suc f) now i =
    let rest = (do q ← load l.next now; pos_loop l v f q (i + 1)) in
    if now == l.tail
    then ok (negsuc 0)
    else do w ← load_val l now; if bytes_equal w v then ok (pos i) else rest

-- `List.Pos`; -1 for a value that is not in the list
unfoldable pub position : DList → Bytes → Outcome ℤ
position l v = do now ← load l.next l.head; pos_loop l v l.fresh now 0
