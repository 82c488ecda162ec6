-- ===== src/ListStruct/Scanning.antt =====
-- memdb/list_struct.go: `Pos` and `Range`, as functions of a sequence.
use mathlib.Core.Path.{subst}
use redis_go.Prelude.{
  ℕ, zero, suc, ◌+◌, ◌-◌, ◌≤◌, ◌<◌, ◌≡◌, refl, ap, sym, ◌∙◌, false, not, ◌||◌, List, [], ◌∷◌, ◌++◌,
  Bytes, bytes_equal, All, arith, map, length, length-map, take, drop, ltb, if◌then◌else◌, inl, inr,
  Bool-cases,
}
use redis_go.ListStruct.Reading.{Looks, value_at, index-Looks}
use redis_go.Prelude.Int.{ℤ, pos, negsuc, neg_part, half_range, ltb_ℤ, is_neg, pos_part}
use redis_go.Prelude.Outcome.{ok, Returns}
use redis_go.ListStruct.{Ptr, DList}
use redis_go.ListStruct.Linked.{has, NoDup, Linked, Valid, apart}
use redis_go.ListStruct.Rep.{IsList, IsList-values, Models}
use redis_go.ListStruct.Walks.{index, range_loop, range, pos_loop, position, from_end}

-- The position of the first value equal to `v`, from `i` on, and -1 where there is none.
abbrev pub position_of : Bytes → List Bytes → ℕ → ℤ
position_of v [] i = negsuc 0
position_of v (x ∷ xs) i = if bytes_equal x v then pos i else position_of v xs (i + 1)

pos_loop-position_of :
    (l : DList) (v : Bytes) (f : ℕ) (p : Ptr) (ps : List Ptr) (now : Ptr) (i : ℕ)
    → Linked l.next l.prev (p ∷ (ps ++ l.tail ∷ []))
    → All (Valid l.fresh) (ps ++ l.tail ∷ [])
    → has l.tail ps ≡ false
    → now ≡ l.next p
    → length ps < f
    → pos_loop l v f now i ≡ ok (position_of v (map l.val ps) i)
unfolding pos_loop
pos_loop-position_of l v zero p ps now i a w t h fuel = absurd (omega arith)
pos_loop-position_of l v (suc f) p [] now i a w t h fuel = ground (arith, a, h)
pos_loop-position_of l v (suc f) p (q ∷ ps) now i a w t h fuel =
    ground (arith, h, a, w, pos_loop-position_of l v f q ps (l.next q) (i + 1) a.2 w.1)

-- The tail is not among the nodes of the values.
pub tail-not_mem : (h t : Ptr) (ps : List Ptr) → NoDup (h ∷ (ps ++ t ∷ [])) → has t ps ≡ false
tail-not_mem h t ps d = elim (Bool-cases (has t ps)) [
  | inr out ↦ out
  | inl mem ↦ ground (arith, apart ps (t ∷ []) t d.1 mem)
]

-- `Pos` returns the first position of the value, and -1 where the sequence has none; its loop ends.
position-position_of :
    (l : DList) (xs : List Bytes) (v : Bytes) → Models l xs → position l v ≡ ok (position_of v xs 0)
unfolding position
position-position_of l xs v (ps, r, e) =
    subst (λ ys. position l v ≡ ok (position_of v ys 0)) r.values
      (ground (
        arith,
        r.valid,
        pos_loop-position_of l v l.fresh l.head ps (l.next l.head) 0 r.linked r.valid.1
            (tail-not_mem l.head l.tail ps r.distinct) refl r.room,
      ))

drop-nil : (n : ℕ) → drop {A = Bytes} n [] ≡ []
drop-nil zero = refl
drop-nil (suc n) = refl

drop-step :
    (s i : ℕ) (x : Bytes) (xs : List Bytes)
    → drop (s - i) (x ∷ xs) ≡ (if ltb i s then drop (s - suc i) xs else x ∷ drop (s - suc i) xs)
drop-step s i x xs = elim (Bool-cases (ltb i s)) [
  | inl lt ↦ let e : s - i ≡ suc (s - suc i) = ground arith in rw (e, lt) refl
  | inr ge ↦
      let e : s - i ≡ 0 = ground arith in
      let e' : s - suc i ≡ 0 = ground arith in rw (e, e', ge) refl
]

range_loop-take :
    (l : DList) (s n i : ℕ) (p : Ptr) (ps : List Ptr)
    → Linked l.next l.prev (p ∷ (ps ++ l.tail ∷ []))
    → All (Valid l.fresh) (p ∷ (ps ++ l.tail ∷ []))
    → n ≤ length ps
    → range_loop l s n i p ≡ ok (drop (s - i) (take n (map l.val ps)))
unfolding range_loop
range_loop-take l s zero i p ps a w h = ap ok (sym (drop-nil (s - i)))
range_loop-take l s (suc n) i p [] a w h = absurd (omega arith)
range_loop-take l s (suc n) i p (q ∷ ps) a w h = ground (
  arith,
  a,
  w,
  range_loop-take l s n (suc i) q ps a.2 w.1,
  drop-step s i (l.val q) (take n (map l.val ps)),
)

-- The part of a sequence that `Range` means: a negative index counts from the end, and both are cut to
-- the sequence.
abbrev pub slice : List Bytes → ℤ → ℤ → List Bytes
slice xs start end =
    let s = from_end (length xs) start in
    let e = from_end (length xs) end in
    if ltb_ℤ e s || not (ltb_ℤ s (pos (length xs))) || is_neg e
    then []
    else drop (pos_part s) (take (suc (pos_part e)) xs)

take-cut : (n : ℕ) (xs : List Bytes) → length xs ≤ n → take n xs ≡ xs
take-cut zero [] h = refl
take-cut (suc n) [] h = refl
take-cut zero (x ∷ xs) h = absurd (omega arith)
take-cut (suc n) (x ∷ xs) h = ap (λ ys. x ∷ ys) (take-cut n xs (omega arith))

range_loop-first :
    (l : DList) (ps : List Ptr) (s n : ℕ)
    → IsList l ps (map l.val ps)
    → n ≤ length ps
    → range_loop l s n 0 l.head ≡ ok (drop s (take n (map l.val ps)))
range_loop-first l ps s n r h =
    let start : s - 0 ≡ s = omega arith in
    subst (λ k. range_loop l s n 0 l.head ≡ ok (drop k (take n (map l.val ps)))) start
      (range_loop-take l s n 0 l.head ps r.linked r.valid h)

range-cut :
    (l : DList) (ps : List Ptr) (s e : ℕ)
    → IsList l ps (map l.val ps)
    → l.len ≡ length ps
    → range_loop l s (if ltb e l.len then suc e else l.len) 0 l.head
      ≡ ok (drop s (take (suc e) (map l.val ps)))
range-cut l ps s e r n = elim (Bool-cases (ltb e l.len)) [
  | inl lt ↦ rw lt (range_loop-first l ps s (suc e) r (ground arith))
  | inr ge ↦
      let n' = length-map l.val ps in
      rw
        (
          ge,
          take-cut (suc e) (map l.val ps) (ground arith),
          sym (take-cut l.len (map l.val ps) (omega arith)),
        )
        (range_loop-first l ps s l.len r (omega arith))
]

range-slice_at :
    (l : DList) (ps : List Ptr) (start end : ℤ)
    → IsList l ps (map l.val ps)
    → l.len ≡ length ps
    → range l start end ≡ ok (slice (map l.val ps) start end)
unfolding range
range-slice_at l ps start end r n =
    let s = from_end l.len start in
    let e = from_end l.len end in
    let n' : length (map l.val ps) ≡ l.len = length-map l.val ps ∙ sym n in
    rw n' (elim (Bool-cases (ltb_ℤ e s || not (ltb_ℤ s (pos l.len)) || is_neg e)) [
      | inl out ↦ rw out refl
      | inr inside ↦ rw inside (range-cut l ps (pos_part s) (pos_part e) r n)
    ])

-- `Range` returns the part of the sequence between the two bounds, and nothing where they are out of
-- range or in the wrong order.
range-slice :
    (l : DList) (xs : List Bytes) (start end : ℤ)
    → Models l xs
    → range l start end ≡ ok (slice xs start end)
range-slice l xs start end (ps, r, e) =
    subst (λ ys. range l start end ≡ ok (slice ys start end)) r.values
      (range-slice_at l ps start end (IsList-values l ps xs r)
        (e ∙ sym (ap length r.values) ∙ length-map l.val ps))

-- On a list that stands for a sequence, with its count right: `Index` returns the node with the value
-- at the index, counted from the end where it is negative, and nil where there is none, for every
-- index but the least `int`; `Pos` returns the position of the first value that is equal, and -1 where
-- there is none; `Range` returns the part between its bounds. None of them panics, and their loops end.
pub lookups :
    (l : DList) (xs : List Bytes) (i start end : ℤ) (v : Bytes)
    → Models l xs
    → suc (neg_part i) ≤ half_range
    → Returns (Looks l (value_at xs i)) (index l i)
      × (position l v ≡ ok (position_of v xs 0))
      × (range l start end ≡ ok (slice xs start end))
lookups l xs i start end v m small =
    (index-Looks l xs i m small, position-position_of l xs v m, range-slice l xs start end m)
