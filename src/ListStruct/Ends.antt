-- ===== src/ListStruct/Ends.antt =====
-- memdb/list_struct.go: the pushes and pops at both ends, as operations on a sequence.
use mathlib.Core.List.{map-append}
use mathlib.Core.Path.{subst}
use redis_go.Prelude.{
  ℕ, suc, ◌-◌, ◌≡◌, refl, ap, sym, ◌∙◌, true, false, Option, none, some, List, [], ◌∷◌, ◌++◌, Bytes,
  arith, append-nil, map, length, length-append, length-map, ◌==◌,
}
use redis_go.Prelude.Outcome.{ok, Returns, returns, Returns-bind}
use redis_go.ListStruct.{Ptr, DList, deliver, l_pop, r_pop, l_push, r_push}
use redis_go.ListStruct.Rep.{IsList, IsList-len, IsList-eq, IsList-values, Models}
use redis_go.ListStruct.Rep.Splice.{
  inserted, removed, first_of, last_of, inserted-IsList, removed-IsList, neighbours, neighbours_at,
}

l_push-inserted :
    (l : DList) (ps : List Ptr) (xs : List Bytes) (w : Bytes) (v : Ptr) (vs : List Ptr)
    → ps ++ l.tail ∷ [] ≡ v ∷ vs
    → IsList l ps xs
    → l_push l w ≡ deliver (record (inserted l l.head v w) { len = suc l.len }) l.l_subs
unfolding l_push
l_push-inserted l ps xs w v vs ev r =
    let near = neighbours l [] ps [] vs l.head v xs refl ev r in ground (arith, near)

r_push-inserted :
    (l : DList) (ps us : List Ptr) (u : Ptr) (xs : List Bytes) (w : Bytes)
    → l.head ∷ ps ≡ us ++ u ∷ []
    → IsList l (ps ++ []) xs
    → r_push l w ≡ deliver (record (inserted l u l.tail w) { len = suc l.len }) l.l_subs
unfolding r_push
r_push-inserted l ps us u xs w eu r =
    let near = neighbours l ps [] us [] u l.tail xs eu refl r in ground (arith, near)

l_pop-removed :
    (l : DList) (c : Ptr) (qs : List Ptr) (v : Ptr) (vs : List Ptr) (xs : List Bytes)
    → qs ++ l.tail ∷ [] ≡ v ∷ vs
    → IsList l (c ∷ qs) xs
    → (l.len == 0) ≡ false
    → l_pop l ≡ ok (record (removed l l.head c v) { len = l.len - 1 }, c)
unfolding l_pop
l_pop-removed l c qs v vs xs ev r some_left =
    let near = neighbours_at l [] qs [] vs l.head c v xs refl ev r in ground (arith, near)

r_pop-removed :
    (l : DList) (ps us : List Ptr) (u c : Ptr) (xs : List Bytes)
    → l.head ∷ ps ≡ us ++ u ∷ []
    → IsList l (ps ++ c ∷ []) xs
    → (l.len == 0) ≡ false
    → r_pop l ≡ ok (record (removed l u c l.tail) { len = l.len - 1 }, c)
unfolding r_pop
r_pop-removed l ps us u c xs eu r some_left =
    let near = neighbours_at l ps [] us [] u c l.tail xs eu refl r in ground (arith, near)

-- what a pop at the left end does to a sequence, and the node that it returns
abbrev pub PopsLeft : DList → List Bytes → DList × Ptr → Type 0
PopsLeft l [] (l', node) = (l' ≡ l) × (node ≡ 0)
PopsLeft l (x ∷ xs) (l', node) =
    Models l' xs × (l'.val node ≡ x) × ((node == 0) ≡ false) × (l'.l_subs ≡ l.l_subs)

l_pop-IsList :
    (l : DList) (ps : List Ptr)
    → IsList l ps (map l.val ps)
    → l.len ≡ length ps
    → Returns (PopsLeft l (map l.val ps)) (l_pop l)
unfolding l_pop
l_pop-IsList l [] r e =
    let z : (l.len == 0) ≡ true = ground (arith, e) in rw z (returns (refl, refl))
l_pop-IsList l (c ∷ qs) r e =
    let (v, vs, ev) = first_of qs l.tail in
    let xs = map l.val (c ∷ qs) in
    let near = neighbours_at l [] qs [] vs l.head c v xs refl ev r in
    rw (l_pop-removed l c qs v vs xs ev r (ground (arith, e))) (
      returns (
        (
          qs,
          IsList-len (l.len - 1) _ _ _ (removed-IsList l [] qs [] vs l.head c v xs refl ev r),
          omega (arith, e, length-map l.val qs),
        ),
        refl,
        ground (arith, near),
        refl,
      ))

-- `LPop` takes the first value off the sequence and returns its node, and returns nil exactly when
-- the sequence is empty; it does not panic.
l_pop-Models : (l : DList) (xs : List Bytes) → Models l xs → Returns (PopsLeft l xs) (l_pop l)
l_pop-Models l xs (ps, r, e) =
    subst (λ ys. Returns (PopsLeft l ys) (l_pop l)) r.values
      (l_pop-IsList l ps (IsList-values l ps xs r)
        (e ∙ sym (ap length r.values) ∙ length-map l.val ps))

-- A sequence without its last value, and that value.
unfoldable pub split_last : List Bytes → Option (List Bytes × Bytes)
split_last [] = none
split_last (x ∷ xs) = elim (split_last xs) [ none ↦ some ([], x) | some r ↦ some (x ∷ r.0, r.1) ]

split_last-append : (xs : List Bytes) (x : Bytes) → split_last (xs ++ x ∷ []) ≡ some (xs, x)
unfolding split_last
split_last-append [] x = refl
split_last-append (y ∷ xs) x = ground (arith, split_last-append xs x)

-- what a pop at the right end does to a sequence, and the node that it returns
abbrev pub PopsRight : DList → Option (List Bytes × Bytes) → DList × Ptr → Type 0
PopsRight l none (l', node) = (l' ≡ l) × (node ≡ 0)
PopsRight l (some (ys, y)) (l', node) =
    Models l' ys × (l'.val node ≡ y) × ((node == 0) ≡ false) × (l'.l_subs ≡ l.l_subs)

r_pop-IsList :
    (l : DList) (ps us : List Ptr) (u c : Ptr)
    → l.head ∷ ps ≡ us ++ u ∷ []
    → IsList l (ps ++ c ∷ []) (map l.val (ps ++ c ∷ []))
    → l.len ≡ suc (length ps)
    → Returns (PopsRight l (some (map l.val ps, l.val c))) (r_pop l)
r_pop-IsList l ps us u c eu r e =
    let xs = map l.val (ps ++ c ∷ []) in
    let near = neighbours_at l ps [] us [] u c l.tail xs eu refl r in
    let is = removed-IsList l ps [] us [] u c l.tail xs eu refl r in
    rw (r_pop-removed l ps us u c xs eu r (ground (arith, e))) (
      returns (
        (
          ps ++ [],
          IsList-len (l.len - 1) _ _ _ (IsList-eq is (append-nil (map l.val ps))),
          omega (arith, e, length-map l.val ps),
        ),
        refl,
        ground (arith, near),
        refl,
      ))

r_pop-nil : (l : DList) → l.len ≡ 0 → Returns (PopsRight l none) (r_pop l)
unfolding r_pop
r_pop-nil l e = let z : (l.len == 0) ≡ true = ground (arith, e) in rw z (returns (refl, refl))

-- The nodes of a list, with the last one apart.
r_pop-split :
    (l : DList) (ps : List Ptr)
    → IsList l ps (map l.val ps)
    → l.len ≡ length ps
    → Returns (PopsRight l (split_last (map l.val ps))) (r_pop l)
unfolding split_last
r_pop-split l [] r e = r_pop-nil l e
r_pop-split l (p ∷ ps) r e =
    let (qs, c, eq) = last_of p ps in
    let (us, u, eu) = last_of l.head qs in
    let r' : IsList l (qs ++ c ∷ []) (map l.val (qs ++ c ∷ [])) =
      subst (λ rs. IsList l rs (map l.val rs)) eq r in
    let n : l.len ≡ suc (length qs) = omega (arith, e, ap length eq, length-append qs (c ∷ [])) in
    subst (λ rs. Returns (PopsRight l (split_last (map l.val rs))) (r_pop l)) (sym eq)
      (rw (map-append l.val qs (c ∷ []), split_last-append (map l.val qs) (l.val c))
        (r_pop-IsList l qs us u c eu r' n))

-- `RPop` takes the last value off the sequence and returns its node, and returns nil exactly when the
-- sequence is empty; it does not panic.
r_pop-Models :
    (l : DList) (xs : List Bytes) → Models l xs → Returns (PopsRight l (split_last xs)) (r_pop l)
r_pop-Models l xs (ps, r, e) =
    subst (λ ys. Returns (PopsRight l (split_last ys)) (r_pop l)) r.values
      (r_pop-split l ps (IsList-values l ps xs r)
        (e ∙ sym (ap length r.values) ∙ length-map l.val ps))

-- What a push leaves of the sequence with the new value: all of it, with nothing sent; or, where a
-- subscriber waits, all but the first value, which is sent to its channel.
abbrev pub Delivers : List (Bytes × ℕ) → List Bytes → DList × Option (ℕ × Bytes) → Type 0
Delivers [] ys (l', sent) = Models l' ys × (sent ≡ none)
Delivers (_ ∷ _) [] (l', sent) = ⊥
Delivers ((_, out) ∷ _) (y ∷ ys) (l', sent) = Models l' ys × (sent ≡ some (out, y))

deliver-Delivers :
    (l : DList) (subs : List (Bytes × ℕ)) (y : Bytes) (ys : List Bytes)
    → Models l (y ∷ ys)
    → Returns (Delivers subs (y ∷ ys)) (deliver l subs)
unfolding deliver
deliver-Delivers l [] y ys m = returns (m, refl)
deliver-Delivers l ((_, out) ∷ _) y ys m =
    Returns-bind (l_pop-Models l (y ∷ ys) m)
      λ r p. rw (p.2) (returns (p.0, ap (λ w. some (out, w)) p.1))

-- `LPush` puts the value in front, and hands the first value to a subscriber on the left.
l_push-Models :
    (l : DList) (xs : List Bytes) (w : Bytes)
    → Models l xs
    → Returns (Delivers l.l_subs (w ∷ xs)) (l_push l w)
l_push-Models l xs w (ps, r, e) =
    let (v, vs, ev) = first_of ps l.tail in
    let is = inserted-IsList l [] ps [] vs l.head v xs refl ev w r in
    rw (l_push-inserted l ps xs w v vs ev r) (
      deliver-Delivers _ l.l_subs w xs (
        l.fresh ∷ ps,
        IsList-len (suc l.len) _ _ _ (IsList-eq is (ap (λ ys. w ∷ ys) r.values)),
        ap suc e,
      ))

-- A sequence with a value behind it is not empty.
deliver-append :
    (l : DList) (subs : List (Bytes × ℕ)) (xs : List Bytes) (w : Bytes)
    → Models l (xs ++ w ∷ [])
    → Returns (Delivers subs (xs ++ w ∷ [])) (deliver l subs)
deliver-append l subs [] w m = deliver-Delivers l subs w [] m
deliver-append l subs (x ∷ xs) w m = deliver-Delivers l subs x (xs ++ w ∷ []) m

-- `RPush` puts the value at the end, and hands the first value, from the other end, to a subscriber
-- on the left.
r_push-Models :
    (l : DList) (xs : List Bytes) (w : Bytes)
    → Models l xs
    → Returns (Delivers l.l_subs (xs ++ w ∷ [])) (r_push l w)
r_push-Models l xs w (ps, r, e) =
    let (us, u, eu) = last_of l.head ps in
    let r' : IsList l (ps ++ []) xs = subst (λ rs. IsList l rs xs) (sym (append-nil ps)) r in
    let is = inserted-IsList l ps [] us [] u l.tail xs eu refl w r' in
    let vals : map l.val ps ++ w ∷ [] ≡ xs ++ w ∷ [] = ap (λ ys. ys ++ w ∷ []) r.values in
    rw (r_push-inserted l ps us u xs w eu r') (
      deliver-append _ l.l_subs xs w (
        ps ++ l.fresh ∷ [],
        IsList-len (suc l.len) _ _ _ (IsList-eq is vals),
        omega (arith, e, length-append xs (w ∷ [])),
      ))

-- On a list that stands for a sequence, with its count right, the pushes and pops do not panic and
-- keep it so. LPUSH puts the value in front and RPUSH puts it at the end, and then both, if a
-- subscriber waits on the left, take the first value out and send it to him. LPOP takes the first
-- value out and RPOP the last one, they return its node, and nil exactly for the empty sequence.
pub both_ends :
    (l : DList) (xs : List Bytes) (w : Bytes)
    → Models l xs
    → Returns (Delivers l.l_subs (w ∷ xs)) (l_push l w)
      × Returns (Delivers l.l_subs (xs ++ w ∷ [])) (r_push l w)
      × Returns (PopsLeft l xs) (l_pop l)
      × Returns (PopsRight l (split_last xs)) (r_pop l)
both_ends l xs w m =
    (l_push-Models l xs w m, r_push-Models l xs w m, l_pop-Models l xs m, r_pop-Models l xs m)
