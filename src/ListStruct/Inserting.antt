-- ===== src/ListStruct/Inserting.antt =====
-- memdb/list_struct.go: `InsertBefore` and `InsertAfter`, as functions of a sequence.
use mathlib.Core.List.{map-append}
use mathlib.Core.Path.{subst}
use redis_go.Prelude.{
  ℕ, zero, suc, ◌+◌, ◌<◌, ◌≡◌, refl, ap, sym, ◌∙◌, Bool, true, false, ◌||◌, List, [], ◌∷◌, ◌++◌,
  Bytes, bytes_equal, All, arith, map, length, length-map, append_assoc, none, some, if◌then◌else◌,
  inl, inr, Bool-cases, ◌⊎◌,
}
use redis_go.Prelude.Int.{ℤ, pos, negsuc}
use redis_go.Prelude.Outcome.{ok, Returns, returns, Returns-bind}
use redis_go.ListStruct.{Ptr, DList, load}
use redis_go.ListStruct.Linked.{has, Linked, Valid}
use redis_go.ListStruct.Rep.{IsList, IsList-eq, IsList-values, Holds}
use redis_go.ListStruct.Rep.Splice.{inserted, first_of, last_of, neighbours, inserted-IsList}
use redis_go.ListStruct.Scanning.{position_of, tail-not_mem}
use redis_go.ListStruct.Edits.{link_before, link_after, find_loop, insert_before, insert_after}

-- The sequence with `w` put before, or after, the first value equal to `tar`.
abbrev pub before_first : Bytes → Bytes → List Bytes → List Bytes
before_first w tar [] = []
before_first w tar (x ∷ xs) = if bytes_equal x tar then w ∷ x ∷ xs else x ∷ before_first w tar xs

abbrev pub after_first : Bytes → Bytes → List Bytes → List Bytes
after_first w tar [] = []
after_first w tar (x ∷ xs) = if bytes_equal x tar then x ∷ w ∷ xs else x ∷ after_first w tar xs

abbrev occurs : Bytes → List Bytes → Bool
occurs tar [] = false
occurs tar (x ∷ xs) = bytes_equal x tar || occurs tar xs

-- What both insertions mean, where the value occurs first behind `xs`, and where it does not occur.
before_first-split :
    (w tar x : Bytes) (xs ys : List Bytes)
    → occurs tar xs ≡ false
    → bytes_equal x tar ≡ true
    → before_first w tar (xs ++ x ∷ ys) ≡ xs ++ w ∷ x ∷ ys
before_first-split w tar x [] ys h e = ground arith
before_first-split w tar x (y ∷ xs) ys h e = ground (arith, before_first-split w tar x xs ys)

after_first-split :
    (w tar x : Bytes) (xs ys : List Bytes)
    → occurs tar xs ≡ false
    → bytes_equal x tar ≡ true
    → after_first w tar (xs ++ x ∷ ys) ≡ xs ++ x ∷ w ∷ ys
after_first-split w tar x [] ys h e = ground arith
after_first-split w tar x (y ∷ xs) ys h e = ground (arith, after_first-split w tar x xs ys)

position_of-split :
    (tar x : Bytes) (xs ys : List Bytes) (i : ℕ)
    → occurs tar xs ≡ false
    → bytes_equal x tar ≡ true
    → position_of tar (xs ++ x ∷ ys) i ≡ pos (i + length xs)
position_of-split tar x [] ys i h e = ground arith
position_of-split tar x (y ∷ xs) ys i h e = ground (arith, position_of-split tar x xs ys (i + 1))

no_occurrence :
    (w tar : Bytes) (xs : List Bytes) (i : ℕ)
    → occurs tar xs ≡ false
    → (before_first w tar xs ≡ xs) × (after_first w tar xs ≡ xs) × (position_of tar xs i ≡ negsuc 0)
no_occurrence w tar [] i h = (refl, refl, refl)
no_occurrence w tar (x ∷ xs) i h = ground (arith, no_occurrence w tar xs (i + 1))

-- What the search of both insertions finds.
abbrev Found : DList → Bytes → List Ptr → ℕ → Ptr × ℕ → Type 0
Found l tar qs i (c, k) =
    (bs : List Ptr) × (cs : List Ptr) × (qs ≡ bs ++ c ∷ cs)
    × (occurs tar (map l.val bs) ≡ false)
    × (bytes_equal (l.val c) tar ≡ true)
    × (k ≡ i + length bs)

find_loop-Found :
    (l : DList) (tar : Bytes) (f : ℕ) (p : Ptr) (ps : List Ptr) (now : Ptr) (i : ℕ)
    → Linked l.next l.prev (p ∷ (ps ++ l.tail ∷ []))
    → All (Valid l.fresh) (ps ++ l.tail ∷ [])
    → has l.tail ps ≡ false
    → now ≡ l.next p
    → length ps < f
    → ((find_loop l tar f now i ≡ ok none) × (occurs tar (map l.val ps) ≡ false))
      ⊎ ((r : Ptr × ℕ) × (find_loop l tar f now i ≡ ok (some r)) × Found l tar ps i r)
unfolding find_loop
find_loop-Found l tar zero p ps now i a w t h fuel = absurd (omega arith)
find_loop-Found l tar (suc f) p [] now i a w t h fuel = inl (ground (arith, a, h), refl)
find_loop-Found l tar (suc f) p (q ∷ ps) now i a w t h fuel =
    elim (Bool-cases (bytes_equal (l.val q) tar)) [
      | inl hit ↦ inr ((q, i), ground (arith, a, h, w), ([], ps, refl, refl, hit, omega arith))
      | inr miss ↦
          elim (find_loop-Found l tar f q ps (l.next q) (i + 1) a.2 w.1 (ground arith) refl
            (omega arith)) [
              | inl (e, none_there) ↦ inl (ground (arith, a, h, w, e), ground arith)
              | inr (r, e, (bs, cs, split, before, hit, k)) ↦ inr (
                r,
                ground (arith, a, h, w, e),
                (q ∷ bs, cs, ap (λ rs. q ∷ rs) split, ground arith, hit, omega (arith, k)),
              )
            ]
    ]

module _ (l : DList) (w : Bytes) (bs : List Ptr) (c : Ptr) (cs : List Ptr) (xs : List Bytes)
    (r : IsList l (bs ++ c ∷ cs) xs) where
  link_before-inserted :
      (us : List Ptr) (u : Ptr)
      → l.head ∷ bs ≡ us ++ u ∷ []
      → link_before l w c ≡ ok (inserted l u c w)
  unfolding link_before
  link_before-inserted us u eu =
      let near = neighbours l bs (c ∷ cs) us (cs ++ l.tail ∷ []) u c xs eu refl r in
      ground (arith, near)

  link_before-Holds :
      Returns
        (λ l'. Holds l' (map l.val bs ++ w ∷ map l.val (c ∷ cs)) × (l'.len ≡ l.len))
        (link_before l w c)
  link_before-Holds =
      let (us, u, eu) = last_of l.head bs in
      rw (link_before-inserted us u eu) (
        returns (
          (
            bs ++ l.fresh ∷ (c ∷ cs),
            inserted-IsList l bs (c ∷ cs) us (cs ++ l.tail ∷ []) u c xs eu refl w r,
          ),
          refl,
        ))

  link_after-inserted :
      (v : Ptr) (vs : List Ptr)
      → cs ++ l.tail ∷ [] ≡ v ∷ vs
      → link_after l w c ≡ ok (inserted l c v w)
  unfolding link_after
  link_after-inserted v vs ev =
      let r' : IsList l ((bs ++ c ∷ []) ++ cs) xs =
        subst (λ ps. IsList l ps xs) (sym (append_assoc bs (c ∷ []) cs)) r in
      let near = neighbours l (bs ++ c ∷ []) cs (l.head ∷ bs) vs c v xs refl ev r' in
      ground (arith, near)

  link_after-Holds :
      Returns
        (λ l'. Holds l' (map l.val bs ++ l.val c ∷ w ∷ map l.val cs) × (l'.len ≡ l.len))
        (link_after l w c)
  link_after-Holds =
      let (v, vs, ev) = first_of cs l.tail in
      let r' : IsList l ((bs ++ c ∷ []) ++ cs) xs =
        subst (λ ps. IsList l ps xs) (sym (append_assoc bs (c ∷ []) cs)) r in
      let is = inserted-IsList l (bs ++ c ∷ []) cs (l.head ∷ bs) vs c v xs refl ev w r' in
      let vals : map l.val (bs ++ c ∷ []) ++ w ∷ map l.val cs
          ≡ map l.val bs ++ l.val c ∷ w ∷ map l.val cs =
        ap (λ ys. ys ++ w ∷ map l.val cs) (map-append l.val bs (c ∷ []))
        ∙ append_assoc (map l.val bs) (l.val c ∷ []) (w ∷ map l.val cs) in
      rw (link_after-inserted v vs ev)
        (returns (((bs ++ c ∷ []) ++ l.fresh ∷ cs, IsList-eq is vals), refl))

-- What the two insertions return.
abbrev pub Inserts : DList → List Bytes → ℤ → DList × ℤ → Type 0
Inserts l ys i (l', k) = Holds l' ys × (k ≡ i) × (l'.len ≡ l.len)

-- the position behind one that was found
abbrev pub next_position : ℤ → ℤ
next_position (pos k) = pos (k + 1)
next_position (negsuc k) = negsuc k

head_ok :
    (l : DList) (ps : List Ptr)
    → IsList l ps (map l.val ps)
    → load l.next l.head ≡ ok (l.next l.head)
head_ok l ps r = ground (arith, r.valid)

-- What an insertion leaves, where the value occurs first at the node `c`.
module _ (l : DList) (w tar : Bytes) (bs : List Ptr) (c : Ptr) (cs : List Ptr) (k : ℕ)
    (r : IsList l (bs ++ c ∷ cs) (map l.val (bs ++ c ∷ cs)))
    (e : find_loop l tar l.fresh (l.next l.head) 0 ≡ ok (some (c, k)))
    (before : occurs tar (map l.val bs) ≡ false) (hit : bytes_equal (l.val c) tar ≡ true)
    (at : k ≡ 0 + length bs) where
  position-hit : position_of tar (map l.val (bs ++ c ∷ cs)) 0 ≡ pos k
  position-hit = rw (map-append l.val bs (c ∷ cs)) (
      position_of-split tar (l.val c) (map l.val bs) (map l.val cs) 0 before hit
      ∙ ap pos (omega (arith, at, length-map l.val bs)))

  insert_before-hit :
      Returns
        (Inserts l
          (before_first w tar (map l.val (bs ++ c ∷ cs)))
          (position_of tar (map l.val (bs ++ c ∷ cs)) 0))
        (insert_before l w tar)
  unfolding insert_before
  insert_before-hit =
      rw
        (
          head_ok l (bs ++ c ∷ cs) r,
          e,
          position-hit,
          map-append l.val bs (c ∷ cs),
          before_first-split w tar (l.val c) (map l.val bs) (map l.val cs) before hit,
        )
        (Returns-bind (link_before-Holds l w bs c cs (map l.val (bs ++ c ∷ cs)) r)
          λ l' p. returns (p.0, refl, p.1))

  insert_after-hit :
      Returns
        (Inserts l
          (after_first w tar (map l.val (bs ++ c ∷ cs)))
          (next_position (position_of tar (map l.val (bs ++ c ∷ cs)) 0)))
        (insert_after l w tar)
  unfolding insert_after
  insert_after-hit =
      rw
        (
          head_ok l (bs ++ c ∷ cs) r,
          e,
          position-hit,
          map-append l.val bs (c ∷ cs),
          after_first-split w tar (l.val c) (map l.val bs) (map l.val cs) before hit,
        )
        (Returns-bind (link_after-Holds l w bs c cs (map l.val (bs ++ c ∷ cs)) r)
          λ l' p. returns (p.0, refl, p.1))

module _ (l : DList) (w tar : Bytes) (ps : List Ptr) (r : IsList l ps (map l.val ps)) where
  search :
      ((find_loop l tar l.fresh (l.next l.head) 0 ≡ ok none) × (occurs tar (map l.val ps) ≡ false))
      ⊎ ((q : Ptr × ℕ) × (find_loop l tar l.fresh (l.next l.head) 0 ≡ ok (some q))
          × Found l tar ps 0 q)
  search =
      find_loop-Found l tar l.fresh l.head ps (l.next l.head) 0 r.linked r.valid.1
        (tail-not_mem l.head l.tail ps r.distinct) refl r.room

  insert_before-values :
      Returns
        (Inserts l (before_first w tar (map l.val ps)) (position_of tar (map l.val ps) 0))
        (insert_before l w tar)
  unfolding insert_before
  insert_before-values = elim search [
    | inl (e, none_there) ↦
        let (same, _, at) = no_occurrence w tar (map l.val ps) 0 none_there in
        rw (head_ok l ps r, e, same, at) (returns ((ps, r), refl, refl))
    | inr ((c, k), e, (bs, cs, split, before, hit, at)) ↦
        subst
          (λ qs.
            Returns
              (Inserts l (before_first w tar (map l.val qs)) (position_of tar (map l.val qs) 0))
              (insert_before l w tar))
          (sym split)
          (insert_before-hit l w tar bs c cs k (subst (λ qs. IsList l qs (map l.val qs)) split r) e
            before hit at)
  ]

  insert_after-values :
      Returns
        (Inserts l
          (after_first w tar (map l.val ps))
          (next_position (position_of tar (map l.val ps) 0)))
        (insert_after l w tar)
  unfolding insert_after
  insert_after-values = elim search [
    | inl (e, none_there) ↦
        let (_, same, at) = no_occurrence w tar (map l.val ps) 0 none_there in
        rw (head_ok l ps r, e, same, at) (returns ((ps, r), refl, refl))
    | inr ((c, k), e, (bs, cs, split, before, hit, at)) ↦
        subst
          (λ qs.
            Returns
              (Inserts l (after_first w tar (map l.val qs))
                (next_position (position_of tar (map l.val qs) 0)))
              (insert_after l w tar))
          (sym split)
          (insert_after-hit l w tar bs c cs k (subst (λ qs. IsList l qs (map l.val qs)) split r) e
            before hit at)
  ]

-- `InsertBefore` puts the value before the first one equal to `tar`, returns the position of the new
-- value, and -1 with the sequence as it was where none is equal; the count of the list stays as it
-- was in each case.
insert_before-Inserts :
    (l : DList) (xs : List Bytes) (w tar : Bytes)
    → Holds l xs
    → Returns (Inserts l (before_first w tar xs) (position_of tar xs 0)) (insert_before l w tar)
insert_before-Inserts l xs w tar (ps, r) =
    subst
      (λ ys.
        Returns (Inserts l (before_first w tar ys) (position_of tar ys 0)) (insert_before l w tar))
      r.values (insert_before-values l w tar ps (IsList-values l ps xs r))

-- `InsertAfter` puts the value behind the first one equal to `tar`, returns the position of the new
-- value, and -1 with the sequence as it was where none is equal; the count of the list stays as it
-- was in each case.
insert_after-Inserts :
    (l : DList) (xs : List Bytes) (w tar : Bytes)
    → Holds l xs
    → Returns
        (Inserts l (after_first w tar xs) (next_position (position_of tar xs 0)))
        (insert_after l w tar)
insert_after-Inserts l xs w tar (ps, r) =
    subst
      (λ ys.
        Returns (Inserts l (after_first w tar ys) (next_position (position_of tar ys 0)))
          (insert_after l w tar))
      r.values (insert_after-values l w tar ps (IsList-values l ps xs r))

-- InsertBefore and InsertAfter put the value before, or after, the first one equal to `tar`, and
-- return its position; where none is equal they return -1 and leave the sequence. They do not panic,
-- and the count of the list stays as it was in each case.
pub both_insertions :
    (l : DList) (xs : List Bytes) (w tar : Bytes)
    → Holds l xs
    → Returns (Inserts l (before_first w tar xs) (position_of tar xs 0)) (insert_before l w tar)
      × Returns
          (Inserts l (after_first w tar xs) (next_position (position_of tar xs 0)))
          (insert_after l w tar)
both_insertions l xs w tar h =
    (insert_before-Inserts l xs w tar h, insert_after-Inserts l xs w tar h)
