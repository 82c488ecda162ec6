-- ===== src/ListStruct/Removing.antt =====
-- memdb/list_struct.go: `RemoveElement`, as a function of a sequence.
use mathlib.Core.Path.{subst}
use redis_go.Prelude.{
  ℕ, zero, suc, ◌+◌, ◌-◌, ◌≤◌, ◌<◌, ◌≡◌, refl, ap, sym, ◌∙◌, true, false, List, [], ◌∷◌, ◌++◌,
  Bytes, bytes_equal, All, arith, map, length, length-map, append-nil, append_assoc, ◌==◌, ltb,
  if◌then◌else◌, inl, inr, Bool-cases,
}
use redis_go.Prelude.Int.{ℤ, pos, negsuc, neg_part, half_range, neg64, wrap, pos_part}
use redis_go.Prelude.Outcome.{ok, Returns, returns, Returns-mono}
use redis_go.ListStruct.{Ptr, DList}
use redis_go.ListStruct.Linked.{has, Valid, has-append}
use redis_go.ListStruct.Rep.{IsList, IsList-eq, IsList-values, Models, Holds}
use redis_go.ListStruct.Rep.Splice.{
  removed, first_of, last_of, neighbours, map-snoc, neighbours_at, removed-IsList,
}
use redis_go.ListStruct.Reading.{reverse, reverse-reverse, map-reverse, length-reverse}
use redis_go.ListStruct.Scanning.{tail-not_mem}
use redis_go.ListStruct.Edits.{unlink, remove_loop, remove_element}

-- The sequence without the first `n` values equal to `v`.
unfoldable pub remove_first : Bytes → List Bytes → ℕ → List Bytes
remove_first v [] n = []
remove_first v (x ∷ xs) n =
    if n == 0
    then x ∷ xs
    else (let hit = bytes_equal x v in
        let rest = remove_first v xs (if hit then n - 1 else n) in if hit then rest else x ∷ rest)

-- `unlink` takes a node out from between its neighbours.
unlink-removed :
    (l : DList) (ps : List Ptr) (c : Ptr) (qs us : List Ptr) (u v : Ptr) (vs : List Ptr)
    (xs : List Bytes)
    → l.head ∷ ps ≡ us ++ u ∷ []
    → qs ++ l.tail ∷ [] ≡ v ∷ vs
    → IsList l (ps ++ c ∷ qs) xs
    → unlink l c ≡ ok (removed l u c v)
unfolding unlink
unlink-removed l ps c qs us u v vs xs eu ev r =
    let near = neighbours_at l ps qs us vs u c v xs eu ev r in ground (arith, near)

remove_first-nil : (v : Bytes) (n : ℕ) → remove_first v [] n ≡ []
unfolding remove_first
remove_first-nil v n = refl

remove_first-limit :
    (v : Bytes) (xs : List Bytes) (count k : ℕ)
    → ltb k count ≡ false
    → remove_first v xs (count - k) ≡ xs
unfolding remove_first
remove_first-limit v [] count k h = refl
remove_first-limit v (x ∷ xs) count k h = ground arith

remove_first-hit :
    (v x : Bytes) (xs : List Bytes) (count k : ℕ)
    → ltb k count ≡ true
    → bytes_equal x v ≡ true
    → remove_first v (x ∷ xs) (count - k) ≡ remove_first v xs (count - suc k)
unfolding remove_first
remove_first-hit v x xs count k h e =
    let some_left : (count - k == 0) ≡ false = ground arith in
    let less : count - k - 1 ≡ count - suc k = omega arith in rw (some_left, e, less) refl

remove_first-miss :
    (v x : Bytes) (xs : List Bytes) (count k : ℕ)
    → ltb k count ≡ true
    → bytes_equal x v ≡ false
    → remove_first v (x ∷ xs) (count - k) ≡ x ∷ remove_first v xs (count - k)
unfolding remove_first
remove_first-miss v x xs count k h e =
    let some_left : (count - k == 0) ≡ false = ground arith in rw (some_left, e) refl

-- One round of either loop.
module _ (links : DList → Ptr → Ptr) (stop : Ptr) (v : Bytes) (count f : ℕ) (l : DList) (now : Ptr)
    (k : ℕ) where
  round-stop : (now == stop) ≡ true → remove_loop links stop v count (suc f) l now k ≡ ok (l, k)
  unfolding remove_loop
  round-stop h = rw h refl

  round-limit : ltb k count ≡ false → remove_loop links stop v count (suc f) l now k ≡ ok (l, k)
  unfolding remove_loop
  round-limit h = elim (Bool-cases (now == stop)) [ inl e ↦ rw e refl | inr e ↦ rw (e, h) refl ]

  round-miss :
      (now == stop) ≡ false
      → ltb k count ≡ true
      → (now == 0) ≡ false
      → bytes_equal (l.val now) v ≡ false
      → remove_loop links stop v count (suc f) l now k
        ≡ remove_loop links stop v count f l (links l now) k
  unfolding remove_loop
  round-miss h lt z e = rw (h, lt, z, e) refl

  round-hit :
      (l1 : DList)
      → (now == stop) ≡ false
      → ltb k count ≡ true
      → (now == 0) ≡ false
      → bytes_equal (l.val now) v ≡ true
      → unlink l now ≡ ok l1
      → remove_loop links stop v count (suc f) l now k
        ≡ remove_loop links stop v count f l1 (links l now) (suc k)
  unfolding remove_loop
  round-hit l1 h lt z e u = rw (h, lt, z, e, u) refl

-- What a removal loop leaves: the sequence `whole`, with as many values fewer than the `n` that it
-- looked through as it has counted since `k`.
abbrev Removes : DList → List Bytes → (n left k : ℕ) → DList × ℕ → Type 0
Removes l whole n left k (l', m) = Holds l' whole × (m + left ≡ k + n) × (l'.len ≡ l.len)

forward :
    (f : ℕ) (v : Bytes) (count : ℕ) (l : DList) (stop : Ptr) (bs qs : List Ptr) (now : Ptr)
    (vs : List Ptr) (k : ℕ)
    → stop ≡ l.tail
    → qs ++ l.tail ∷ [] ≡ now ∷ vs
    → IsList l (bs ++ qs) (map l.val bs ++ map l.val qs)
    → length qs < f
    → let zs = remove_first v (map l.val qs) (count - k) in
      Returns
        (Removes l (map l.val bs ++ zs) (length qs) (length zs) k)
        (remove_loop (λ m. m.next) stop v count f l now k)
forward zero v count l stop bs qs now vs k es ev r fuel = absurd (omega arith)
forward (suc f) v count l stop bs [] now vs k es ev r fuel =
    let done : (now == stop) ≡ true = ground (arith, ap (λ ps. has l.tail ps) ev) in
    rw (round-stop (λ m. m.next) stop v count f l now k done, remove_first-nil v (count - k))
      (returns ((bs ++ [], r), refl, refl))
forward (suc f) v count l stop bs (c ∷ qs) now vs k es ev r fuel =
    let (us, u, eu) = last_of l.head bs in
    let (v', vs', ev') = first_of qs l.tail in
    let whole = map l.val bs ++ map l.val (c ∷ qs) in
    let near = neighbours_at l bs qs us vs' u c v' whole eu ev' r in
    let now_c : now ≡ c = ground (arith, ev) in
    let more : (now == stop) ≡ false = ground (
      arith,
      tail-not_mem l.head l.tail (bs ++ c ∷ qs) r.distinct,
      has-append l.tail bs (c ∷ qs),
    ) in
    let z : (now == 0) ≡ false = ground (arith, near) in
    let following : l.next now ≡ v' = ground (arith, near) in
    elim (Bool-cases (ltb k count)) [
      | inr limit ↦
          rw
            (
              round-limit (λ m. m.next) stop v count f l now k limit,
              remove_first-limit v (map l.val (c ∷ qs)) count k limit,
            )
            (returns ((bs ++ c ∷ qs, r), omega (arith, length-map l.val qs), refl))
      | inl lt ↦ elim (Bool-cases (bytes_equal (l.val c) v)) [
        | inr miss ↦
            let e : bytes_equal (l.val now) v ≡ false = ground arith in
            let zs = remove_first v (map l.val qs) (count - k) in
            let r' : IsList l ((bs ++ c ∷ []) ++ qs) (map l.val (bs ++ c ∷ []) ++ map l.val qs) =
              IsList-eq (subst (λ ps. IsList l ps whole) (sym (append_assoc bs (c ∷ []) qs)) r)
                (sym (map-snoc l.val bs c (map l.val qs))) in
            rw
              (
                round-miss (λ m. m.next) stop v count f l now k more lt z e,
                following,
                remove_first-miss v (l.val c) (map l.val qs) count k lt miss,
              )
              (Returns-mono
                (forward f v count l stop (bs ++ c ∷ []) qs v' vs' k es ev' r' (omega arith))
                λ a p. (subst (Holds a.0) (map-snoc l.val bs c zs) p.0, omega (arith, p.1), p.2))
        | inl hit ↦
            let e : bytes_equal (l.val now) v ≡ true = ground arith in
            let u' : unlink l now ≡ ok (removed l u c v') =
              ap (unlink l) now_c ∙ unlink-removed l bs c qs us u v' vs' whole eu ev' r in
            let r' = removed-IsList l bs qs us vs' u c v' whole eu ev' r in
            rw
              (
                round-hit (λ m. m.next) stop v count f l now k (removed l u c v') more lt z e u',
                following,
                remove_first-hit v (l.val c) (map l.val qs) count k lt hit,
              )
              (Returns-mono
                (forward f v count (removed l u c v') stop bs qs v' vs' (suc k) es ev' r'
                  (omega arith))
                λ a p. (p.0, omega (arith, p.1), p.2))
      ]
    ]

last_or : Ptr → List Ptr → Ptr
last_or d [] = d
last_or d (p ∷ ps) = last_or p ps

last_or-append : (d : Ptr) (ps : List Ptr) (c : Ptr) → last_or d (ps ++ c ∷ []) ≡ c
unfolding last_or
last_or-append d [] c = refl
last_or-append d (p ∷ ps) c = last_or-append p ps c

same_last : (ps qs : List Ptr) (a b : Ptr) → ps ++ a ∷ [] ≡ qs ++ b ∷ [] → a ≡ b
same_last ps qs a b e = sym (last_or-append 0 ps a) ∙ ap (last_or 0) e ∙ last_or-append 0 qs b

backward :
    (f : ℕ) (v : Bytes) (count : ℕ) (l : DList) (stop : Ptr) (rs qs : List Ptr) (now : Ptr)
    (us : List Ptr) (k : ℕ)
    → stop ≡ l.head
    → l.head ∷ reverse rs ≡ us ++ now ∷ []
    → IsList l (reverse rs ++ qs) (map l.val (reverse rs) ++ map l.val qs)
    → length rs < f
    → let zs = remove_first v (map l.val rs) (count - k) in
      Returns
        (Removes l (reverse zs ++ map l.val qs) (length rs) (length zs) k)
        (remove_loop (λ m. m.prev) stop v count f l now k)
unfolding reverse
backward zero v count l stop rs qs now us k es eu r fuel = absurd (omega arith)
backward (suc f) v count l stop [] qs now us k es eu r fuel =
    let done : (now == stop) ≡ true = ground (arith, same_last [] us l.head now eu) in
    rw (round-stop (λ m. m.prev) stop v count f l now k done, remove_first-nil v (count - k))
      (returns ((qs, r), refl, refl))
backward (suc f) v count l stop (c ∷ rs) qs now us k es eu r fuel =
    let bs = reverse rs in
    let (us', u, eu') = last_of l.head bs in
    let (v', vs', ev') = first_of qs l.tail in
    let whole = map l.val bs ++ map l.val (c ∷ qs) in
    let r0 : IsList l (bs ++ c ∷ qs) whole =
      IsList-eq
        (subst (λ ps. IsList l ps (map l.val (bs ++ c ∷ []) ++ map l.val qs))
          (append_assoc bs (c ∷ []) qs) r)
        (map-snoc l.val bs c (map l.val qs)) in
    let near = neighbours_at l bs qs us' vs' u c v' whole eu' ev' r0 in
    let now_c : now ≡ c = sym (same_last (l.head ∷ bs) us c now eu) in
    let more : (now == stop) ≡ false = ground (
      arith,
      r0.distinct,
      has-append l.head (bs ++ c ∷ qs) (l.tail ∷ []),
      has-append l.head bs (c ∷ qs),
    ) in
    let z : (now == 0) ≡ false = ground (arith, near) in
    let following : l.prev now ≡ u = ground (arith, near) in
    let left : Holds l (reverse (map l.val (c ∷ rs)) ++ map l.val qs) = (
      bs ++ c ∷ qs,
      IsList-eq r0 (
          sym (map-snoc l.val bs c (map l.val qs))
          ∙ ap (λ ys. ys ++ map l.val qs) (map-reverse l.val (c ∷ rs))),
    ) in
    elim (Bool-cases (ltb k count)) [
      | inr limit ↦
          rw
            (
              round-limit (λ m. m.prev) stop v count f l now k limit,
              remove_first-limit v (map l.val (c ∷ rs)) count k limit,
            )
            (returns (left, omega (arith, length-map l.val rs), refl))
      | inl lt ↦ elim (Bool-cases (bytes_equal (l.val c) v)) [
        | inr miss ↦
            let e : bytes_equal (l.val now) v ≡ false = ground arith in
            let zs = remove_first v (map l.val rs) (count - k) in
            rw
              (
                round-miss (λ m. m.prev) stop v count f l now k more lt z e,
                following,
                remove_first-miss v (l.val c) (map l.val rs) count k lt miss,
              )
              (Returns-mono (backward f v count l stop rs (c ∷ qs) u us' k es eu' r0 (omega arith))
                λ a p. (
                  subst (Holds a.0) (sym (append_assoc (reverse zs) (l.val c ∷ []) (map l.val qs)))
                      p.0,
                  omega (arith, p.1),
                  p.2,
                ))
        | inl hit ↦
            let e : bytes_equal (l.val now) v ≡ true = ground arith in
            let u' : unlink l now ≡ ok (removed l u c v') =
              ap (unlink l) now_c ∙ unlink-removed l bs c qs us' u v' vs' whole eu' ev' r0 in
            let r' = removed-IsList l bs qs us' vs' u c v' whole eu' ev' r0 in
            rw
              (
                round-hit (λ m. m.prev) stop v count f l now k (removed l u c v') more lt z e u',
                following,
                remove_first-hit v (l.val c) (map l.val rs) count k lt hit,
              )
              (Returns-mono
                (backward f v count (removed l u c v') stop rs qs u us' (suc k) es eu' r'
                  (omega arith))
                λ a p. (p.0, omega (arith, p.1), p.2))
      ]
    ]

-- The sequence that `RemoveElement` leaves; for the count 0 it removes one value fewer than there are.
unfoldable pub removal : Bytes → List Bytes → ℤ → List Bytes
removal v xs (pos n) = remove_first v xs (if n == 0 then length xs - 1 else n)
removal v xs (negsuc n) = reverse (remove_first v (reverse xs) (suc n))

-- What `RemoveElement` leaves and returns.
abbrev pub RemovesTo : DList → List Bytes → List Bytes → DList × ℕ → Type 0
RemovesTo l xs ys (l', m) = Holds l' ys × (m + length ys ≡ length xs) × (l'.len ≡ l.len)

module _ (l : DList) (v : Bytes) (ps : List Ptr) (n : ℕ) (r : IsList l ps (map l.val ps)) where
  all_left : n - 0 ≡ n
  all_left = omega arith

  remove_front :
      Returns
        (RemovesTo l (map l.val ps) (remove_first v (map l.val ps) n))
        (remove_loop (λ m. m.next) l.tail v n l.fresh l (l.next l.head) 0)
  remove_front =
      let (p, qs, ev) = first_of ps l.tail in
      let first : l.next l.head ≡ p =
        ground (arith, neighbours l [] ps [] qs l.head p (map l.val ps) refl ev r) in
      rw first (
        subst
          (λ k.
            Returns (RemovesTo l (map l.val ps) (remove_first v (map l.val ps) k))
              (remove_loop (λ m. m.next) l.tail v n l.fresh l p 0))
          all_left
          (Returns-mono (forward l.fresh v n l l.tail [] ps p qs 0 refl ev r r.room)
            λ a q. (q.0, omega (arith, q.1, length-map l.val ps), q.2)))

  remove_back :
      Returns
        (RemovesTo l (map l.val ps) (reverse (remove_first v (reverse (map l.val ps)) n)))
        (remove_loop (λ m. m.prev) l.head v n l.fresh l (l.prev l.tail) 0)
  remove_back =
      let (us, u, eu) = last_of l.head ps in
      let r' : IsList l (ps ++ []) (map l.val ps) =
        subst (λ qs. IsList l qs (map l.val ps)) (sym (append-nil ps)) r in
      let last : l.prev l.tail ≡ u =
        ground (arith, neighbours l ps [] us [] u l.tail (map l.val ps) eu refl r') in
      let rs = reverse ps in
      let eu' : l.head ∷ reverse rs ≡ us ++ u ∷ [] =
        ap (λ qs. l.head ∷ qs) (reverse-reverse ps) ∙ eu in
      let r0 : IsList l (reverse rs ++ []) (map l.val (reverse rs) ++ []) =
        rw (reverse-reverse ps, append-nil ps, append-nil (map l.val ps)) r in
      let zs = remove_first v (map l.val rs) (n - 0) in
      rw (last, sym (map-reverse l.val ps))
        (subst
          (λ k.
            Returns (RemovesTo l (map l.val ps) (reverse (remove_first v (map l.val rs) k)))
              (remove_loop (λ m. m.prev) l.head v n l.fresh l u 0))
          all_left
          (Returns-mono
            (backward l.fresh v n l l.head rs [] u us 0 refl eu' r0
              (omega (arith, length-reverse ps, r.room)))
            λ a q. (
              subst (Holds a.0) (append-nil _) q.0,
              omega (arith, q.1, length-map l.val ps, length-reverse ps, length-reverse zs),
              q.2,
            )))

tail-Valid : (n : Ptr) (ps : List Ptr) (t : Ptr) → All (Valid n) (ps ++ t ∷ []) → 0 < t
tail-Valid n [] t a = omega arith
tail-Valid n (p ∷ ps) t a = tail-Valid n ps t a.1

neg64_back : (n : ℕ) → suc n < half_range → pos_part (neg64 (negsuc n)) ≡ suc n
unfolding neg64 wrap
neg64_back n h = ground arith

remove_element-nil :
    (l : DList) (v : Bytes) (count : ℤ)
    → IsList l [] []
    → l.len ≡ 0
    → Returns (RemovesTo l [] (removal v [] count)) (remove_element l v count)
unfolding remove_element removal remove_first reverse
remove_element-nil l v (pos n) r e =
    let z : (l.len == 0) ≡ true = ground (arith, e) in rw z (returns (([], r), refl, refl))
remove_element-nil l v (negsuc n) r e =
    let z : (l.len == 0) ≡ true = ground (arith, e) in rw z (returns (([], r), refl, refl))

remove_element-values :
    (l : DList) (v : Bytes) (ps : List Ptr) (count : ℤ)
    → IsList l ps (map l.val ps)
    → l.len ≡ length ps
    → suc (neg_part count) ≤ half_range
    → Returns
        (RemovesTo l (map l.val ps) (removal v (map l.val ps) count))
        (remove_element l v count)
unfolding remove_element removal
remove_element-values l v [] count r e small = remove_element-nil l v count r e
remove_element-values l v (p ∷ ps) (pos n) r e small =
    let some_left : (l.len == 0) ≡ false = ground (arith, e) in
    let h : (l.head == 0) ≡ false = ground (arith, r.valid) in
    let xs = map l.val (p ∷ ps) in
    let k = if n == 0 then l.len - 1 else n in
    let same : k ≡ (if n == 0 then length xs - 1 else n) = ground (arith, e, length-map l.val ps) in
    rw (some_left, h)
      (subst
        (λ m.
          Returns (RemovesTo l xs (remove_first v xs m))
            (remove_loop (λ q. q.next) l.tail v k l.fresh l (l.next l.head) 0))
        same (remove_front l v (p ∷ ps) k r))
remove_element-values l v (p ∷ ps) (negsuc n) r e small =
    let some_left : (l.len == 0) ≡ false = ground (arith, e) in
    let h : (l.tail == 0) ≡ false = ground (arith, tail-Valid l.fresh (p ∷ ps) l.tail r.valid.1) in
    let k : pos_part (neg64 (negsuc n)) ≡ suc n = neg64_back n (omega (arith, small)) in
    rw (some_left, h, k) (remove_back l v (p ∷ ps) (suc n) r)

-- `RemoveElement` removes the first `count` values equal to `v` for a positive count, the last ones
-- for a negative count other than the least `int`, and one value fewer than the list has for 0, and
-- returns how many it removed. The count of the list stays as it was, whatever is removed.
pub remove_element-RemovesTo :
    (l : DList) (xs : List Bytes) (v : Bytes) (count : ℤ)
    → Models l xs
    → suc (neg_part count) ≤ half_range
    → Returns (RemovesTo l xs (removal v xs count)) (remove_element l v count)
remove_element-RemovesTo l xs v count (ps, r, e) small =
    subst (λ ys. Returns (RemovesTo l ys (removal v ys count)) (remove_element l v count)) r.values
      (remove_element-values l v ps count (IsList-values l ps xs r)
        (e ∙ sym (ap length r.values) ∙ length-map l.val ps) small)
