-- ===== src/ListStruct/Rep/Splice.antt =====
-- What insertion and removal of a node do to the sequence of a list of memdb/list_struct.go.
use mathlib.Core.Path.{subst}
use mathlib.Core.List.{map-append}
use redis_go.Prelude.{
  suc, ◌≡◌, refl, ap, sym, ◌∙◌, true, false, List, [], ◌∷◌, ◌++◌, Bytes, All, arith, append_assoc,
  map, length-append, ◌==◌,
}
use redis_go.ListStruct.{Ptr, DList, set}
use redis_go.ListStruct.Linked.{
  has, NoDup, Linked, Valid, has-append, apart, Linked-insert, Linked-delete, NoDup-insert,
  NoDup-delete, Linked-right, NoDup-right,
}
use redis_go.ListStruct.Rep.{IsList, path}

-- a new node with the value `w`, between the neighbours `u` and `v`
abbrev pub inserted : DList → Ptr → Ptr → Bytes → DList
inserted l u v w = record l {
  prev = set (set l.prev l.fresh u) v l.fresh;
  next = set (set l.next l.fresh v) u l.fresh;
  val = set l.val l.fresh w;
  fresh = suc l.fresh;
}

-- the node `c` taken out, between the neighbours `u` and `v`
abbrev pub removed : DList → Ptr → Ptr → Ptr → DList
removed l u c v = record l { prev = set (set l.prev v u) c 0; next = set (set l.next u v) c 0 }

-- The last of a list that is not empty.
pub last_of : (p : Ptr) (ps : List Ptr) → (us : List Ptr) × (u : Ptr) × (p ∷ ps ≡ us ++ u ∷ [])
last_of p [] = ([], p, refl)
last_of p (q ∷ ps) = let (us, u, e) = last_of q ps in (p ∷ us, u, ap (λ qs. p ∷ qs) e)

pub first_of : (ps : List Ptr) (p : Ptr) → (v : Ptr) × (vs : List Ptr) × (ps ++ p ∷ [] ≡ v ∷ vs)
first_of [] p = (p, [], refl)
first_of (q ∷ ps) p = (q, ps ++ p ∷ [], refl)

pub All-has : (n : Ptr) (ps : List Ptr) (p : Ptr) → All (Valid n) ps → has p ps ≡ true → Valid n p
All-has n [] p a h = ground arith
All-has n (q ∷ ps) p a h = ground (arith, All-has n ps p)

All-suc : (n : Ptr) (ps : List Ptr) → All (Valid n) ps → All (Valid (suc n)) ps
All-suc n [] a = tt
All-suc n (q ∷ ps) a = ((ground arith, ground arith), All-suc n ps a.1)

All-insert :
    (n : Ptr) (us : List Ptr) (u : Ptr) (vs : List Ptr) (c : Ptr)
    → All (Valid n) (us ++ u ∷ vs)
    → Valid n c
    → All (Valid n) (us ++ u ∷ c ∷ vs)
All-insert n [] u vs c a h = (a.0, (h, a.1))
All-insert n (x ∷ us) u vs c a h = (a.0, All-insert n us u vs c a.1 h)

All-delete :
    (n : Ptr) (us : List Ptr) (u : Ptr) (vs : List Ptr) (c : Ptr)
    → All (Valid n) (us ++ u ∷ c ∷ vs)
    → All (Valid n) (us ++ u ∷ vs)
All-delete n [] u vs c a = (a.0, a.1.1)
All-delete n (x ∷ us) u vs c a = (a.0, All-delete n us u vs c a.1)

All-right : (n : Ptr) (us vs : List Ptr) → All (Valid n) (us ++ vs) → All (Valid n) vs
All-right n [] vs a = a
All-right n (x ∷ us) vs a = All-right n us vs a.1

pub fresh-not_mem : (n : Ptr) (ps : List Ptr) → All (Valid n) ps → has n ps ≡ false
fresh-not_mem n [] a = refl
fresh-not_mem n (q ∷ ps) a = ground (arith, fresh-not_mem n ps a.1)

pub map-set :
    (m : Ptr → Bytes) (c : Ptr) (w : Bytes) (ps : List Ptr)
    → has c ps ≡ false
    → map (set m c w) ps ≡ map m ps
map-set m c w [] h = refl
map-set m c w (p ∷ ps) h = ground (arith, map-set m c w ps)

splice-values :
    (m : Ptr → Bytes) (c : Ptr) (w : Bytes) (ps qs : List Ptr)
    → has c ps ≡ false
    → has c qs ≡ false
    → map (set m c w) (ps ++ c ∷ qs) ≡ map m ps ++ w ∷ map m qs
splice-values m c w ps qs hp hq =
    rw (map-append (set m c w) ps (c ∷ qs), map-set m c w ps hp)
      (ground (arith, map-set m c w qs hq))

pub map-snoc :
    (m : Ptr → Bytes) (ps : List Ptr) (c : Ptr) (xs : List Bytes)
    → map m (ps ++ c ∷ []) ++ xs ≡ map m ps ++ m c ∷ xs
map-snoc m ps c xs =
    ap (λ ys. ys ++ xs) (map-append m ps (c ∷ [])) ∙ append_assoc (map m ps) (m c ∷ []) xs

-- A path whose parts are named by their ends.
joins :
    (h : Ptr) (ps us : List Ptr) (u : Ptr) (qs zs : List Ptr)
    → h ∷ ps ≡ us ++ u ∷ []
    → qs ≡ zs
    → h ∷ (ps ++ qs) ≡ us ++ u ∷ zs
joins h ps us u qs zs e f =
    ap (λ rs. rs ++ qs) e ∙ append_assoc us (u ∷ []) qs ∙ ap (λ rs. us ++ u ∷ rs) f

module _ (l : DList) (ps qs us vs : List Ptr) (u v : Ptr) (xs : List Bytes)
    (eu : l.head ∷ ps ≡ us ++ u ∷ []) (ev : qs ++ l.tail ∷ [] ≡ v ∷ vs) where
  pub path-split : path l (ps ++ qs) ≡ us ++ u ∷ v ∷ vs
  path-split =
      ap (λ rs. l.head ∷ rs) (append_assoc ps qs (l.tail ∷ []))
      ∙ joins l.head ps us u (qs ++ l.tail ∷ []) (v ∷ vs) eu ev

  pub path-split_at : (c : Ptr) → path l (ps ++ c ∷ qs) ≡ us ++ u ∷ c ∷ v ∷ vs
  path-split_at c =
      ap (λ rs. l.head ∷ rs) (append_assoc ps (c ∷ qs) (l.tail ∷ []))
      ∙ joins l.head ps us u (c ∷ (qs ++ l.tail ∷ [])) (c ∷ v ∷ vs) eu (ap (λ rs. c ∷ rs) ev)

  not_in_parts :
      (c : Ptr) → has c (path l (ps ++ qs)) ≡ false → (has c ps ≡ false) × (has c qs ≡ false)
  not_in_parts c h = ground (arith, has-append c (ps ++ qs) (l.tail ∷ []), has-append c ps qs)

  -- The nodes before the split are not behind it.
  split-apart :
      (q : Ptr) → NoDup (path l (ps ++ qs)) → has q (us ++ u ∷ []) ≡ true → has q (v ∷ vs) ≡ false
  split-apart q d h =
      subst (λ rs. has q rs ≡ false) ev
        (apart (l.head ∷ ps) (qs ++ l.tail ∷ []) q
          (subst (λ rs. NoDup (l.head ∷ rs)) (append_assoc ps qs (l.tail ∷ [])) d)
          (subst (λ rs. has q rs ≡ true) (sym eu) h))

  pub head-ne : NoDup (path l (ps ++ qs)) → (l.head == v) ≡ false
  head-ne d =
      let h : has l.head (us ++ u ∷ []) ≡ true =
        subst (λ rs. has l.head rs ≡ true) eu (ground arith) in
      ground (arith, split-apart l.head d h)

  pub tail-ne : NoDup (path l (ps ++ qs)) → (l.tail == u) ≡ false
  tail-ne d =
      let h : has l.tail (v ∷ vs) ≡ true =
        subst (λ rs. has l.tail rs ≡ true) ev
          (ground (arith, has-append l.tail qs (l.tail ∷ []))) in
      ground (arith, split-apart u d, has-append u us (u ∷ []))

  -- The two neighbours point at each other.
  pub neighbours :
      IsList l (ps ++ qs) xs → (l.next u ≡ v) × (l.prev v ≡ u) × (Valid l.fresh u × Valid l.fresh v)
  neighbours r =
      let a =
        Linked-right l.next l.prev us u (v ∷ vs)
          (subst (λ rs. Linked l.next l.prev rs) path-split r.linked) in
      let b = All-right l.fresh us (u ∷ v ∷ vs) (subst (All (Valid l.fresh)) path-split r.valid) in
      (a.0, a.1, (b.0, b.1.0))

  -- A node that is linked in between two neighbours stands there in the sequence.
  pub inserted-IsList :
      (w : Bytes)
      → IsList l (ps ++ qs) xs
      → IsList (inserted l u v w) (ps ++ l.fresh ∷ qs) (map l.val ps ++ w ∷ map l.val qs)
  inserted-IsList w r =
      let fresh = fresh-not_mem l.fresh (path l (ps ++ qs)) r.valid in
      let new = subst (λ rs. has l.fresh rs ≡ false) path-split fresh in
      let d = subst NoDup path-split r.distinct in
      let out = not_in_parts l.fresh fresh in
      record {
        linked =
            subst (λ rs. Linked (inserted l u v w).next (inserted l u v w).prev rs)
              (sym (path-split_at l.fresh))
              (Linked-insert l.next l.prev us u v vs l.fresh
                (subst (λ rs. Linked l.next l.prev rs) path-split r.linked) d new);
        distinct =
            subst NoDup (sym (path-split_at l.fresh)) (NoDup-insert us u (v ∷ vs) l.fresh d new);
        valid = subst (All (Valid (suc l.fresh))) (sym (path-split_at l.fresh)) (
            All-insert (suc l.fresh) us u (v ∷ vs) l.fresh
              (subst (All (Valid (suc l.fresh))) path-split
                (All-suc l.fresh (path l (ps ++ qs)) r.valid))
              (ground (arith, r.valid)));
        first = ground (arith, head-ne r.distinct, r.first, r.valid);
        last =
            ground (
              arith,
              tail-ne r.distinct,
              r.last,
              has-append l.fresh (ps ++ qs) (l.tail ∷ []),
              fresh,
            );
        room = omega (arith, length-append ps qs, length-append ps (l.fresh ∷ qs), r.room);
        values = splice-values l.val l.fresh w ps qs out.0 out.1;
      }

-- A node that is taken out from between two neighbours leaves the sequence, and keeps its value.
module _ (l : DList) (ps qs us vs : List Ptr) (u c v : Ptr) (xs : List Bytes)
    (eu : l.head ∷ ps ≡ us ++ u ∷ []) (ev : qs ++ l.tail ∷ [] ≡ v ∷ vs) where
  -- The node and its neighbours point at each other.
  pub neighbours_at :
      IsList l (ps ++ c ∷ qs) xs
      → ((l.next u ≡ c) × (l.prev c ≡ u) × (l.next c ≡ v) × (l.prev v ≡ c))
        × (Valid l.fresh u × Valid l.fresh c × Valid l.fresh v)
        × ((c == u) ≡ false)
        × ((c == v) ≡ false)
  neighbours_at r =
      let e = path-split_at l ps qs us vs u v xs eu ev c in
      let a =
        Linked-right l.next l.prev us u (c ∷ v ∷ vs)
          (subst (λ rs. Linked l.next l.prev rs) e r.linked) in
      let b = All-right l.fresh us (u ∷ c ∷ v ∷ vs) (subst (All (Valid l.fresh)) e r.valid) in
      let d = NoDup-right us (u ∷ c ∷ v ∷ vs) (subst NoDup e r.distinct) in
      ((a.0, a.1, a.2.0, a.2.1), (b.0, b.1.0, b.1.1.0), ground arith, ground arith)

  pub removed-IsList :
      IsList l (ps ++ c ∷ qs) xs
      → IsList (removed l u c v) (ps ++ qs) (map l.val ps ++ map l.val qs)
  removed-IsList r =
      let e = path-split l ps qs us vs u v xs eu ev in
      let e' = path-split_at l ps qs us vs u v xs eu ev c in
      let d = subst NoDup e' r.distinct in
      let d' : NoDup (path l (ps ++ qs)) = subst NoDup (sym e) (NoDup-delete us u c (v ∷ vs) d) in
      record {
        linked =
            subst (λ rs. Linked (removed l u c v).next (removed l u c v).prev rs) (sym e)
              (Linked-delete l.next l.prev us u c v vs
                (subst (λ rs. Linked l.next l.prev rs) e' r.linked) d);
        distinct = d';
        valid =
            subst (All (Valid l.fresh)) (sym e)
              (All-delete l.fresh us u (v ∷ vs) c (subst (All (Valid l.fresh)) e' r.valid));
        first = ground (arith, head-ne l ps qs us vs u v xs eu ev d', r.first);
        last = ground (arith, tail-ne l ps qs us vs u v xs eu ev d', r.last);
        room = omega (arith, length-append ps qs, length-append ps (c ∷ qs), r.room);
        values = map-append l.val ps qs;
      }
