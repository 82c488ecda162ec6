-- ===== src/ListStruct/Linked.antt =====
-- Paths of linked nodes, which the proofs on memdb/list_struct.go follow.
use redis_go.Prelude.{ℕ, ◌<◌, ◌≡◌, refl, Bool, true, false, ◌||◌, List, [], ◌∷◌, ◌++◌, ◌==◌, arith}
use redis_go.ListStruct.{Ptr, Links, set}

abbrev pub has : Ptr → List Ptr → Bool
has p [] = false
has p (q ∷ ps) = (q == p) || has p ps

abbrev pub NoDup : List Ptr → Type 0
NoDup [] = Unit
NoDup (p ∷ ps) = (has p ps ≡ false) × NoDup ps

-- The nodes of a path follow each other by `next`, and backwards by `prev`.
abbrev pub Linked : Links → Links → List Ptr → Type 0
Linked next prev [] = Unit
Linked next prev (a ∷ []) = Unit
Linked next prev (a ∷ b ∷ ps) = (next a ≡ b) × (prev b ≡ a) × Linked next prev (b ∷ ps)

-- an allocated node that is not nil
abbrev pub Valid : Ptr → Ptr → Type 0
Valid fresh p = (0 < p) × (p < fresh)

pub has-append : (p : Ptr) (ps qs : List Ptr) → has p (ps ++ qs) ≡ (has p ps || has p qs)
has-append p [] qs = refl
has-append p (q ∷ ps) qs = ground (arith, has-append p ps qs)

-- Nodes of two parts of a path are different.
pub apart : (ps qs : List Ptr) (p : Ptr) → NoDup (ps ++ qs) → has p ps ≡ true → has p qs ≡ false
apart [] qs p d h = ground arith
apart (a ∷ ps) qs p d h = ground (arith, has-append a ps qs, apart ps qs p, ==-true a p)
  where
    ==-true : (x y : ℕ) → (x == y) ≡ true → x ≡ y
    ==-true x y e = ground arith

pub NoDup-left : (ps qs : List Ptr) → NoDup (ps ++ qs) → NoDup ps
NoDup-left [] qs d = tt
NoDup-left (p ∷ ps) qs d = ground (arith, has-append p ps qs, NoDup-left ps qs)

pub NoDup-right : (ps qs : List Ptr) → NoDup (ps ++ qs) → NoDup qs
NoDup-right [] qs d = d
NoDup-right (p ∷ ps) qs d = NoDup-right ps qs d.1

-- A path is the path to a node and the path from it.
pub Linked-join :
    (next prev : Links) (ps : List Ptr) (p : Ptr) (qs : List Ptr)
    → Linked next prev (ps ++ p ∷ [])
    → Linked next prev (p ∷ qs)
    → Linked next prev (ps ++ p ∷ qs)
Linked-join next prev [] p qs a b = b
Linked-join next prev (x ∷ []) p qs a b = (a.0, a.1, b)
Linked-join next prev (x ∷ y ∷ ps) p qs a b = (a.0, a.1, Linked-join next prev (y ∷ ps) p qs a.2 b)

pub Linked-left :
    (next prev : Links) (ps : List Ptr) (p : Ptr) (qs : List Ptr)
    → Linked next prev (ps ++ p ∷ qs)
    → Linked next prev (ps ++ p ∷ [])
Linked-left next prev [] p qs a = tt
Linked-left next prev (x ∷ []) p qs a = (a.0, a.1, tt)
Linked-left next prev (x ∷ y ∷ ps) p qs a = (a.0, a.1, Linked-left next prev (y ∷ ps) p qs a.2)

pub Linked-right :
    (next prev : Links) (ps : List Ptr) (p : Ptr) (qs : List Ptr)
    → Linked next prev (ps ++ p ∷ qs)
    → Linked next prev (p ∷ qs)
Linked-right next prev [] p qs a = a
Linked-right next prev (x ∷ []) p qs a = a.2
Linked-right next prev (x ∷ y ∷ ps) p qs a = Linked-right next prev (y ∷ ps) p qs a.2

module _ (next prev next' prev' : Links) where
  -- The path to `p` stands where its links do: `next` of all but `p`.
  pub frame_left :
      (ps : List Ptr) (p : Ptr)
      → ((q : Ptr) → has q ps ≡ true → next' q ≡ next q)
      → ((q : Ptr) → has q (ps ++ p ∷ []) ≡ true → prev' q ≡ prev q)
      → Linked next prev (ps ++ p ∷ [])
      → Linked next' prev' (ps ++ p ∷ [])
  frame_left [] p n r a = tt
  frame_left (x ∷ []) p n r a = ground (arith, n x, r p)
  frame_left (x ∷ y ∷ ps) p n r a = (
    ground (arith, n x),
    ground (arith, r y),
    frame_left (y ∷ ps) p (λ q h. n q (ground arith)) (λ q h. r q (ground arith)) a.2,
  )

  -- The path from `p` stands where its links do: `prev` of all but `p`.
  pub frame_right :
      (p : Ptr) (ps : List Ptr)
      → ((q : Ptr) → has q (p ∷ ps) ≡ true → next' q ≡ next q)
      → ((q : Ptr) → has q ps ≡ true → prev' q ≡ prev q)
      → Linked next prev (p ∷ ps)
      → Linked next' prev' (p ∷ ps)
  frame_right p [] n r a = tt
  frame_right p (x ∷ ps) n r a = (
    ground (arith, n p),
    ground (arith, r x),
    frame_right x ps (λ q h. n q (ground arith)) (λ q h. r q (ground arith)) a.2,
  )

-- A new node between two neighbours, and a node taken out from between its neighbours.
module _ (next prev : Links) (us : List Ptr) (u : Ptr) where
  pub Linked-insert :
      (v : Ptr) (vs : List Ptr) (c : Ptr)
      → Linked next prev (us ++ u ∷ v ∷ vs)
      → NoDup (us ++ u ∷ v ∷ vs)
      → has c (us ++ u ∷ v ∷ vs) ≡ false
      → Linked (set (set next c v) u c) (set (set prev c u) v c) (us ++ u ∷ c ∷ v ∷ vs)
  Linked-insert v vs c a d out =
      let next' : Links = set (set next c v) u c in
      let prev' : Links = set (set prev c u) v c in
      let front = NoDup-right us (u ∷ v ∷ vs) d in
      let new = has-append c us (u ∷ v ∷ vs) in
      Linked-join next' prev' us u (c ∷ v ∷ vs)
        (frame_left next prev next' prev' us u
          (λ q h. ground (arith, new, apart us (u ∷ v ∷ vs) q d h))
          (λ q h. ground (arith, new, has-append q us (u ∷ []), apart us (u ∷ v ∷ vs) q d))
          (Linked-left next prev us u (v ∷ vs) a))
        (
          ground (arith, new),
          ground (arith, new),
          (
            ground (arith, new),
            ground (arith, new),
            frame_right next prev next' prev' v vs (λ q h. ground (arith, new))
                (λ q h. ground (arith, new)) (Linked-right next prev us u (v ∷ vs) a).2,
          ),
        )

  pub Linked-delete :
      (c v : Ptr) (vs : List Ptr)
      → Linked next prev (us ++ u ∷ c ∷ v ∷ vs)
      → NoDup (us ++ u ∷ c ∷ v ∷ vs)
      → Linked (set (set next u v) c 0) (set (set prev v u) c 0) (us ++ u ∷ v ∷ vs)
  Linked-delete c v vs a d =
      let next' : Links = set (set next u v) c 0 in
      let prev' : Links = set (set prev v u) c 0 in
      let front = NoDup-right us (u ∷ c ∷ v ∷ vs) d in
      Linked-join next' prev' us u (v ∷ vs)
        (frame_left next prev next' prev' us u
          (λ q h. ground (arith, apart us (u ∷ c ∷ v ∷ vs) q d h))
          (λ q h. ground (arith, has-append q us (u ∷ []), apart us (u ∷ c ∷ v ∷ vs) q d))
          (Linked-left next prev us u (c ∷ v ∷ vs) a))
        (
          ground arith,
          ground arith,
          frame_right next prev next' prev' v vs (λ q h. ground arith) (λ q h. ground arith)
              (Linked-right next prev us u (c ∷ v ∷ vs) a).2.2,
        )

pub NoDup-insert :
    (us : List Ptr) (u : Ptr) (vs : List Ptr) (c : Ptr)
    → NoDup (us ++ u ∷ vs)
    → has c (us ++ u ∷ vs) ≡ false
    → NoDup (us ++ u ∷ c ∷ vs)
NoDup-insert [] u vs c d out = ground arith
NoDup-insert (x ∷ us) u vs c d out =
    ground (arith, NoDup-insert us u vs c, has-append x us (u ∷ vs), has-append x us (u ∷ c ∷ vs))

pub NoDup-delete :
    (us : List Ptr) (u c : Ptr) (vs : List Ptr) → NoDup (us ++ u ∷ c ∷ vs) → NoDup (us ++ u ∷ vs)
NoDup-delete [] u c vs d = ground arith
NoDup-delete (x ∷ us) u c vs d =
    ground (arith, NoDup-delete us u c vs, has-append x us (u ∷ vs), has-append x us (u ∷ c ∷ vs))
