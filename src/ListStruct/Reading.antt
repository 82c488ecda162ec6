-- ===== src/ListStruct/Reading.antt =====
-- memdb/list_struct.go: `Index`, `Pos` and `Range`, as functions of a sequence.
use mathlib.Core.List.{map-append}
use mathlib.Core.Path.{subst}
use redis_go.Prelude.{
  ℕ, zero, suc, ◌≤◌, ◌<◌, ◌≡◌, refl, ap, sym, ◌∙◌, true, false, not, Option, none, some, List, [],
  ◌∷◌, ◌++◌, Bytes, All, All-append, arith, append_assoc, map, length, length-append, length-map,
  get_elem?, ◌==◌, ltb, if◌then◌else◌, inl, inr, Bool-cases,
}
use redis_go.Prelude.Int.{ℤ, pos, negsuc, neg64, neg_part, wrap, half_range}
use redis_go.Prelude.Outcome.{ok, Returns, returns}
use redis_go.ListStruct.{Ptr, Links, DList}
use redis_go.ListStruct.Linked.{has, Linked, Valid, has-append, Linked-join}
use redis_go.ListStruct.Rep.{IsList, IsList-values, Models}
use redis_go.ListStruct.Rep.Splice.{All-has}
use redis_go.ListStruct.Walks.{walk, index}

walk-get :
    (next prev : Links) (n : Ptr) (k : ℕ) (p : Ptr) (ps : List Ptr) (q : Ptr)
    → Linked next prev (p ∷ ps)
    → All (Valid n) (p ∷ ps)
    → get_elem? (p ∷ ps) k ≡ some q
    → walk next k p ≡ ok q
unfolding walk
walk-get next prev n zero p ps q a v h = ground arith
walk-get next prev n (suc k) p [] q a v h = ground arith
walk-get next prev n (suc k) p (r ∷ ps) q a v h =
    ground (arith, walk-get next prev n k r ps q a.2 v.1)

-- A node within a list, by its position.
nth :
    (m : Ptr → Bytes) (ps zs : List Ptr) (k : ℕ)
    → k < length ps
    → (q : Ptr) × (get_elem? (ps ++ zs) k ≡ some q)
      × (get_elem? (map m ps) k ≡ some (m q))
      × (has q ps ≡ true)
nth m [] zs k h = absurd (omega arith)
nth m (p ∷ ps) zs zero h = (p, refl, refl, ground arith)
nth m (p ∷ ps) zs (suc k) h =
    let (q, e, f, g) = nth m ps zs k (omega arith) in (q, e, f, ground arith)

nth-none : (xs : List Bytes) (k : ℕ) → length xs ≤ k → get_elem? xs k ≡ none
nth-none [] k h = refl
nth-none (x ∷ xs) zero h = absurd (omega arith)
nth-none (x ∷ xs) (suc k) h = nth-none xs k (omega arith)

-- Where a sequence has a value, the node with that value, and nil elsewhere.
abbrev pub Looks : DList → Option Bytes → Ptr → Type 0
Looks l none node = node ≡ 0
Looks l (some x) node = (l.val node ≡ x) × ((node == 0) ≡ false)

-- `Index` is a walk from one of the ends.
index-walk :
    (l : DList) (k : ℕ)
    → index l (pos k) ≡ (if not (ltb k l.len) then ok 0 else walk l.next (suc k) l.head)
unfolding index walk
index-walk l k = refl

index-walk_back :
    (l : DList) (k : ℕ)
    → suc k < half_range
    → index l (negsuc k) ≡ (if ltb l.len (suc k) then ok 0 else walk l.prev (suc k) l.tail)
unfolding index walk neg64 wrap
index-walk_back l k h = ground arith

-- The nodes of a list, last first, are a path along `Prev`.
unfoldable pub reverse : {A : Type 0} → List A → List A
reverse [] = []
reverse (x ∷ xs) = reverse xs ++ x ∷ []

Linked-reverse :
    (next prev : Links) (p : Ptr) (ps : List Ptr)
    → Linked next prev (p ∷ ps)
    → Linked prev next (reverse ps ++ p ∷ [])
unfolding reverse
Linked-reverse next prev p [] a = tt
Linked-reverse next prev p (q ∷ ps) a =
    subst (λ rs. Linked prev next rs) (sym (append_assoc (reverse ps) (q ∷ []) (p ∷ [])))
      (Linked-join prev next (reverse ps) q (p ∷ []) (Linked-reverse next prev q ps a.2)
        (a.1, a.0, tt))

All-reverse : (n : Ptr) (ps : List Ptr) → All (Valid n) ps → All (Valid n) (reverse ps)
unfolding reverse
All-reverse n [] a = tt
All-reverse n (p ∷ ps) a =
    All-append (Valid n) (reverse ps) (p ∷ []) (All-reverse n ps a.1) (a.0, tt)

pub reverse-append : {A : Type 0} (xs : List A) (y : A) → reverse (xs ++ y ∷ []) ≡ y ∷ reverse xs
unfolding reverse
reverse-append [] y = refl
reverse-append (x ∷ xs) y = ap (λ zs. zs ++ x ∷ []) (reverse-append xs y)

pub reverse-reverse : {A : Type 0} (xs : List A) → reverse (reverse xs) ≡ xs
unfolding reverse
reverse-reverse [] = refl
reverse-reverse (x ∷ xs) = reverse-append (reverse xs) x ∙ ap (λ ys. x ∷ ys) (reverse-reverse xs)

pub length-reverse : {A : Type 0} (xs : List A) → length (reverse xs) ≡ length xs
unfolding reverse
length-reverse [] = refl
length-reverse (x ∷ xs) = omega (arith, length-append (reverse xs) (x ∷ []), length-reverse xs)

pub map-reverse : (m : Ptr → Bytes) (ps : List Ptr) → map m (reverse ps) ≡ reverse (map m ps)
unfolding reverse
map-reverse m [] = refl
map-reverse m (p ∷ ps) =
    map-append m (reverse ps) (p ∷ []) ∙ ap (λ xs. xs ++ m p ∷ []) (map-reverse m ps)

has-reverse : (q : Ptr) (ps : List Ptr) → has q (reverse ps) ≡ has q ps
unfolding reverse
has-reverse q [] = refl
has-reverse q (p ∷ ps) = ground (arith, has-append q (reverse ps) (p ∷ []), has-reverse q ps)

-- Where `Index` looks.
abbrev pub value_at : List Bytes → ℤ → Option Bytes
value_at xs (pos k) = get_elem? xs k
value_at xs (negsuc k) = get_elem? (reverse xs) k

Valid-has :
    (n : Ptr) (p : Ptr) (ps qs : List Ptr) (q : Ptr)
    → All (Valid n) (p ∷ (ps ++ qs))
    → has q ps ≡ true
    → (q == 0) ≡ false
Valid-has n p ps qs q a h = ground (arith, All-has n (p ∷ (ps ++ qs)) q a, has-append q ps qs)

module _ (l : DList) (ps : List Ptr) (r : IsList l ps (map l.val ps)) (e : l.len ≡ length ps) where
  index_pos : (k : ℕ) → Returns (Looks l (get_elem? (map l.val ps) k)) (index l (pos k))
  index_pos k = elim (Bool-cases (ltb k l.len)) [
    | inr out ↦
        rw (index-walk l k, out, nth-none (map l.val ps) k (ground (arith, length-map l.val ps)))
          (returns refl)
    | inl inside ↦
        let (q, at_q, val_q, mem) = nth l.val ps (l.tail ∷ []) k (ground arith) in
        let h : walk l.next (suc k) l.head ≡ ok q =
          walk-get l.next l.prev l.fresh (suc k) l.head (ps ++ l.tail ∷ []) q r.linked r.valid
            at_q in
        rw (index-walk l k, inside, h, val_q)
          (returns (refl, Valid-has l.fresh l.head ps (l.tail ∷ []) q r.valid mem))
  ]

  back-Linked : Linked l.prev l.next (l.tail ∷ (reverse ps ++ l.head ∷ []))
  unfolding reverse
  back-Linked =
      subst (λ rs. Linked l.prev l.next (rs ++ l.head ∷ [])) (reverse-append ps l.tail)
        (Linked-reverse l.next l.prev l.head (ps ++ l.tail ∷ []) r.linked)

  back-Valid : All (Valid l.fresh) (l.tail ∷ (reverse ps ++ l.head ∷ []))
  unfolding reverse
  back-Valid =
      subst (λ rs. All (Valid l.fresh) (rs ++ l.head ∷ [])) (reverse-append ps l.tail)
        (All-reverse l.fresh (l.head ∷ (ps ++ l.tail ∷ [])) r.valid)

  index_neg :
      (k : ℕ)
      → suc k < half_range
      → Returns (Looks l (get_elem? (reverse (map l.val ps)) k)) (index l (negsuc k))
  index_neg k small = elim (Bool-cases (ltb l.len (suc k))) [
    | inl out ↦
        rw
          (
            index-walk_back l k small,
            out,
            nth-none (reverse (map l.val ps)) k
                (ground (arith, length-map l.val ps, length-reverse (map l.val ps))),
          )
          (returns refl)
    | inr inside ↦
        let (q, at_q, val_q, mem) =
          nth l.val (reverse ps) (l.head ∷ []) k (ground (arith, length-reverse ps)) in
        let h : walk l.prev (suc k) l.tail ≡ ok q =
          walk-get l.prev l.next l.fresh (suc k) l.tail (reverse ps ++ l.head ∷ []) q back-Linked
            back-Valid at_q in
        rw (index-walk_back l k small, inside, h, sym (map-reverse l.val ps), val_q)
          (returns (refl, Valid-has l.fresh l.tail (reverse ps) (l.head ∷ []) q back-Valid mem))
  ]

-- `Index` returns the node with the value at the index, counted from the end where it is negative,
-- and nil where the sequence has none; the least `int` apart, it does not panic.
pub index-Looks :
    (l : DList) (xs : List Bytes) (i : ℤ)
    → Models l xs
    → suc (neg_part i) ≤ half_range
    → Returns (Looks l (value_at xs i)) (index l i)
index-Looks l xs i (ps, r, e) small =
    let e' : l.len ≡ length ps = e ∙ sym (ap length r.values) ∙ length-map l.val ps in
    let r' = IsList-values l ps xs r in
    subst (λ ys. Returns (Looks l (value_at ys i)) (index l i)) r.values
      (elim i
          as (λ j.
            suc (neg_part j) ≤ half_range
            → Returns (Looks l (value_at (map l.val ps) j)) (index l j)) [
              | pos k ↦ λ _. index_pos l ps r' e' k
              | negsuc k ↦ λ h. index_neg l ps r' e' k (omega (arith, h))
            ]
        small)
