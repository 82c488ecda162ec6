-- ===== src/Btree/Sequence.antt =====
-- memdb/btree.go: the members of a tree in order, and what the operations mean on such a sequence.
use mathlib.Core.Path.{subst}
use redis_go.Prelude.{
  ◌<◌, ◌≡◌, refl, ap, ◌∙◌, Option, none, some, List, [], ◌∷◌, ◌++◌, All, arith, ltb, if◌then◌else◌,
}
use redis_go.GoMap.{keys}
use redis_go.Btree.{Score, Member, whole, add_names, delete_names}

abbrev pub Below : Score → List Member → Type 0
Below s xs = All (λ (m : Member). m.score < s) xs

abbrev pub Above : Score → List Member → Type 0
Above s xs = All (λ (m : Member). s < m.score) xs

-- the scores grow strictly
abbrev pub Sorted : List Member → Type 0
Sorted [] = Unit
Sorted (x ∷ xs) = Above x.score xs × Sorted xs

-- The member put at the place of its score, with the names that are there.
unfoldable pub place : Member → List Member → List Member
place x [] = x ∷ []
place x (y ∷ ys) =
    if ltb y.score x.score
    then y ∷ place x ys
    else if ltb x.score y.score
    then x ∷ y ∷ ys
    else record y { names = add_names (keys x.names) y.names } ∷ ys

-- The member with the score of `x` taken out, or its names.
unfoldable pub take_out : Member → List Member → List Member
take_out x [] = []
take_out x (y ∷ ys) =
    if ltb y.score x.score
    then y ∷ take_out x ys
    else if ltb x.score y.score
    then y ∷ ys
    else if whole y x
    then ys
    else record y { names = delete_names (keys x.names) y.names } ∷ ys

-- Whether it has a member with that score.
unfoldable pub find : Score → List Member → Option Member
find s [] = none
find s (y ∷ ys) = if ltb y.score s then find s ys else if ltb s y.score then none else some y

pub Sorted-left :
    (xs : List Member) (y : Member) (ys : List Member)
    → Sorted (xs ++ y ∷ ys)
    → Sorted xs × Below y.score xs
Sorted-left [] y ys s = (tt, tt)
Sorted-left (x ∷ xs) y ys s =
    let (a, b) = Sorted-left xs y ys s.1 in
    ((Above-left x.score xs (y ∷ ys) s.0, a), (middle x.score xs y ys s.0, b))
  where
    Above-left : (k : Score) (us vs : List Member) → Above k (us ++ vs) → Above k us
    Above-left k [] vs h = tt
    Above-left k (u ∷ us) vs h = (h.0, Above-left k us vs h.1)

    middle :
        (k : Score) (us : List Member) (v : Member) (vs : List Member)
        → Above k (us ++ v ∷ vs)
        → k < v.score
    middle k [] v vs h = h.0
    middle k (u ∷ us) v vs h = middle k us v vs h.1

pub Sorted-right : (xs ys : List Member) → Sorted (xs ++ ys) → Sorted ys
Sorted-right [] ys s = s
Sorted-right (x ∷ xs) ys s = Sorted-right xs ys s.1

pub Below-le : (s t : Score) (xs : List Member) → Below s xs → s < t → Below t xs
Below-le s t [] b h = tt
Below-le s t (x ∷ xs) b h = (omega (arith, b.0), Below-le s t xs b.1 h)

-- A place left of `v` is found left of it, and so on.
pub place-left :
    (x v : Member) (xs ys : List Member)
    → x.score < v.score
    → place x (xs ++ v ∷ ys) ≡ place x xs ++ v ∷ ys
unfolding place
place-left x v [] ys h = ground arith
place-left x v (y ∷ xs) ys h = ground (arith, place-left x v xs ys h)

pub place-past :
    (x : Member) (xs ys : List Member) → Below x.score xs → place x (xs ++ ys) ≡ xs ++ place x ys
unfolding place
place-past x [] ys b = refl
place-past x (y ∷ xs) ys b = ground (arith, place-past x xs ys b.1)

pub take_out-past :
    (x : Member) (xs ys : List Member)
    → Below x.score xs
    → take_out x (xs ++ ys) ≡ xs ++ take_out x ys
unfolding take_out
take_out-past x [] ys b = refl
take_out-past x (y ∷ xs) ys b = ground (arith, take_out-past x xs ys b.1)

pub take_out-left :
    (x v : Member) (xs ys : List Member)
    → x.score < v.score
    → take_out x (xs ++ v ∷ ys) ≡ take_out x xs ++ v ∷ ys
unfolding take_out
take_out-left x v [] ys h = ground arith
take_out-left x v (y ∷ xs) ys h = ground (arith, take_out-left x v xs ys h)

pub find-past : (s : Score) (xs ys : List Member) → Below s xs → find s (xs ++ ys) ≡ find s ys
unfolding find
find-past s [] ys b = refl
find-past s (y ∷ xs) ys b = ground (arith, find-past s xs ys b.1)

pub find-left :
    (s : Score) (v : Member) (xs ys : List Member) → s < v.score → find s (xs ++ v ∷ ys) ≡ find s xs
unfolding find
find-left s v [] ys h = ground arith
find-left s v (y ∷ xs) ys h = ground (arith, find-left s v xs ys h)

-- What the three operations do on each side of a member of a sorted sequence, and at it.
module _ (x v : Member) (xs ys : List Member) (b : Below v.score xs) where
  pub place-right : v.score < x.score → place x (xs ++ v ∷ ys) ≡ xs ++ v ∷ place x ys
  unfolding place
  place-right h =
      place-past x xs (v ∷ ys) (Below-le v.score x.score xs b h)
      ∙ ap (λ zs. xs ++ zs) (ground arith)

  pub place-here :
      v.score ≡ x.score
      → place x (xs ++ v ∷ ys) ≡ xs ++ record v { names = add_names (keys x.names) v.names } ∷ ys
  unfolding place
  place-here e =
      place-past x xs (v ∷ ys) (subst (λ k. Below k xs) e b) ∙ ap (λ zs. xs ++ zs) (ground arith)

  pub find-right : (s : Score) → v.score < s → find s (xs ++ v ∷ ys) ≡ find s ys
  unfolding find
  find-right s h = find-past s xs (v ∷ ys) (Below-le v.score s xs b h) ∙ ground arith

  pub find-here : (s : Score) → v.score ≡ s → find s (xs ++ v ∷ ys) ≡ some v
  unfolding find
  find-here s e = find-past s xs (v ∷ ys) (subst (λ k. Below k xs) e b) ∙ ground arith

  pub take_out-right : v.score < x.score → take_out x (xs ++ v ∷ ys) ≡ xs ++ v ∷ take_out x ys
  unfolding take_out
  take_out-right h =
      take_out-past x xs (v ∷ ys) (Below-le v.score x.score xs b h)
      ∙ ap (λ zs. xs ++ zs) (ground arith)

  pub take_out-here :
      v.score ≡ x.score
      → take_out x (xs ++ v ∷ ys)
        ≡ xs
          ++ (if whole v x
              then ys
              else record v { names = delete_names (keys x.names) v.names } ∷ ys)
  unfolding take_out
  take_out-here e =
      take_out-past x xs (v ∷ ys) (subst (λ k. Below k xs) e b) ∙ ap (λ zs. xs ++ zs) (ground arith)
