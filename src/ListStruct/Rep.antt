-- ===== src/ListStruct/Rep.antt =====
-- What a list of memdb/list_struct.go stands for: the sequence of its values.
pub mod Splice
use mathlib.Core.Path.{subst}
use redis_go.Prelude.{refl, ℕ, ◌<◌, ◌≡◌, List, [], ◌∷◌, ◌++◌, Bytes, All, length, map}
use redis_go.ListStruct.{Ptr, DList}
use redis_go.ListStruct.Linked.{NoDup, Linked, Valid}

-- From `Head` to `Tail`, with the nodes `ps` between them.
abbrev pub path : DList → List Ptr → List Ptr
path l ps = l.head ∷ (ps ++ l.tail ∷ [])

-- The nodes `ps` hold the values `xs`; they are linked both ways between the two ends, are different,
-- allocated and not nil.
pub record IsList (l : DList) (ps : List Ptr) (xs : List Bytes) : Type 0 where
  pub linked : Linked l.next l.prev (path l ps)
  pub distinct : NoDup (path l ps)
  pub valid : All (Valid l.fresh) (path l ps)
  pub first : l.prev l.head ≡ 0
  pub last : l.next l.tail ≡ 0
  pub room : length ps < l.fresh
  pub values : map l.val ps ≡ xs

-- The sequence does not depend on the count, nor on the subscriptions.
pub IsList-len :
    (n : ℕ) (l : DList) (ps : List Ptr) (xs : List Bytes)
    → IsList l ps xs
    → IsList (record l { len = n }) ps xs
IsList-len n l ps xs r = record {
  linked = r.linked;
  distinct = r.distinct;
  valid = r.valid;
  first = r.first;
  last = r.last;
  room = r.room;
  values = r.values;
}

pub IsList-eq :
    {l : DList} {ps : List Ptr} {xs ys : List Bytes} → IsList l ps xs → xs ≡ ys → IsList l ps ys
IsList-eq {l} {ps} r e = subst (λ zs. IsList l ps zs) e r

pub IsList-values :
    (l : DList) (ps : List Ptr) (xs : List Bytes) → IsList l ps xs → IsList l ps (map l.val ps)
IsList-values l ps xs r = record {
  linked = r.linked;
  distinct = r.distinct;
  valid = r.valid;
  first = r.first;
  last = r.last;
  room = r.room;
  values = refl;
}

-- The list stands for the sequence `xs`, and its count is right.
abbrev pub Models : DList → List Bytes → Type 0
Models l xs = (ps : List Ptr) × IsList l ps xs × (l.len ≡ length xs)

-- The list stands for the sequence `xs`, whatever its count says.
abbrev pub Holds : DList → List Bytes → Type 0
Holds l xs = (ps : List Ptr) × IsList l ps xs
