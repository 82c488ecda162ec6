-- ===== src/MemDb/Sets/Moving.antt =====
-- What SMOVE leaves at every key.
use redis_go.Prelude.{
  ℕ, ◌≡◌, ◌≢◌, refl, sym, ap, ◌∙◌, inl, inr, Bool-cases, true, false, not, ◌&&◌, Option, none, some,
  [], ◌∷◌, Bytes, bytes_equal, bytes_equal_iff, if◌then◌else◌, arith,
}
use redis_go.Prelude.Int.{ℤ}
use redis_go.SetStruct
use redis_go.SetStruct.{Set, new_set, add}
use redis_go.SetStruct.Algebra.{remove_count}
use redis_go.MemDb.Expiry.{ttl_at, is_due, check_ttl_lem}
use redis_go.MemDb.Objects.{Found, absent, wrong, at, found, object_at, write, add_object, checked}
use redis_go.MemDb.Objects.Laws.{
  IsWell, object_of, object_found, write-IsWell, write_lem, add_object-IsWell, object_of-add_object,
  found-checked, checked-IsWell, object_of-checked,
}
use redis_go.MemDb.Sets.{set_kind, SetDb, answer_int}
use redis_go.MemDb.Sets.Writes.{move_to, move_found, s_move_set}
use redis_go.MemDb.Sets.Laws.{or_empty, set_of, ttl-checked}

-- What a key has after the move, of what it had, where the source had `s`, and the destination `d`.
abbrev pub moved : Bytes → Bytes → Bytes → Set → Option Set → Bytes → Option Set → Option Set
moved src des v s d j old =
    let rest = (SetStruct.remove s v).0 in
    if SetStruct.has s v && bytes_equal des j
    then some (add (if bytes_equal src des then rest else or_empty d) v).0
    else if bytes_equal src j
    then some rest
    else old

-- The reply and the database after a move.
abbrev pub Moves : Bytes → Bytes → Bytes → Bytes → SetDb → SetDb → ℕ → Type 0
Moves src des v j m m' n =
    IsWell set_kind m'
    × (n ≡ (if SetStruct.has (set_of m src) v then 1 else 0))
    × (object_of set_kind m' j
        ≡ moved src des v (set_of m src) (object_of set_kind m des) j (object_of set_kind m j))

stays_reply :
    (des v : Bytes) (m : SetDb) (a : ℕ) (f : Found)
    → f ≢ wrong
    → (SetStruct.remove (object_at set_kind m a) v).1 ≡ 0
    → move_to des v m a f ≡ answer_int (write m a (SetStruct.remove (object_at set_kind m a) v).0) 0
stays_reply des v m a absent right e = rw e refl
stays_reply des v m a wrong right e = absurd (right refl)
stays_reply des v m a (at b) right e = rw e refl

-- the move of a member that the source does not have
stays_lem :
    (src des v j : Bytes) (m : SetDb) (a : ℕ) (f : Found)
    → IsWell set_kind m
    → found set_kind m.mem src ≡ at a
    → f ≢ wrong
    → SetStruct.has (object_at set_kind m a) v ≡ false
    → (move_to des v m a f
        ≡ answer_int (write m a (SetStruct.remove (object_at set_kind m a) v).0) 0)
      × Moves src des v j m (write m a (SetStruct.remove (object_at set_kind m a) v).0) 0
stays_lem src des v j m a f well at_a right no_member =
    let rest : Set = (SetStruct.remove (object_at set_kind m a) v).0 in
    let count = remove_count (object_at set_kind m a) v in
    let of_src : object_of set_kind m src ≡ some (object_at set_kind m a) =
      ap (object_found set_kind m) at_a in
    (
      stays_reply des v m a f right (count ∙ ap (λ t. if t then 1 else 0) no_member),
      (
        write-IsWell set_kind a rest m well,
        rw (of_src, no_member) refl,
        rw (of_src, no_member) (write_lem set_kind src j a rest m well at_a),
      ),
    )

apart_keys :
    (src des : Bytes) (m : SetDb) (a : ℕ)
    → found set_kind m.mem src ≡ at a
    → found set_kind m.mem des ≡ absent
    → bytes_equal src des ≡ false
apart_keys src des m a e f = elim (Bool-cases (bytes_equal src des)) [
  | inl same ↦
      let g = ap (found set_kind m.mem) ((bytes_equal_iff src des).0 same) in
      ground (arith, e, f, g)
  | inr other ↦ other
]

-- the move of a member to a key with no set
move_new_lem :
    (src des v j : Bytes) (m : SetDb) (a : ℕ)
    → IsWell set_kind m
    → found set_kind m.mem src ≡ at a
    → found set_kind m.mem des ≡ absent
    → SetStruct.has (object_at set_kind m a) v ≡ true
    → (m' : SetDb) × (move_to des v m a absent ≡ answer_int m' 1) × Moves src des v j m m' 1
move_new_lem src des v j m a well at_a no_des member =
    let rest : Set = (SetStruct.remove (object_at set_kind m a) v).0 in
    let count = remove_count (object_at set_kind m a) v in
    let m1 : SetDb = write m a rest in
    let well1 = write-IsWell set_kind a rest m well in
    let of_src : object_of set_kind m src ≡ some (object_at set_kind m a) =
      ap (object_found set_kind m) at_a in
    let of_des : object_of set_kind m des ≡ none = ap (object_found set_kind m) no_des in
    let other = apart_keys src des m a at_a no_des in
    (
      add_object set_kind des (add new_set v).0 m1,
      rw (count ∙ ap (λ t. if t then 1 else 0) member) refl,
      (
        add_object-IsWell set_kind des (add new_set v).0 m1 well1,
        rw (of_src, member) refl,
        rw (of_src, of_des, other, member)
            (object_of-add_object set_kind des j (add new_set v).0 m1 well1
              ∙ ap (λ o. if bytes_equal des j then some (add new_set v).0 else o)
                  (write_lem set_kind src j a rest m well at_a)),
      ),
    )

-- the move of a member to a key with a set, which may be the source itself
move_old_lem :
    (src des v j : Bytes) (m : SetDb) (a b : ℕ)
    → IsWell set_kind m
    → found set_kind m.mem src ≡ at a
    → found set_kind m.mem des ≡ at b
    → SetStruct.has (object_at set_kind m a) v ≡ true
    → (m' : SetDb) × (move_to des v m a (at b) ≡ answer_int m' 1) × Moves src des v j m m' 1
move_old_lem src des v j m a b well at_a at_b member =
    let rest : Set = (SetStruct.remove (object_at set_kind m a) v).0 in
    let count = remove_count (object_at set_kind m a) v in
    let m1 : SetDb = write m a rest in
    let well1 = write-IsWell set_kind a rest m well in
    let of_src : object_of set_kind m src ≡ some (object_at set_kind m a) =
      ap (object_found set_kind m) at_a in
    let of_des : object_of set_kind m des ≡ some (object_at set_kind m b) =
      ap (object_found set_kind m) at_b in
    let s : Set = (add (object_at set_kind m1 b) v).0 in
    let at_des : some (object_at set_kind m1 b)
        ≡ (if bytes_equal src des then some rest else object_of set_kind m des) =
      sym (ap (object_found set_kind m1) at_b) ∙ write_lem set_kind src des a rest m well at_a in
    let had : object_at set_kind m1 b
        ≡ (if bytes_equal src des then rest else object_at set_kind m b) =
      ground (arith, at_des, of_des) in
    (
      write m1 b s,
      rw (count ∙ ap (λ t. if t then 1 else 0) member) refl,
      (
        write-IsWell set_kind b s m1 well1,
        rw (of_src, member) refl,
        rw (of_src, of_des, member)
            (write_lem set_kind des j b s m1 well1 at_b
              ∙ ap (λ x. if bytes_equal des j then some (add x v).0 else object_of set_kind m1 j)
                  had
              ∙ ap
                  (λ o.
                    if bytes_equal des j
                    then some
                        (add (if bytes_equal src des then rest else object_at set_kind m b) v).0
                    else o)
                  (write_lem set_kind src j a rest m well at_a)),
      ),
    )

member_lem :
    (src des v j : Bytes) (m : SetDb) (a : ℕ) (f : Found)
    → IsWell set_kind m
    → found set_kind m.mem src ≡ at a
    → found set_kind m.mem des ≡ f
    → f ≢ wrong
    → SetStruct.has (object_at set_kind m a) v ≡ true
    → (m' : SetDb) × (move_to des v m a f ≡ answer_int m' 1) × Moves src des v j m m' 1
member_lem src des v j m a absent well at_a e right member =
    move_new_lem src des v j m a well at_a e member
member_lem src des v j m a wrong well at_a e right member = absurd (right refl)
member_lem src des v j m a (at b) well at_a e right member =
    move_old_lem src des v j m a b well at_a e member

move_to_lem :
    (src des v j : Bytes) (m : SetDb) (a : ℕ) (f : Found)
    → IsWell set_kind m
    → found set_kind m.mem src ≡ at a
    → found set_kind m.mem des ≡ f
    → f ≢ wrong
    → (m' : SetDb) × (n : ℕ) × (move_to des v m a f ≡ answer_int m' n) × Moves src des v j m m' n
move_to_lem src des v j m a f well at_a e right =
    elim (Bool-cases (SetStruct.has (object_at set_kind m a) v)) [
      | inl member ↦
          let (m', reply, moves) = member_lem src des v j m a f well at_a e right member in
          (m', 1, reply, moves)
      | inr other ↦
          let (reply, moves) = stays_lem src des v j m a f well at_a right other in
          (write m a (SetStruct.remove (object_at set_kind m a) v).0, 0, reply, moves)
    ]

Moves-same :
    (src des v j : Bytes) (m m2 m' : SetDb) (n : ℕ)
    → ((k : Bytes) → object_of set_kind m2 k ≡ object_of set_kind m k)
    → Moves src des v j m2 m' n
    → Moves src des v j m m' n
Moves-same src des v j m m2 m' n same (well, count, objects) =
    rw (sym (same src), sym (same des), sym (same j)) (well, count, objects)

-- SMOVE, on a well-formed database, which stays so, where the source has a set, the destination has a
-- set or nothing, and neither is expired: the reply is 1 if the member was in the source, and then it
-- is in the destination instead; otherwise the reply is 0; no other key's set changes, and the two keys
-- may be the same.
pub s_move_set_lem :
    (now : ℤ) (c src des v j : Bytes) (m : SetDb) (a : ℕ)
    → IsWell set_kind m
    → is_due now (ttl_at m.mem src) ≡ false
    → is_due now (ttl_at m.mem des) ≡ false
    → found set_kind m.mem src ≡ at a
    → found set_kind m.mem des ≢ wrong
    → (m' : SetDb) × (n : ℕ) × (s_move_set now (c ∷ src ∷ des ∷ v ∷ []) m ≡ answer_int m' n)
      × Moves src des v j m m' n
unfolding s_move_set
s_move_set_lem now c src des v j m a well due_src due_des at_a right =
    let m1 : SetDb = checked now des m in
    let well1 = checked-IsWell set_kind now des m well due_des in
    let due1 = ap (is_due now) (ttl-checked now des src m well due_des) ∙ due_src in
    let m2 : SetDb = checked now src m1 in
    let well2 = checked-IsWell set_kind now src m1 well1 due1 in
    let (b, alive, d, e) = check_ttl_lem now src m1.mem src well1.sound in
    let same : (k : Bytes) → found set_kind m2.mem k ≡ found set_kind m.mem k = λ k.
      found-checked set_kind now src k m1 well1.sound due1
      ∙ found-checked set_kind now des k m well.sound due_des in
    let kept : (k : Bytes) → object_of set_kind m2 k ≡ object_of set_kind m k = λ k.
      object_of-checked set_kind now src k m1 well1.sound due1
      ∙ object_of-checked set_kind now des k m well.sound due_des in
    let (m', n, reply, moves) =
      move_to_lem src des v j m2 a (found set_kind m2.mem des) well2 (same src ∙ at_a) refl
        (λ w. right (sym (same des) ∙ w)) in
    (
      m',
      n,
      rw (alive ∙ ap not due1) (ap (move_found des v m2) (same src ∙ at_a) ∙ reply),
      Moves-same src des v j m m2 m' n kept moves,
    )
