-- ===== src/PubSub/Laws.antt =====
-- The count of a channel's subscribers.
use mathlib.Core.Path.{subst}
use redis_go.Prelude.{
  ℕ, suc, ◌<◌, ◌≡◌, refl, sym, ap, ◌∙◌, inl, inr, Bool, Bool-cases, true, false, Option, none, some,
  [], ◌∷◌, Bytes, bytes_equal, length, if◌then◌else◌, arith,
}
use redis_go.Prelude.Int.{pos, negsuc, add64, wrap, ◌+ℤ◌, half_range, eqb_ℤ}
use redis_go.Prelude.Outcome.{ok}
use redis_go.GoMap
use redis_go.GoMap.{GoMap, put, remove, is_some, IsUnique}
use redis_go.GoMap.Laws.{put-IsUnique, remove-IsUnique, length-put, length-remove}
use redis_go.ConcurrentMap.{set, lookup, delete}
use redis_go.ConcurrentMap.Laws.{IsValid, set_lem, delete_lem}
use redis_go.PubSub.{
  Conn, Chan, ChanMap, new_chan, subscribe, subscribe_found, un_subscribe, drop_conn, leave_found,
}

inc_lem : (n : ℕ) → suc n < half_range → add64 (pos n) (pos 1) ≡ pos (suc n)
unfolding add64 wrap ◌+ℤ◌
inc_lem n h = ground (arith, h)

pub dec_lem : (n : ℕ) → suc n < half_range → add64 (pos (suc n)) (negsuc 0) ≡ pos n
unfolding add64 wrap ◌+ℤ◌
dec_lem n h = ground (arith, h)

-- The count of the subscribers is that of the connections.
pub record IsCounted (c : Chan) : Type 0 where
  pub unique : IsUnique c.conns
  pub counted : c.num_subs ≡ pos (length c.conns)
  pub bounded : length c.conns < half_range

abbrev pub conns_found : Option Chan → GoMap Conn
conns_found none = []
conns_found (some c) = c.conns

abbrev or_chan : Option Chan → Chan
or_chan none = new_chan
or_chan (some c) = c

-- the connections that are subscribed to a key
abbrev pub conns_of : ChanMap → Bytes → GoMap Conn
conns_of m k = conns_found (lookup m k)

module _ (P : Chan → Type 0) where
  -- The map is valid, and this holds of its channels.
  pub record Holds (m : ChanMap) : Type 0 where
    pub valid : IsValid m
    pub chans : (k : Bytes) (c : Chan) → lookup m k ≡ some c → P c

  either_chan :
      (b : Bool) (x o : Option Chan) (d : Chan)
      → (if b then x else o) ≡ some d
      → (x ≡ some d → P d)
      → (o ≡ some d → P d)
      → P d
  either_chan true x o d e f g = f e
  either_chan false x o d e f g = g e

  same_chan : (c d : Chan) → some c ≡ some d → P c → P d
  same_chan c d e h = subst (λ o. P (or_chan o)) e h

  pub set-Holds : (m : ChanMap) (key : Bytes) (c : Chan) → Holds m → P c → Holds (set m key c).0
  set-Holds m key c well h = record {
    valid = (set_lem m key well.valid c key).0;
    chans = λ k d e.
        either_chan (bytes_equal key k) (some c) (lookup m k) d
          (sym (set_lem m key well.valid c k).1 ∙ e) (λ f. same_chan c d f h) (well.chans k d);
  }

  pub delete-Holds : (m : ChanMap) (key : Bytes) → Holds m → Holds (delete m key).0
  delete-Holds m key well = record {
    valid = (delete_lem m key well.valid key).0;
    chans = λ k d e.
        either_chan (bytes_equal key k) none (lookup m k) d
          (sym (delete_lem m key well.valid k).1 ∙ e) (λ f. absurd (ground (arith, f)))
          (well.chans k d);
  }

abbrev pub IsWell : ChanMap → Type 0
IsWell = Holds IsCounted

pub drop_conn-IsCounted :
    (id : Bytes) (c : Chan) → IsCounted c → GoMap.has id c.conns ≡ true → IsCounted (drop_conn id c)
drop_conn-IsCounted id c h old =
    let l = length-remove id c.conns in
    let n : length c.conns ≡ suc (length (remove id c.conns)) = ground (arith, l, old) in
    record {
      unique = remove-IsUnique id c.conns h.unique;
      counted =
          ap (λ z. add64 z (negsuc 0)) (h.counted ∙ ap pos n)
          ∙ dec_lem (length (remove id c.conns)) (omega (arith, n, h.bounded));
      bounded = omega (arith, n, h.bounded);
    }

-- the connections that a key has after the write of a channel
pub conns_of-set :
    (m : ChanMap) (key j : Bytes) (c : Chan)
    → IsWell m
    → conns_of (set m key c).0 j ≡ (if bytes_equal key j then c.conns else conns_of m j)
conns_of-set m key j c well = ground (arith, set_lem m key well.valid c j)

-- A channel joined by a new identifier.
join-IsCounted :
    (id : Bytes) (conn : Conn) (c : Chan)
    → IsCounted c
    → GoMap.has id c.conns ≡ false
    → suc (length c.conns) < half_range
    → IsCounted (record { conns = put id conn c.conns; num_subs = add64 c.num_subs (pos 1) })
join-IsCounted id conn c h new room =
    let l = length-put id conn c.conns in
    let n : length (put id conn c.conns) ≡ suc (length c.conns) = ground (arith, l, new) in
    record {
      unique = put-IsUnique id conn c.conns h.unique;
      counted =
          ap (λ z. add64 z (pos 1)) h.counted ∙ inc_lem (length c.conns) room ∙ ap pos (sym n);
      bounded = omega (arith, n, room);
    }

new_chan-IsCounted : IsCounted new_chan
new_chan-IsCounted = record { unique = tt; counted = refl; bounded = ground arith }

subscribed :
    (key id : Bytes) (conn : Conn) (m : ChanMap) (j : Bytes) (o : Option Chan)
    → IsWell m
    → lookup m key ≡ o
    → GoMap.has id (conns_found o) ≡ false
    → suc (length (conns_found o)) < half_range
    → (m' : ChanMap) × (subscribe_found key id conn m o ≡ ok m')
      × IsWell m'
      × (conns_of m' j ≡ (if bytes_equal key j then put id conn (conns_found o) else conns_of m j))
subscribed key id conn m j none well e new room =
    let m1 : ChanMap = (set m key new_chan).0 in
    let well1 = set-Holds IsCounted m key new_chan well new_chan-IsCounted in
    let c : Chan = record { conns = put id conn []; num_subs = add64 (pos 0) (pos 1) } in
    (
      (set m1 key c).0,
      rw e refl,
      set-Holds IsCounted m1 key c well1
          (join-IsCounted id conn new_chan new_chan-IsCounted new room),
      ground (arith, conns_of-set m1 key j c well1, conns_of-set m key j new_chan well),
    )
subscribed key id conn m j (some c) well e new room =
    let c' : Chan = record { conns = put id conn c.conns; num_subs = add64 c.num_subs (pos 1) } in
    (
      (set m key c').0,
      refl,
      set-Holds IsCounted m key c' well (join-IsCounted id conn c (well.chans key c e) new room),
      conns_of-set m key j c' well,
    )

-- `Subscribe`, with a new identifier and room for the count, on a map whose channels count their
-- connections right, which stays so: the connection joins those of the key, no other key's change, and
-- it does not panic.
pub subscribe_lem :
    (key id : Bytes) (conn : Conn) (m : ChanMap) (j : Bytes)
    → IsWell m
    → GoMap.has id (conns_of m key) ≡ false
    → suc (length (conns_of m key)) < half_range
    → (m' : ChanMap) × (subscribe key id conn m ≡ ok m')
      × IsWell m'
      × (conns_of m' j ≡ (if bytes_equal key j then put id conn (conns_of m key) else conns_of m j))
unfolding subscribe
subscribe_lem key id conn m j well new room =
    subscribed key id conn m j (lookup m key) well refl new room

empty : (s : GoMap Conn) → length s ≡ 0 → s ≡ []
empty [] e = refl
empty (x ∷ s) e = absurd (omega (arith, e))

-- A channel whose count is 0 has no connection.
no_conns : (c : Chan) → IsCounted c → eqb_ℤ c.num_subs (pos 0) ≡ true → c.conns ≡ []
no_conns c h e = empty c.conns (ground (arith, h.counted, e))

left :
    (key id : Bytes) (m : ChanMap) (j : Bytes) (o : Option Chan)
    → IsWell m
    → lookup m key ≡ o
    → GoMap.has id (conns_found o) ≡ true
    → IsWell (leave_found key id m o)
      × (conns_of (leave_found key id m o) j
          ≡ (if bytes_equal key j then remove id (conns_found o) else conns_of m j))
unfolding GoMap.get
left key id m j none well e old = absurd (ground (arith, old))
left key id m j (some c) well e old =
    let c' : Chan = drop_conn id c in
    let counted = drop_conn-IsCounted id c (well.chans key c e) old in
    elim (Bool-cases (eqb_ℤ c'.num_subs (pos 0))) [
      | inl last ↦
          let none_left = no_conns c' counted last in
          rw last (
            delete-Holds IsCounted m key well,
            ground (arith, delete_lem m key well.valid j, none_left),
          )
      | inr more ↦ rw more (set-Holds IsCounted m key c' well counted, conns_of-set m key j c' well)
    ]

-- `UnSubscribe`, with an identifier that is subscribed, on a map whose channels count their connections
-- right, which stays so: the identifier leaves those of the key, and no other key's change.
pub un_subscribe_lem :
    (key id : Bytes) (m : ChanMap) (j : Bytes)
    → IsWell m
    → GoMap.has id (conns_of m key) ≡ true
    → IsWell (un_subscribe key id m)
      × (conns_of (un_subscribe key id m) j
          ≡ (if bytes_equal key j then remove id (conns_of m key) else conns_of m j))
unfolding un_subscribe
un_subscribe_lem key id m j well old = left key id m j (lookup m key) well refl old
