-- ===== src/StreamStruct/Adding.antt =====
-- memdb/stream_struct.go: what AddEntry keeps, and when it refuses.
use mathlib.Core.Path.{subst}
use redis_go.Prelude.{
  ◌-◌, bytes_equal_refl, ◌≡◌, ◌≢◌, refl, ap, sym, Bool, true, false, ◌&&◌, ◌||◌, Option, none, some,
  List, [], ◌∷◌, ◌++◌, Bytes, arith, if◌then◌else◌, inl, inr, Bool-cases,
}
use redis_go.Prelude.Int.{ℤ, pos, negsuc, add64, wrap, ◌+ℤ◌, IsInt64, ltb_ℤ, eqb_ℤ, half_range}
use redis_go.GoMap.Laws.{get-put}
use redis_go.GoMap.{put}
use redis_go.StreamStruct.{
  StreamId, Stream, format, add_entry, add_at, add_after, append_entry, top_of, minus_one, message,
}

-- The order of identifiers: by time, then by sequence number.
abbrev pub before : StreamId → StreamId → Bool
before i j = ltb_ℤ i.time j.time || (eqb_ℤ i.time j.time && ltb_ℤ i.seq_num j.seq_num)

abbrev pub IsOrdered : List StreamId → Type 0
IsOrdered [] = Unit
IsOrdered (i ∷ []) = Unit
IsOrdered (i ∷ j ∷ ids) = (before j i ≡ false) × IsOrdered (j ∷ ids)

append-IsOrdered :
    (t : StreamId) (ts : List StreamId) (id : StreamId)
    → IsOrdered (t ∷ ts)
    → before id (top_of t ts) ≡ false
    → IsOrdered ((t ∷ ts) ++ id ∷ [])
append-IsOrdered t [] id o h = (h, tt)
append-IsOrdered t (u ∷ ts) id o h = (o.0, append-IsOrdered u ts id o.1 h)

-- The number behind one that is not the greatest.
add_one_lem : (n : ℤ) → IsInt64 n → n ≢ pos (half_range - 1) → ltb_ℤ (add64 n (pos 1)) n ≡ false
unfolding add64 wrap ◌+ℤ◌
add_one_lem (pos n) h e =
    let small : n ≢ half_range - 1 = λ k. e (ap pos k) in ground (arith, small)
add_one_lem (negsuc n) h e = ground arith

-- The last identifier, if any, has a number that another one can follow.
abbrev pub HasNext : List StreamId → Type 0
HasNext [] = Unit
HasNext (t ∷ ts) = IsInt64 (top_of t ts).seq_num × ((top_of t ts).seq_num ≢ pos (half_range - 1))

-- the identifier with its time, -1 standing for the clock's
abbrev pub timed : ℤ → StreamId → StreamId
timed now id = if eqb_ℤ id.time minus_one then record id { time = now } else id

-- an identifier that comes before the last one
abbrev pub TooSmall : StreamId → List StreamId → Type 0
TooSmall id [] = ⊥
TooSmall id (t ∷ ts) = before id (top_of t ts) ≡ true

-- What `AddEntry` returns and leaves.
abbrev pub Adds : StreamId → List Bytes → Stream → Option (StreamId × Stream) → Type 0
Adds id val s none = TooSmall id s.time_stamps
Adds id val s (some (id', s')) =
    IsOrdered s'.time_stamps
    × (s'.time_stamps ≡ s.time_stamps ++ id' ∷ [])
    × (message s' id' ≡ val)
    × (id'.time ≡ id.time)

message-put :
    (id : StreamId) (val : List Bytes) (ts : List StreamId) (s : Stream)
    → message (record s { time_stamps = ts; entry = put (format id) val s.entry }) id ≡ val
message-put id val ts s =
    ground (arith, get-put (format id) (format id) val s.entry, bytes_equal_refl (format id))

appended :
    (t : StreamId) (ts : List StreamId) (id id' : StreamId) (val : List Bytes) (s : Stream)
    → s.time_stamps ≡ t ∷ ts
    → IsOrdered (t ∷ ts)
    → before id' (top_of t ts) ≡ false
    → id'.time ≡ id.time
    → Adds id val s (append_entry id' val s)
appended t ts id id' val s e o h same = (
  subst IsOrdered (ap (λ ids. ids ++ id' ∷ []) (sym e)) (append-IsOrdered t ts id' o h),
  refl,
  message-put id' val (s.time_stamps ++ id' ∷ []) s,
  same,
)

add_after-Adds :
    (t : StreamId) (ts : List StreamId) (id : StreamId) (val : List Bytes) (s : Stream)
    → s.time_stamps ≡ t ∷ ts
    → IsOrdered (t ∷ ts)
    → HasNext (t ∷ ts)
    → Adds id val s (add_after (top_of t ts) id val s)
unfolding add_after
add_after-Adds t ts id val s e o room =
    let top = top_of t ts in
    elim (Bool-cases (ltb_ℤ id.time top.time)) [
      | inl less ↦ rw (less, e) (ground arith)
      | inr not_less ↦ elim (Bool-cases (eqb_ℤ id.time top.time && eqb_ℤ id.seq_num minus_one)) [
        | inl auto ↦
            let next = record id { seq_num = add64 top.seq_num (pos 1) } in
            let up = add_one_lem top.seq_num room.0 room.1 in
            let h : before next top ≡ false = ground arith in
            rw (not_less, auto) (appended t ts id next val s e o h refl)
        | inr given ↦ elim (Bool-cases (eqb_ℤ id.time top.time && ltb_ℤ id.seq_num top.seq_num)) [
          | inl less ↦ rw (not_less, given, less, e) (ground arith)
          | inr not_small ↦
              let h : before id top ≡ false = ground arith in
              rw (not_less, given, not_small) (appended t ts id id val s e o h refl)
        ]
      ]
    ]

-- In a stream with ordered identifiers, whose last number is not the greatest, `AddEntry` refuses only
-- an identifier that comes before the last one. Otherwise the identifier, with its time, goes behind
-- the others, which stay, the order holds, and its text leads to the message.
pub add_entry-Adds :
    (now : ℤ) (id : StreamId) (val : List Bytes) (s : Stream)
    → IsOrdered s.time_stamps
    → HasNext s.time_stamps
    → Adds (timed now id) val s (add_entry now id val s)
unfolding add_entry
add_entry-Adds now id val s o room = at s.time_stamps refl o room
  where
    at :
        (ts : List StreamId)
        → s.time_stamps ≡ ts
        → IsOrdered ts
        → HasNext ts
        → Adds (timed now id) val s (add_at ts (timed now id) val s)
    at [] e p r =
        let first = record (timed now id) { seq_num = pos 0 } in
        (
          subst IsOrdered (ap (λ ids. ids ++ first ∷ []) (sym e)) tt,
          refl,
          message-put first val (s.time_stamps ++ first ∷ []) s,
          refl,
        )
    at (t ∷ ts) e p r = add_after-Adds t ts (timed now id) val s e p r
