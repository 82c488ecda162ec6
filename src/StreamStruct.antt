-- ===== src/StreamStruct.antt =====
-- memdb/stream_struct.go: a stream, which is a list of identifiers and a map from them, as text, to the
-- messages. A call runs under the stream's lock.
pub mod Text
pub mod Adding
use redis_go.Prelude.{
  ℕ, suc, ◌+◌, Bool, true, false, not, ◌&&◌, ◌||◌, Option, none, some, List, [], ◌∷◌, ◌++◌, Bytes,
  length, take, drop, ltb, leb, ◌==◌, if◌then◌else◌,
}
use redis_go.Prelude.Int.{ℤ, pos, negsuc, add64, ltb_ℤ, eqb_ℤ}
use redis_go.Prelude.Outcome.{Outcome, ok, panic}
use redis_go.Strconv.{itoa, atoi}
use redis_go.GoMap
use redis_go.GoMap.{GoMap, put}

-- `struct StreamID`, of two values of `int64`
pub record StreamId : Type 0 where
  pub time : ℤ
  pub seq_num : ℤ

pub record Stream : Type 0 where
  pub entry : GoMap (List Bytes)
  pub time_stamps : List StreamId

pub new_stream : Stream
new_stream = record { entry = []; time_stamps = [] }

abbrev pub minus_one : ℤ
minus_one = negsuc 0

-- `StreamID.Format`
unfoldable pub format : StreamId → Bytes
format id = itoa id.time ++ b'-' ∷ itoa id.seq_num

-- `strings.Split(s, "-")`
abbrev onto_first : ℕ → List Bytes → List Bytes
onto_first c [] = []
onto_first c (s ∷ ss) = (c ∷ s) ∷ ss

unfoldable pub split : Bytes → List Bytes
split [] = [] ∷ []
split (c ∷ s) = let rest = split s in if c == b'-' then [] ∷ rest else onto_first c rest

-- an identifier of its parts, where both are numbers
abbrev pub both : Option ℤ → Option ℤ → Option StreamId
both (some t) (some n) = some (record { time = t; seq_num = n })
both _ _ = none

abbrev pub of_parts : List Bytes → Option StreamId
of_parts [] = none
of_parts (t ∷ []) = both (atoi t) (some (pos 0))
of_parts (t ∷ n ∷ []) = both (atoi t) (atoi n)
of_parts (_ ∷ _ ∷ _ ∷ _) = none

-- `StreamID.Parse`; `none` for its error
unfoldable pub parse : Bytes → Option StreamId
parse text = of_parts (split text)

-- `StreamID.GreaterEqual`
unfoldable pub greater_equal : StreamId → StreamId → Bool
greater_equal i id = not (ltb_ℤ i.time id.time) && not (ltb_ℤ i.seq_num id.seq_num)

abbrev pub append_entry : StreamId → List Bytes → Stream → Option (StreamId × Stream)
append_entry id val s =
    some
      (id, record { time_stamps = s.time_stamps ++ id ∷ []; entry = put (format id) val s.entry })

-- `timeStamps[len(timeStamps) - 1]`
abbrev pub top_of : StreamId → List StreamId → StreamId
top_of t [] = t
top_of t (u ∷ ts) = top_of u ts

-- the rest of `AddEntry`, with the time in place and the last identifier
unfoldable pub add_after : StreamId → StreamId → List Bytes → Stream → Option (StreamId × Stream)
add_after top id val s =
    if ltb_ℤ id.time top.time
    then none
    else if eqb_ℤ id.time top.time && eqb_ℤ id.seq_num minus_one
    then append_entry (record id { seq_num = add64 top.seq_num (pos 1) }) val s
    else if eqb_ℤ id.time top.time && ltb_ℤ id.seq_num top.seq_num
    then none
    else append_entry id val s

abbrev pub add_at : List StreamId → StreamId → List Bytes → Stream → Option (StreamId × Stream)
add_at [] id val s = append_entry (record id { seq_num = pos 0 }) val s
add_at (t ∷ ts) id val s = add_after (top_of t ts) id val s

-- `AddEntry`, at the millisecond `now`; `none` for its error, and otherwise the identifier too, which
-- the call may have completed
unfoldable pub add_entry : (now : ℤ) → StreamId → List Bytes → Stream → Option (StreamId × Stream)
add_entry now id val s =
    add_at s.time_stamps (if eqb_ℤ id.time minus_one then record id { time = now } else id) val s

abbrev message_of : Option (List Bytes) → List Bytes
message_of none = []
message_of (some val) = val

abbrev pub message : Stream → StreamId → List Bytes
message s id = message_of (GoMap.get (format id) s.entry)

abbrev pub with_messages : Stream → List StreamId → List (StreamId × List Bytes)
with_messages s [] = []
with_messages s (k ∷ ks) = (k, message s k) ∷ with_messages s ks

abbrev pub is_past : StreamId → StreamId → Bool
is_past end k =
    (ltb_ℤ end.time k.time && not (eqb_ℤ end.time minus_one))
    || (eqb_ℤ k.time end.time && not (ltb_ℤ k.seq_num end.seq_num))

abbrev pub is_from : StreamId → StreamId → Bool
is_from start k =
    not (ltb_ℤ k.time start.time)
    && (not (ltb_ℤ k.seq_num start.seq_num) || eqb_ℤ start.seq_num minus_one)

-- the loop of `Range`; `flag` says that the start was found
unfoldable pub scan_range :
    Stream → (start end : StreamId) → Bool → List StreamId → List (StreamId × List Bytes)
scan_range s start end flag [] = []
scan_range s start end flag (k ∷ ks) =
    let found = flag || is_from start k in
    let rest = scan_range s start end found ks in
    if is_past end k then [] else if found then (k, message s k) ∷ rest else rest

-- `Range`: the identifiers, each with its message
unfoldable pub range : Stream → (start end : StreamId) → List (StreamId × List Bytes)
range s start end =
    if eqb_ℤ start.time minus_one && eqb_ℤ end.time minus_one
    then with_messages s s.time_stamps
    else scan_range s start end false s.time_stamps

abbrev pub delete_all : List StreamId → GoMap (List Bytes) → GoMap (List Bytes)
delete_all [] m = m
delete_all (k ∷ ks) m = delete_all ks (GoMap.remove (format k) m)

-- `DropFirst`, with the number of entries left
unfoldable pub drop_first : Stream → Stream × ℕ
drop_first s = elim s.time_stamps [
  | [] ↦ (s, 0)
  | k ∷ ks ↦ (record { time_stamps = ks; entry = GoMap.remove (format k) s.entry }, length ks)
]

-- `DropFirstN`; a slice to a negative bound panics
unfoldable pub drop_first_n : Stream → ℤ → Outcome (Stream × ℕ)
drop_first_n s (negsuc n) = panic
drop_first_n s (pos n) =
    if n == 0
    then ok (s, length s.time_stamps)
    else if leb (length s.time_stamps) n
    then ok (new_stream, 0)
    else (let ts = drop n s.time_stamps in
        ok (
          record { time_stamps = ts; entry = delete_all (take n s.time_stamps) s.entry },
          length ts,
        ))
