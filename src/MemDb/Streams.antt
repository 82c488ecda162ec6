-- ===== src/MemDb/Streams.antt =====
-- memdb/stream.go: XADD and XRANGE, on a heap of streams.
pub mod Laws
pub mod Spinning
use redis_go.Prelude.{
  ℕ, zero, suc, ◌-◌, refl, Bool, true, false, not, ◌&&◌, ◌||◌, Option, none, some, List, [], ◌∷◌,
  ◌++◌, Bytes, codes, to_lower, bytes_equal, length, ltb, if◌then◌else◌,
}
use redis_go.Prelude.Int.{ℤ, pos, negsuc}
use redis_go.Prelude.Outcome.{Outcome, ok, panic, stuck, ◌>>=◌}
use redis_go.Strconv.{atoi}
use redis_go.GoMap.{is_some}
use redis_go.Resp.Structure.{
  RedisData, bulk_data, string_data, error_data, array_data, Elements, nil, cons,
}
use redis_go.StreamStruct
use redis_go.StreamStruct.{
  StreamId, Stream, new_stream, minus_one, format, split, both, parse, greater_equal, add_entry,
  drop_first_n,
}
use redis_go.MemDb.{Value, stream_ref}
use redis_go.MemDb.Reply.{wrong_type}
use redis_go.MemDb.Objects.{
  Found, absent, wrong, at, Kind, Store, found, object_at, write, add_object,
}

abbrev pub found_value : Option Value → Found
found_value none = absent
found_value (some (stream_ref a)) = at a
found_value (some v) = wrong

abbrev pub stream_kind : Kind Stream
stream_kind = record {
  empty = new_stream;
  ref = stream_ref;
  found_value = found_value;
  found_ref = λ a. refl;
}

abbrev pub StreamDb : Type 0
StreamDb = Store Stream

abbrev pub StreamReply : Type 0
StreamReply = Outcome (StreamDb × Option RedisData)

abbrev pub answer : StreamDb → RedisData → StreamReply
answer m d = ok (m, some d)

abbrev wrong_number : Bytes → StreamDb → StreamReply
wrong_number name m =
    answer m (error_data (codes "ERR wrong number of arguments for '" ++ name ++ codes "' command"))

abbrev invalid_id : Bytes
invalid_id = codes "ERR Invalid stream ID specified as stream command argument"

abbrev not_integer : Bytes
not_integer = codes "ERR value is not an integer or out of range"

-- the variables that the loop over the words sets; the identifier behind MINID is never used
pub record Options : Type 0 where
  pub nomkstream : Bool
  pub maxlen : Bool
  pub minid : Bool
  pub wave : Bool
  pub limit : Bool
  pub threshold : ℕ
  pub id : StreamId

abbrev pub no_options : Options
no_options = record {
  nomkstream = false;
  maxlen = false;
  minid = false;
  wave = false;
  limit = false;
  threshold = 0;
  id = record { time = minus_one; seq_num = minus_one };
}

-- What the loop comes to: an error, or the options with the words behind the identifier.
pub data Parsed : Type 0 where
  refused : Bytes → Parsed
  complete : List Bytes → Options → Parsed

-- What a round of the loop does: the next one starts at these words, or the loop ends.
pub data Turn : Type 0 where
  again : List Bytes → Options → Turn
  stop : Parsed → Turn

abbrev pub is_mark : Bytes → Bool
is_mark w = bytes_equal w (codes "~") || bytes_equal w (codes "=")

abbrev pub with_threshold : Options → List Bytes → Option ℤ → Turn
with_threshold o ws none = stop (refused not_integer)
with_threshold o ws (some (negsuc n)) =
    stop (refused (codes "ERR The MAXLEN argument must be >= 0."))
with_threshold o ws (some (pos n)) = again ws (record o { maxlen = true; threshold = n })

abbrev pub threshold_word : Options → List Bytes → Outcome Turn
threshold_word o [] = panic
threshold_word o (w ∷ ws) = ok (with_threshold o ws (atoi w))

abbrev pub maxlen_round : Options → List Bytes → Outcome Turn
maxlen_round o [] = panic
maxlen_round o (w ∷ ws) = if is_mark w then threshold_word o ws else threshold_word o (w ∷ ws)

-- The word is not passed over, so that the next round takes it too.
abbrev pub minid_word : Options → List Bytes → Outcome Turn
minid_word o [] = panic
minid_word o (w ∷ ws) = ok (
    if is_some (parse w)
    then again (w ∷ ws) (record o { minid = true })
    else stop (refused invalid_id))

abbrev pub minid_round : Options → List Bytes → Outcome Turn
minid_round o [] = panic
minid_round o (w ∷ ws) = if is_mark w then minid_word o ws else minid_word o (w ∷ ws)

abbrev pub limit_round : Options → List Bytes → Outcome Turn
limit_round o [] = panic
limit_round o (w ∷ ws) =
    ok (
      if is_some (atoi w) then again ws (record o { limit = true }) else stop (refused not_integer))

abbrev pub given_id : List Bytes → Option StreamId
given_id (t ∷ n ∷ []) = both (atoi t) (atoi n)
given_id _ = none

abbrev pub with_id : Options → List Bytes → Option StreamId → Turn
with_id o ws none = stop (refused invalid_id)
with_id o ws (some id) = stop (complete ws (record o { id = id }))

abbrev pub id_round : Options → Bytes → List Bytes → Turn
id_round o w ws =
    if bytes_equal w (codes "*") then stop (complete ws o) else with_id o ws (given_id (split w))

-- a round at the words from `cmd[idx]` on
unfoldable pub parse_round : List Bytes → Options → Outcome Turn
parse_round [] o = panic
parse_round (w ∷ ws) o =
    let l = to_lower w in
    if bytes_equal l (codes "nomkstream")
    then ok (again ws (record o { nomkstream = true }))
    else if bytes_equal l (codes "maxlen")
    then maxlen_round o ws
    else if bytes_equal l (codes "minid")
    then minid_round o ws
    else if bytes_equal l (codes "limit")
    then limit_round o ws
    else if bytes_equal l (codes "~")
    then ok (again (w ∷ ws) (record o { wave = true }))
    else ok (id_round o w ws)

unfoldable pub parse_loop : ℕ → List Bytes → Options → Outcome Parsed
parse_loop zero ws o = stuck
parse_loop (suc fuel) ws o =
    parse_round ws o >>= λ t. elim t [ stop p ↦ ok p | again vs q ↦ parse_loop fuel vs q ]

-- the first trim, which MAXLEN asks for
abbrev trim_length : Options → Stream → Outcome Stream
trim_length o s =
    if o.maxlen && ltb o.threshold (length s.time_stamps)
    then (do r ← drop_first_n s (pos (length s.time_stamps - o.threshold)); ok r.0)
    else ok s

-- the second one, which MINID asks for: a loop over the identifiers that were there before it
unfoldable pub trim_before : StreamId → List StreamId → ℕ → Stream → Outcome Stream
trim_before id [] count s = ok s
trim_before id (k ∷ ks) count s =
    if greater_equal k id
    then (do r ← drop_first_n s (pos count); trim_before id ks count r.0)
    else trim_before id ks (suc count) s

unfoldable pub trim : Options → StreamId → Stream → Outcome Stream
trim o id s = do s' ← trim_length o s; if o.minid then trim_before id s'.time_stamps 0 s' else ok s'

abbrev smaller : Bytes
smaller = codes "ERR The ID specified in XADD is equal or smaller than the target stream top item"

-- What follows `AddEntry`; `keep` puts the stream where it belongs.
abbrev pub added :
    Options → (keep : Stream → StreamDb) → StreamDb → Option (StreamId × Stream) → StreamReply
added o keep m none = answer m (error_data smaller)
added o keep m (some (id, s)) = do s' ← trim o id s; answer (keep s') (bulk_data (some (format id)))

abbrev pub add_found : ℤ → Bytes → List Bytes → Options → StreamDb → Found → StreamReply
add_found now key ws o m wrong = answer m (error_data wrong_type)
add_found now key ws o m absent =
    if o.nomkstream
    then answer m (bulk_data none)
    else added o (λ s. add_object stream_kind key s m) m (add_entry now o.id ws new_stream)
add_found now key ws o m (at a) =
    added o (write m a) m (add_entry now o.id ws (object_at stream_kind m a))

abbrev pub is_odd : List Bytes → Bool
is_odd [] = false
is_odd (w ∷ ws) = not (is_odd ws)

abbrev pub add_parsed : ℤ → Bytes → StreamDb → Parsed → StreamReply
add_parsed now key m (refused text) = answer m (error_data text)
add_parsed now key m (complete ws o) =
    if o.maxlen && o.minid
    then answer m (
        error_data
          (codes "ERR syntax error, MAXLEN and MINID options at the same time are not compatible"))
    else if o.limit && not o.wave
    then answer m
        (error_data (codes "ERR syntax error, LIMIT cannot be used without the special ~ option"))
    else if is_odd ws
    then wrong_number (codes "xadd") m
    else add_found now key ws o m (found stream_kind m.mem key)

-- XADD, at the millisecond `now`
unfoldable pub xadd : (fuel : ℕ) → (now : ℤ) → List Bytes → StreamDb → StreamReply
xadd fuel now (c ∷ key ∷ w ∷ f ∷ v ∷ ws) m = do
  p ← parse_loop fuel (w ∷ f ∷ v ∷ ws) no_options
  add_parsed now key m p
xadd fuel now cmd m = wrong_number (codes "xadd") m

-- a bound of a range: the mark of no bound, or an identifier
abbrev bound : Bytes → Bytes → Option StreamId
bound mark w =
    if bytes_equal w mark then some (record { time = minus_one; seq_num = minus_one }) else parse w

abbrev texts : List Bytes → Elements
texts [] = nil
texts (s ∷ ss) = cons (string_data s) (texts ss)

abbrev entries : List (StreamId × List Bytes) → Elements
entries [] = nil
entries ((id, vals) ∷ es) =
    cons (array_data (cons (string_data (format id)) (cons (array_data (texts vals)) nil)))
      (entries es)

-- a nil interface where there is no entry
abbrev range_reply : List (StreamId × List Bytes) → Option RedisData
range_reply [] = none
range_reply (e ∷ es) = some (array_data (entries (e ∷ es)))

-- A key that is absent gets an empty stream.
abbrev range_found : Bytes → StreamId → StreamId → StreamDb → Found → StreamReply
range_found key start end m absent =
    ok (
      add_object stream_kind key new_stream m,
      range_reply (StreamStruct.range new_stream start end),
    )
range_found key start end m wrong = answer m (error_data wrong_type)
range_found key start end m (at a) =
    ok (m, range_reply (StreamStruct.range (object_at stream_kind m a) start end))

abbrev range_bounds : Bytes → StreamDb → Option StreamId → Option StreamId → StreamReply
range_bounds key m (some start) (some end) =
    range_found key start end m (found stream_kind m.mem key)
range_bounds key m _ _ = answer m (error_data invalid_id)

pub xrange : List Bytes → StreamDb → StreamReply
xrange (c ∷ key ∷ a ∷ b ∷ ws) m = range_bounds key m (bound (codes "-") a) (bound (codes "+") b)
xrange cmd m = wrong_number (codes "xrange") m
