-- ===== src/MemDb/Streams/Laws.antt =====
-- What XADD leaves at every key.
use redis_go.Prelude.{
  ℕ, suc, ◌≡◌, ◌≢◌, refl, false, Option, none, some, List, ◌∷◌, Bytes, codes, bytes_equal,
  if◌then◌else◌,
}
use redis_go.Prelude.Int.{ℤ}
use redis_go.Prelude.Outcome.{ok}
use redis_go.Resp.Structure.{bulk_data, error_data}
use redis_go.StreamStruct.{StreamId, Stream, new_stream, format, add_entry}
use redis_go.MemDb.Objects.{Found, absent, wrong, at, found, object_at, write, add_object}
use redis_go.MemDb.Objects.Laws.{
  IsWell, object_of, object_found, write-IsWell, write_lem, add_object-IsWell, object_of-add_object,
}
use redis_go.MemDb.Streams.{
  stream_kind, StreamDb, StreamReply, answer, no_options, parse_round, parse_loop, trim, smaller,
  added, add_found, is_odd, xadd, complete,
}

abbrev pub or_empty : Option Stream → Stream
or_empty none = new_stream
or_empty (some s) = s

-- the stream of a key, and an empty one where there is none
abbrev pub stream_of : StreamDb → Bytes → Stream
stream_of m key = or_empty (object_of stream_kind m key)

-- What XADD does with what AddEntry returned: nothing where it refused, and otherwise the key has the
-- stream with the entry, the reply is the identifier, and the other keys keep their streams.
abbrev pub Stores : Bytes → StreamDb → Option (StreamId × Stream) → StreamReply → Type 0
Stores key m none r = r ≡ answer m (error_data smaller)
Stores key m (some (id, s)) r =
    (m' : StreamDb) × (r ≡ answer m' (bulk_data (some (format id))))
    × IsWell stream_kind m'
    × ((j : Bytes)
        → object_of stream_kind m' j
          ≡ (if bytes_equal key j then some s else object_of stream_kind m j))

no_trim : (id : StreamId) (s : Stream) → trim no_options id s ≡ ok s
unfolding trim
no_trim id s = refl

first_entry :
    (key : Bytes) (m : StreamDb) (e : Option (StreamId × Stream))
    → IsWell stream_kind m
    → Stores key m e (added no_options (λ s. add_object stream_kind key s m) m e)
first_entry key m none well = refl
first_entry key m (some (id, s)) well = (
  add_object stream_kind key s m,
  rw (no_trim id s) refl,
  add_object-IsWell stream_kind key s m well,
  λ j. object_of-add_object stream_kind key j s m well,
)

next_entry :
    (key : Bytes) (m : StreamDb) (a : ℕ) (e : Option (StreamId × Stream))
    → IsWell stream_kind m
    → found stream_kind m.mem key ≡ at a
    → Stores key m e (added no_options (write m a) m e)
next_entry key m a none well f = refl
next_entry key m a (some (id, s)) well f = (
  write m a s,
  rw (no_trim id s) refl,
  write-IsWell stream_kind a s m well,
  λ j. write_lem stream_kind key j a s m well f,
)

stores :
    (now : ℤ) (key : Bytes) (ws : List Bytes) (m : StreamDb) (f : Found)
    → IsWell stream_kind m
    → found stream_kind m.mem key ≡ f
    → f ≢ wrong
    → Stores key m
        (add_entry now no_options.id ws (or_empty (object_found stream_kind m f)))
        (add_found now key ws no_options m f)
stores now key ws m absent well e right =
    first_entry key m (add_entry now no_options.id ws new_stream) well
stores now key ws m wrong well e right = absurd (right refl)
stores now key ws m (at a) well e right =
    next_entry key m a (add_entry now no_options.id ws (object_at stream_kind m a)) well e

parse_star :
    (fuel : ℕ) (ws : List Bytes)
    → parse_loop (suc fuel) (codes "*" ∷ ws) no_options ≡ ok (complete ws no_options)
unfolding parse_loop parse_round
parse_star fuel ws = refl

-- XADD with no option and the identifier `*`, of an even number of words, on a well-formed database,
-- which stays so, at a key that holds a stream or nothing: the entry is added, with the identifier of
-- the clock, to the stream of the key, or to a new one, the reply is the identifier that it got, and no
-- other key's stream changes; where AddEntry refuses, nothing changes and the reply is the error.
pub xadd-Stores :
    (fuel : ℕ) (now : ℤ) (c key f v : Bytes) (ws : List Bytes) (m : StreamDb)
    → IsWell stream_kind m
    → found stream_kind m.mem key ≢ wrong
    → is_odd ws ≡ false
    → Stores key m
        (add_entry now no_options.id (f ∷ v ∷ ws) (stream_of m key))
        (xadd (suc fuel) now (c ∷ key ∷ codes "*" ∷ f ∷ v ∷ ws) m)
unfolding xadd
xadd-Stores fuel now c key f v ws m well right even =
    rw (parse_star fuel (f ∷ v ∷ ws), even)
      (stores now key (f ∷ v ∷ ws) m (found stream_kind m.mem key) well refl right)
