-- ===== src/PubSub.antt =====
-- memdb/pubsub_struct.go and memdb/pubsub.go: the channels, each with the connections that subscribed to
-- it. A channel is reached through the map alone, so what a call does to it is written back there. A
-- call is one step: Subscribe and UnSubscribe run under the channel's lock, but Send takes none, so that
-- calls which change the channel while Send loops over it are not modelled.
pub mod Laws
pub mod Sending
pub mod Late
pub mod Losing
use redis_go.Prelude.{
  ℕ, suc, Bool, true, false, Option, none, some, List, [], ◌∷◌, ◌++◌, Bytes, codes, if◌then◌else◌,
}
use redis_go.Prelude.Int.{ℤ, pos, negsuc, add64, eqb_ℤ}
use redis_go.Prelude.Outcome.{Outcome, ok, panic, ◌>>=◌}
use redis_go.GoMap.{GoMap, put, remove, is_some}
use redis_go.ConcurrentMap.{ConcurrentMap, new_concurrent_map, set, lookup, delete}
use redis_go.Resp.Structure.{
  RedisData, bulk_data, int_data, error_data, array_data, Elements, nil, cons, to_bytes,
}

-- `net.Conn`, an identity
abbrev pub Conn : Type 0
Conn = ℕ

-- `struct Chan`; its queue `in` is never used
pub record Chan : Type 0 where
  pub conns : GoMap Conn
  pub num_subs : ℤ

abbrev pub ChanMap : Type 0
ChanMap = ConcurrentMap Chan

abbrev pub new_chan_map : ℤ → ChanMap
new_chan_map size = new_concurrent_map size

abbrev pub new_chan : Chan
new_chan = record { conns = []; num_subs = pos 0 }

-- `Create`, whose pointer is nil where the key exists
abbrev pub create : ChanMap → Bytes → Option Chan → ChanMap × Option Chan
create m key none = ((set m key new_chan).0, some new_chan)
create m key (some c) = (m, none)

abbrev pub join_chan : Bytes → Bytes → Conn → ChanMap → Option Chan → Outcome ChanMap
join_chan key id conn m none = panic
join_chan key id conn m (some c) =
    ok (set m key (record { conns = put id conn c.conns; num_subs = add64 c.num_subs (pos 1) })).0

abbrev pub subscribe_found : Bytes → Bytes → Conn → ChanMap → Option Chan → Outcome ChanMap
subscribe_found key id conn m none =
    let (m', c) = create m key (lookup m key) in join_chan key id conn m' c
subscribe_found key id conn m (some c) = join_chan key id conn m (some c)

-- `Subscribe`, with the identifier that `uuid.NewString` returns
unfoldable pub subscribe : Bytes → (id : Bytes) → Conn → ChanMap → Outcome ChanMap
subscribe key id conn m = subscribe_found key id conn m (lookup m key)

-- one connection fewer
abbrev pub drop_conn : Bytes → Chan → Chan
drop_conn id c = record { conns = remove id c.conns; num_subs = add64 c.num_subs (negsuc 0) }

abbrev pub leave_found : Bytes → Bytes → ChanMap → Option Chan → ChanMap
leave_found key id m none = m
leave_found key id m (some c) =
    let c' = drop_conn id c in
    if eqb_ℤ c'.num_subs (pos 0) then (delete m key).0 else (set m key c').0

unfoldable pub un_subscribe : Bytes → Bytes → ChanMap → ChanMap
un_subscribe key id m = leave_found key id m (lookup m key)

-- what a subscriber gets
abbrev pub message : Bytes → Bytes → Bytes
message key val = to_bytes (
    array_data (
      cons (bulk_data (some (codes "message")))
        (cons (bulk_data (some key)) (cons (bulk_data (some val)) nil))))

-- `accepts` says which connections take the bytes that are written to them.
module _ (accepts : Conn → Bytes → Bool) where
  -- the loop of `Send`, with the connections that took the bytes
  unfoldable pub send_loop : Bytes → GoMap Conn → Chan → Chan × List Conn
  send_loop bytes [] c = (c, [])
  send_loop bytes ((id, conn) ∷ rest) c =
      let taken = accepts conn bytes in
      let (c', served) = send_loop bytes rest (if taken then c else drop_conn id c) in
      (c', if taken then conn ∷ served else served)

  abbrev pub send_found : Bytes → Bytes → ChanMap → Option Chan → ChanMap × List Conn × ℤ
  send_found key val m none = (m, [], pos 0)
  send_found key val m (some c) =
      let (c', served) = send_loop (message key val) c.conns c in
      ((set m key c').0, served, c'.num_subs)

  -- `Send`
  unfoldable pub send : Bytes → Bytes → ChanMap → ChanMap × List Conn × ℤ
  send key val m = send_found key val m (lookup m key)

  pub publish : List Bytes → ChanMap → ChanMap × List Conn × RedisData
  publish (c ∷ key ∷ val ∷ []) m = let (m', served, n) = send key val m in (m', served, int_data n)
  publish cmd m = (m, [], error_data (codes "ERR wrong number of arguments for 'publish' command"))

-- `subscribe`: the `i`th call of `uuid.NewString` makes `uuid i`
unfoldable pub subscribe_keys :
    (uuid : ℕ → Bytes) → ℕ → Conn → List Bytes → ChanMap → Outcome ChanMap
subscribe_keys uuid i conn [] m = ok m
subscribe_keys uuid i conn (key ∷ keys) m = do
  m' ← subscribe key (uuid i) conn m
  subscribe_keys uuid (suc i) conn keys m'

abbrev pub confirmations : List Bytes → Elements
confirmations [] = nil
confirmations (key ∷ keys) =
    cons (bulk_data (some (codes "subscribe")))
      (cons (bulk_data (some key)) (cons (int_data (pos 1)) (confirmations keys)))

pub subscribe_command :
    (uuid : ℕ → Bytes) → ℕ → Conn → List Bytes → ChanMap → Outcome (ChanMap × RedisData)
unfolding subscribe_keys
subscribe_command uuid i conn (c ∷ key ∷ keys) m = do
  m' ← subscribe_keys uuid i conn (key ∷ keys) m
  ok (m', array_data (confirmations (key ∷ keys)))
subscribe_command uuid i conn cmd m =
    ok (m, error_data (codes "ERR wrong number of arguments for 'subscribe' command"))
