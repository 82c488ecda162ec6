-- ===== src/PubSub/Losing.antt =====
-- A run in which a subscriber is lost.
use redis_go.Prelude.{
  Option, ◌≡◌, refl, ap, ◌∙◌, Bool, true, false, none, some, [], ◌∷◌, Bytes, bytes_equal_refl,
  length, arith,
}
use redis_go.Prelude.Int.{pos, negsuc, add64}
use redis_go.ConcurrentMap.{lookup}
use redis_go.ConcurrentMap.Laws.{delete_lem}
use redis_go.PubSub.{Conn, ChanMap, un_subscribe, message, publish, leave_found, Chan}
use redis_go.PubSub.Laws.{IsWell, conns_of, conns_found, dec_lem}
use redis_go.PubSub.Sending.{taking, publish-Sends}

taking_one :
    (accepts : Conn → Bytes → Bool) (bytes i j : Bytes) (gone here : Conn)
    → accepts gone bytes ≡ false
    → accepts here bytes ≡ true
    → taking accepts bytes ((i, gone) ∷ (j, here) ∷ []) ≡ (j, here) ∷ []
unfolding taking
taking_one accepts bytes i j gone here e f = rw (e, f) refl

last_found :
    (key i : Bytes) (m : ChanMap) (o : Option Chan) (j : Bytes) (here : Conn)
    → IsWell m
    → lookup m key ≡ o
    → conns_found o ≡ (j, here) ∷ []
    → conns_of (leave_found key i m o) key ≡ []
last_found key i m none j here well o e = absurd (ground (arith, e))
last_found key i m (some c) j here well o e =
    let count : add64 c.num_subs (negsuc 0) ≡ pos 0 =
      ap (λ z. add64 z (negsuc 0)) ((well.chans key c o).counted ∙ ap pos (ap length e))
      ∙ dec_lem 0 (ground arith) in
    rw count (ground (arith, delete_lem m key well.valid key, bytes_equal_refl key))

-- Any departure from a channel with one connection deletes it.
last_leaves :
    (key i : Bytes) (m : ChanMap) (j : Bytes) (here : Conn)
    → IsWell m
    → conns_of m key ≡ (j, here) ∷ []
    → conns_of (un_subscribe key i m) key ≡ []
unfolding un_subscribe
last_leaves key i m j here well e = last_found key i m (lookup m key) j here well refl e

-- After a message that one of two subscribers does not take, and which drops him, his departure deletes
-- the channel: the other one, who took the message, gets no more of the key.
pub subscriber_lost :
    (accepts : Conn → Bytes → Bool) (c key val i j : Bytes) (gone here : Conn) (m : ChanMap)
    → IsWell m
    → conns_of m key ≡ (i, gone) ∷ (j, here) ∷ []
    → accepts gone (message key val) ≡ false
    → accepts here (message key val) ≡ true
    → let m' = (publish accepts (c ∷ key ∷ val ∷ []) m).0 in
      (conns_of m' key ≡ (j, here) ∷ []) × (conns_of (un_subscribe key i m') key ≡ [])
subscriber_lost accepts c key val i j gone here m well e no_more takes =
    let m' : ChanMap = (publish accepts (c ∷ key ∷ val ∷ []) m).0 in
    let (well', conns, served, reply) = publish-Sends accepts c key val m well in
    let one : conns_of m' key ≡ (j, here) ∷ [] =
      conns key
      ∙ rw (bytes_equal_refl key, e)
          (taking_one accepts (message key val) i j gone here no_more takes) in
    (one, last_leaves key i m' j here well' one)
