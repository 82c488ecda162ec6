-- ===== src/Tests/Subscribing.antt =====
-- Channels and their subscribers.
use redis_go.Prelude.{◌≡◌, refl, ◌∙◌, none, some, false, Bool, [], ◌∷◌, Bytes, codes, ◌==◌, arith}
use redis_go.Prelude.Int.{pos, add64}
use redis_go.GoMap
use redis_go.GoMap.{put}
use redis_go.ConcurrentMap.{set, lookup}
use redis_go.ConcurrentMap.Laws.{set_lem, new_concurrent_map_lem}
use redis_go.PubSub.{Conn, Chan, ChanMap, new_chan_map, new_chan, subscribe, un_subscribe, publish}
use redis_go.PubSub.Laws.{IsCounted, IsWell, Holds, conns_of, conns_of-set, set-Holds}
use redis_go.PubSub.Sending.{Sends, taking, publish-Sends}
use redis_go.PubSub.Late.{
  IsShort, Reachable, started, subscribed, left_late, published, Reachable-IsShort,
}
use redis_go.PubSub.Losing.{subscriber_lost}
use redis_go.Tests.Data.{key_a}

-- connection 0 takes nothing
abbrev takes_1 : Conn → Bytes → Bool
takes_1 conn bytes = conn == 1

abbrev no_chan : ChanMap
no_chan = new_chan_map (pos 4)

no_chan-none : lookup no_chan key_a ≡ none
no_chan-none = (new_concurrent_map_lem (pos 4) key_a).1

no_chan-IsWell : IsWell no_chan
no_chan-IsWell = record {
  valid = (new_concurrent_map_lem (pos 4) []).0;
  chans = λ k c e.
      let n = (new_concurrent_map_lem {V = Chan} (pos 4) k).1 in absurd (ground (arith, e, n));
}

-- two subscribers of one key, the first of which takes nothing
abbrev one_chan : Chan
one_chan = record { conns = put (codes "i") 0 []; num_subs = add64 (pos 0) (pos 1) }

abbrev two_chan : Chan
two_chan = record {
  conns = put (codes "j") 1 one_chan.conns;
  num_subs = add64 one_chan.num_subs (pos 1);
}

abbrev one_sub : ChanMap
one_sub = (set (set no_chan key_a new_chan).0 key_a one_chan).0

abbrev two_subs : ChanMap
two_subs = (set one_sub key_a two_chan).0

one_chan-IsCounted : IsCounted one_chan
unfolding put GoMap.get add64
one_chan-IsCounted = record { unique = (refl, tt); counted = refl; bounded = ground arith }

two_chan-IsCounted : IsCounted two_chan
unfolding put GoMap.get add64
two_chan-IsCounted = record { unique = (refl, (refl, tt)); counted = refl; bounded = ground arith }

new_sub-IsWell : IsWell (set no_chan key_a new_chan).0
new_sub-IsWell =
    set-Holds IsCounted no_chan key_a new_chan no_chan-IsWell
      (record { unique = tt; counted = refl; bounded = ground arith })

one_sub-IsWell : IsWell one_sub
one_sub-IsWell =
    set-Holds IsCounted (set no_chan key_a new_chan).0 key_a one_chan new_sub-IsWell
      one_chan-IsCounted

two_subs-IsWell : IsWell two_subs
two_subs-IsWell = set-Holds IsCounted one_sub key_a two_chan one_sub-IsWell two_chan-IsCounted

one_sub-some : lookup one_sub key_a ≡ some one_chan
one_sub-some = (set_lem (set no_chan key_a new_chan).0 key_a new_sub-IsWell.valid one_chan key_a).1

two_subs-conns : conns_of two_subs key_a ≡ (codes "i", 0) ∷ (codes "j", 1) ∷ []
unfolding put
two_subs-conns = conns_of-set one_sub key_a key_a two_chan one_sub-IsWell

one_sub-Reachable : Reachable (pos 4) 0 one_sub
unfolding subscribe GoMap.get
one_sub-Reachable =
    subscribed key_a (codes "i") 0 no_chan one_sub (rw no_chan-none refl)
      (rw no_chan-none (ground arith)) (rw (no_chan-none, no_chan-none) refl) started

two_subs-Reachable : Reachable (pos 4) 0 two_subs
unfolding subscribe put GoMap.get
two_subs-Reachable =
    subscribed key_a (codes "j") 1 one_sub two_subs (rw one_sub-some refl)
      (rw one_sub-some (ground arith)) (rw one_sub-some refl) one_sub-Reachable

-- the message drops the first subscriber, who then leaves
abbrev sent : ChanMap
sent = (publish takes_1 (codes "PUBLISH" ∷ key_a ∷ codes "hello" ∷ []) two_subs).0

sent-dropped : GoMap.has (codes "i") (conns_of sent key_a) ≡ false
unfolding taking GoMap.get
sent-dropped =
    let (well, conns, served, reply) =
      publish-Sends takes_1 (codes "PUBLISH") key_a (codes "hello") two_subs two_subs-IsWell in
    let left_over : conns_of sent key_a ≡ (codes "j", 1) ∷ [] =
      conns key_a ∙ rw two_subs-conns refl in
    rw left_over refl

Reachable-IsShort_example : Holds (IsShort 1) (un_subscribe key_a (codes "i") sent)
Reachable-IsShort_example =
    Reachable-IsShort (pos 4) 1 (un_subscribe key_a (codes "i") sent) (omega arith) (
      left_late key_a (codes "i") sent sent-dropped
        (published takes_1 (codes "PUBLISH") key_a (codes "hello") two_subs two_subs-Reachable))

publish-Sends_example :
    Sends takes_1 key_a
      (codes "hello")
      two_subs
      (publish takes_1 (codes "PUBLISH" ∷ key_a ∷ codes "hello" ∷ []) two_subs)
publish-Sends_example =
    publish-Sends takes_1 (codes "PUBLISH") key_a (codes "hello") two_subs two_subs-IsWell

subscriber_lost_example :
    let m' = (publish takes_1 (codes "PUBLISH" ∷ key_a ∷ codes "hello" ∷ []) two_subs).0 in
    (conns_of m' key_a ≡ (codes "j", 1) ∷ [])
    × (conns_of (un_subscribe key_a (codes "i") m') key_a ≡ [])
subscriber_lost_example =
    subscriber_lost takes_1 (codes "PUBLISH") key_a (codes "hello") (codes "i") (codes "j") 0 1
      two_subs two_subs-IsWell two_subs-conns refl refl
