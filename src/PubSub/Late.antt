-- ===== src/PubSub/Late.antt =====
-- The counts of the channels in any sequence of calls, where a client whose connection was dropped may
-- still call UnSubscribe when it leaves.
use mathlib.Core.Path.{subst}
use redis_go.Prelude.{
  ℕ, suc, ◌≤◌, ◌<◌, ◌≡◌, refl, sym, ap, ◌∙◌, inl, inr, Bool, Bool-cases, true, false, Option, none,
  some, [], ◌∷◌, Bytes, length, arith,
}
use redis_go.Prelude.Int.{ℤ, pos, negsuc, add64, wrap, ◌+ℤ◌, sub_ℕ, half_range, eqb_ℤ}
use redis_go.Prelude.Outcome.{ok}
use redis_go.GoMap
use redis_go.GoMap.{GoMap, put, remove, IsUnique}
use redis_go.GoMap.Laws.{put-IsUnique, remove-IsUnique, length-put, length-remove}
use redis_go.ConcurrentMap.{set, lookup}
use redis_go.ConcurrentMap.Laws.{new_concurrent_map_lem}
use redis_go.PubSub.{
  Conn, Chan, ChanMap, new_chan_map, new_chan, subscribe, subscribe_found, un_subscribe, drop_conn,
  leave_found, message, send_found, send, publish,
}
use redis_go.PubSub.Laws.{Holds, set-Holds, delete-Holds, conns_found, conns_of}
use redis_go.PubSub.Sending.{send_loop-taking}

-- a step of the count, where it is the difference of two numbers
sub_step :
    (a d : ℕ) → a < half_range → suc d < half_range → add64 (sub_ℕ a d) (negsuc 0) ≡ sub_ℕ a (suc d)
unfolding add64 wrap ◌+ℤ◌
sub_step a d h k = ground (arith, h, k)

sub_down :
    (a d : ℕ) → suc a < half_range → d < half_range → add64 (sub_ℕ (suc a) d) (negsuc 0) ≡ sub_ℕ a d
unfolding add64 wrap ◌+ℤ◌
sub_down a d h k = ground (arith, h, k)

sub_up :
    (a d : ℕ) → suc a < half_range → d < half_range → add64 (sub_ℕ a d) (pos 1) ≡ sub_ℕ (suc a) d
unfolding add64 wrap ◌+ℤ◌
sub_up a d h k = ground (arith, h, k)

-- The count of a channel is that of its connections, less a number that is `n` at most.
pub record IsShort (n : ℕ) (c : Chan) : Type 0 where
  pub unique : IsUnique c.conns
  pub short : ℕ
  pub short_le : short ≤ n
  pub counted : c.num_subs ≡ sub_ℕ (length c.conns) short
  pub bounded : length c.conns < half_range

module _ (n : ℕ) (few : n < half_range) where
  drop-IsShort :
      (id : Bytes) (c : Chan)
      → IsShort n c
      → GoMap.has id c.conns ≡ true
      → IsShort n (drop_conn id c)
  drop-IsShort id c h old =
      let l = length-remove id c.conns in
      let e : length c.conns ≡ suc (length (remove id c.conns)) = ground (arith, l, old) in
      record {
        unique = remove-IsUnique id c.conns h.unique;
        short = h.short;
        short_le = h.short_le;
        counted =
            ap (λ z. add64 z (negsuc 0)) (h.counted ∙ ap (λ a. sub_ℕ a h.short) e)
            ∙ sub_down (length (remove id c.conns)) h.short (omega (arith, e, h.bounded))
                (omega (arith, few, h.short_le));
        bounded = omega (arith, e, h.bounded);
      }

  join-IsShort :
      (id : Bytes) (conn : Conn) (c : Chan)
      → IsShort n c
      → GoMap.has id c.conns ≡ false
      → suc (length c.conns) < half_range
      → IsShort n (record { conns = put id conn c.conns; num_subs = add64 c.num_subs (pos 1) })
  join-IsShort id conn c h fresh room =
      let l = length-put id conn c.conns in
      let e : length (put id conn c.conns) ≡ suc (length c.conns) = ground (arith, l, fresh) in
      record {
        unique = put-IsUnique id conn c.conns h.unique;
        short = h.short;
        short_le = h.short_le;
        counted =
            ap (λ z. add64 z (pos 1)) h.counted
            ∙ sub_up (length c.conns) h.short room (omega (arith, few, h.short_le))
            ∙ ap (λ a. sub_ℕ a h.short) (sym e);
        bounded = omega (arith, e, room);
      }

  new_chan-IsShort : IsShort n new_chan
  new_chan-IsShort = record {
    unique = tt;
    short = 0;
    short_le = omega arith;
    counted = refl;
    bounded = ground arith;
  }

  subscribed-Holds :
      (key id : Bytes) (conn : Conn) (m : ChanMap) (o : Option Chan)
      → Holds (IsShort n) m
      → lookup m key ≡ o
      → GoMap.has id (conns_found o) ≡ false
      → suc (length (conns_found o)) < half_range
      → (m' : ChanMap) × (subscribe_found key id conn m o ≡ ok m') × Holds (IsShort n) m'
  subscribed-Holds key id conn m none well e fresh room =
      let m1 : ChanMap = (set m key new_chan).0 in
      let well1 = set-Holds (IsShort n) m key new_chan well new_chan-IsShort in
      let c : Chan = record { conns = put id conn []; num_subs = add64 (pos 0) (pos 1) } in
      (
        (set m1 key c).0,
        rw e refl,
        set-Holds (IsShort n) m1 key c well1
            (join-IsShort id conn new_chan new_chan-IsShort fresh room),
      )
  subscribed-Holds key id conn m (some c) well e fresh room =
      let c' : Chan = record { conns = put id conn c.conns; num_subs = add64 c.num_subs (pos 1) } in
      (
        (set m key c').0,
        refl,
        set-Holds (IsShort n) m key c' well
            (join-IsShort id conn c (well.chans key c e) fresh room),
      )

  -- what a client that leaves does to the map, where the channel without it is short by `k` at most
  leave-Holds :
      (k : ℕ) (key id : Bytes) (m : ChanMap) (o : Option Chan)
      → Holds (IsShort k) m
      → ((c : Chan) → o ≡ some c → IsShort k (drop_conn id c))
      → Holds (IsShort k) (leave_found key id m o)
  leave-Holds k key id m none well h = well
  leave-Holds k key id m (some c) well h =
      elim (Bool-cases (eqb_ℤ (drop_conn id c).num_subs (pos 0))) [
        | inl last ↦ rw last (delete-Holds (IsShort k) m key well)
        | inr more ↦ rw more (set-Holds (IsShort k) m key (drop_conn id c) well (h c refl))
      ]

  sent-Holds :
      (accepts : Conn → Bytes → Bool) (key val : Bytes) (m : ChanMap) (o : Option Chan)
      → Holds (IsShort n) m
      → lookup m key ≡ o
      → Holds (IsShort n) (send_found accepts key val m o).0
  sent-Holds accepts key val m none well e = well
  sent-Holds accepts key val m (some c) well e =
      set-Holds (IsShort n) m key _ well
        (send_loop-taking accepts (IsShort n) (λ d h. h.unique) drop-IsShort (message key val) []
          c.conns c (well.chans key c e) refl).0

-- An identifier that is not there leaves the connections as they are.
remove-absent : (id : Bytes) (s : GoMap Conn) → GoMap.has id s ≡ false → remove id s ≡ s
unfolding remove GoMap.get
remove-absent id [] e = refl
remove-absent id ((j, w) ∷ s) e = ground (arith, remove-absent id s)

late-IsShort :
    (n : ℕ) (id : Bytes) (c : Chan)
    → suc n < half_range
    → IsShort n c
    → GoMap.has id c.conns ≡ false
    → IsShort (suc n) (drop_conn id c)
late-IsShort n id c few h gone =
    let same = remove-absent id c.conns gone in
    record {
      unique = remove-IsUnique id c.conns h.unique;
      short = suc h.short;
      short_le = omega (arith, h.short_le);
      counted =
          ap (λ z. add64 z (negsuc 0)) h.counted
          ∙ sub_step (length c.conns) h.short h.bounded (omega (arith, few, h.short_le))
          ∙ ap (λ s. sub_ℕ (length s) (suc h.short)) (sym same);
      bounded = subst (λ s. length s < half_range) (sym same) h.bounded;
    }

more-IsShort : (n : ℕ) (c : Chan) → IsShort n c → IsShort (suc n) c
more-IsShort n c h = record {
  unique = h.unique;
  short = h.short;
  short_le = omega (arith, h.short_le);
  counted = h.counted;
  bounded = h.bounded;
}

-- The maps that a server comes to by calls one after another, and how many of the calls were late: of
-- UnSubscribe with an identifier that Send had dropped. A subscription has a new identifier; which
-- connections take a message is any function, for each message another.
pub data Reachable (size : ℤ) : ℕ → ChanMap → Type 0 where
  started : Reachable size 0 (new_chan_map size)
  subscribed :
      {n : ℕ} (key id : Bytes) (conn : Conn) (m m' : ChanMap)
      → GoMap.has id (conns_of m key) ≡ false
      → suc (length (conns_of m key)) < half_range
      → subscribe key id conn m ≡ ok m'
      → Reachable size n m
      → Reachable size n m'
  left :
      {n : ℕ} (key id : Bytes) (m : ChanMap)
      → GoMap.has id (conns_of m key) ≡ true
      → Reachable size n m
      → Reachable size n (un_subscribe key id m)
  left_late :
      {n : ℕ} (key id : Bytes) (m : ChanMap)
      → GoMap.has id (conns_of m key) ≡ false
      → Reachable size n m
      → Reachable size (suc n) (un_subscribe key id m)
  published :
      {n : ℕ} (accepts : Conn → Bytes → Bool) (c key val : Bytes) (m : ChanMap)
      → Reachable size n m
      → Reachable size n (publish accepts (c ∷ key ∷ val ∷ []) m).0

none-some : {c : Chan} → none ≡ some c → ⊥
none-some e = absurd (ground (arith, e))

Holds-ok : (n : ℕ) (m m' : ChanMap) → ok m ≡ ok m' → Holds (IsShort n) m → Holds (IsShort n) m'
Holds-ok n m m' e = subst (Holds (IsShort n)) (ground (arith, e))

Holds-more : (n : ℕ) (m : ChanMap) → Holds (IsShort n) m → Holds (IsShort (suc n)) m
Holds-more n m h = record { valid = h.valid; chans = λ k c e. more-IsShort n c (h.chans k c e) }

-- In every state that a server comes to by subscriptions under new identifiers, messages, and
-- departures of clients, whether or not a message has dropped them, one call after another, with fewer
-- than 2^63 subscribers of a channel: the map is valid, no identifier is twice in a channel, and the
-- count of each channel is the number of its connections, less at most the number of the departures of
-- clients that were dropped, if that is below 2^63. So it is the number of its connections where there
-- were none of these.
pub Reachable-IsShort :
    (size : ℤ) (n : ℕ) (m : ChanMap) → n < half_range → Reachable size n m → Holds (IsShort n) m
unfolding subscribe un_subscribe send publish
Reachable-IsShort size _ _ few started = record {
  valid = (new_concurrent_map_lem size []).0;
  chans = λ k c e. let n = (new_concurrent_map_lem size k).1 in absurd (none-some (sym n ∙ e));
}
Reachable-IsShort size n _ few (subscribed key id conn m m' fresh room e r) =
    let (m2, e2, well) =
      subscribed-Holds n few key id conn m (lookup m key) (Reachable-IsShort size n m few r) refl
        fresh room in
    Holds-ok n m2 m' (sym e2 ∙ e) well
Reachable-IsShort size n _ few (left key id m old r) =
    let well = Reachable-IsShort size n m few r in
    leave-Holds n few n key id m (lookup m key) well (λ c e.
      drop-IsShort n few id c (well.chans key c e)
        (ap (λ o. GoMap.has id (conns_found o)) (sym e) ∙ old))
Reachable-IsShort size _ _ few (left_late {n = k} key id m gone r) =
    let well = Reachable-IsShort size k m (omega (arith, few)) r in
    leave-Holds k (omega (arith, few)) (suc k) key id m (lookup m key) (Holds-more k m well) (λ c e.
      late-IsShort k id c few (well.chans key c e)
        (ap (λ o. GoMap.has id (conns_found o)) (sym e) ∙ gone))
Reachable-IsShort size n _ few (published accepts c key val m r) =
    sent-Holds n few accepts key val m (lookup m key) (Reachable-IsShort size n m few r) refl
