-- ===== src/PubSub/Sending.antt =====
-- What PUBLISH sends, to whom, and whom it drops.
use mathlib.Core.Path.{subst}
use redis_go.Prelude.{
  suc, ◌≡◌, refl, sym, ap, ◌∙◌, inl, inr, Bool, Bool-cases, true, Option, none, some, List, [], ◌∷◌,
  ◌++◌, Bytes, bytes_equal, bytes_equal_refl, bytes_equal_iff, length, append_assoc, if◌then◌else◌,
  arith,
}
use redis_go.Prelude.Int.{pos}
use redis_go.Resp.Structure.{RedisData, int_data}
use redis_go.GoMap
use redis_go.ConcurrentMap.{lookup}
use redis_go.GoMap.{GoMap, remove, is_some, IsUnique}
use redis_go.PubSub.{Conn, Chan, ChanMap, drop_conn, message, send_loop, send_found, send, publish}
use redis_go.PubSub.Laws.{IsCounted, IsWell, conns_of, conns_of-set, set-Holds, drop_conn-IsCounted}

has-append :
    (id : Bytes) (conn : Conn) (s t : GoMap Conn) → GoMap.has id (s ++ (id, conn) ∷ t) ≡ true
unfolding GoMap.get
has-append id conn [] t = rw (bytes_equal_refl id) refl
has-append id conn ((j, w) ∷ s) t = ground (arith, has-append id conn s t)

-- The entry at hand is the only one of its identifier.
remove-append :
    (id : Bytes) (conn : Conn) (s t : GoMap Conn)
    → IsUnique (s ++ (id, conn) ∷ t)
    → remove id (s ++ (id, conn) ∷ t) ≡ s ++ t
unfolding remove GoMap.get
remove-append id conn [] t u = rw (bytes_equal_refl id) refl
remove-append id conn ((j, w) ∷ s) t u =
    ground (arith, remove-append id conn s t u.1, has-append id conn s t, bytes_equal_iff j id, u)

module _ (accepts : Conn → Bytes → Bool) where
  -- the entries whose connections take the bytes
  unfoldable pub taking : Bytes → GoMap Conn → GoMap Conn
  taking bytes [] = []
  taking bytes ((id, conn) ∷ rest) =
      if accepts conn bytes then (id, conn) ∷ taking bytes rest else taking bytes rest

  abbrev pub conns_in : GoMap Conn → List Conn
  conns_in [] = []
  conns_in ((id, conn) ∷ rest) = conn ∷ conns_in rest

  -- what holds of a channel from one connection dropped to the next
  module _ (P : Chan → Type 0) (unique : (c : Chan) → P c → IsUnique c.conns)
      (drop : (id : Bytes) (c : Chan)
        → P c
        → GoMap.has id c.conns ≡ true
        → P (drop_conn id c)) where
    pub send_loop-taking :
        (bytes : Bytes) (s t : GoMap Conn) (c : Chan)
        → P c
        → c.conns ≡ s ++ t
        → P (send_loop accepts bytes t c).0
          × ((send_loop accepts bytes t c).0.conns ≡ s ++ taking bytes t)
          × ((send_loop accepts bytes t c).1 ≡ conns_in (taking bytes t))
    unfolding send_loop taking
    send_loop-taking bytes s [] c h e = (h, e, refl)
    send_loop-taking bytes s ((id, conn) ∷ t) c h e = elim (Bool-cases (accepts conn bytes)) [
      | inl taken ↦
          let (h', e', served) =
            send_loop-taking bytes (s ++ (id, conn) ∷ []) t c h
              (e ∙ sym (append_assoc s ((id, conn) ∷ []) t)) in
          rw taken (
            h',
            e' ∙ append_assoc s ((id, conn) ∷ []) (taking bytes t),
            ap (λ cs. conn ∷ cs) served,
          )
      | inr refused ↦
          let old : GoMap.has id c.conns ≡ true = ap (GoMap.has id) e ∙ has-append id conn s t in
          let rest : remove id c.conns ≡ s ++ t =
            ap (remove id) e ∙ remove-append id conn s t (subst IsUnique e (unique c h)) in
          let done = send_loop-taking bytes s t (drop_conn id c) (drop id c h old) rest in
          rw refused done
    ]

  -- what a message does to the connections of its key, the number that it replies among them
  abbrev pub Sends : Bytes → Bytes → ChanMap → ChanMap × List Conn × RedisData → Type 0
  Sends key val m (m', served, reply) =
      IsWell m'
      × ((j : Bytes)
          → conns_of m' j ≡ (
              if bytes_equal key j
              then taking (message key val) (conns_of m key)
              else conns_of m j))
      × (served ≡ conns_in (taking (message key val) (conns_of m key)))
      × (reply ≡ int_data (pos (length served)))

  length-conns_in : (s : GoMap Conn) → length (conns_in s) ≡ length s
  length-conns_in [] = refl
  length-conns_in (e ∷ s) = ap suc (length-conns_in s)

  send_found-Sends :
      (key val : Bytes) (m : ChanMap) (o : Option Chan)
      → IsWell m
      → lookup m key ≡ o
      → let r = send_found accepts key val m o in Sends key val m (r.0, r.1, int_data r.2)
  unfolding taking
  send_found-Sends key val m none well e = (
    well,
    λ j. elim (Bool-cases (bytes_equal key j)) [
      | inl same ↦
          let f = ap (conns_of m) ((bytes_equal_iff key j).0 same) in ground (arith, e, f, same)
      | inr other ↦ rw other refl
    ],
    rw e refl,
    refl,
  )
  send_found-Sends key val m (some c) well e =
      let bytes = message key val in
      let r : Chan × List Conn = send_loop accepts bytes c.conns c in
      let (h, conns, served) =
        send_loop-taking IsCounted (λ c h. h.unique) drop_conn-IsCounted bytes [] c.conns c
          (well.chans key c e) refl in
      (
        set-Holds IsCounted m key r.0 well h,
        λ j. rw e (
            conns_of-set m key j r.0 well
            ∙ ap (λ s. if bytes_equal key j then s else conns_of m j) conns),
        rw e served,
        ap int_data (
            h.counted
            ∙ ap pos (ap length conns ∙ sym (length-conns_in _) ∙ sym (ap length served))),
      )

  -- PUBLISH, on a map whose channels count their connections right, which stays so: the connections of
  -- the key that take the message get it, the reply is their number, and the others are dropped; no
  -- other key's connections change.
  pub publish-Sends :
      (c key val : Bytes) (m : ChanMap)
      → IsWell m
      → Sends key val m (publish accepts (c ∷ key ∷ val ∷ []) m)
  unfolding send publish
  publish-Sends c key val m well = send_found-Sends key val m (lookup m key) well refl
