-- ===== src/Locks/Ordered.antt =====
-- What holds of every goroutine: it locks its positions in ascending order.
use redis_go.Prelude.{
  ℕ, zero, suc, ◌+◌, ◌<◌, ◌≡◌, refl, ◌∙◌, true, not, ◌||◌, some, List, [], ◌∷◌, Bytes, leb, arith,
  All, get_elem?,
}
use mathlib.Core.Path.{subst}
use redis_go.Locks.{
  member, sorted_lock_poses, Goroutine, idle, lock_multi, set_goroutine, Step, lock, unlock,
  all_idle, Reachable, start, call, call_key, lock_key, get_key_pos, step,
}
use redis_go.Locks.Order.{IsAscending, has_pos, sorted_lock_poses_lem}

-- The wanted positions ascend, lie above those held, and are positions of the table; those held and wanted
-- are the positions of the keys.
pub record IsOrdered (size : ℕ) (g : Goroutine) : Type 0 where
  pub ascending : IsAscending g.wanted
  pub above : All (λ h. All (λ w. h < w) g.wanted) g.held
  pub inside : All (λ w. w < size) g.wanted
  pub covers : (p : ℕ) → (member p g.held || member p g.wanted) ≡ has_pos size p g.keys

pub All-get_elem? :
    (P : Goroutine → Type 0) (i : ℕ) (g : Goroutine) (s : List Goroutine)
    → All P s
    → get_elem? s i ≡ some g
    → P g
All-get_elem? P i g [] all e = ground arith
All-get_elem? P zero g (h ∷ s) (x, xs) e = ground arith
All-get_elem? P (suc i) g (h ∷ s) (x, xs) e = All-get_elem? P i g s xs e

All-set_goroutine :
    (P : Goroutine → Type 0) (i : ℕ) (g : Goroutine) (s : List Goroutine)
    → All P s
    → P g
    → All P (set_goroutine i g s)
All-set_goroutine P i g [] all h = tt
All-set_goroutine P zero g (k ∷ s) (x, xs) h = (h, xs)
All-set_goroutine P (suc i) g (k ∷ s) (x, xs) h = (x, All-set_goroutine P i g s xs h)

All-tail :
    (p : ℕ) (ps hs : List ℕ)
    → All (λ h. All (λ w. h < w) (p ∷ ps)) hs
    → All (λ h. All (λ w. h < w) ps) hs
All-tail p ps [] all = tt
All-tail p ps (h ∷ hs) ((x, xs), rest) = (xs, All-tail p ps hs rest)

All-member :
    (size : ℕ) (ps : List ℕ)
    → ((p : ℕ) → (not (member p ps) || leb (p + 1) size) ≡ true)
    → All (λ w. w < size) ps
All-member size [] h = tt
All-member size (p ∷ ps) h = (ground (arith, h p), All-member size ps (λ q. ground (arith, h q)))

lock_multi-IsOrdered :
    (size : ℕ) (keys : List Bytes) → 0 < size → IsOrdered size (lock_multi size keys)
unfolding lock_multi
lock_multi-IsOrdered size keys h = record {
  ascending = (sorted_lock_poses_lem size keys 0 h).0;
  above = tt;
  inside =
      All-member size (sorted_lock_poses size keys)
        (λ p. let (a, b, c) = sorted_lock_poses_lem size keys p h in c);
  covers = λ p. let (a, b, c) = sorted_lock_poses_lem size keys p h in b;
}

lock_key-IsOrdered : (size : ℕ) (key : Bytes) → 0 < size → IsOrdered size (lock_key size key)
unfolding lock_key get_key_pos
lock_key-IsOrdered size key h = record {
  ascending = (tt, tt);
  above = tt;
  inside = (omega arith, tt);
  covers = λ p. refl;
}

locked_covers :
    (p q : ℕ) (ps held wanted : List ℕ)
    → wanted ≡ p ∷ ps
    → (member q (p ∷ held) || member q ps) ≡ (member q held || member q wanted)
locked_covers p q ps held wanted e = rw e (ground arith)

locked-IsOrdered :
    (size p : ℕ) (ps : List ℕ) (g : Goroutine)
    → IsOrdered size g
    → g.wanted ≡ p ∷ ps
    → IsOrdered size (record g { held = p ∷ g.held; wanted = ps })
locked-IsOrdered size p ps g h e =
    let (a, rest) : IsAscending (p ∷ ps) = subst IsAscending e h.ascending in
    let (b, inside) : All (λ w. w < size) (p ∷ ps) = subst (All (λ w. w < size)) e h.inside in
    record {
      ascending = rest;
      above =
          (a, All-tail p ps g.held (subst (λ ws. All (λ h. All (λ w. h < w) ws) g.held) e h.above));
      inside = inside;
      covers = λ q. locked_covers p q ps g.held g.wanted e ∙ h.covers q;
    }

idle-IsOrdered : (size : ℕ) → IsOrdered size idle
idle-IsOrdered size = record { ascending = tt; above = tt; inside = tt; covers = λ p. refl }

all_idle-IsOrdered : (size n : ℕ) → All (IsOrdered size) (all_idle n)
all_idle-IsOrdered size zero = tt
all_idle-IsOrdered size (suc n) = (idle-IsOrdered size, all_idle-IsOrdered size n)

Step-IsOrdered :
    (size : ℕ) {s s' : List Goroutine}
    → All (IsOrdered size) s
    → Step s s'
    → All (IsOrdered size) s'
Step-IsOrdered size h (lock i p ps g e w n) =
    All-set_goroutine (IsOrdered size) i _ _ h
      (locked-IsOrdered size p ps g (All-get_elem? (IsOrdered size) i g _ h e) w)
Step-IsOrdered size h (unlock i p ps g e w n) =
    All-set_goroutine (IsOrdered size) i _ _ h (idle-IsOrdered size)

pub Reachable-IsOrdered :
    (size : ℕ) → 0 < size → {s : List Goroutine} → Reachable size s → All (IsOrdered size) s
Reachable-IsOrdered size z (start n) = all_idle-IsOrdered size n
Reachable-IsOrdered size z (call i keys r e) =
    All-set_goroutine (IsOrdered size) i _ _ (Reachable-IsOrdered size z r)
      (lock_multi-IsOrdered size keys z)
Reachable-IsOrdered size z (call_key i key r e) =
    All-set_goroutine (IsOrdered size) i _ _ (Reachable-IsOrdered size z r)
      (lock_key-IsOrdered size key z)
Reachable-IsOrdered size z (step r t) = Step-IsOrdered size (Reachable-IsOrdered size z r) t
