-- ===== src/Locks/Deadlock.antt =====
-- Goroutines that take locks by `Lock` and `LockMulti` do not block each other for ever.
use redis_go.Prelude.{
  ℕ, zero, suc, ◌+◌, ◌<◌, ◌≤◌, ◌≡◌, ◌≢◌, refl, ap, sym, ◌∙◌, Bytes, true, false, inl, inr,
  Bool-cases, none, some, List, [], ◌∷◌, arith, All, get_elem?,
}
use mathlib.Core.Path.{subst}
use redis_go.GoMap.Laws.{bit}
use redis_go.Locks.{
  member, get_key_pos, Goroutine, idle, lock_multi, is_held, set_goroutine, Step, lock, unlock,
  all_idle, Reachable, start, call, call_key, lock_key, step,
}
use redis_go.Locks.Order.{has_pos}
use redis_go.Locks.Ordered.{IsOrdered, All-get_elem?, Reachable-IsOrdered}

-- how many goroutines hold a position
abbrev pub holders : ℕ → List Goroutine → ℕ
holders p [] = 0
holders p (g ∷ gs) = bit (member p g.held) + holders p gs

holders-set_goroutine :
    (p i : ℕ) (g h : Goroutine) (s : List Goroutine)
    → get_elem? s i ≡ some g
    → holders p (set_goroutine i h s) + bit (member p g.held) ≡ holders p s + bit (member p h.held)
holders-set_goroutine p i g h [] e = ground arith
holders-set_goroutine p zero g h (k ∷ s) e =
    let same : k ≡ g = ap (λ o. elim o [ none ↦ k | some x ↦ x ]) e in rw same (omega arith)
holders-set_goroutine p (suc i) g h (k ∷ s) e = omega (arith, holders-set_goroutine p i g h s e)

holders-free : (p : ℕ) (s : List Goroutine) → is_held p s ≡ false → holders p s ≡ 0
holders-free p [] e = refl
holders-free p (g ∷ s) e = ground (arith, holders-free p s)

holders-all_idle : (p n : ℕ) → holders p (all_idle n) ≡ 0
holders-all_idle p zero = refl
holders-all_idle p (suc n) = omega (arith, holders-all_idle p n)

Step-holders : (q : ℕ) {s s' : List Goroutine} → Step s s' → holders q s ≤ 1 → holders q s' ≤ 1
Step-holders q {s} (lock i p ps g e w n) h =
    let c = holders-set_goroutine q i g (record g { held = p ∷ g.held; wanted = ps }) s e in
    ground (arith, holders-free q s)
Step-holders q {s} (unlock i p ps g e w n) h =
    let c = holders-set_goroutine q i g idle s e in omega arith

pub one_holder : (size p : ℕ) (s : List Goroutine) → Reachable size s → holders p s ≤ 1
unfolding lock_multi lock_key
one_holder size p s (start n) = omega (arith, holders-all_idle p n)
one_holder size p s (call {s = s0} i keys r e) =
    omega
      (arith, one_holder size p s0 r, holders-set_goroutine p i idle (lock_multi size keys) s0 e)
one_holder size p s (call_key {s = s0} i key r e) =
    omega (arith, one_holder size p s0 r, holders-set_goroutine p i idle (lock_key size key) s0 e)
one_holder size p s (step {s = s0} r t) = Step-holders p t (one_holder size p s0 r)

-- some goroutine has the lock
find_holder :
    (p : ℕ) (s : List Goroutine)
    → is_held p s ≡ true
    → (i : ℕ) × (g : Goroutine) × (get_elem? s i ≡ some g) × (member p g.held ≡ true)
find_holder p [] e = ground arith
find_holder p (g ∷ s) e = elim (Bool-cases (member p g.held)) [
  | inl here ↦ (0, g, refl, here)
  | inr away ↦ let (i, h, at, has) = find_holder p s (ground arith) in (suc i, h, at, has)
]

above_member :
    (p q : ℕ) (qs hs : List ℕ)
    → member p hs ≡ true
    → All (λ h. All (λ w. h < w) (q ∷ qs)) hs
    → p < q
above_member p q qs [] m all = ground arith
above_member p q qs (h ∷ hs) m ((x, xs), rest) = ground (arith, above_member p q qs hs)

find_holder-above :
    {size : ℕ} (p q : ℕ) (qs : List ℕ) (g : Goroutine)
    → IsOrdered size g
    → member p g.held ≡ true
    → g.wanted ≡ q ∷ qs
    → p < q
find_holder-above p q qs g h m e =
    above_member p q qs g.held m (subst (λ ws. All (λ h. All (λ w. h < w) ws) g.held) e h.above)

nonempty : (p : ℕ) (hs : List ℕ) → member p hs ≡ true → (x : ℕ) × (xs : List ℕ) × (hs ≡ x ∷ xs)
nonempty p [] m = ground arith
nonempty p (x ∷ xs) m = (x, xs, refl)

-- the holder of a lock goes on, or waits for a higher one
holder-progress :
    (p : ℕ) (s : List Goroutine) (j : ℕ) (k : Goroutine)
    → get_elem? s j ≡ some k
    → member p k.held ≡ true
    → ((q : ℕ) (qs : List ℕ) → k.wanted ≡ q ∷ qs → (s' : List Goroutine) × Step s s')
    → (ws : List ℕ) → k.wanted ≡ ws
    → (s' : List Goroutine) × Step s s'
holder-progress p s j k at has higher [] e =
    let (x, xs, full) = nonempty p k.held has in (set_goroutine j idle s, unlock j x xs k at e full)
holder-progress p s j k at has higher (q ∷ qs) e = higher q qs e

wanted-lt :
    (size p : ℕ) (ps : List ℕ) (g : Goroutine) → IsOrdered size g → g.wanted ≡ p ∷ ps → p < size
wanted-lt size p ps g h e = (subst (All (λ w. w < size)) e h.inside).0

-- Where a goroutine waits for a lock, some goroutine can go on: the lock is free, or its holder
-- waits for a higher one, or for none.
waiting-progress :
    (size n p : ℕ) (ps : List ℕ) (i : ℕ) (g : Goroutine) (s : List Goroutine)
    → All (IsOrdered size) s
    → get_elem? s i ≡ some g
    → g.wanted ≡ p ∷ ps
    → size ≤ p + n
    → (s' : List Goroutine) × Step s s'
waiting-progress size zero p ps i g s h e w b =
    let lt = wanted-lt size p ps g (All-get_elem? (IsOrdered size) i g s h e) w in
    absurd (omega arith)
waiting-progress size (suc n) p ps i g s h e w b = elim (Bool-cases (is_held p s)) [
  | inr free ↦
      (set_goroutine i (record g { held = p ∷ g.held; wanted = ps }) s, lock i p ps g e w free)
  | inl taken ↦
      let (j, k, at, has) = find_holder p s taken in
      let ordered = All-get_elem? (IsOrdered size) j k s h at in
      holder-progress p s j k at has
        (λ q qs f.
          let lt = find_holder-above p q qs k ordered has f in
          waiting-progress size n q qs j k s h at f (omega arith))
        k.wanted refl
]

idle-eq : (g : Goroutine) → g.keys ≡ [] → g.held ≡ [] → g.wanted ≡ [] → g ≡ idle
idle-eq g k a b i = record { keys = k i; held = a i; wanted = b i }

-- A goroutine with no position has no key.
no_keys : (size : ℕ) (keys : List Bytes) → ((p : ℕ) → has_pos size p keys ≡ false) → keys ≡ []
no_keys size [] h = refl
no_keys size (key ∷ keys) h = let e = h (get_key_pos size key) in absurd (ground (arith, e))

-- No deadlock, on a table with a lock at least: in every state that goroutines reach, where one of them
-- has a lock or waits for one, some goroutine can take its next lock or unlock.
pub no_deadlock :
    (size i : ℕ) (g : Goroutine) (s : List Goroutine)
    → 0 < size
    → Reachable size s
    → get_elem? s i ≡ some g
    → g ≢ idle
    → (s' : List Goroutine) × Step s s'
no_deadlock size i g s z r e busy = goes_on g.held g.wanted refl refl
  where
    ordered : All (IsOrdered size) s
    ordered = Reachable-IsOrdered size z r

    goes_on : (hs ws : List ℕ) → g.held ≡ hs → g.wanted ≡ ws → (s' : List Goroutine) × Step s s'
    goes_on hs (p ∷ ps) a b = waiting-progress size size p ps i g s ordered e b (omega arith)
    goes_on (h ∷ hs) [] a b = (set_goroutine i idle s, unlock i h hs g e b a)
    goes_on [] [] a b =
        let h : IsOrdered size g = All-get_elem? (IsOrdered size) i g s ordered e in
        let keys = no_keys size g.keys (λ p. sym (h.covers p) ∙ rw (a, b) refl) in
        absurd (busy (idle-eq g keys a b))
