-- ===== src/Locks/Exclusion.antt =====
-- Commands that have locked a common key do not run together.
use redis_go.Prelude.{
  ℕ, zero, suc, ◌<◌, ◌≤◌, ◌≡◌, ◌≢◌, refl, ap, true, none, some, List, [], ◌∷◌, Bytes,
  bytes_equal_iff, false, inl, inr, Bool-cases, arith, get_elem?,
}
use redis_go.GoMap.Laws.{contains}
use redis_go.Locks.{get_key_pos, member, Goroutine, Reachable}
use redis_go.Locks.Order.{has_pos}
use redis_go.Locks.Ordered.{IsOrdered, All-get_elem?, Reachable-IsOrdered}
use redis_go.Locks.Deadlock.{holders, one_holder}

one-holds :
    (p i : ℕ) (g : Goroutine) (s : List Goroutine)
    → get_elem? s i ≡ some g
    → member p g.held ≡ true
    → 1 ≤ holders p s
one-holds p i g [] e m = ground arith
one-holds p zero g (k ∷ s) e m =
    let same : k ≡ g = ap (λ o. elim o [ none ↦ k | some x ↦ x ]) e in rw (same, m) (omega arith)
one-holds p (suc i) g (k ∷ s) e m = omega (arith, one-holds p i g s e m)

two-hold :
    (p i j : ℕ) (g h : Goroutine) (s : List Goroutine)
    → i ≢ j
    → get_elem? s i ≡ some g
    → get_elem? s j ≡ some h
    → member p g.held ≡ true
    → member p h.held ≡ true
    → 2 ≤ holders p s
two-hold p i j g h [] n a b m l = ground arith
two-hold p zero zero g h (k ∷ s) n a b m l = absurd (n refl)
two-hold p zero (suc j) g h (k ∷ s) n a b m l =
    let same : k ≡ g = ap (λ o. elim o [ none ↦ k | some x ↦ x ]) a in
    let one = one-holds p j h s b l in rw (same, m) (omega (arith, one))
two-hold p (suc i) zero g h (k ∷ s) n a b m l =
    let same : k ≡ h = ap (λ o. elim o [ none ↦ k | some x ↦ x ]) b in
    let one = one-holds p i g s a m in rw (same, l) (omega (arith, one))
two-hold p (suc i) (suc j) g h (k ∷ s) n a b m l =
    omega (arith, two-hold p i j g h s (λ e. n (ap suc e)) a b m l)

has_pos-contains :
    (size : ℕ) (key : Bytes) (keys : List Bytes)
    → contains key keys ≡ true
    → has_pos size (get_key_pos size key) keys ≡ true
has_pos-contains size key [] c = ground arith
has_pos-contains size key (k ∷ keys) c = ground (
  arith,
  has_pos-contains size key keys,
  bytes_equal_iff k key,
  λ (e : k ≡ key). ap (get_key_pos size) e,
)

-- What a goroutine that has locked all its positions holds.
holds-key :
    (size : ℕ) (key : Bytes) (g : Goroutine)
    → IsOrdered size g
    → g.wanted ≡ []
    → contains key g.keys ≡ true
    → member (get_key_pos size key) g.held ≡ true
holds-key size key g h done c =
    let p : ℕ = get_key_pos size key in
    let covers = h.covers p in
    let pos = has_pos-contains size key g.keys c in
    let wanted : member p g.wanted ≡ false = ap (member p) done in ground arith

-- On a table with a lock at least, in every state that goroutines reach by `Lock` and `LockMulti`: of
-- two goroutines whose calls have returned and which have not unlocked, no key is among the keys of
-- both. So commands on a common key exclude each other, whatever their other keys are.
pub exclusion :
    (size i j : ℕ) (g h : Goroutine) (key : Bytes) (s : List Goroutine)
    → 0 < size
    → Reachable size s
    → i ≢ j
    → get_elem? s i ≡ some g
    → get_elem? s j ≡ some h
    → g.wanted ≡ []
    → h.wanted ≡ []
    → contains key g.keys ≡ true
    → contains key h.keys ≡ false
exclusion size i j g h key s z r n a b done_g done_h in_g =
    elim (Bool-cases (contains key h.keys)) [
      | inr out ↦ out
      | inl in_h ↦
          let p : ℕ = get_key_pos size key in
          let all = Reachable-IsOrdered size z r in
          let hold_g =
            holds-key size key g (All-get_elem? (IsOrdered size) i g s all a) done_g in_g in
          let hold_h =
            holds-key size key h (All-get_elem? (IsOrdered size) j h s all b) done_h in_h in
          let two = two-hold p i j g h s n a b hold_g hold_h in
          let one = one_holder size p s r in absurd (omega arith)
    ]
