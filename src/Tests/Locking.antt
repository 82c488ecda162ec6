-- ===== src/Tests/Locking.antt =====
-- The locks of a table of four.
use redis_go.Prelude.{ℕ, ◌≡◌, ◌≢◌, false, refl, ap, List, [], ◌∷◌, arith}
use redis_go.Locks.{
  get_key_pos, member, Goroutine, idle, lock_multi, set_goroutine, all_idle, Step, Reachable, start,
  call, call_key, lock_key, lock, step,
}
use redis_go.Locks.Order.{sorted_lock_poses_lem}
use redis_go.Locks.Deadlock.{no_deadlock}
use redis_go.Locks.Exclusion.{exclusion}
use redis_go.GoMap.Laws.{contains}
use redis_go.Util.{hash_key}
use redis_go.Tests.Data.{key_a, key_b}

-- one of two goroutines locks the keys `a` and `b`
abbrev locking : Goroutine
locking = lock_multi 4 (key_a ∷ key_b ∷ [])

abbrev one_locks : List Goroutine
one_locks = set_goroutine 1 locking (all_idle 2)

one_locks-Reachable : Reachable 4 one_locks
one_locks-Reachable = call 1 (key_a ∷ key_b ∷ []) (start 2) refl

locking-busy : locking ≢ idle
unfolding lock_multi
locking-busy e =
    let p : ℕ = get_key_pos 4 key_a in
    let (a, b, c) = sorted_lock_poses_lem 4 (key_a ∷ key_b ∷ []) p (omega arith) in
    let none_left = ap (λ (g : Goroutine). member p g.wanted) e in ground arith

abbrev pos_a : ℕ
pos_a = get_key_pos 4 key_a

abbrev pos_b : ℕ
pos_b = get_key_pos 4 key_b

-- each of the goroutines has locked a key of its own
abbrev has_a : Goroutine
has_a = record { keys = key_a ∷ []; held = pos_a ∷ []; wanted = [] }

abbrev has_b : Goroutine
has_b = record { keys = key_b ∷ []; held = pos_b ∷ []; wanted = [] }

both_lock-Reachable : Reachable 4 (has_a ∷ has_b ∷ [])
unfolding lock_key get_key_pos hash_key
both_lock-Reachable =
    step
      (call_key 1 key_b
        (step (call_key 0 key_a (start 2) refl) (lock 0 pos_a [] (lock_key 4 key_a) refl refl refl))
        refl)
      (lock 1 pos_b [] (lock_key 4 key_b) refl refl refl)

exclusion_example : contains key_a has_b.keys ≡ false
exclusion_example =
    exclusion 4 0 1 has_a has_b key_a (has_a ∷ has_b ∷ []) (omega arith) both_lock-Reachable
      (λ e. absurd (omega arith)) refl refl refl refl refl

no_deadlock_example : (s' : List Goroutine) × Step one_locks s'
no_deadlock_example =
    no_deadlock 4 1 locking one_locks (omega arith) one_locks-Reachable refl locking-busy
