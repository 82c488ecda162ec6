-- ===== src/Locks.antt =====
-- memdb/dblock.go: the table of locks that commands take by the hash of a key, and goroutines that take
-- the locks of several keys at once. Every lock is taken for writing; readers are not modelled.
pub mod Order
pub mod Ordered
pub mod Deadlock
pub mod Exclusion
use redis_go.Prelude.{
  ℕ, zero, suc, ◌%◌, ◌≡◌, Bool, true, false, ◌||◌, Option, none, some, List, [], ◌∷◌, Bytes, leb,
  ◌==◌, get_elem?, if◌then◌else◌,
}
use redis_go.Util.{hash_key}

-- The position of a key's lock. `size` is `len(l.locks)`, twice the number of shards; a table with no
-- lock would divide by zero.
unfoldable pub get_key_pos : ℕ → Bytes → ℕ
get_key_pos size key = hash_key key % size

abbrev pub member : ℕ → List ℕ → Bool
member p [] = false
member p (q ∷ qs) = if p == q then true else member p qs

-- the loop that fills the map `set`, whose keys are this list
pub pos_set : ℕ → List Bytes → List ℕ → List ℕ
pos_set size [] set = set
pos_set size (key ∷ keys) set =
    let pos = get_key_pos size key in pos_set size keys (if member pos set then set else pos ∷ set)

insert : ℕ → List ℕ → List ℕ
insert p [] = p ∷ []
insert p (q ∷ qs) = if leb p q then p ∷ q ∷ qs else q ∷ insert p qs

-- `sort.Ints`
sort_ints : List ℕ → List ℕ
sort_ints [] = []
sort_ints (p ∷ ps) = insert p (sort_ints ps)

pub sorted_lock_poses : ℕ → List Bytes → List ℕ
sorted_lock_poses size keys = sort_ints (pos_set size keys [])

-- A goroutine between `Lock` or `LockMulti` and its unlocking: the keys of the call, the positions that
-- it has locked, and those that its loop has yet to lock, in order. An idle one has none of these.
pub record Goroutine : Type 0 where
  pub keys : List Bytes
  pub held : List ℕ
  pub wanted : List ℕ

abbrev pub idle : Goroutine
idle = record { keys = []; held = []; wanted = [] }

-- the call of `LockMulti`
unfoldable pub lock_multi : ℕ → List Bytes → Goroutine
lock_multi size keys = record { keys = keys; held = []; wanted = sorted_lock_poses size keys }

-- the call of `Lock`, for one key; `UnLock` unlocks its position
unfoldable pub lock_key : ℕ → Bytes → Goroutine
lock_key size key = record { keys = key ∷ []; held = []; wanted = get_key_pos size key ∷ [] }

abbrev pub is_held : ℕ → List Goroutine → Bool
is_held p [] = false
is_held p (g ∷ gs) = if member p g.held then true else is_held p gs

abbrev pub set_goroutine : ℕ → Goroutine → List Goroutine → List Goroutine
set_goroutine i g [] = []
set_goroutine zero g (h ∷ gs) = g ∷ gs
set_goroutine (suc i) g (h ∷ gs) = h ∷ set_goroutine i g gs

-- What a goroutine can do: `l.locks[pos].Lock()` returns where no goroutine has the lock, and blocks
-- otherwise; behind its last lock the goroutine runs its command, and `UnLock` or `UnLockMulti` unlocks
-- all, here in one step.
pub data Step (s : List Goroutine) : List Goroutine → Type 0 where
  lock :
      (i p : ℕ) (ps : List ℕ) (g : Goroutine)
      → get_elem? s i ≡ some g
      → g.wanted ≡ p ∷ ps
      → is_held p s ≡ false
      → Step s (set_goroutine i (record g { held = p ∷ g.held; wanted = ps }) s)
  unlock :
      (i p : ℕ) (ps : List ℕ) (g : Goroutine)
      → get_elem? s i ≡ some g
      → g.wanted ≡ []
      → g.held ≡ p ∷ ps
      → Step s (set_goroutine i idle s)

abbrev pub all_idle : ℕ → List Goroutine
all_idle zero = []
all_idle (suc n) = idle ∷ all_idle n

-- the states that any number of goroutines reach, which call `Lock` and `LockMulti` over and over
pub data Reachable (size : ℕ) : List Goroutine → Type 0 where
  start : (n : ℕ) → Reachable size (all_idle n)
  call :
      {s : List Goroutine} (i : ℕ) (keys : List Bytes)
      → Reachable size s
      → get_elem? s i ≡ some idle
      → Reachable size (set_goroutine i (lock_multi size keys) s)
  call_key :
      {s : List Goroutine} (i : ℕ) (key : Bytes)
      → Reachable size s
      → get_elem? s i ≡ some idle
      → Reachable size (set_goroutine i (lock_key size key) s)
  step : {s s' : List Goroutine} → Reachable size s → Step s s' → Reachable size s'
