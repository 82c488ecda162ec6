-- ===== src/Util/Pattern/Stars.antt =====
-- `PattenMatch` returns or panics, and panics behind a star only.
use redis_go.Prelude.{
  ℕ, zero, suc, ◌+◌, ◌≤◌, ◌<◌, ◌≡◌, ◌≢◌, Bool, false, [], ◌∷◌, Bytes, length, leb, ◌&&◌, ◌||◌, ◌==◌,
  arith, All,
}
use native.Mathlib.Numerals.{add-one}
use redis_go.Prelude.Outcome.{Outcome, panic, stuck}
use redis_go.Util.Pattern.{
  skip_stars, star_loop, class_loop, Class, class_end, class_error, class_start, after, class_round,
  star_round, escape_round, match_round, match_start, match_loop, patten_match,
}

-- a loop that returns or panics on patterns of up to n bytes
abbrev Runs : ℕ → (Bytes → Bytes → Outcome Bool) → Type 0
Runs n loop = (p s : Bytes) → length p ≤ n → loop p s ≢ stuck

skip_stars-length : (p : Bytes) → length (skip_stars p) ≤ length p
unfolding skip_stars
skip_stars-length [] = omega arith
skip_stars-length (c ∷ p) = ground (arith, skip_stars-length p)

star_loop-Runs :
    (call : Bytes → Outcome Bool) (c : ℕ) (s : Bytes)
    → ((t : Bytes) → call t ≢ stuck)
    → star_loop call c s ≢ stuck
unfolding star_loop
star_loop-Runs call c [] h = λ e. cc
star_loop-Runs call c (x ∷ []) h = ground (arith, h [])
star_loop-Runs call c (x ∷ y ∷ s) h = ground (arith, h (y ∷ s), star_loop-Runs call c (y ∷ s) h)

module _ (n : ℕ) (loop : Bytes → Bytes → Outcome Bool) (runs : Runs n loop) where
  after-Runs : (p s : Bytes) → length p ≤ n → after loop p s ≢ stuck
  unfolding after
  after-Runs p [] h = λ e. cc
  after-Runs [] (x ∷ s) h = λ e. cc
  after-Runs (c ∷ p) (x ∷ s) h = runs (c ∷ p) (x ∷ s) h

  match_start-Runs : (p s : Bytes) → length p ≤ n → match_start loop p s ≢ stuck
  unfolding match_start
  match_start-Runs [] s h = λ e. cc
  match_start-Runs (c ∷ p) [] h = λ e. cc
  match_start-Runs (c ∷ p) (x ∷ s) h = runs (c ∷ p) (x ∷ s) h

-- the pattern behind a class is shorter
abbrev Within : ℕ → Class → Type 0
Within n (class_end found p) = length p ≤ n
Within n class_error = Unit

class_loop-Within : (b x : ℕ) (m : Bool) (p : Bytes) → Within (length p) (class_loop b x m p)
unfolding class_loop
class_loop-Within b x m [] = tt
class_loop-Within b x m (c ∷ []) = ground arith
class_loop-Within b x m (c ∷ d ∷ p) = ground (
  arith,
  class_loop-Within d x (m || (d == x)) p,
  class_loop-Within d x (m || (leb b x && leb x d)) p,
  class_loop-Within c x (m || (c == x)) (d ∷ p),
)

class_start-Within : (x : ℕ) (p : Bytes) → Within (length p) (class_start x p).0
unfolding class_start
class_start-Within x [] = tt
class_start-Within x (c ∷ p) =
    ground (arith, class_loop-Within b'^' x false p, class_loop-Within b'[' x false (c ∷ p))

Within-mono : {m n : ℕ} (c : Class) → m ≤ n → Within m c → Within n c
Within-mono (class_end found p) h k = omega arith
Within-mono class_error h k = tt

class_round-Runs :
    (n : ℕ) (loop : Bytes → Bytes → Outcome Bool) (s : Bytes) (r : Class × Bool)
    → Runs n loop
    → Within n r.0
    → class_round loop s r ≢ stuck
unfolding class_round
class_round-Runs n loop s (class_error, b) runs h = λ e. cc
class_round-Runs n loop s (class_end found p, b) runs h = ground (arith, after-Runs n loop runs p s)

star_round-Runs :
    (call : Bytes → Bytes → Outcome Bool) (p s : Bytes)
    → ((q t : Bytes) → length q < length p → call q t ≢ stuck)
    → star_round call p s ≢ stuck
unfolding star_round
star_round-Runs call [] s h = λ e. cc
star_round-Runs call (c ∷ p) s h = star_loop-Runs (call p) c s (λ t. h p t (omega arith))

escape_round-Runs :
    (n : ℕ) (loop : Bytes → Bytes → Outcome Bool) (p s : Bytes)
    → Runs n loop
    → length p ≤ n
    → escape_round loop p s ≢ stuck
unfolding escape_round
escape_round-Runs n loop [] s runs h = λ e. cc
escape_round-Runs n loop (c ∷ p) s runs h = after-Runs n loop runs p s (omega arith)

match_loop-Runs : (n : ℕ) → Runs n (match_loop (suc n))
unfolding match_loop match_round
match_loop-Runs n [] s h = λ e. cc
match_loop-Runs n (c ∷ p) [] h = λ e. cc
match_loop-Runs zero (c ∷ p) (x ∷ s) h = absurd (omega arith)
match_loop-Runs (suc n) (c ∷ p) (x ∷ s) h =
    let runs : Runs n (match_loop (suc n)) = match_loop-Runs n in
    ground (
      arith,
      star_round-Runs (match_start (match_loop (suc n))) (skip_stars p) (x ∷ s)
          λ q t k. match_start-Runs n _ runs q t (omega (arith, skip_stars-length p)),
      after-Runs n (match_loop (suc n)) runs p s,
      class_round-Runs n (match_loop (suc n)) s (class_start x p) runs
          (Within-mono _ (omega arith) (class_start-Within x p)),
      escape_round-Runs n (match_loop (suc n)) p (x ∷ s) runs,
    )

-- The matching always comes to an end: it returns a Boolean, or it panics.
pub patten_match-Runs : (pattern src : Bytes) → patten_match pattern src ≢ stuck
unfolding patten_match
patten_match-Runs pattern src = rw add-one (
    match_start-Runs (length pattern) _ (match_loop-Runs (length pattern)) pattern src
      (omega arith))

-- A source without the byte makes the loop of a star run past its end.
star_loop_panics :
    (call : Bytes → Outcome Bool) (c x : ℕ) (s : Bytes)
    → All (λ y. y ≢ c) (x ∷ s)
    → star_loop call c (x ∷ s) ≡ panic
unfolding star_loop
star_loop_panics call c x [] h = ground arith
star_loop_panics call c x (y ∷ s) h = ground (arith, star_loop_panics call c y s h.1)

-- A star and a byte behind it that a source does not hold: `KEYS *b` crashes at the key `a`, where
-- false is meant.
pub star_panics :
    (c : ℕ) (pattern : Bytes) (x : ℕ) (src : Bytes)
    → c ≢ b'*'
    → All (λ y. y ≢ c) (x ∷ src)
    → patten_match (b'*' ∷ c ∷ pattern) (x ∷ src) ≡ panic
unfolding patten_match match_loop match_start match_round star_round skip_stars
star_panics c pattern x src n h =
    ground
      (arith, star_loop_panics (match_start (match_loop (length pattern + 2)) pattern) c x src h)
