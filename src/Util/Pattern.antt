-- ===== src/Util/Pattern.antt =====
-- `PattenMatch` of util/util.go. A position in a string is the suffix behind it.
pub mod Stars
pub mod Glob
pub mod Prefix
use redis_go.Prelude.{
  ℕ, zero, suc, ◌+◌, Bool, true, false, not, ◌&&◌, ◌||◌, List, [], ◌∷◌, Bytes, length, leb, ◌==◌,
  if◌then◌else◌,
}
use redis_go.Prelude.Outcome.{Outcome, ok, panic, stuck, ◌>>=◌}

abbrev is_nil : Bytes → Bool
is_nil [] = true
is_nil (c ∷ s) = false

-- `for patPos < patLen && pattern[patPos] == '*' { patPos++ }`
unfoldable pub skip_stars : Bytes → Bytes
skip_stars [] = []
skip_stars (c ∷ p) = if c == b'*' then skip_stars p else c ∷ p

-- `src == ""`: nothing but stars may be left
pub all_stars : Bytes → Bool
all_stars [] = true
all_stars (c ∷ p) = (c == b'*') && all_stars p

-- The loop of `case '*'` over the source, with the byte behind the stars and the recursive call on the
-- pattern behind that byte. Where no more such byte is found, `src[srcPos+1:]` is out of range.
pub star_loop : (Bytes → Outcome Bool) → ℕ → Bytes → Outcome Bool
star_loop call c [] = ok false
star_loop call c (x ∷ []) = if x == c then call [] else panic
star_loop call c (x ∷ y ∷ s) =
    let rest = star_loop call c (y ∷ s) in
    if x == c then (do b ← call (y ∷ s); if b then ok true else rest) else rest

-- What `case '['` ends with: the pattern behind the `]`, or the code returns false.
data Class : Type 0 where
  class_end : Bool → Bytes → Class
  class_error : Class

-- The loop of `case '['` over the pattern, with the byte before the position, `src[srcPos]` and `match`.
class_loop : ℕ → ℕ → Bool → Bytes → Class
class_loop before x found [] = class_error
class_loop before x found (c ∷ []) = if c == b']' then class_end found [] else class_error
class_loop before x found (c ∷ d ∷ p) =
    let escaped = class_loop d x (found || (d == x)) p in
    let range = class_loop d x (found || (leb before x && leb x d)) p in
    let plain = class_loop c x (found || (c == x)) (d ∷ p) in
    if c == b'\\'
    then escaped
    else if c == b']'
    then class_end found (d ∷ p)
    else if c == b'-'
    then (if d == b']' then class_error else range)
    else plain

-- `not` and the first byte behind it
class_start : ℕ → Bytes → Class × Bool
class_start x [] = (class_error, false)
class_start x (c ∷ p) =
    if c == b'^'
    then (class_loop b'^' x false p, true)
    else (class_loop b'[' x false (c ∷ p), false)

-- The rest of a round: the pattern and the source behind what was matched.
after : (Bytes → Bytes → Outcome Bool) → Bytes → Bytes → Outcome Bool
after loop p [] = ok (is_nil (skip_stars p))
after loop [] (x ∷ s) = ok false
after loop (c ∷ p) (x ∷ s) = loop (c ∷ p) (x ∷ s)

class_round : (Bytes → Bytes → Outcome Bool) → Bytes → Class × Bool → Outcome Bool
class_round loop s (class_error, negated) = ok false
class_round loop s (class_end found p, negated) =
    if (if negated then not found else found) then after loop p s else ok false

star_round : (Bytes → Bytes → Outcome Bool) → Bytes → Bytes → Outcome Bool
star_round call [] s = ok true
star_round call (c ∷ p) s = star_loop (call p) c s

-- `case '\\'`: the escaped byte is passed over, and `default` is another case: Go's `switch` does not
-- fall through, so no byte of the source is compared or passed over.
escape_round : (Bytes → Bytes → Outcome Bool) → Bytes → Bytes → Outcome Bool
escape_round loop [] s = ok false
escape_round loop (c ∷ p) s = after loop p s

-- One round of the outer loop, at a byte of the pattern and a byte of the source.
pub match_round :
    (Bytes → Bytes → Outcome Bool)
    → (Bytes → Bytes → Outcome Bool)
    → ℕ
    → Bytes
    → ℕ
    → Bytes
    → Outcome Bool
match_round call loop c p x s =
    if c == b'*'
    then star_round call (skip_stars p) (x ∷ s)
    else if c == b'?'
    then after loop p s
    else if c == b'['
    then class_round loop s (class_start x p)
    else if c == b'\\'
    then escape_round loop p (x ∷ s)
    else if c == x
    then after loop p s
    else ok false

-- the tests before the loop
pub match_start : (Bytes → Bytes → Outcome Bool) → Bytes → Bytes → Outcome Bool
match_start loop [] s = ok (is_nil s)
match_start loop (c ∷ p) [] = ok (all_stars (c ∷ p))
match_start loop (c ∷ p) (x ∷ s) = loop (c ∷ p) (x ∷ s)

-- The outer loop. The fuel bounds the pattern's length: every round and every recursive call takes a
-- byte of the pattern at least.
pub match_loop : ℕ → Bytes → Bytes → Outcome Bool
match_loop zero p s = stuck
match_loop (suc f) [] s = ok (is_nil s)
match_loop (suc f) (c ∷ p) [] = panic
match_loop (suc f) (c ∷ p) (x ∷ s) = match_round (match_start (match_loop f)) (match_loop f) c p x s

pub patten_match : Bytes → Bytes → Outcome Bool
patten_match pattern src = match_start (match_loop (length pattern + 1)) pattern src
