-- ===== src/Util/Pattern/Glob.antt =====
-- What `PattenMatch` answers, where it answers, on patterns of literal bytes, `?` and `*`.
use redis_go.Prelude.{
  ℕ, zero, suc, ◌+◌, ◌≡◌, ◌≢◌, refl, sym, ◌∙◌, Bool, true, false, not, ◌&&◌, ◌||◌, [], ◌∷◌, Bytes,
  length, ◌==◌, arith, inl, inr, Bool-cases, if◌then◌else◌,
}
use mathlib.Core.Path.{fun_ext}
use redis_go.Prelude.Outcome.{Outcome, ok}
use redis_go.Util.Pattern.{
  skip_stars, all_stars, is_nil, star_loop, after, star_round, match_round, match_start, match_loop,
  patten_match,
}

-- some suffix of the text satisfies the test
abbrev pub some_suffix : (Bytes → Bool) → Bytes → Bool
some_suffix f [] = f []
some_suffix f (x ∷ s) = f (x ∷ s) || some_suffix f s

-- a pattern's byte that is no star, at the head of the text
abbrev pub glob_byte : ℕ → (Bytes → Bool) → Bytes → Bool
glob_byte c f [] = false
glob_byte c f (x ∷ s) = ((c == b'?') || (c == x)) && f s

-- The meaning of a glob pattern: `?` is any byte, `*` any bytes, and every other byte itself.
abbrev pub glob : Bytes → Bytes → Bool
glob [] s = is_nil s
glob (c ∷ p) s = if c == b'*' then some_suffix (glob p) s else glob_byte c (glob p) s

abbrev pub any_first : Bytes → Bool
any_first [] = false
any_first (c ∷ p) = c == b'?'

-- no class, no escape, and no `?` right behind a star
abbrev pub is_simple : Bytes → Bool
is_simple [] = true
is_simple (c ∷ p) =
    not (c == b'[') && not (c == b'\\') && not ((c == b'*') && any_first p) && is_simple p

abbrev star_first : Bytes → Bool
star_first [] = false
star_first (c ∷ p) = c == b'*'

-- the result, if there is one, is this
abbrev Answers : Bool → Outcome Bool → Type 0
Answers b (ok r) = r ≡ b
Answers b _ = Unit

some_suffix_idem : (f : Bytes → Bool) (s : Bytes) → some_suffix (some_suffix f) s ≡ some_suffix f s
some_suffix_idem f [] = refl
some_suffix_idem f (x ∷ s) = ground (arith, some_suffix_idem f s)

glob-star : (c : ℕ) (p : Bytes) → (c == b'*') ≡ true → glob (c ∷ p) ≡ some_suffix (glob p)
glob-star c p h = fun_ext λ s. rw h

-- stars in a row are one
glob-skip_stars : (p s : Bytes) → some_suffix (glob (skip_stars p)) s ≡ some_suffix (glob p) s
unfolding skip_stars
glob-skip_stars [] s = refl
glob-skip_stars (c ∷ p) s = elim (Bool-cases (c == b'*')) [
  | inl star ↦
      rw (star, glob-star c p star) (glob-skip_stars p s ∙ sym (some_suffix_idem (glob p) s))
  | inr other ↦ rw other
]

skip_stars-simple : (p : Bytes) → is_simple p ≡ true → is_simple (skip_stars p) ≡ true
unfolding skip_stars
skip_stars-simple [] h = refl
skip_stars-simple (c ∷ p) h = ground (arith, skip_stars-simple p)

pub all_stars-glob : (p : Bytes) → all_stars p ≡ glob p []
unfolding all_stars
all_stars-glob [] = refl
all_stars-glob (c ∷ p) = ground (arith, all_stars-glob p)

is_nil-skip_stars : (p : Bytes) → is_nil (skip_stars p) ≡ glob p []
unfolding skip_stars
is_nil-skip_stars [] = refl
is_nil-skip_stars (c ∷ p) = ground (arith, is_nil-skip_stars p)

module _ (call : Bytes → Outcome Bool) (c : ℕ) (p : Bytes) (literal : c ≢ b'?')
    (answers : (t : Bytes) → Answers (glob p t) (call t)) where
  star_loop-Answers :
      (s : Bytes) → Answers (some_suffix (glob_byte c (glob p)) s) (star_loop call c s)
  unfolding star_loop
  star_loop-Answers [] = refl
  star_loop-Answers (x ∷ []) = ground (arith, answers [])
  star_loop-Answers (x ∷ y ∷ s) = ground (arith, answers (y ∷ s), star_loop-Answers (y ∷ s))

-- a loop that answers right on simple patterns
abbrev IsRight : (Bytes → Bytes → Outcome Bool) → Type 0
IsRight loop =
    (c : ℕ) (p : Bytes) (x : ℕ) (s : Bytes)
    → is_simple (c ∷ p) ≡ true
    → Answers (glob (c ∷ p) (x ∷ s)) (loop (c ∷ p) (x ∷ s))

module _ (loop : Bytes → Bytes → Outcome Bool) (right : IsRight loop) where
  after-Answers : (p s : Bytes) → is_simple p ≡ true → Answers (glob p s) (after loop p s)
  unfolding after
  after-Answers p [] h = is_nil-skip_stars p
  after-Answers [] (x ∷ s) h = refl
  after-Answers (c ∷ p) (x ∷ s) h = right c p x s h

  match_start-Answers :
      (p s : Bytes) → is_simple p ≡ true → Answers (glob p s) (match_start loop p s)
  unfolding match_start
  match_start-Answers [] s h = refl
  match_start-Answers (c ∷ p) [] h = all_stars-glob (c ∷ p)
  match_start-Answers (c ∷ p) (x ∷ s) h = right c p x s h

glob-literal : (c : ℕ) (p : Bytes) → (c == b'*') ≡ false → glob (c ∷ p) ≡ glob_byte c (glob p)
glob-literal c p h = fun_ext λ s. rw h

any_suffix : (s : Bytes) → some_suffix (glob []) s ≡ true
any_suffix [] = refl
any_suffix (x ∷ s) = ground (arith, any_suffix s)

star_first-skip_stars : (p : Bytes) → star_first (skip_stars p) ≡ false
unfolding skip_stars
star_first-skip_stars [] = refl
star_first-skip_stars (c ∷ p) = ground (arith, star_first-skip_stars p)

any_first-skip_stars :
    (p : Bytes) → is_simple p ≡ true → any_first p ≡ false → any_first (skip_stars p) ≡ false
unfolding skip_stars
any_first-skip_stars [] h a = refl
any_first-skip_stars (c ∷ p) h a = ground (arith, any_first-skip_stars p)

star_round-Answers :
    (loop : Bytes → Bytes → Outcome Bool) (p s : Bytes)
    → IsRight loop
    → is_simple p ≡ true
    → any_first p ≡ false
    → star_first p ≡ false
    → Answers (some_suffix (glob p) s) (star_round (match_start loop) p s)
unfolding star_round
star_round-Answers loop [] s right h a b = sym (any_suffix s)
star_round-Answers loop (c ∷ p) s right h a b = rw (glob-literal c p b) (
    star_loop-Answers (match_start loop p) c p (λ e. ground arith)
      (λ t. match_start-Answers loop right p t (ground arith)) s)

match_loop-IsRight : (f : ℕ) → IsRight (match_loop f)
unfolding match_loop match_round
match_loop-IsRight zero c p x s h = tt
match_loop-IsRight (suc f) c p x s h =
    let right : IsRight (match_loop f) = match_loop-IsRight f in
    ground (
      arith,
      skip_stars-simple p,
      any_first-skip_stars p,
      star_first-skip_stars p,
      glob-skip_stars p (x ∷ s),
      star_round-Answers (match_loop f) (skip_stars p) (x ∷ s) right,
      after-Answers (match_loop f) right p s,
    )

-- what `PattenMatch` returns, if it returns
pub patten_match-answer :
    (pattern src : Bytes) (r : Bool)
    → is_simple pattern ≡ true
    → patten_match pattern src ≡ ok r
    → r ≡ glob pattern src
unfolding patten_match
patten_match-answer pattern src r h e = ground (
  arith,
  match_start-Answers (match_loop (length pattern + 1)) (match_loop-IsRight (length pattern + 1))
      pattern src h,
)
