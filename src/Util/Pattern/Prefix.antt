-- ===== src/Util/Pattern/Prefix.antt =====
-- When `PattenMatch` answers at all.
use redis_go.Prelude.{
  ℕ, zero, suc, ◌+◌, ◌≡◌, ◌≢◌, refl, ap, ◌⊎◌, Bool, true, [], ◌∷◌, Bytes, length, ◌==◌, arith, inl,
  inr, if◌then◌else◌,
}
use redis_go.Prelude.Outcome.{Outcome, ok, panic, stuck}
use redis_go.Util.Pattern.{
  skip_stars, is_nil, after, star_round, match_round, match_start, match_loop, patten_match,
}
use redis_go.Util.Pattern.Stars.{patten_match-Runs}
use redis_go.Util.Pattern.Glob.{glob, is_simple, all_stars-glob, patten_match-answer}

right_or_panic :
    (o : Outcome Bool) (b : Bool)
    → o ≢ stuck
    → ((r : Bool) → o ≡ ok r → r ≡ b)
    → (o ≡ ok b) ⊎ (o ≡ panic)
right_or_panic (ok r) b n h = inl (ap ok (h r refl))
right_or_panic panic b n h = inr refl
right_or_panic stuck b n h = absurd (n refl)

-- On patterns of literal bytes, `?` and `*` with no `?` right behind a star, `PattenMatch` returns the
-- meaning of the pattern, or it panics.
pub patten_match-glob :
    (pattern src : Bytes)
    → is_simple pattern ≡ true
    → (patten_match pattern src ≡ ok (glob pattern src)) ⊎ (patten_match pattern src ≡ panic)
patten_match-glob pattern src h =
    right_or_panic (patten_match pattern src) (glob pattern src) (patten_match-Runs pattern src)
      (λ r. patten_match-answer pattern src r h)

-- every star of the pattern has only stars behind it
abbrev pub stars_last : Bytes → Bool
stars_last [] = true
stars_last (c ∷ p) = if c == b'*' then is_nil (skip_stars p) else stars_last p

abbrev NoPanic : (Bytes → Bytes → Outcome Bool) → Type 0
NoPanic loop =
    (c : ℕ) (p : Bytes) (x : ℕ) (s : Bytes)
    → is_simple (c ∷ p) ≡ true
    → stars_last (c ∷ p) ≡ true
    → loop (c ∷ p) (x ∷ s) ≢ panic

after-NoPanic :
    (loop : Bytes → Bytes → Outcome Bool)
    → NoPanic loop
    → (p s : Bytes) → is_simple p ≡ true
    → stars_last p ≡ true
    → after loop p s ≢ panic
unfolding after
after-NoPanic loop h p [] a b = λ e. ground arith
after-NoPanic loop h [] (x ∷ s) a b = λ e. ground arith
after-NoPanic loop h (c ∷ p) (x ∷ s) a b = h c p x s a b

star_round-NoPanic :
    (call : Bytes → Bytes → Outcome Bool) (p s : Bytes)
    → is_nil p ≡ true
    → star_round call p s ≢ panic
unfolding star_round
star_round-NoPanic call [] s h = λ e. ground arith
star_round-NoPanic call (c ∷ p) s h = ground arith

match_loop-NoPanic : (f : ℕ) → NoPanic (match_loop f)
unfolding match_loop match_round
match_loop-NoPanic zero c p x s a b = λ e. ground arith
match_loop-NoPanic (suc f) c p x s a b = λ e. ground (
  arith,
  star_round-NoPanic (match_start (match_loop f)) (skip_stars p) (x ∷ s),
  after-NoPanic (match_loop f) (match_loop-NoPanic f) p s,
)

-- On patterns of literal bytes and `?`, with stars at the end at most, `PattenMatch` does not panic: it
-- returns the meaning of the pattern.
pub patten_match-prefix :
    (pattern src : Bytes)
    → is_simple pattern ≡ true
    → stars_last pattern ≡ true
    → patten_match pattern src ≡ ok (glob pattern src)
unfolding patten_match match_start
patten_match-prefix [] src a b = refl
patten_match-prefix (c ∷ p) [] a b = ap ok (all_stars-glob (c ∷ p))
patten_match-prefix (c ∷ p) (x ∷ s) a b = elim (patten_match-glob (c ∷ p) (x ∷ s) a) [
  | inl right ↦ right
  | inr bad ↦ absurd (match_loop-NoPanic (length (c ∷ p) + 1) c p x s a b bad)
]
