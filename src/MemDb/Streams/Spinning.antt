-- ===== src/MemDb/Streams/Spinning.antt =====
-- The loop over the words of XADD: where it ends, and where it does not.
use redis_go.Prelude.{
  Option, none, some, ℕ, zero, suc, ◌<◌, ◌≡◌, ◌≢◌, refl, inl, inr, Bool-cases, true, false, List,
  [], ◌∷◌, Bytes, codes, to_lower, bytes_equal, All, length, arith,
}
use redis_go.Prelude.Int.{ℤ, pos, negsuc}
use redis_go.Prelude.Outcome.{Outcome, ok, panic, stuck, ◌>>=◌}
use redis_go.Strconv.{atoi}
use redis_go.StreamStruct.{StreamId, split}
use redis_go.MemDb.Streams.{
  StreamDb, Options, no_options, parse_round, parse_loop, xadd, stop, again, Turn, with_threshold,
  maxlen_round, minid_round, limit_round, id_round, with_id, given_id, is_mark,
}

spins : (fuel : ℕ) (ws : List Bytes) (o : Options) → parse_loop fuel (codes "~" ∷ ws) o ≡ stuck
unfolding parse_loop parse_round
spins zero ws o = refl
spins (suc fuel) ws o = spins fuel ws (record o { wave = true })

-- XADD with `~` as its first option never ends, however many rounds its loop has: the word is not
-- passed over.
pub xadd_spins :
    (fuel : ℕ) (now : ℤ) (c key f v : Bytes) (ws : List Bytes) (m : StreamDb)
    → xadd fuel now (c ∷ key ∷ codes "~" ∷ f ∷ v ∷ ws) m ≡ stuck
unfolding xadd
xadd_spins fuel now c key f v ws m = rw (spins fuel (f ∷ v ∷ ws) no_options) refl

abbrev pub IsQuiet : Bytes → Type 0
IsQuiet w = bytes_equal (to_lower w) (codes "~") ≡ false

-- The round ends the loop, or leaves fewer words.
abbrev Shrinks : ℕ → Outcome Turn → Type 0
Shrinks n panic = Unit
Shrinks n stuck = ⊥
Shrinks n (ok (stop p)) = Unit
Shrinks n (ok (again ws o)) = (length ws < n) × All IsQuiet ws

threshold-Shrinks :
    (o : Options) (n : ℕ) (ws : List Bytes) (z : Option ℤ)
    → length ws < n
    → All IsQuiet ws
    → Shrinks n (ok (with_threshold o ws z))
threshold-Shrinks o n ws none l q = tt
threshold-Shrinks o n ws (some (pos k)) l q = (l, q)
threshold-Shrinks o n ws (some (negsuc k)) l q = tt

maxlen-Shrinks :
    (o : Options) (ws : List Bytes) → All IsQuiet ws → Shrinks (suc (length ws)) (maxlen_round o ws)
maxlen-Shrinks o [] q = tt
maxlen-Shrinks o (w ∷ []) q = elim (Bool-cases (is_mark w)) [
  | inl mark ↦ rw mark tt
  | inr other ↦ rw other (threshold-Shrinks o 2 [] (atoi w) (omega arith) q.1)
]
maxlen-Shrinks o (w ∷ v ∷ ws) q = elim (Bool-cases (is_mark w)) [
  | inl mark ↦
      rw mark (threshold-Shrinks o (suc (suc (suc (length ws)))) ws (atoi v) (omega arith) q.1.1)
  | inr other ↦
      rw other
        (threshold-Shrinks o (suc (suc (suc (length ws)))) (v ∷ ws) (atoi w) (omega arith) q.1)
]

minid-Shrinks :
    (o : Options) (ws : List Bytes) → All IsQuiet ws → Shrinks (suc (length ws)) (minid_round o ws)
minid-Shrinks o [] q = tt
minid-Shrinks o (w ∷ []) q = ground arith
minid-Shrinks o (w ∷ v ∷ ws) q = ground arith

id-Shrinks : (o : Options) (n : ℕ) (w : Bytes) (ws : List Bytes) → Shrinks n (ok (id_round o w ws))
id-Shrinks o n w ws = elim (Bool-cases (bytes_equal w (codes "*"))) [
  | inl star ↦ rw star tt
  | inr other ↦ rw other (given o n ws (given_id (split w)))
]
  where
    given :
        (o : Options) (n : ℕ) (ws : List Bytes) (z : Option StreamId)
        → Shrinks n (ok (with_id o ws z))
    given o n ws none = tt
    given o n ws (some id) = tt

limit-Shrinks :
    (o : Options) (ws : List Bytes) → All IsQuiet ws → Shrinks (suc (length ws)) (limit_round o ws)
limit-Shrinks o [] q = tt
limit-Shrinks o (w ∷ ws) q = ground arith

round-Shrinks :
    (o : Options) (w : Bytes) (ws : List Bytes)
    → All IsQuiet (w ∷ ws)
    → Shrinks (suc (length ws)) (parse_round (w ∷ ws) o)
unfolding parse_round
round-Shrinks o w ws q = elim (Bool-cases (bytes_equal (to_lower w) (codes "nomkstream"))) [
  | inl e ↦ rw e (omega arith, q.1)
  | inr e1 ↦ elim (Bool-cases (bytes_equal (to_lower w) (codes "maxlen"))) [
    | inl e ↦ rw (e1, e) (maxlen-Shrinks o ws q.1)
    | inr e2 ↦ elim (Bool-cases (bytes_equal (to_lower w) (codes "minid"))) [
      | inl e ↦ rw (e1, e2, e) (minid-Shrinks o ws q.1)
      | inr e3 ↦ elim (Bool-cases (bytes_equal (to_lower w) (codes "limit"))) [
        | inl e ↦ rw (e1, e2, e3, e) (limit-Shrinks o ws q.1)
        | inr e4 ↦ rw (e1, e2, e3, e4, q.0) (id-Shrinks o (suc (length ws)) w ws)
      ]
    ]
  ]
]

-- what follows a round ends, where the rest of the loop does
turn_ends :
    (n fuel : ℕ) (r : Outcome Turn)
    → Shrinks n r
    → ((ws : List Bytes) (o : Options)
        → length ws < n
        → All IsQuiet ws
        → parse_loop fuel ws o ≢ stuck)
    → (r >>= λ t. elim t [ stop p ↦ ok p | again vs q ↦ parse_loop fuel vs q ]) ≢ stuck
turn_ends n fuel panic s next = ground arith
turn_ends n fuel stuck s next = absurd s
turn_ends n fuel (ok (stop p)) s next = ground arith
turn_ends n fuel (ok (again ws o)) (l, q) next = next ws o l q

no_words : (fuel : ℕ) (o : Options) → parse_loop (suc fuel) [] o ≡ panic
unfolding parse_loop parse_round
no_words fuel o = refl

-- The loop over the words of XADD ends, with one round more than there are words, where no word is `~`.
pub parse_loop-terminates :
    (fuel : ℕ) (ws : List Bytes) (o : Options)
    → length ws < fuel
    → All IsQuiet ws
    → parse_loop fuel ws o ≢ stuck
unfolding parse_loop
parse_loop-terminates zero ws o l q = absurd (omega arith)
parse_loop-terminates (suc fuel) [] o l q = λ e. let p = no_words fuel o in ground arith
parse_loop-terminates (suc fuel) (w ∷ ws) o l q =
    turn_ends (suc (length ws)) fuel (parse_round (w ∷ ws) o) (round-Shrinks o w ws q)
      λ vs o' l' q'. parse_loop-terminates fuel vs o' (omega (arith, l, l')) q'
