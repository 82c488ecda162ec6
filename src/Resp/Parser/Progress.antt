-- ===== src/Resp/Parser/Progress.antt =====
-- The loop of `parse` ends: every round that goes on has read a byte.
use redis_go.Prelude.{
  ℕ, zero, suc, ◌+◌, ◌<◌, ◌≡◌, ◌≢◌, refl, sym, ap, ◌∙◌, [], ◌∷◌, Option, none, some, Bytes, length,
  arith,
}
use redis_go.Prelude.Outcome.{Outcome, ok, panic, stuck}
use redis_go.Resp.Structure.{bulk_data}
use redis_go.Resp.State.{ParsedRes, parsed, failed, reader_error, ReadState, init}
use redis_go.Resp.Reader.{
  Ending, Line, line, bad_line, ended, cancelled, broken, line_panic, size, read_line,
}
use redis_go.Resp.Reader.Lines.{GoesOn, read_line-GoesOn}
use redis_go.Resp.Parser.{
  parse_single_line, parse_multi_line, parse_array_header, parse_bulk_header, Round, next,
  failed_read, closed, crashed, bulk_read, deliver, follow, Transcript, array_round, bulk_round,
  message_round, line_round, round, out_of_fuel, prepend, run, parse_stream,
}

-- A round leaves this input, if the loop goes on.
abbrev Leaves : Bytes → Round → Type 0
Leaves s (next out st rest) = rest ≡ s
Leaves s (failed_read rest e) = ⊥
Leaves s _ = Unit

deliver-Leaves : (st : ReadState) (r : ParsedRes) (s : Bytes) → Leaves s (deliver st r s)
unfolding deliver
deliver-Leaves st (parsed d) s = ground arith
deliver-Leaves st (failed err) s = refl

array_round-Leaves :
    (msg s : Bytes) (o : Outcome (Option ReadState)) → Leaves s (array_round msg s o)
unfolding array_round
array_round-Leaves msg s (ok (some st)) = ground arith
array_round-Leaves msg s (ok none) = refl
array_round-Leaves msg s panic = tt
array_round-Leaves msg s stuck = tt

bulk_round-Leaves : (msg s : Bytes) (o : Outcome (Option ReadState)) → Leaves s (bulk_round msg s o)
unfolding bulk_round
bulk_round-Leaves msg s (ok (some st)) =
    ground (arith, deliver-Leaves (bulk_read st) (parsed (bulk_data none)) s)
bulk_round-Leaves msg s (ok none) = refl
bulk_round-Leaves msg s panic = tt
bulk_round-Leaves msg s stuck = tt

message_round-Leaves : (st : ReadState) (msg s : Bytes) → Leaves s (message_round st msg s)
unfolding message_round
message_round-Leaves st [] s = tt
message_round-Leaves st (c ∷ msg) s = ground (
  arith,
  array_round-Leaves (c ∷ msg) s (parse_array_header (c ∷ msg) st),
  bulk_round-Leaves (c ∷ msg) s (parse_bulk_header (c ∷ msg) st),
  deliver-Leaves st (parse_single_line (c ∷ msg)) s,
)

-- What the loop goes on with is shorter.
abbrev Shortens : Ending → ℕ → Round → Type 0
Shortens e k (next out st rest) = length rest < k
Shortens e k (failed_read rest e') = length rest + size e' < size e
Shortens e k _ = Unit

Leaves-Shortens :
    (e : Ending) (k : ℕ) (s : Bytes) (r : Round) → length s < k → Leaves s r → Shortens e k r
Leaves-Shortens e k s (next out st rest) h l = rw l h
Leaves-Shortens e k s (failed_read rest e') h l = elim l [ ]
Leaves-Shortens e k s (closed out) h l = tt
Leaves-Shortens e k s crashed h l = tt

line_round-Shortens :
    (e : Ending) (k : ℕ) (st : ReadState) (l : Line) → GoesOn e k l → Shortens e k (line_round st l)
unfolding line_round
line_round-Shortens e k st (line msg rest) h = Leaves-Shortens e k rest _ h (
    ground (
      arith,
      deliver-Leaves (bulk_read st) (parse_multi_line msg) rest,
      message_round-Leaves st msg rest,
    ))
line_round-Shortens e k st (bad_line err rest) h = h
line_round-Shortens e k st (broken rest e') h = h
line_round-Shortens e k st ended h = tt
line_round-Shortens e k st cancelled h = tt
line_round-Shortens e k st line_panic h = tt

round-Shortens : (e : Ending) (st : ReadState) (s : Bytes) → Shortens e (length s) (round e st s)
unfolding round
round-Shortens e st s =
    line_round-Shortens e (length s) st (read_line e st s) (read_line-GoesOn e st s)

follow-terminates :
    (e : Ending) (k : ℕ) (loop : Ending → ReadState → Bytes → Transcript) (r : Round)
    → ((e' : Ending) (st : ReadState) (s : Bytes)
        → length s + size e' < k + size e
        → (loop e' st s).fate ≢ out_of_fuel)
    → Shortens e k r
    → (follow loop e r).fate ≢ out_of_fuel
unfolding follow
follow-terminates e k loop (next out st rest) h less = h e st rest (omega (arith, less))
follow-terminates e k loop (failed_read rest e') h less = h e' init rest (omega (arith, less))
follow-terminates e k loop (closed out) h less = λ p. cc
follow-terminates e k loop crashed h less = λ p. cc

run-terminates :
    (f : ℕ) (e : Ending) (st : ReadState) (s : Bytes)
    → length s + size e < f
    → (run f e st s).fate ≢ out_of_fuel
unfolding run
run-terminates zero e st s h = absurd (omega arith)
run-terminates (suc f) e st s h =
    follow-terminates e (length s) (run f) (round e st s)
      (λ e' st' s' less. run-terminates f e' st' s' (omega arith)) (round-Shortens e st s)

-- Whatever bytes the client sends, with any finite number of other reader errors between them, where
-- the stream then ends in EOF or in an error under a cancelled context, the parsing goroutine of
-- `ParseStream` comes to an end, as far as its channel takes what it sends: it closes the channel or it
-- panics, and its loop does not run on.
pub parse_stream-terminates : (e : Ending) (s : Bytes) → (parse_stream e s).fate ≢ out_of_fuel
unfolding parse_stream
parse_stream-terminates e s = run-terminates (length s + size e + 1) e init s (omega arith)

follow-more :
    (e : Ending) (loop more : Ending → ReadState → Bytes → Transcript) (r : Round)
    → ((e' : Ending) (st : ReadState) (s : Bytes)
        → (loop e' st s).fate ≢ out_of_fuel
        → more e' st s ≡ loop e' st s)
    → (follow loop e r).fate ≢ out_of_fuel
    → follow more e r ≡ follow loop e r
unfolding follow
follow-more e loop more (next out st rest) h n = ap (prepend out) (h e st rest n)
follow-more e loop more (failed_read rest e') h n =
    ap (prepend (failed reader_error ∷ [])) (h e' init rest n)
follow-more e loop more (closed out) h n = refl
follow-more e loop more crashed h n = refl

-- More fuel changes nothing, where the loop has ended.
pub run-more :
    (f k : ℕ) (e : Ending) (st : ReadState) (s : Bytes)
    → (run f e st s).fate ≢ out_of_fuel
    → run (k + f) e st s ≡ run f e st s
unfolding run
run-more zero k e st s n = absurd (n refl)
run-more (suc f) k e st s n =
    let h : k + suc f ≡ suc (k + f) = omega arith in
    rw (h, run)
      (follow-more e (run f) (run (k + f)) (round e st s) (λ e' st' s' m. run-more f k e' st' s' m)
        n)

-- Two amounts of fuel with which the loop ends give one transcript.
pub run-agrees :
    (f g : ℕ) (e : Ending) (st : ReadState) (s : Bytes)
    → (run f e st s).fate ≢ out_of_fuel
    → (run g e st s).fate ≢ out_of_fuel
    → run f e st s ≡ run g e st s
run-agrees f g e st s m n =
    let h : g + f ≡ f + g = omega arith in
    sym (run-more f g e st s m) ∙ rw h (run-more g f e st s n)
