-- ===== src/Resp/Parser.antt =====
-- resp/parser.go: the goroutine that reads the connection and sends parsed data to a channel.
pub mod Progress
pub mod Arrays
pub mod RoundTrip
pub mod Crash
pub mod Errors
use redis_go.Prelude.{
  ℕ, zero, suc, ◌+◌, ◌-◌, ◌^◌, Bool, true, false, ◌&&◌, List, [], ◌∷◌, ◌++◌, Option, none, some,
  Bytes, length, take, ltb, ◌==◌, if◌then◌else◌,
}
use redis_go.Prelude.Int.{ℤ, pos, negsuc, eqb_ℤ, is_neg}
use redis_go.Prelude.Outcome.{Outcome, ok, panic, stuck}
use redis_go.Strconv.{atoi}
use redis_go.Resp.Structure.{
  RedisData, string_data, bulk_data, int_data, error_data, array_data, nil_array, plain_data,
  Elements, nil, count, append_data,
}
use redis_go.Resp.State.{
  ParseError, end_of_file, reader_error, too_short, protocol, bad_integer, ParsedRes, parsed,
  failed, ReadState, init,
}
use redis_go.Resp.Reader.{
  Ending, Line, line, bad_line, ended, cancelled, broken, line_panic, size, read_line,
}

-- `msg[1 : len(msg)-2]`
pub payload : Bytes → Outcome Bytes
payload [] = panic
payload (c ∷ s) = if ltb (length s) 2 then panic else ok (take (length s - 2) s)

int_or_error : Bytes → Option ℤ → ParsedRes
int_or_error text none = failed (bad_integer text)
int_or_error text (some n) = parsed (int_data n)

single : ℕ → Bytes → ParsedRes
unfolding int_or_error atoi
single c text =
    if c == b'+'
    then parsed (string_data text)
    else if c == b'-'
    then parsed (error_data text)
    else if c == b':'
    then int_or_error text (atoi text)
    else parsed (plain_data text)

pub parse_single_line : Bytes → ParsedRes
unfolding single
parse_single_line [] = failed too_short
parse_single_line (c ∷ s) =
    if ltb (length s) 2 then failed too_short else single c (take (length s - 2) s)

pub parse_multi_line : Bytes → ParsedRes
parse_multi_line msg =
    if ltb (length msg) 2
    then failed (protocol msg)
    else parsed (bulk_data (some (take (length msg - 2) msg)))

-- `none` for a protocol error
pub array_header_state : Option ℤ → ReadState → Option ReadState
array_header_state none st = none
array_header_state (some n) st =
    if is_neg n then none else some (record st { array_len = n; in_array = true; elements = nil })

pub bulk_header_state : Option ℤ → ReadState → Option ReadState
bulk_header_state (some (negsuc (suc n))) st = none
bulk_header_state none st = none
bulk_header_state (some n) st = some (record st { bulk_len = n; multi_line = true })

pub parse_array_header : Bytes → ReadState → Outcome (Option ReadState)
unfolding array_header_state payload atoi
parse_array_header msg st = elim (payload msg) [
  | ok text ↦ ok (array_header_state (atoi text) st)
  | panic ↦ panic
  | stuck ↦ stuck
]

pub parse_bulk_header : Bytes → ReadState → Outcome (Option ReadState)
unfolding bulk_header_state payload atoi
parse_bulk_header msg st = elim (payload msg) [
  | ok text ↦ ok (bulk_header_state (atoi text) st)
  | panic ↦ panic
  | stuck ↦ stuck
]

-- One round of the loop of `parse`: what it sends, and the state and the input that are left.
-- `failed_read` sends an error of the reader and resets the state, with what is behind the error.
pub data Round : Type 0 where
  next : List ParsedRes → ReadState → Bytes → Round
  failed_read : Bytes → Ending → Round
  closed : List ParsedRes → Round
  crashed : Round

-- `state.multiLine = false; state.bulkLen = 0`
abbrev pub bulk_read : ReadState → ReadState
bulk_read st = record st { multi_line = false; bulk_len = pos 0 }

-- the end of a round: put the data into the array that is read, or send it
pub deliver : ReadState → ParsedRes → Bytes → Round
deliver st (failed err) rest = next (failed err ∷ []) init rest
deliver st (parsed d) rest =
    let ds = append_data st.elements d in
    if st.in_array
    then (if eqb_ℤ (pos (count ds)) st.array_len
        then next (parsed (array_data ds) ∷ []) init rest
        else next [] (record st { elements = ds }) rest)
    else next (parsed d ∷ []) st rest

-- `case '*'`
pub array_round : Bytes → Bytes → Outcome (Option ReadState) → Round
array_round msg rest (ok none) = next (failed (protocol msg) ∷ []) init rest
array_round msg rest (ok (some st)) =
    if eqb_ℤ st.array_len (negsuc 0)
    then next (parsed nil_array ∷ []) init rest
    else if eqb_ℤ st.array_len (pos 0)
    then next (parsed (array_data nil) ∷ []) init rest
    else next [] st rest
array_round msg rest panic = crashed
array_round msg rest stuck = crashed

-- `case '$'`
pub bulk_round : Bytes → Bytes → Outcome (Option ReadState) → Round
bulk_round msg rest (ok none) = next (failed (protocol msg) ∷ []) init rest
bulk_round msg rest (ok (some st)) =
    if eqb_ℤ st.bulk_len (negsuc 0)
    then deliver (bulk_read st) (parsed (bulk_data none)) rest
    else next [] st rest
bulk_round msg rest panic = crashed
bulk_round msg rest stuck = crashed

-- `switch msg[0]`
pub message_round : ReadState → Bytes → Bytes → Round
message_round st [] rest = crashed
message_round st (c ∷ s) rest =
    if c == b'*'
    then array_round (c ∷ s) rest (parse_array_header (c ∷ s) st)
    else if c == b'$'
    then bulk_round (c ∷ s) rest (parse_bulk_header (c ∷ s) st)
    else deliver st (parse_single_line (c ∷ s)) rest

line_round : ReadState → Line → Round
line_round st (line msg rest) =
    if st.multi_line
    then deliver (bulk_read st) (parse_multi_line msg) rest
    else message_round st msg rest
line_round st (bad_line err rest) = next (failed err ∷ []) init rest
line_round st (broken rest e) = failed_read rest e
line_round st ended = closed (failed end_of_file ∷ [])
line_round st cancelled = closed []
line_round st line_panic = crashed

pub round : Ending → ReadState → Bytes → Round
round e st s = line_round st (read_line e st s)

-- How the goroutine ends: it closes the channel, or a panic ends the process. `out_of_fuel` is the
-- model's own.
pub data Fate : Type 0 where
  channel_closed process_crash out_of_fuel : Fate

-- all that is sent to the channel, and the end
pub record Transcript : Type 0 where
  pub sent : List ParsedRes
  pub fate : Fate

abbrev pub prepend : List ParsedRes → Transcript → Transcript
prepend out t = record t { sent = out ++ t.sent }

-- what is sent from a round on, where `loop` is the rest of the loop
pub follow : (Ending → ReadState → Bytes → Transcript) → Ending → Round → Transcript
follow loop e (next out st rest) = prepend out (loop e st rest)
follow loop e (failed_read rest e') = prepend (failed reader_error ∷ []) (loop e' init rest)
follow loop e (closed out) = record { sent = out; fate = channel_closed }
follow loop e crashed = record { sent = []; fate = process_crash }

pub run : ℕ → Ending → ReadState → Bytes → Transcript
run zero e st s = record { sent = []; fate = out_of_fuel }
run (suc f) e st s = follow (run f) e (round e st s)

-- `parse`: each round reads a byte, or an error of the reader, or is the last, so this fuel is enough
pub parse_stream : Ending → Bytes → Transcript
parse_stream e s = run (length s + size e + 1) e init s
