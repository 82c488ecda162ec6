-- ===== src/Resp/Reader.antt =====
-- `readLine` of resp/parser.go over the buffered reader (`bufio.Reader`, `io.ReadFull`) of a connection,
-- which is the bytes that the client sends, up to the first error of the reader, and what is behind them.
pub mod Lines
use redis_go.Prelude.{
  ℕ, zero, suc, ◌+◌, ◌^◌, Bool, true, false, ◌&&◌, List, [], ◌∷◌, Option, none, some, Bytes, length,
  ltb, ◌==◌, if◌then◌else◌,
}
use redis_go.Prelude.Int.{ℤ, pos, negsuc}
use redis_go.Prelude.Outcome.{Outcome, ok, panic, stuck}
use redis_go.Resp.State.{ParseError, unexpected_eof, protocol, ReadState}

-- What is behind the bytes: the client closed its side; the server cancelled the context and closed the
-- connection; or a read fails with another error and the context alive, and behind that come more bytes
-- and another ending.
pub data Ending : Type 0 where
  eof shut_down : Ending
  failing : Bytes → Ending → Ending

-- the bytes and the errors that come behind
abbrev pub size : Ending → ℕ
size eof = 0
size shut_down = 0
size (failing s e) = 1 + (length s + size e)

-- one more byte in front of what was read
abbrev behind : ℕ → Option (Bytes × Bytes) → Option (Bytes × Bytes)
behind c none = none
behind c (some (msg, rest)) = some (c ∷ msg, rest)

-- `ReadBytes('\n')`: the bytes up to and with the delimiter, and the rest; `none` if the stream
-- ends before it
pub read_bytes : Bytes → Option (Bytes × Bytes)
read_bytes [] = none
read_bytes (c ∷ s) = if c == 10 then some (c ∷ [], s) else behind c (read_bytes s)

-- `io.ReadFull` into a buffer of n bytes; `none` if the stream ends before
pub read_full : ℕ → Bytes → Option (Bytes × Bytes)
read_full zero s = some ([], s)
read_full (suc n) [] = none
read_full (suc n) (c ∷ s) = behind c (read_full n s)

-- The largest slice that Go's `make` grants on a 64-bit machine; it panics above.
abbrev pub max_alloc : ℕ
max_alloc = 2 ^ 48

-- What `readLine` returns, with the input behind it.
pub data Line : Type 0 where
  line : Bytes → Bytes → Line
  bad_line : ParseError → Bytes → Line
  broken : Bytes → Ending → Line
  ended cancelled line_panic : Line

-- `msg[len(msg)-1] == '\n' && msg[len(msg)-2] == '\r'`
pub ends_crlf : Bytes → Bool
ends_crlf (a ∷ b ∷ []) = (b == 10) && (a == 13)
ends_crlf (a ∷ b ∷ c ∷ s) = ends_crlf (b ∷ c ∷ s)
ends_crlf _ = false

-- `len(msg) != 0 && msg[len(msg)-2] == '\r'`: the index is -1 at a message of one byte
pub cr_before_end : Bytes → Outcome Bool
cr_before_end [] = ok false
cr_before_end (a ∷ []) = panic
cr_before_end (a ∷ b ∷ []) = ok (a == 13)
cr_before_end (a ∷ b ∷ c ∷ s) = cr_before_end (b ∷ c ∷ s)

check_bulk : Bytes → Bytes → Line
check_bulk msg rest = if ends_crlf msg then line msg rest else bad_line (protocol msg) rest

-- An error of the reader: `io.ReadFull` has its own for a buffer that was filled in part. The bytes read
-- are lost.
unfinished : Ending → Bytes → Line
unfinished (failing rest e) s = broken rest e
unfinished shut_down s = cancelled
unfinished eof [] = ended
unfinished eof (c ∷ s) = bad_line unexpected_eof []

read_bulk : Ending → ℕ → Bytes → Line
read_bulk e n s = if ltb max_alloc (n + 2) then line_panic else elim (read_full (n + 2) s) [
  | none ↦ unfinished e s
  | some (msg, rest) ↦ check_bulk msg rest
]

check_normal : Bytes → Bytes → Outcome Bool → Line
check_normal msg rest (ok b) = if b then line msg rest else bad_line (protocol msg) rest
check_normal msg rest panic = line_panic
check_normal msg rest stuck = line_panic

read_normal : Ending → Bytes → Line
read_normal e s = elim (read_bytes s) [
  | none ↦ unfinished e []
  | some (msg, rest) ↦ check_normal msg rest (cr_before_end msg)
]

read_line_at : Ending → Bool → ℤ → Bytes → Line
read_line_at e true (pos n) s = read_bulk e n s
read_line_at e true (negsuc n) s = read_normal e s
read_line_at e false n s = read_normal e s

pub read_line : Ending → ReadState → Bytes → Line
read_line e st s = read_line_at e st.multi_line st.bulk_len s
