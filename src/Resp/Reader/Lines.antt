-- ===== src/Resp/Reader/Lines.antt =====
-- What `readLine` returns for a line or a bulk that was written with its CRLF, and how much it reads.
use redis_go.Prelude.{
  ℕ, zero, suc, ◌+◌, ◌≤◌, ◌<◌, ◌≡◌, ◌≢◌, refl, Bool, true, false, [], ◌∷◌, ◌++◌, Option, none, some,
  Bytes, length, length-append, arith, All,
}
use redis_go.Prelude.Int.{ℤ, pos, negsuc}
use redis_go.Prelude.Outcome.{ok}
use redis_go.Resp.State.{ReadState}
use redis_go.Resp.Structure.{crlf}
use redis_go.Resp.Reader.{
  line_panic, broken, Ending, eof, shut_down, failing, size, read_bytes, read_full, Line, line,
  bad_line, max_alloc, ends_crlf, cr_before_end, check_bulk, unfinished, read_bulk, check_normal,
  read_normal, read_line_at, read_line,
}

-- no line feed
abbrev pub IsLine : Bytes → Type 0
IsLine = All (λ c. c ≢ 10)

read_bytes-append :
    (s rest : Bytes) → IsLine s → read_bytes (s ++ crlf ++ rest) ≡ some (s ++ crlf, rest)
unfolding read_bytes
read_bytes-append [] rest h = refl
read_bytes-append (c ∷ s) rest h = ground (arith, read_bytes-append s rest)

read_full-append : (s rest : Bytes) → read_full (length s) (s ++ rest) ≡ some (s, rest)
unfolding read_full
read_full-append [] rest = refl
read_full-append (c ∷ s) rest = rw (read_full-append s rest)

ends_crlf-append : (s : Bytes) → ends_crlf (s ++ crlf) ≡ true
unfolding ends_crlf
ends_crlf-append [] = refl
ends_crlf-append (a ∷ []) = refl
ends_crlf-append (a ∷ b ∷ []) = refl
ends_crlf-append (a ∷ b ∷ c ∷ s) = ends_crlf-append (b ∷ c ∷ s)

cr_before_end-append : (s : Bytes) → cr_before_end (s ++ crlf) ≡ ok true
unfolding cr_before_end
cr_before_end-append [] = refl
cr_before_end-append (a ∷ []) = refl
cr_before_end-append (a ∷ b ∷ []) = refl
cr_before_end-append (a ∷ b ∷ c ∷ s) = cr_before_end-append (b ∷ c ∷ s)

-- A line with no line feed in it is read whole, and the rest is left.
pub read_line-line :
    (e : Ending) (st : ReadState) (s rest : Bytes)
    → st.multi_line ≡ false
    → IsLine s
    → read_line e st (s ++ crlf ++ rest) ≡ line (s ++ crlf) rest
unfolding read_line read_line_at read_normal check_normal
read_line-line e st s rest m h =
    rw (m, read_line_at, read_normal, read_bytes-append s rest h, cr_before_end-append s)

-- A bulk is read by its length, whatever its bytes are.
pub read_line-bulk :
    (e : Ending) (st : ReadState) (s rest : Bytes)
    → st.multi_line ≡ true
    → st.bulk_len ≡ pos (length s)
    → length s + 2 ≤ max_alloc
    → read_line e st (s ++ crlf ++ rest) ≡ line (s ++ crlf) rest
unfolding read_line read_line_at read_bulk check_bulk
read_line-bulk e st s rest m n h = rw (m, n, read_line_at) (bulk (omega arith))
  where
    whole : read_full (length s + 2) (s ++ crlf ++ rest) ≡ some (s ++ crlf, rest)
    whole = rw (← length-append s crlf) (read_full-append (s ++ crlf) rest)

    bulk :
        length s + 2 ≤ max_alloc
        → read_bulk e (length s) (s ++ crlf ++ rest) ≡ line (s ++ crlf) rest
    bulk k = ground (arith, whole, ends_crlf-append s)

-- The input behind a read is shorter by n bytes.
abbrev Reads : ℕ → ℕ → Option (Bytes × Bytes) → Type 0
Reads n k none = Unit
Reads n k (some (msg, rest)) = length rest + n ≤ k

read_bytes-Reads : (s : Bytes) → Reads 1 (length s) (read_bytes s)
unfolding read_bytes
read_bytes-Reads [] = tt
read_bytes-Reads (c ∷ s) = ground (arith, read_bytes-Reads s)

read_full-Reads : (n : ℕ) (s : Bytes) → Reads n (length s) (read_full n s)
unfolding read_full
read_full-Reads zero s = omega arith
read_full-Reads (suc n) [] = tt
read_full-Reads (suc n) (c ∷ s) = ground (arith, read_full-Reads n s)

-- The line's input, or what is behind it, is shorter, if the loop goes on behind it.
abbrev pub GoesOn : Ending → ℕ → Line → Type 0
GoesOn e k (line msg rest) = length rest < k
GoesOn e k (bad_line err rest) = length rest < k
GoesOn e k (broken rest e') = length rest + size e' < size e
GoesOn e k _ = Unit

unfinished-GoesOn : (e : Ending) (k : ℕ) (s : Bytes) → length s ≤ k → GoesOn e k (unfinished e s)
unfolding unfinished
unfinished-GoesOn (failing rest e) k s h = omega arith
unfinished-GoesOn shut_down k s h = tt
unfinished-GoesOn eof k [] h = tt
unfinished-GoesOn eof k (c ∷ s) h = omega arith

read_normal-GoesOn : (e : Ending) (s : Bytes) → GoesOn e (length s) (read_normal e s)
unfolding read_normal check_normal
read_normal-GoesOn e s = ground (arith, read_bytes-Reads s, unfinished-GoesOn e (length s) [])

read_bulk-GoesOn : (e : Ending) (n : ℕ) (s : Bytes) → GoesOn e (length s) (read_bulk e n s)
unfolding read_bulk check_bulk
read_bulk-GoesOn e n s = ground (arith, read_full-Reads (n + 2) s, unfinished-GoesOn e (length s) s)

read_line_at-GoesOn :
    (e : Ending) (m : Bool) (n : ℤ) (s : Bytes) → GoesOn e (length s) (read_line_at e m n s)
unfolding read_line_at
read_line_at-GoesOn e true (pos n) s = read_bulk-GoesOn e n s
read_line_at-GoesOn e true (negsuc n) s = read_normal-GoesOn e s
read_line_at-GoesOn e false n s = read_normal-GoesOn e s

pub read_line-GoesOn :
    (e : Ending) (st : ReadState) (s : Bytes) → GoesOn e (length s) (read_line e st s)
unfolding read_line
read_line-GoesOn e st s = read_line_at-GoesOn e st.multi_line st.bulk_len s

-- A line feed alone: the message is one byte long, and its last but one does not exist.
pub read_line-line_feed :
    (e : Ending) (st : ReadState) (rest : Bytes)
    → st.multi_line ≡ false
    → read_line e st (10 ∷ rest) ≡ line_panic
unfolding read_line read_line_at read_normal check_normal read_bytes cr_before_end
read_line-line_feed e st rest m = rw (m, read_line_at)

read_bytes-IsLine : (s : Bytes) → IsLine s → read_bytes s ≡ none
unfolding read_bytes
read_bytes-IsLine [] h = refl
read_bytes-IsLine (c ∷ s) h = ground (arith, read_bytes-IsLine s)

-- A line that is not complete, where a read fails behind it.
pub read_line-failing :
    (e : Ending) (st : ReadState) (s rest : Bytes)
    → st.multi_line ≡ false
    → IsLine s
    → read_line (failing rest e) st s ≡ broken rest e
unfolding read_line read_line_at read_normal unfinished
read_line-failing e st s rest m h = rw (m, read_line_at, read_normal, read_bytes-IsLine s h)
