-- ===== src/MemDb/SetString.antt =====
-- memdb/string.go: SET and its options.
pub mod Laws
pub mod Sound
use redis_go.Prelude.{
  ℕ, ◌/◌, suc, ◌+◌, ◌-◌, Bool, true, false, not, ◌&&◌, ◌||◌, Option, none, some, List, [], ◌∷◌,
  ◌++◌, Bytes, codes, to_lower, bytes_equal, if◌then◌else◌,
}
use redis_go.Prelude.Int.{ℤ, pos, negsuc, add64, sub_ℕ}
use redis_go.Prelude.Outcome.{panic}
use redis_go.Strconv.{atoi}
use redis_go.Resp.Structure.{RedisData, string_data, bulk_data}
use redis_go.Prelude.Outcome.{ok}
use redis_go.MemDb.{MemDb, set_ttl, del_ttl}
use redis_go.MemDb.Reply.{Reply, reply_error, invalid, wrong_type}
use redis_go.MemDb.Strings.{Held, absent, wrong, bytes, held, set_bytes}

-- the flags and values that the option loop collects
pub record Options : Type 0 where
  pub nx : Bool
  pub xx : Bool
  pub get : Bool
  pub keepttl : Bool
  pub ex : Option ℤ
  pub px : Option ℤ
  pub exat : Option ℤ

abbrev pub no_options : Options
no_options = record {
  nx = false;
  xx = false;
  get = false;
  keepttl = false;
  ex = none;
  px = none;
  exat = none;
}

pub data Word : Type 0 where
  nx_word xx_word get_word keepttl_word exat_word ex_word px_word other_word : Word

-- `switch strings.ToLower(string(cmd[i]))`
word : Bytes → Word
word w =
    let l = to_lower w in
    if bytes_equal l (codes "nx")
    then nx_word
    else if bytes_equal l (codes "xx")
    then xx_word
    else if bytes_equal l (codes "get")
    then get_word
    else if bytes_equal l (codes "keepttl")
    then keepttl_word
    else if bytes_equal l (codes "exat")
    then exat_word
    else if bytes_equal l (codes "ex")
    then ex_word
    else if bytes_equal l (codes "px")
    then px_word
    else other_word

-- what the loop ends with; PX with nothing behind it indexes the command out of range
pub data Parsed : Type 0 where
  options : Options → Parsed
  refused : Bytes → Parsed
  index_panic : Parsed

abbrev unsupported : Bytes → Parsed
unsupported w = refused (codes "Error unsupported option: " ++ w)

abbrev not_integer : Parsed
not_integer = refused (codes "ERR value is not integer or out of range")

-- an option with a value that was read
with_value : (ℤ → Parsed) → Option ℤ → Parsed
with_value next none = not_integer
with_value next (some n) = next n

-- the loop over the options, `cmd[3:]`
unfoldable pub parse_options : List Bytes → Options → Parsed
unfolding word with_value
parse_options [] o = options o
parse_options (w ∷ []) o = elim (word w) [
  | nx_word ↦ options (record o { nx = true })
  | xx_word ↦ options (record o { xx = true })
  | get_word ↦ options (record o { get = true })
  | keepttl_word ↦ options (record o { keepttl = true })
  | exat_word ↦ refused invalid
  | ex_word ↦ refused invalid
  | px_word ↦ index_panic
  | other_word ↦ unsupported w
]
parse_options (w ∷ v ∷ ws) o = elim (word w) [
  | nx_word ↦ parse_options (v ∷ ws) (record o { nx = true })
  | xx_word ↦ parse_options (v ∷ ws) (record o { xx = true })
  | get_word ↦ parse_options (v ∷ ws) (record o { get = true })
  | keepttl_word ↦ parse_options (v ∷ ws) (record o { keepttl = true })
  | exat_word ↦ with_value (λ n. parse_options ws (record o { exat = some n })) (atoi v)
  | ex_word ↦ with_value (λ n. parse_options ws (record o { ex = some n })) (atoi v)
  | px_word ↦ with_value (λ n. parse_options ws (record o { px = some n })) (atoi v)
  | other_word ↦ unsupported w
]

abbrev pub given : Option ℤ → Bool
given none = false
given (some n) = true

abbrev pub conflict : Options → Bool
conflict o =
    (o.nx && o.xx)
    || (given o.ex && o.keepttl)
    || (given o.ex && given o.px)
    || (given o.ex && given o.exat)
    || (given o.px && given o.exat)

-- `millisecPx / 1000`, which rounds towards zero
abbrev pub seconds : ℤ → ℤ
seconds (pos n) = pos (n / 1000)
seconds (negsuc n) = sub_ℕ 0 ((n + 1) / 1000)

abbrev pub present : Held → Bool
present absent = false
present _ = true

-- `nx` and `xx`: whether the key is written, and the reply; NX that writes leaves the reply nil
pub write : Options → Bytes → Bytes → MemDb → Bool → MemDb × Option RedisData
write o key text m old =
    if o.nx
    then (if old then (m, some (bulk_data none)) else (set_bytes m key text, none))
    else if o.xx && not old
    then (m, some (bulk_data none))
    else (set_bytes m key text, some (string_data (codes "OK")))

pub old_reply : Held → RedisData
old_reply (bytes s) = bulk_data (some s)
old_reply _ = bulk_data none

-- `m.SetTTL` where the option is given
set_ttl_at : (ℤ → ℤ) → Bytes → Option ℤ → MemDb → MemDb
set_ttl_at at key none m = m
set_ttl_at at key (some n) m = (set_ttl key (at n) m).0

pub apply_ttl : ℤ → Options → Bytes → MemDb → MemDb
apply_ttl now o key m =
    let kept = if o.keepttl then m else (del_ttl key m).0 in
    let after_ex = set_ttl_at (λ n. add64 now n) key o.ex kept in
    let after_px = set_ttl_at (λ n. add64 now (seconds n)) key o.px after_ex in
    set_ttl_at (λ n. n) key o.exat after_px

set_held : ℤ → Options → Bytes → Bytes → MemDb → Held → Reply
set_held now o key text m wrong = reply_error m wrong_type
set_held now o key text m old =
    let (m', res) = write o key text m (present old) in
    ok (apply_ttl now o key m', if o.get then some (old_reply old) else res)

set_parsed : ℤ → Bytes → Bytes → MemDb → Parsed → Reply
set_parsed now key text m (refused why) = reply_error m why
set_parsed now key text m index_panic = panic
set_parsed now key text m (options o) =
    if conflict o then reply_error m invalid else set_held now o key text m (held m key)

-- The key is in lower case from here on.
pub set_string : ℤ → List Bytes → MemDb → Reply
unfolding set_parsed set_held write apply_ttl set_ttl_at old_reply parse_options
set_string now (c ∷ key ∷ text ∷ opts) m =
    set_parsed now (to_lower key) text m (parse_options opts no_options)
set_string now (c ∷ key ∷ []) m = reply_error m invalid
set_string now _ m = panic
