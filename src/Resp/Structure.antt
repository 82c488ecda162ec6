-- ===== src/Resp/Structure.antt =====
-- resp/structure.go: the replies and requests of the protocol, and their wire format.
use redis_go.Prelude.{ℕ, suc, List, [], ◌∷◌, ◌++◌, Option, none, some, Bytes, length}
use redis_go.Prelude.Int.{ℤ, pos}
use redis_go.Strconv.{itoa}

-- The types that implement `RedisData`. A nil `[]byte` is `none`; an `ArrayData` whose slice is nil
-- is `nil_array`.
mutual
  pub data RedisData : Type 0 where
    string_data : Bytes → RedisData
    bulk_data : Option Bytes → RedisData
    int_data : ℤ → RedisData
    error_data : Bytes → RedisData
    array_data : Elements → RedisData
    nil_array : RedisData
    plain_data : Bytes → RedisData

  -- `[]RedisData`
  pub data Elements : Type 0 where
    nil : Elements
    cons : RedisData → Elements → Elements

abbrev pub crlf : Bytes
crlf = 13 ∷ 10 ∷ []

abbrev pub nil_bulk : Bytes
nil_bulk = b'$' ∷ b'-' ∷ b'1' ∷ crlf

abbrev pub count : Elements → ℕ
count nil = 0
count (cons d ds) = suc (count ds)

-- `append(ds, d)`
unfoldable pub append_data : Elements → RedisData → Elements
append_data nil d = cons d nil
append_data (cons e ds) d = cons e (append_data ds d)

unfoldable pub bulk_to_bytes : Option Bytes → Bytes
bulk_to_bytes none = nil_bulk
bulk_to_bytes (some s) = b'$' ∷ itoa (pos (length s)) ++ crlf ++ s ++ crlf

unfoldable mutual
  pub to_bytes : RedisData → Bytes
  to_bytes (string_data s) = b'+' ∷ s ++ crlf
  to_bytes (bulk_data s) = bulk_to_bytes s
  to_bytes (int_data n) = b':' ∷ itoa n ++ crlf
  to_bytes (error_data s) = b'-' ∷ s ++ crlf
  to_bytes (array_data ds) = b'*' ∷ itoa (pos (count ds)) ++ crlf ++ elements_to_bytes ds
  to_bytes nil_array = b'*' ∷ b'-' ∷ b'1' ∷ crlf
  to_bytes (plain_data s) = s ++ crlf

  pub elements_to_bytes : Elements → Bytes
  elements_to_bytes nil = []
  elements_to_bytes (cons d ds) = to_bytes d ++ elements_to_bytes ds

-- a nil slice and an empty one have the same bytes
abbrev or_empty : Option Bytes → Bytes
or_empty none = []
or_empty (some s) = s

unfoldable mutual
  pub byte_data : RedisData → Bytes
  byte_data (string_data s) = s
  byte_data (bulk_data s) = or_empty s
  byte_data (int_data n) = itoa n
  byte_data (error_data s) = s
  byte_data (array_data ds) = byte_data_all ds
  byte_data nil_array = []
  byte_data (plain_data s) = s

  pub byte_data_all : Elements → Bytes
  byte_data_all nil = []
  byte_data_all (cons d ds) = byte_data d ++ byte_data_all ds

pub to_command : Elements → List Bytes
to_command nil = []
to_command (cons d ds) = byte_data d ∷ to_command ds
