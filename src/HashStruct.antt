-- ===== src/HashStruct.antt =====
-- memdb/hash_struct.go: a hash, which is a Go map from fields to byte slices. `Random`, `RandomWithValue`
-- and `IncrByFloat` are not modelled.
pub mod Increment
use redis_go.Prelude.{ℕ, Bool, Option, none, some, List, [], ◌∷◌, Bytes, length, if◌then◌else◌}
use redis_go.Prelude.Int.{ℤ, add64}
use redis_go.Strconv.{itoa, atoi}
use redis_go.GoMap
use redis_go.GoMap.{GoMap, put}

pub record Hash : Type 0 where
  pub table : GoMap Bytes

unfoldable pub new_hash : Hash
new_hash = record { table = [] }

unfoldable pub set_field : Hash → Bytes → Bytes → Hash
set_field h key value = record { table = put key value h.table }

abbrev pub or_nil : Option Bytes → Bytes
or_nil none = []
or_nil (some s) = s

-- the empty slice where the field is not there
unfoldable pub get_field : Hash → Bytes → Bytes
get_field h key = or_nil (GoMap.get key h.table)

pub exist : Hash → Bytes → Bool
exist h key = GoMap.has key h.table

pub del_field : Hash → Bytes → Hash × ℕ
del_field h key = if exist h key then (record { table = GoMap.remove key h.table }, 1) else (h, 0)

pub len : Hash → ℕ
len h = length h.table

pub fields : Hash → List Bytes
fields h = GoMap.keys h.table

abbrev all_values : GoMap Bytes → List Bytes
all_values [] = []
all_values ((k, v) ∷ m) = v ∷ all_values m

pub values : Hash → List Bytes
values h = all_values h.table

pub clear : Hash → Hash
clear h = new_hash

pub is_empty : Hash → Bool
is_empty h = is_nil_table h.table
  where
    is_nil_table : GoMap Bytes → Bool
    is_nil_table [] = Bool.true
    is_nil_table (e ∷ m) = Bool.false

pub str_len : Hash → Bytes → ℕ
str_len h key = length (get_field h key)

-- the sum, which wraps around, or `none` where the old value is no integer
incr_value : Hash → Bytes → ℤ → Option ℤ → Hash × Option ℤ
incr_value h key incr none = (h, none)
incr_value h key incr (some n) = (set_field h key (itoa (add64 n incr)), some (add64 n incr))

pub incr_by : Hash → Bytes → ℤ → Hash × Option ℤ
unfolding incr_value
incr_by h key incr = elim (get_field h key) [
  | [] ↦ (set_field h key (itoa incr), some incr)
  | c ∷ s ↦ incr_value h key incr (atoi (c ∷ s))
]
