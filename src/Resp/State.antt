-- ===== src/Resp/State.antt =====
-- The error, result and state types of resp/parser.go.
use redis_go.Prelude.{Bool, false, Bytes}
use redis_go.Prelude.Int.{ℤ, pos}
use redis_go.Resp.Structure.{RedisData, Elements, nil}

pub data ParseError : Type 0 where
  end_of_file unexpected_eof reader_error too_short : ParseError
  protocol bad_integer : Bytes → ParseError

-- `ParsedRes`: one of `Data` and `Err` is set
pub data ParsedRes : Type 0 where
  parsed : RedisData → ParsedRes
  failed : ParseError → ParsedRes

pub record ReadState : Type 0 where
  pub bulk_len : ℤ
  pub array_len : ℤ
  pub multi_line : Bool
  pub elements : Elements
  pub in_array : Bool

-- `readState{}`
abbrev pub init : ReadState
init = record {
  bulk_len = pos 0;
  array_len = pos 0;
  multi_line = false;
  elements = nil;
  in_array = false;
}
