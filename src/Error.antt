-- ===== src/Error.antt =====
-- src/error.rs: the errors and the result type of the crate. An error of the system or of serde_json is
-- its text.
use rperf3_rs.Base.Text.{String}

pub data Error : Type 0 where
  io_error json_error connection_error protocol_error config_error test_error : String → Error

pub data Result (A : Type 0) : Type 0 where
  ok : A → Result A
  err : Error → Result A
