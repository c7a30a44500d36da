-- ===== src/Error.antt =====
-- error.rs: the error type of the crate, and the texts that `thiserror` derives for `Display`.
use Prim.Native.String.{◌++◌ as append}
use nostrd.Base.{ℕ, zero, suc, String, ltb, ◌/◌, ◌%◌, if◌then◌else◌}
use nostrd.Json.{JsonError}
use nostrd.Primitives.{Primitives, WsError}

pub data Error : Type 0 where
  proto_parse_error conn_error conn_write_error event_parse_failed close_parse_failed : Error
  event_invalid : String → Error
  event_max_length_error : ℕ → Error
  sub_id_max_length_error sub_max_exceeded_error : Error
  json_parse_failed : JsonError → Error
  websocket_error : WsError → Error
  command_unknown_error : Error
  -- the errors of `rusqlite` and `config`, by their texts
  sql_error config_error : String → Error
  database_dir_error : Error
  generic_error : String → Error

digit : ℕ → String
digit zero = "0"
digit (suc zero) = "1"
digit (suc (suc zero)) = "2"
digit (suc (suc (suc zero))) = "3"
digit (suc (suc (suc (suc zero)))) = "4"
digit (suc (suc (suc (suc (suc zero))))) = "5"
digit (suc (suc (suc (suc (suc (suc zero)))))) = "6"
digit (suc (suc (suc (suc (suc (suc (suc zero))))))) = "7"
digit (suc (suc (suc (suc (suc (suc (suc (suc zero)))))))) = "8"
digit _ = "9"

digits : ℕ → ℕ → String
digits zero n = ""
digits (suc f) n =
    let high = digits f (n / 10) in if ltb n 10 then digit n else append high (digit (n % 10))

-- `Display` of an unsigned integer: a `u64` has at most twenty decimal digits.
unfoldable pub decimal : ℕ → String
unfolding digit digits
decimal n = digits 20 n

-- `Display for Error`, from the `#[error]` attributes
unfoldable pub display : ⦃lib : Primitives⦄ → Error → String
display Error.proto_parse_error = "Protocol parse error"
display Error.conn_error = "Connection error"
display Error.conn_write_error = "Client write error"
display Error.event_parse_failed = "EVENT parse failed"
display Error.close_parse_failed = "ClOSE message parse failed"
display (Error.event_invalid s) = append "Event validation failed, Reason : " s
display (Error.event_max_length_error n) = append "Event too large, Size : " (decimal n)
display Error.sub_id_max_length_error = "Subscription identifier max length exceeded"
display Error.sub_max_exceeded_error = "Maximum concurrent subscription count reached"
display ⦃lib⦄ (Error.json_parse_failed e) =
    append "JSON parsing failed, Reason : " (lib.json.message e)
display ⦃lib⦄ (Error.websocket_error e) = append "WebSocket error : Reason : " (lib.ws_message e)
display Error.command_unknown_error = "Command unknown"
display (Error.sql_error s) = append "SQL error, Reason : " s
display (Error.config_error s) = append "Config error, Reason : " s
display Error.database_dir_error = "Data directory does not exist"
display (Error.generic_error s) = append "Generic Error, Reason: " s
