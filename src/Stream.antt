-- ===== src/Stream.antt =====
-- protostream.rs: the protocol over a WebSocket. What the socket yields and answers is an argument.
pub mod Laws
pub mod Requests
use Prim.Native.String.{len}
use nostrd.Base.{ℕ, String, Option, none, some, Bool, ◌&&◌, ltb, if◌then◌else◌}
use nostrd.Base.Outcome.{Outcome, ok, err, panic, ◌>>=◌, lift, map_err}
use nostrd.Config.{Settings}
use nostrd.Error.{
  Error, proto_parse_error, conn_error, conn_write_error, event_max_length_error, json_parse_failed,
}
use nostrd.Json.{Value, JsonError, no_variant}
use nostrd.Primitives.{Primitives, WsError, already_closed, connection_closed, other_ws_error}
use nostrd.Protocol.Event.{Event}
use nostrd.Protocol.Subscription.{Subscription}
use nostrd.Protocol.Subscription.Serial.{subscription_to_value, subscription_from_value}
use nostrd.Protocol.Commands.{
  Close, EventCmd, close_to_value, close_from_value, event_cmd_to_value, event_cmd_from_value,
}
use nostrd.Protocol.Responses.{
  NoticeResp, EventResp, notice_resp, event_resp, notice_to_value, event_resp_to_value,
}

-- `tungstenite::Message`
pub data WsMessage : Type 0 where
  text : String → WsMessage
  binary ping pong close_frame : WsMessage

-- what polling the socket gives
pub data WsPoll : Type 0 where
  ws_pending ws_end : WsPoll
  ws_message : WsMessage → WsPoll
  ws_error : WsError → WsPoll

module _ ⦃lib : Primitives⦄ where
  pub data NostrMessage : Type 0 where
    event : EventCmd → NostrMessage
    req : Subscription → NostrMessage
    close : Close → NostrMessage

  pub data NostrResponse : Type 0 where
    notice : NoticeResp → NostrResponse
    event_response : EventResp → NostrResponse

  unfoldable pub new_notice : String → NostrResponse
  unfolding notice_resp
  new_notice msg = notice (notice_resp msg)

  unfoldable pub new_event : String → Event → NostrResponse
  unfolding event_resp
  new_event subs_id e = event_response (event_resp subs_id e)

  -- the untagged `Serialize`
  unfoldable pub message_to_value : NostrMessage → Value
  message_to_value (event c) = event_cmd_to_value c
  message_to_value (req s) = subscription_to_value s
  message_to_value (close c) = close_to_value c

  unfoldable pub response_to_value : NostrResponse → Value
  unfolding notice_to_value event_resp_to_value
  response_to_value (notice r) = notice_to_value r
  response_to_value (event_response r) = event_resp_to_value r

  -- One variant of an untagged enum is tried, and the next if it is an error.
  abbrev or_else :
      {A B : Type 0} → Outcome JsonError A → (A → B) → Outcome JsonError B → Outcome JsonError B
  or_else (ok a) variant rest = ok (variant a)
  or_else (err e) variant rest = rest
  or_else panic variant rest = panic

  -- the untagged `Deserialize`: the variants in the order of their declaration
  unfoldable pub message_from_value : Settings → ℕ → Value → Outcome JsonError NostrMessage
  message_from_value settings now v = or_else (event_cmd_from_value settings now v) event (
      or_else (subscription_from_value v) req (or_else (close_from_value v) close (err no_variant)))

  -- `serde_json::from_str` into a message
  unfoldable pub message_from_str : Settings → ℕ → String → Outcome Error NostrMessage
  message_from_str settings now msg = do
    v ← lift json_parse_failed (lib.json.read msg)
    map_err json_parse_failed (message_from_value settings now v)

  -- the limit on the length of an EVENT message
  abbrev pub limit_event : Option ℕ → ℕ → NostrMessage → Outcome Error NostrMessage
  limit_event none size m = ok m
  limit_event (some max_size) size m =
      if ltb max_size size && ltb 0 max_size then err (event_max_length_error size) else ok m

  abbrev pub limited : Option ℕ → ℕ → NostrMessage → Outcome Error NostrMessage
  limited max size (event c) = limit_event max size (event c)
  limited max size m = ok m

  -- the match on the parsed result
  abbrev pub checked : Option ℕ → ℕ → Outcome Error NostrMessage → Outcome Error NostrMessage
  checked max size (ok m) = limited max size m
  checked max size (err e) = err proto_parse_error
  checked max size panic = panic

  -- `convert`
  unfoldable pub convert : Settings → ℕ → String → Outcome Error NostrMessage
  convert settings now msg =
      checked settings.limits.max_event_bytes (len msg) (message_from_str settings now msg)

  -- `Poll<Option<Result<NostrMessage>>>`; the panic of an item is one of the call
  pub data Next : Type 0 where
    pending finished : Next
    item : Outcome Error NostrMessage → Next

  abbrev of_message : Settings → ℕ → WsMessage → Next
  of_message settings now (text vs) = item (convert settings now vs)
  of_message settings now binary = item (err proto_parse_error)
  of_message settings now pong = pending
  of_message settings now ping = pending
  of_message settings now close_frame = finished

  abbrev of_error : WsError → Next
  of_error already_closed = finished
  of_error connection_closed = finished
  of_error (other_ws_error _) = item (err conn_error)

  -- `Stream::poll_next`
  unfoldable pub poll_next : Settings → ℕ → WsPoll → Next
  poll_next settings now ws_pending = pending
  poll_next settings now ws_end = finished
  poll_next settings now (ws_message m) = of_message settings now m
  poll_next settings now (ws_error e) = of_error e

  -- `Sink::start_send`: the text given to the socket, and the result by the socket's answer
  unfoldable pub start_send : Option WsError → NostrResponse → String × Outcome Error Unit
  start_send answer r = (
    lib.json.print (response_to_value r),
    elim answer [ none ↦ ok tt | some _ ↦ err conn_write_error ],
  )

  -- what the socket answers when the sink asks whether it can take a message
  pub data WsReady : Type 0 where
    ws_not_ready : WsReady
    ws_ready : Option WsError → WsReady

  -- `Poll<Result<(), Error>>`
  pub data Readiness : Type 0 where
    not_ready : Readiness
    ready_with : Outcome Error Unit → Readiness

  -- `Sink::poll_ready`
  unfoldable pub poll_ready : WsReady → Readiness
  poll_ready ws_not_ready = not_ready
  poll_ready (ws_ready none) = ready_with (ok tt)
  poll_ready (ws_ready (some e)) = ready_with (err conn_write_error)

  -- `Sink::poll_flush` and `Sink::poll_close`: the socket is not asked
  unfoldable pub poll_flush : Readiness
  poll_flush = ready_with (ok tt)

  unfoldable pub poll_close : Readiness
  poll_close = ready_with (ok tt)
