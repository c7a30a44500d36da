-- ===== src/Protocol/Responses.antt =====
-- protocol/responses.rs: the messages EVENT and NOTICE to a client.
use nostrd.Base.{String, [], ◌∷◌}
use nostrd.Json.{Value, string, array_of}
use nostrd.Primitives.{Primitives}
use nostrd.Protocol.Event.{Event}
use nostrd.Protocol.Event.Serial.{event_to_value}

pub record NoticeResp : Type 0 where
  pub message : String

-- `Serialize for NoticeResp`
unfoldable pub notice_to_value : NoticeResp → Value
notice_to_value r = array_of (string "NOTICE" ∷ string r.message ∷ [])

-- `NoticeResp::new`
unfoldable pub notice_resp : String → NoticeResp
notice_resp message = record { message = message }

module _ ⦃lib : Primitives⦄ where
  pub record EventResp : Type 0 where
    pub subscription_id : String
    pub event : Event

  -- `Serialize for EventResp`
  unfoldable pub event_resp_to_value : EventResp → Value
  event_resp_to_value r =
      array_of (string "EVENT" ∷ string r.subscription_id ∷ event_to_value r.event ∷ [])

  -- `EventResp::new`
  unfoldable pub event_resp : String → Event → EventResp
  event_resp subscription_id event = record { subscription_id = subscription_id; event = event }
