-- ===== src/Tests/Protocol.antt =====
-- Tags, commands and messages at concrete values.
use nostrd.Base.{◌≡◌, refl, ◌↔◌, ◌≢◌, some, [], ◌∷◌, map, ◌<◌, ◌≤◌, ℕ}
use nostrd.Base.Outcome.{ok, panic}
use nostrd.Config.{default_settings}
use nostrd.Json.{string, unsigned, array_of, null}
use nostrd.Protocol.Tags.{tag_from_value, tag_to_value}
use nostrd.Protocol.Tags.RoundTrip.{
  tag_from_value-tag_to_value, tag_from_value-panic_iff, tag_from_value-HasShape_iff, IsShort,
  HasShape,
}
use nostrd.Protocol.Commands.{EventCmd, event_cmd_to_value, event_cmd_of_items}
use nostrd.Protocol.Commands.RoundTrip.{event_cmd_of_items-panic_iff, Crashes}
use nostrd.Protocol.Subscription.Serial.{subscription_from_value}
use nostrd.Protocol.Subscription.NoPanic.{subscription_from_value-no_panic}
use nostrd.Stream.{event, message_from_value, message_to_value, convert}
use nostrd.Stream.Laws.{message_from_value-message_to_value, convert-event}
use nostrd.Json.{from_list}
use nostrd.Stream.{message_from_str}
use nostrd.Protocol.Event.Validity.{IsGenuine}
use nostrd.Protocol.Event.Serial.{event_to_value, kind_to_u64}
use nostrd.Protocol.Event.Validity.{compute_event_id}
use nostrd.Tests.Text.{print, put, read-print}
use nostrd.Base.{String_discrete}
use Prim.Native.String.{len}
use nostrd.Tests.Toy.{toy}
use nostrd.Tests.Samples.{url_tag, note, note_valid}

tag_from_value-tag_to_value_example : tag_from_value (tag_to_value url_tag) ≡ ok url_tag
tag_from_value-tag_to_value_example = tag_from_value-tag_to_value url_tag

tag_from_value-panic_iff_example :
    (tag_from_value (array_of (map string ("e" ∷ []))) ≡ panic) ↔ IsShort ("e" ∷ [])
tag_from_value-panic_iff_example = tag_from_value-panic_iff ("e" ∷ [])

tag_from_value-HasShape_iff_example :
    (tag_from_value (array_of (map string ("e" ∷ "f1" ∷ "wss://relay" ∷ []))) ≡ ok url_tag)
    ↔ HasShape ("e" ∷ "f1" ∷ "wss://relay" ∷ []) url_tag
tag_from_value-HasShape_iff_example =
    tag_from_value-HasShape_iff ("e" ∷ "f1" ∷ "wss://relay" ∷ []) url_tag

subscription_from_value-no_panic_example :
    subscription_from_value (array_of (string "REQ" ∷ null ∷ unsigned 3 ∷ [])) ≢ panic
subscription_from_value-no_panic_example =
    subscription_from_value-no_panic (array_of (string "REQ" ∷ null ∷ unsigned 3 ∷ []))

abbrev pub posting : EventCmd
posting = record { event = note }

event_cmd_of_items-panic_iff_example :
    (event_cmd_of_items default_settings 900 (string "EVENT" ∷ []) ≡ panic)
    ↔ Crashes default_settings 900 (string "EVENT" ∷ [])
event_cmd_of_items-panic_iff_example =
    event_cmd_of_items-panic_iff default_settings 900 (string "EVENT" ∷ [])

message_from_value-message_to_value_example :
    message_from_value default_settings 900 (message_to_value (event posting)) ≡ ok (event posting)
message_from_value-message_to_value_example =
    message_from_value-message_to_value default_settings 900 (event posting) note_valid

pub posting_taken :
    convert default_settings 900 (print (message_to_value (event posting))) ≡ ok (event posting)
unfolding convert message_from_str default_settings put String_discrete event_cmd_to_value
    message_to_value from_list event_to_value tag_to_value kind_to_u64 compute_event_id
posting_taken =
    let taken : message_from_value default_settings 900 (message_to_value (event posting))
        ≡ ok (event posting) =
      message_from_value-message_to_value default_settings 900 (event posting) note_valid in
    rw (read-print (message_to_value (event posting)), taken) refl

convert-event_example :
    IsGenuine default_settings 900 note
    × ((max_size : ℕ)
        → default_settings.limits.max_event_bytes ≡ some max_size
        → 0 < max_size
        → len (print (message_to_value (event posting))) ≤ max_size)
convert-event_example =
    convert-event default_settings 900 (print (message_to_value (event posting))) posting
      posting_taken
