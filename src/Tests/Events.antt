-- ===== src/Tests/Events.antt =====
-- Events at concrete values.
use nostrd.Base.{◌≡◌, refl, ◌↔◌}
use nostrd.Base.Outcome.{ok}
use nostrd.Config.{default_settings}
use nostrd.Protocol.Event.Serial.{event_to_value}
use nostrd.Protocol.Event.Validity.{
  is_valid, event_from_str, IsGenuine, is_valid-IsGenuine_iff, event_from_str-print,
}
use nostrd.Tests.Text.{print}
use nostrd.Tests.Toy.{toy}
use nostrd.Tests.Samples.{note, note_valid}

is_valid-IsGenuine_iff_example :
    (is_valid default_settings 900 note ≡ ok tt) ↔ IsGenuine default_settings 900 note
is_valid-IsGenuine_iff_example = is_valid-IsGenuine_iff default_settings 900 note

note_read : event_from_str default_settings 900 (print (event_to_value note)) ≡ ok note
note_read = rw (event_from_str-print, note_valid) refl
