-- ===== src/Protocol/Commands.antt =====
-- protocol/commands.rs: the commands CLOSE and EVENT.
pub mod RoundTrip
use nostrd.Base.{
  ℕ, String, Option, none, some, List, [], ◌∷◌, Bool, true, false, str_eq, length, ◌==◌,
  if◌then◌else◌,
}
use nostrd.Base.Outcome.{Outcome, ok, err, panic, ◌>>=◌, ◌>>◌, lift, map_err, ok_or, index}
use nostrd.Config.{Settings}
use nostrd.Error.{display}
use nostrd.Json.{
  Value, string, array_of, as_array, merge, JsonError, custom, invalid_type, invalid_value,
}
use nostrd.Primitives.{Primitives, EventId}
use nostrd.Protocol.Event.{Event}
use nostrd.Protocol.Event.Serial.{event_to_value}
use nostrd.Protocol.Event.Validity.{event_from_str}

module _ ⦃lib : Primitives⦄ where
  pub record Close : Type 0 where
    pub id : EventId

  pub record EventCmd : Type 0 where
    pub event : Event

  -- `Serialize for Close`
  unfoldable pub close_to_value : Close → Value
  close_to_value c = array_of (string "CLOSE" ∷ lib.hash.to_value c.id ∷ [])

  -- the flag of a close message, and its identifier
  unfoldable pub close_of_flag : Value → Value → Outcome JsonError Close
  close_of_flag (string flag) item =
      if str_eq flag "CLOSE"
      then (do
        id ← lift (λ e. custom (lib.json.message e)) (lib.hash.from_value item)
        ok (record { id = id }))
      else err (invalid_type "closing message flag" "CLOSE")
  close_of_flag _ item = err (invalid_type "flag type in close message" "a json string")

  unfoldable pub close_of_items : List Value → Outcome JsonError Close
  close_of_items items =
      if length items == 2
      then (do flag ← index items 0; item ← index items 1; close_of_flag flag item)
      else err (custom "Invalid length of close message, expected 2")

  -- `Deserialize for Close`
  unfoldable pub close_from_value : Value → Outcome JsonError Close
  close_from_value v = do
    items ← ok_or (invalid_type "Close message value" "a jason array") (as_array (merge v))
    close_of_items items

  -- `Serialize for EventCmd`
  unfoldable pub event_cmd_to_value : EventCmd → Value
  event_cmd_to_value c = array_of (string "EVENT" ∷ event_to_value c.event ∷ [])

  -- `value == "text"`
  abbrev is_text : String → Value → Bool
  is_text t (string s) = str_eq s t
  is_text t _ = false

  -- the event of the message, validated by `Event::from_str`
  unfoldable pub event_item : Settings → ℕ → Value → Outcome JsonError EventCmd
  event_item settings now item = do
    event ← map_err (λ e. custom (display e)) (event_from_str settings now (lib.json.print item))
    ok (record { event = event })

  unfoldable pub event_cmd_of_items : Settings → ℕ → List Value → Outcome JsonError EventCmd
  event_cmd_of_items settings now items = index items 0 >>= λ flag.
      if is_text "EVENT" flag
      then (do item ← index items 1; event_item settings now item)
      else err (invalid_value "message flag" "EVENT")

  -- `Deserialize for EventCmd`, at the time `now`
  unfoldable pub event_cmd_from_value : Settings → ℕ → Value → Outcome JsonError EventCmd
  event_cmd_from_value settings now v = do
    items ← ok_or (invalid_type "json type in event message" "a json array") (as_array (merge v))
    event_cmd_of_items settings now items

  -- `From<EventCmd> for Event`
  unfoldable pub event_of_cmd : EventCmd → Event
  event_of_cmd c = c.event
