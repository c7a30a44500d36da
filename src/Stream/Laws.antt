-- ===== src/Stream/Laws.antt =====
-- protostream.rs: the messages are read back as what they are, and what `convert` lets through.
use Prim.Native.String.{len}
use nostrd.Base.{
  ℕ, String, ◌≤◌, ◌<◌, ◌≡◌, ◌≢◌, refl, ◌⊎◌, inl, inr, Option, none, some, List, [], ◌∷◌, arith,
}
use nostrd.Base.Outcome.{Outcome, ok, err, panic, lift, map_err, ok_or, map_err-eq-ok, >>=-eq-ok}
use nostrd.Config.{Settings}
use nostrd.Error.{Error, proto_parse_error, event_max_length_error, json_parse_failed, display}
use nostrd.Json.{
  Value, string, array_of, to_list, from_list, merge, invalid_type, as_array, custom, invalid_value,
}
use nostrd.Primitives.{Primitives}
use nostrd.Protocol.Event.Validity.{IsGenuine, is_valid, event_from_str, event_from_str-IsGenuine}
use nostrd.Protocol.Subscription.{Subscription}
use nostrd.Protocol.Subscription.Serial.{
  subscription_to_value, subscription_from_value, subscription_of_values,
}
use nostrd.Protocol.Subscription.RoundTrip.{subscription_from_value-subscription_to_value}
use nostrd.Protocol.Commands.{
  Close, EventCmd, close_to_value, event_cmd_from_value, event_cmd_of_items, event_item,
}
use nostrd.Protocol.Commands.RoundTrip.{
  close_from_value-close_to_value, event_cmd_from_value-event_cmd_to_value,
}
use nostrd.Stream.{
  NostrMessage, event, req, close, message_to_value, message_from_value, message_from_str, checked,
  convert,
}

module _ ⦃lib : Primitives⦄ where
  -- what a message needs to be read back
  abbrev pub Readable : Settings → ℕ → NostrMessage → Type 0
  Readable settings now (event c) = is_valid settings now c.event ≡ ok tt
  Readable settings now (req s) = s.filters ≢ []
  Readable settings now (close c) = Unit

  req-no_event :
      (settings : Settings) (now : ℕ) (s : Subscription)
      → event_cmd_from_value settings now (subscription_to_value s)
        ≡ err (invalid_value "message flag" "EVENT")
  unfolding event_cmd_from_value subscription_to_value event_cmd_of_items merge from_list to_list
  req-no_event settings now s = refl

  close-no_event :
      (settings : Settings) (now : ℕ) (c : Close)
      → event_cmd_from_value settings now (close_to_value c)
        ≡ err (invalid_value "message flag" "EVENT")
  unfolding event_cmd_from_value close_to_value event_cmd_of_items merge from_list to_list
  close-no_event settings now c = refl

  close-no_req :
      (c : Close)
      → subscription_from_value (close_to_value c)
        ≡ err (custom "Not enough data in subscription message")
  unfolding subscription_from_value close_to_value subscription_of_values from_list to_list
  close-no_req c = refl

  -- Every message that the relay can express is read back as the same message: an EVENT while its
  -- event is valid, a REQ that has a filter, any CLOSE. No other variant of the untagged enum
  -- accepts it first.
  pub message_from_value-message_to_value :
      (settings : Settings) (now : ℕ) (m : NostrMessage)
      → Readable settings now m
      → message_from_value settings now (message_to_value m) ≡ ok m
  unfolding message_from_value message_to_value
  message_from_value-message_to_value settings now (event c) valid =
      rw (event_cmd_from_value-event_cmd_to_value settings now c, valid)
  message_from_value-message_to_value settings now (req s) some_filter =
      rw (req-no_event settings now s, subscription_from_value-subscription_to_value s some_filter)
  message_from_value-message_to_value settings now (close c) _ =
      rw (close-no_event settings now c, close-no_req c, close_from_value-close_to_value c)

  items-item :
      (settings : Settings) (now : ℕ) (items : List Value) (c : EventCmd)
      → event_cmd_of_items settings now items ≡ ok c
      → (item : Value) × (event_item settings now item ≡ ok c)
  unfolding event_cmd_of_items
  items-item settings now [] c h = cc h
  items-item settings now (flag ∷ []) c h = ground arith
  items-item settings now (flag ∷ item ∷ rest) c h = (item, ground arith)

  item-IsGenuine :
      (settings : Settings) (now : ℕ) (item : Value) (c : EventCmd)
      → event_item settings now item ≡ ok c
      → IsGenuine settings now c.event
  unfolding event_item
  item-IsGenuine settings now item c h =
      let (e, read, made) =
        >>=-eq-ok
          (map_err (λ e. custom (display e)) (event_from_str settings now (lib.json.print item))) _
          h in
      let same : e ≡ c.event = ground (arith, made) in
      rw same at (
        event_from_str-IsGenuine settings now (lib.json.print item) e
          (map_err-eq-ok _ (event_from_str settings now (lib.json.print item)) read))

  cmd-IsGenuine :
      (settings : Settings) (now : ℕ) (v : Value) (c : EventCmd)
      → event_cmd_from_value settings now v ≡ ok c
      → IsGenuine settings now c.event
  unfolding event_cmd_from_value
  cmd-IsGenuine settings now v c h =
      let (items, listed, rest) =
        >>=-eq-ok
          (ok_or (invalid_type "json type in event message" "a json array") (as_array (merge v))) _
          h in
      let (item, made) = items-item settings now items c rest in
      item-IsGenuine settings now item c made

  message-event :
      (settings : Settings) (now : ℕ) (v : Value) (c : EventCmd)
      → message_from_value settings now v ≡ ok (event c)
      → event_cmd_from_value settings now v ≡ ok c
  unfolding message_from_value
  message-event settings now v c h = ground arith

  -- the value behind a message that was read
  str-value :
      (settings : Settings) (now : ℕ) (msg : String) (m : NostrMessage)
      → message_from_str settings now msg ≡ ok m
      → (v : Value) × (message_from_value settings now v ≡ ok m)
  unfolding message_from_str
  str-value settings now msg m h =
      let (v, parsed, made) = >>=-eq-ok (lift json_parse_failed (lib.json.read msg)) _ h in
      (v, map_err-eq-ok _ (message_from_value settings now v) made)

  checked-event :
      (max : Option ℕ) (size : ℕ) (o : Outcome Error NostrMessage) (c : EventCmd)
      → checked max size o ≡ ok (event c)
      → (o ≡ ok (event c)) × ((max_size : ℕ) → max ≡ some max_size → 0 < max_size → size ≤ max_size)
  checked-event none size o c h = (ground arith, λ n p q. cc p)
  checked-event (some k) size (ok (event d)) c h = (ground arith, λ n p q. ground arith)
  checked-event (some k) size (ok (req s)) c h = cc h
  checked-event (some k) size (ok (close s)) c h = cc h
  checked-event (some k) size (err e) c h = cc h
  checked-event (some k) size panic c h = cc h

  -- An EVENT message that `convert` lets through holds a genuine event, and is no longer than the
  -- configured limit, if one is set and is not 0.
  pub convert-event :
      (settings : Settings) (now : ℕ) (msg : String) (c : EventCmd)
      → convert settings now msg ≡ ok (event c)
      → IsGenuine settings now c.event
        × ((max_size : ℕ)
            → settings.limits.max_event_bytes ≡ some max_size
            → 0 < max_size
            → len msg ≤ max_size)
  unfolding convert
  convert-event settings now msg c h =
      let (read, short) =
        checked-event settings.limits.max_event_bytes (len msg) (message_from_str settings now msg)
          c h in
      let (v, made) = str-value settings now msg (event c) read in
      (cmd-IsGenuine settings now v c (message-event settings now v c made), short)

  checked-err :
      (max : Option ℕ) (size : ℕ) (o : Outcome Error NostrMessage) (x : Error)
      → checked max size o ≡ err x
      → (x ≡ proto_parse_error)
        ⊎ ((x ≡ event_max_length_error size)
            × ((max_size : ℕ) → max ≡ some max_size → max_size < size))
  checked-err max size (err e) x h = inl (cc h)
  checked-err max size panic x h = cc h
  checked-err none size (ok (event d)) x h = cc h
  checked-err (some k) size (ok (event d)) x h = inr (ground arith, λ n p. ground arith)
  checked-err max size (ok (req s)) x h = cc h
  checked-err max size (ok (close s)) x h = cc h

  -- Whatever text arrives, an error of `convert` is a parse error, or says the length of a message
  -- that is over the configured limit.
  pub convert-err :
      (settings : Settings) (now : ℕ) (msg : String) (x : Error)
      → convert settings now msg ≡ err x
      → (x ≡ proto_parse_error)
        ⊎ ((x ≡ event_max_length_error (len msg))
            × ((max_size : ℕ)
                → settings.limits.max_event_bytes ≡ some max_size
                → max_size < len msg))
  unfolding convert
  convert-err settings now msg x h =
      checked-err settings.limits.max_event_bytes (len msg) (message_from_str settings now msg) x h

  crash_value :
      (settings : Settings) (now : ℕ) (vs : List Value)
      → (vs ≡ []) ⊎ (vs ≡ string "EVENT" ∷ [])
      → message_from_value settings now (array_of vs) ≡ panic
  unfolding message_from_value event_cmd_from_value event_cmd_of_items merge from_list to_list
  crash_value settings now vs (inl e) = rw e
  crash_value settings now vs (inr e) = rw e

  -- A text that is read as an empty array, or as an array of the flag "EVENT" alone, makes
  -- `convert` panic.
  pub convert-panic :
      (settings : Settings) (now : ℕ) (msg : String) (vs : List Value)
      → (vs ≡ []) ⊎ (vs ≡ string "EVENT" ∷ [])
      → lib.json.read msg ≡ inr (array_of vs)
      → convert settings now msg ≡ panic
  unfolding convert
  convert-panic settings now msg vs crash read =
      let broken : message_from_str settings now msg ≡ panic =
        unfold message_from_str in rw (read, crash_value settings now vs crash) in
      rw broken
