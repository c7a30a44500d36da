-- ===== src/Protocol/Commands/RoundTrip.antt =====
-- protocol/commands.rs: reading commands back, and which EVENT messages panic.
use nostrd.Base.{ℕ, ◌≡◌, refl, ◌↔◌, ◌⊎◌, inl, inr, List, [], ◌∷◌, arith, eq_iff}
use nostrd.Base.Outcome.{ok, panic, ◌>>=◌, map_err}
use nostrd.Config.{Settings}
use nostrd.Error.{display}
use nostrd.Json.{Value, string, to_list, from_list, merge, insert_field, custom}
use nostrd.Json.Merge.{merge-array, merge-to_value}
use nostrd.Primitives.{Primitives}
use nostrd.Protocol.Tags.{Tag, event, pubkey, tag_to_value}
use nostrd.Protocol.Event.{Event}
use nostrd.Protocol.Event.Serial.{event_to_value}
use nostrd.Protocol.Event.Validity.{event_from_str, event_from_str-print, is_valid}
use nostrd.Protocol.Commands.{
  Close, EventCmd, close_to_value, close_from_value, close_of_items, close_of_flag,
  event_cmd_to_value, event_cmd_from_value, event_cmd_of_items, event_item,
}

module _ ⦃lib : Primitives⦄ where
  merge-tag : (t : Tag) → merge (tag_to_value t) ≡ tag_to_value t
  unfolding tag_to_value merge from_list
  merge-tag (event t) = ground arith
  merge-tag (pubkey t) = ground arith

  pub merge-event : (e : Event) → merge (event_to_value e) ≡ event_to_value e
  unfolding event_to_value merge insert_field
  merge-event e = rw (
    merge-to_value lib.hash e.id,
    merge-to_value lib.key e.pubkey,
    merge-array tag_to_value merge-tag e.tags,
    merge-to_value lib.signature e.sig,
  )

  -- A CLOSE message that is serialized is deserialized to itself.
  pub close_from_value-close_to_value : (c : Close) → close_from_value (close_to_value c) ≡ ok c
  unfolding close_from_value close_to_value close_of_items close_of_flag merge from_list to_list
  close_from_value-close_to_value c =
      rw (merge-to_value lib.hash c.id, lib.hash.from_value-to_value c.id)

  -- An EVENT message that is serialized is deserialized to itself if its event is valid at the time
  -- of reading, and else to the text of the validation's error.
  pub event_cmd_from_value-event_cmd_to_value :
      (settings : Settings) (now : ℕ) (c : EventCmd)
      → event_cmd_from_value settings now (event_cmd_to_value c)
        ≡ (map_err (λ e. custom (display e)) (is_valid settings now c.event) >>= λ _. ok c)
  unfolding event_cmd_from_value event_cmd_to_value event_cmd_of_items event_item merge from_list
      to_list
  event_cmd_from_value-event_cmd_to_value settings now c =
      rw (merge-event c.event, event_from_str-print settings now c.event) (ground arith)

  -- What of an EVENT message makes its deserializer panic.
  abbrev pub Crashes : Settings → ℕ → List Value → Type 0
  Crashes settings now items =
      (items ≡ [])
      ⊎ ((items ≡ string "EVENT" ∷ [])
          ⊎ ((item : Value) × (rest : List Value) × (items ≡ string "EVENT" ∷ item ∷ rest)
              × (event_from_str settings now (lib.json.print item) ≡ panic)))

  panic→crashes :
      (settings : Settings) (now : ℕ) (items : List Value)
      → event_cmd_of_items settings now items ≡ panic
      → Crashes settings now items
  unfolding event_cmd_of_items event_item
  panic→crashes settings now [] h = inl refl
  panic→crashes settings now (string s ∷ []) h = ground (arith, eq_iff s "EVENT")
  panic→crashes settings now (string s ∷ item ∷ rest) h =
      inr (inr (item, rest, ground (arith, eq_iff s "EVENT"), ground arith))
  panic→crashes settings now (v ∷ rest) h = ground arith

  crashes→panic :
      (settings : Settings) (now : ℕ) (items : List Value)
      → Crashes settings now items
      → event_cmd_of_items settings now items ≡ panic
  unfolding event_cmd_of_items event_item
  crashes→panic settings now items (inl e) = rw e
  crashes→panic settings now items (inr (inl e)) = rw e
  crashes→panic settings now items (inr (inr (item, rest, e, p))) = rw (e, p)

  -- Reading an array as an EVENT message panics exactly when it is empty, is the flag "EVENT" alone,
  -- or holds behind the flag a value that makes the reading of the event panic.
  pub event_cmd_of_items-panic_iff :
      (settings : Settings) (now : ℕ) (items : List Value)
      → (event_cmd_of_items settings now items ≡ panic) ↔ Crashes settings now items
  event_cmd_of_items-panic_iff settings now items =
      (panic→crashes settings now items, crashes→panic settings now items)
