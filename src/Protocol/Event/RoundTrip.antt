-- ===== src/Protocol/Event/RoundTrip.antt =====
-- protocol/event.rs: reading back kinds and events.
use nostrd.Base.{◌≡◌, refl, List, map}
use nostrd.Base.Outcome.{ok, collect-map}
use nostrd.Json.{unsigned, array_of, to_list-from_list}
use nostrd.Json.Reading.{u64_from_value, string_from_value}
use nostrd.Primitives.{Primitives}
use nostrd.Protocol.Tags.{Tag, tag_to_value, tag_from_value}
use nostrd.Protocol.Tags.RoundTrip.{tag_from_value-tag_to_value}
use nostrd.Protocol.Event.{EventKind, set_metadata, text_note, recommended_server, Event}
use nostrd.Protocol.Event.Serial.{
  kind_to_u64, kind_from_value, tags_from_value, event_to_value, event_from_value, read_entry,
  read_entries, finish,
}

pub kind_from_value-kind_to_u64 :
    (k : EventKind) → kind_from_value (unsigned (kind_to_u64 k)) ≡ ok k
unfolding kind_from_value kind_to_u64
kind_from_value-kind_to_u64 set_metadata = refl
kind_from_value-kind_to_u64 text_note = refl
kind_from_value-kind_to_u64 recommended_server = refl

module _ ⦃lib : Primitives⦄ where
  pub tags_from_value-array :
      (ts : List Tag) → tags_from_value (array_of (map tag_to_value ts)) ≡ ok ts
  unfolding tags_from_value
  tags_from_value-array ts =
      rw (to_list-from_list, collect-map tag_to_value tag_from_value tag_from_value-tag_to_value ts)

  -- An event that is serialized is deserialized to itself, field by field.
  pub event_from_value-event_to_value : (e : Event) → event_from_value (event_to_value e) ≡ ok e
  unfolding event_from_value event_to_value read_entries read_entry finish u64_from_value
      string_from_value
  event_from_value-event_to_value e = rw (
    lib.hash.from_value-to_value e.id,
    lib.key.from_value-to_value e.pubkey,
    kind_from_value-kind_to_u64 e.kind,
    tags_from_value-array e.tags,
    lib.signature.from_value-to_value e.sig,
  )
