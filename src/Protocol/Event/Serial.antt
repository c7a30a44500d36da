-- ===== src/Protocol/Event/Serial.antt =====
-- protocol/event.rs: the JSON form of kinds and events. The derived `Serialize` and `Deserialize`
-- of `Event` follow from its fields: the entries are read in order, an unknown one is skipped, a
-- repeated one and a missing one are errors, and an array of the seven values is accepted too.
use nostrd.Base.{ℕ, zero, suc, String, Option, none, some, List, map, str_eq, if◌then◌else◌}
use nostrd.Base.Outcome.{Outcome, ok, err, ◌>>=◌, ◌>>◌, lift, ok_or}
use nostrd.Json.{
  Value, Fields, unsigned, string, array, object, end, field, array_of, to_list, as_u64, JsonError,
  custom, invalid_type, invalid_value, missing_field, duplicate_field,
}
use nostrd.Json.Reading.{
  u64_from_value, string_from_value, list_from_value, same_error, next, nothing_left,
}
use nostrd.Primitives.{Primitives, EventId, PublicKey, Signature}
use nostrd.Protocol.Tags.{Tag, tag_to_value, tag_from_value}
use nostrd.Protocol.Event.{EventKind, set_metadata, text_note, recommended_server, Event}

-- `Serialize for EventKind`
unfoldable pub kind_to_u64 : EventKind → ℕ
kind_to_u64 set_metadata = 0
kind_to_u64 text_note = 1
kind_to_u64 recommended_server = 2

kind_of_u64 : ℕ → Outcome JsonError EventKind
kind_of_u64 zero = ok set_metadata
kind_of_u64 (suc zero) = ok text_note
kind_of_u64 (suc (suc zero)) = ok recommended_server
kind_of_u64 _ = err (invalid_value "unsigned integer" "0, 1 or 2")

-- `Deserialize for EventKind`
unfoldable pub kind_from_value : Value → Outcome JsonError EventKind
unfolding kind_of_u64
kind_from_value v = do
  value ← ok_or (invalid_type "invalid json value" "json number") (as_u64 v)
  kind_of_u64 value

module _ ⦃lib : Primitives⦄ where
  unfoldable pub tags_from_value : Value → Outcome JsonError (List Tag)
  unfolding list_from_value
  tags_from_value v = list_from_value tag_from_value v

  -- `Serialize for Event`
  unfoldable pub event_to_value : Event → Value
  event_to_value e = object (
      field "id" (lib.hash.to_value e.id) (
        field "pubkey" (lib.key.to_value e.pubkey) (
          field "created_at" (unsigned e.created_at) (
            field "kind" (unsigned (kind_to_u64 e.kind)) (
              field "tags" (array_of (map tag_to_value e.tags)) (
                field "content" (string e.content)
                  (field "sig" (lib.signature.to_value e.sig) end)))))))

  -- the fields that have been read so far
  pub record Partial : Type 0 where
    pub id : Option EventId
    pub pubkey : Option PublicKey
    pub created_at : Option ℕ
    pub kind : Option EventKind
    pub tags : Option (List Tag)
    pub content : Option String
    pub sig : Option Signature

  abbrev no_fields : Partial
  no_fields = record {
    id = none;
    pubkey = none;
    created_at = none;
    kind = none;
    tags = none;
    content = none;
    sig = none;
  }

  -- a field that is set already is an error
  abbrev once : {A : Type 0} → String → Option A → Outcome JsonError A → Outcome JsonError A
  once name (some a) m = err (duplicate_field name)
  once name none m = m

  unfoldable pub read_entry : Partial → String → Value → Outcome JsonError Partial
  read_entry p key v =
      if str_eq key "id"
      then (do
        a ← once "id" p.id (lift same_error (lib.hash.from_value v))
        ok (record p { id = some a }))
      else if str_eq key "pubkey"
      then (do
        a ← once "pubkey" p.pubkey (lift same_error (lib.key.from_value v))
        ok (record p { pubkey = some a }))
      else if str_eq key "created_at"
      then (do
        a ← once "created_at" p.created_at (u64_from_value v)
        ok (record p { created_at = some a }))
      else if str_eq key "kind"
      then (do a ← once "kind" p.kind (kind_from_value v); ok (record p { kind = some a }))
      else if str_eq key "tags"
      then (do a ← once "tags" p.tags (tags_from_value v); ok (record p { tags = some a }))
      else if str_eq key "content"
      then (do
        a ← once "content" p.content (string_from_value v)
        ok (record p { content = some a }))
      else if str_eq key "sig"
      then (do
        a ← once "sig" p.sig (lift same_error (lib.signature.from_value v))
        ok (record p { sig = some a }))
      else ok p

  unfoldable pub read_entries : Partial → Fields → Outcome JsonError Partial
  read_entries p end = ok p
  read_entries p (field key v rest) = do q ← read_entry p key v; read_entries q rest

  unfoldable pub finish : Partial → Outcome JsonError Event
  finish p = do
    id ← ok_or (missing_field "id") p.id
    pubkey ← ok_or (missing_field "pubkey") p.pubkey
    created_at ← ok_or (missing_field "created_at") p.created_at
    kind ← ok_or (missing_field "kind") p.kind
    tags ← ok_or (missing_field "tags") p.tags
    content ← ok_or (missing_field "content") p.content
    sig ← ok_or (missing_field "sig") p.sig
    ok (record {
      id = id;
      pubkey = pubkey;
      created_at = created_at;
      kind = kind;
      tags = tags;
      content = content;
      sig = sig;
    })

  -- the values by position
  unfoldable pub event_of_seq : List Value → Outcome JsonError Event
  event_of_seq vs = do
    (a, vs1) ← next 0 "struct Event with 7 elements" vs
    id ← lift same_error (lib.hash.from_value a)
    (b, vs2) ← next 1 "struct Event with 7 elements" vs1
    pubkey ← lift same_error (lib.key.from_value b)
    (c, vs3) ← next 2 "struct Event with 7 elements" vs2
    created_at ← u64_from_value c
    (d, vs4) ← next 3 "struct Event with 7 elements" vs3
    kind ← kind_from_value d
    (e, vs5) ← next 4 "struct Event with 7 elements" vs4
    tags ← tags_from_value e
    (f, vs6) ← next 5 "struct Event with 7 elements" vs5
    content ← string_from_value f
    (g, vs7) ← next 6 "struct Event with 7 elements" vs6
    sig ← lift same_error (lib.signature.from_value g)
    nothing_left (custom "trailing characters") vs7
    ok (record {
      id = id;
      pubkey = pubkey;
      created_at = created_at;
      kind = kind;
      tags = tags;
      content = content;
      sig = sig;
    })

  -- `Deserialize for Event`
  unfoldable pub event_from_value : Value → Outcome JsonError Event
  event_from_value (object fs) = do p ← read_entries no_fields fs; finish p
  event_from_value (array vs) = event_of_seq (to_list vs)
  event_from_value _ = err (invalid_type "value" "struct Event")
