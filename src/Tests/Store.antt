-- ===== src/Tests/Store.antt =====
-- The store at concrete values.
use nostrd.Base.{
  String, true, List, ◌≡◌, ◌≢◌, ◌<◌, ◌^◌, refl, ◌↔◌, ◌⊎◌, none, [], ◌∷◌, Mem, false, arith,
}
use nostrd.Base.Outcome.{ok, panic}
use nostrd.Protocol.Tags.{Tag, get_type, event_type, pubkey_type}
use nostrd.Db.{Tables}
use nostrd.Db.Write.{Faults, has_hash, write_event, event_row}
use nostrd.Db.Writes.{write_event-panic_iff, write_event-Written, Written}
use nostrd.Base.{String_discrete, any, keep}
use nostrd.Json.{from_list}
use nostrd.Protocol.Tags.{TagType-discrete, tag_to_value, tag_to_string}
use nostrd.Protocol.Event.{get_event_tags, get_pubkey_tags}
use nostrd.Protocol.Event.Serial.{kind_to_u64}
use nostrd.Protocol.Event.Validity.{compute_event_id}
use nostrd.Db.Write.{write_body, write_details, insert_refs, supersede, insert_ref, row_ids}
use nostrd.Tests.Text.{put}
use nostrd.Db.Writer.{Arrival, next_event}
use nostrd.Base.{some, inl}
use nostrd.Db.{EventRow}
use nostrd.Db.Query.{JoinedRow, is_selected, filter_components, hex_keys, is_hex}
use nostrd.Db.Query.Laws.{is_selected-no_references, is_selected-hidden}
use nostrd.Db.Query.Agreement.{joined, is_selected-filter_interested}
use nostrd.Protocol.Event.{text_note}
use nostrd.Protocol.Subscription.{ReqFilter, filter_interested}
use nostrd.Tests.Samples.{empty_filter, replies}
use nostrd.Tests.Toy.{toy, toy_engine}
use nostrd.Base.{All}
use nostrd.Db.Metadata.{IsCurrent, write_event-IsCurrent}
use nostrd.Protocol.Event.{Event, set_metadata}
use nostrd.Tests.Samples.{seal, draft, ev_tag, key_tag}
use nostrd.Tests.Samples.{note, profile}

abbrev pub calm : Faults
calm _ = none

abbrev pub empty : Tables
empty = record { events = []; event_refs = []; pubkey_refs = [] }

abbrev stored : Tables
stored = record empty { events = event_row 5 1 note ∷ [] }

write_event-panic_iff_example : ((write_event calm 5 profile empty).1 ≡ panic) ↔ (
    (profile.created_at < 2 ^ 63)
    × (has_hash (toy_engine.hash_bytes profile.id) [] ≡ false)
    × (((t : Tag) → Mem t [] → get_type t ≢ event_type)
        ⊎ ((t : Tag) → Mem t [] → get_type t ≢ pubkey_type)))
write_event-panic_iff_example = write_event-panic_iff calm 5 profile empty (λ s. refl)

write_event-Written_example : Written 5 note empty (write_event calm 5 note empty).0 1
unfolding write_event write_body has_hash any write_details get_event_tags keep TagType-discrete
    get_type insert_refs get_pubkey_tags supersede kind_to_u64
write_event-Written_example = write_event-Written calm 5 note empty 1 refl

-- an event, its duplicate, one that makes the write panic, and one that is never read
abbrev pub arrivals : List Arrival
arrivals =
    next_event 5 calm note
    ∷ next_event 6 calm note
    ∷ next_event 7 calm profile
    ∷ next_event 8 calm note
    ∷ []

abbrev joined_row : EventRow → JoinedRow
joined_row row = record { event = row; referenced_event = none; referenced_pubkey = none }

abbrev pub by_author : ReqFilter
by_author = record empty_filter { authors = some ("2" ∷ []); kinds = some (text_note ∷ []) }

pub author_hex : (keys : List String) → by_author.authors ≡ some keys → hex_keys keys ≡ keys
unfolding keep is_hex
author_hex keys h = let same : ("2" ∷ []) ≡ keys = cc h in rw (← same) refl

is_selected-filter_interested_example :
    is_selected (joined 5 1 note none none) by_author ≡ filter_interested by_author note
unfolding filter_components
is_selected-filter_interested_example =
    is_selected-filter_interested by_author 5 1 note none none refl refl refl
      (λ ids h. absurd (cc h)) author_hex

is_selected-no_references_example : is_selected (joined 5 1 note none none) replies ≡ false
is_selected-no_references_example =
    is_selected-no_references replies (joined 5 1 note none none) (inl (ground arith)) refl refl

is_selected-hidden_example :
    is_selected (joined_row (record (event_row 5 1 note) { hidden = some true })) by_author
    ≡ is_selected (joined_row (event_row 5 1 note)) by_author
unfolding filter_components
is_selected-hidden_example =
    is_selected-hidden by_author (joined_row (event_row 5 1 note)) (some true) refl

-- a metadata event that refers to an event and to a key
abbrev renamed : Event
renamed = seal (draft set_metadata (ev_tag ∷ key_tag ∷ []))

abbrev named : Tables
named = record empty { events = event_row 5 1 profile ∷ [] }

renamed_written : (write_event calm 6 renamed named).1 ≡ ok 1
unfolding write_event write_body has_hash any write_details get_event_tags keep TagType-discrete
    get_type insert_refs get_pubkey_tags supersede kind_to_u64 String_discrete event_row
    compute_event_id put from_list tag_to_value insert_ref tag_to_string
renamed_written = refl

write_event-IsCurrent_example :
    All
      (IsCurrent renamed (toy_engine.fresh_rowid (row_ids named.events)))
      (write_event calm 6 renamed named).0.events
write_event-IsCurrent_example =
    write_event-IsCurrent calm 6 renamed named (unfold kind_to_u64 in refl) renamed_written
