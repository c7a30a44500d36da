-- ===== src/Tests/Samples.antt =====
-- The values of the tests.
use nostrd.Base.{String_discrete, String, ◌≡◌, refl, none, some, List, [], ◌∷◌}
use nostrd.Base.Outcome.{Outcome, ok, err, panic}
use nostrd.Config.{default_settings}
use nostrd.Error.{Error}
use nostrd.Protocol.Tags.{Tag, tag_to_value}
use nostrd.Protocol.Event.{Event, EventKind, text_note, set_metadata}
use nostrd.Protocol.Event.Serial.{kind_to_u64}
use nostrd.Protocol.Event.Validity.{compute_event_id, is_valid, check_time}
use nostrd.Protocol.Subscription.{ReqFilter, Subscription}
use nostrd.Json.{from_list}
use nostrd.Tests.Text.{put}
use nostrd.Tests.Toy.{toy}

abbrev pub ev_tag : Tag
ev_tag = Tag.event (record { event_id = "1"; recommended_url = none })

abbrev pub url_tag : Tag
url_tag = Tag.event (record { event_id = "1"; recommended_url = some "wss://relay" })

abbrev pub key_tag : Tag
key_tag = Tag.pubkey (record { pubkey = "2"; recommended_url = none })

abbrev pub id_of : Outcome Error String → String
id_of (ok id) = id
id_of (err _) = ""
id_of panic = ""

abbrev pub seal : Event → Event
seal e = record e { id = id_of (compute_event_id e); sig = "good" }

abbrev pub draft : EventKind → List Tag → Event
draft kind tags = record {
  id = "";
  pubkey = "2";
  created_at = 1000;
  kind = kind;
  tags = tags;
  content = "hi";
  sig = "";
}

abbrev pub note : Event
note = seal (draft text_note (ev_tag ∷ key_tag ∷ []))

abbrev pub profile : Event
profile = seal (draft set_metadata [])

abbrev pub linked : Event
linked = seal (draft text_note (url_tag ∷ []))

pub note_valid : is_valid default_settings 900 note ≡ ok tt
unfolding is_valid default_settings compute_event_id check_time kind_to_u64 tag_to_value
    String_discrete put from_list
note_valid = refl

abbrev pub empty_filter : ReqFilter
empty_filter = record {
  ids = none;
  kinds = none;
  events = none;
  pubkeys = none;
  since = none;
  until = none;
  authors = none;
}

abbrev pub replies : ReqFilter
replies = record empty_filter {
  kinds = some (text_note ∷ []);
  events = some ("1" ∷ []);
  since = some 10;
}

abbrev pub sub : Subscription
sub = record { id = "7"; filters = replies ∷ [] }

abbrev pub other_sub : Subscription
other_sub = record { id = "8"; filters = empty_filter ∷ [] }
