-- ===== src/Tests/Reading.antt =====
-- Queries at concrete rows.
use mathlib.Core.List.{mem-cons_self, not-mem-nil, eq-or-mem_of_mem-cons}
use mathlib.Core.Logic.Or
use mathlib.Core.HLevel.{hedberg}
use nostrd.Base.{sym, ap, String_discrete, ◌≡◌, refl, none, [], ◌∷◌, Mem, true, false, any, map}
use nostrd.Base.Outcome.{ok}
use nostrd.Config.{default_settings}
use nostrd.Db.{Tables, EventRow}
use nostrd.Db.Write.{
  event_row, write_event, write_body, has_hash, write_details, insert_refs, insert_ref, supersede,
}
use nostrd.Base.{keep, contains}
use nostrd.Protocol.Tags.{TagType-discrete, get_type, tag_to_string}
use nostrd.Protocol.Event.{get_event_tags, get_pubkey_tags, EventKind-discrete}
use nostrd.Db.Query.{JoinedRow, is_selected, filter_components, meets, meets_all, is_hex}
use nostrd.Db.Query.Agreement.{joined}
use nostrd.Db.Reader.{Fetch, db_query, completed, IsAnswer, IsJoined, is_wanted}
use nostrd.Db.Reader.Laws.{result_of, fetch_of, db_query-completed}
use nostrd.Db.Reader.Stored.{IsPlain}
use nostrd.Relay.Queried.{fetch_at, write_event-queried}
use nostrd.Protocol.Event.Serial.{event_to_value, kind_to_u64}
use nostrd.Protocol.Subscription.{
  Subscription, filter_interested, kind_match, author_match, ids_match, since_match, until_match,
  pubkey_tag_match, event_tag_match,
}
use nostrd.Tests.Samples.{note, note_valid, sub}
use nostrd.Tests.Store.{calm, empty, by_author, author_hex}
use nostrd.Tests.Text.{print}
use nostrd.Tests.Toy.{toy, toy_engine}

abbrev broken : Fetch
broken = record { now = 900; abandoned = false; content = ok "[" }

abbrev stop : Fetch
stop = record { now = 900; abandoned = true; content = ok "" }

db_query-completed_example :
    db_query default_settings none sub (map fetch_of ((900, note) ∷ [])) none
    ≡ (map (result_of sub) ((900, note) ∷ []), completed)
db_query-completed_example =
    db_query-completed default_settings sub ((900, note) ∷ []) (note_valid, tt)

abbrev asks : Subscription
asks = record { id = "7"; filters = by_author ∷ [] }

by_author-IsPlain : IsPlain by_author
by_author-IsPlain = record {
  sets_field = unfold filter_components in refl;
  no_events = refl;
  no_pubkeys = refl;
  ids_hex = λ ids h. absurd (cc h);
  authors_hex = author_hex;
}

abbrev stored_note : Tables
stored_note = record empty { events = event_row 5 1 note ∷ [] }

pub written : write_event calm 5 note empty ≡ (stored_note, ok 1)
unfolding write_event write_body has_hash any write_details get_event_tags keep TagType-discrete
    get_type insert_refs get_pubkey_tags supersede kind_to_u64 insert_ref tag_to_string
written = refl

abbrev note_row : JoinedRow
note_row = joined 5 1 note none none

note_row-IsJoined : IsJoined stored_note note_row
unfolding event_row
note_row-IsJoined = record {
  row = mem-cons_self;
  event_ref = λ b. not-mem-nil;
  pubkey_ref = λ b. not-mem-nil;
}

note_row-is_wanted : is_wanted asks note_row ≡ true
unfolding is_wanted is_selected filter_components any meets_all meets keep is_hex String_discrete
    event_row kind_to_u64
note_row-is_wanted = refl

only : (r : EventRow) → Mem r stored_note.events → r.content ≡ print (event_to_value note)
unfolding event_row
only r m =
    Or.elim (hedberg String_discrete _ _) (eq-or-mem_of_mem-cons m)
      (λ (e : r ≡ event_row 5 1 note). ap (λ x. x.content) e) (λ h. absurd (not-mem-nil h))

answer : IsAnswer asks (write_event calm 5 note empty).0 (print (event_to_value note) ∷ [])
unfolding event_row
answer = rw written (record {
  complete = λ r there wanted. rw (only r.event there.row) mem-cons_self;
  sound = λ content m.
      Or.elim squash₁ (eq-or-mem_of_mem-cons m)
        (λ (e : content ≡ print (event_to_value note)).
          ∣ (note_row, note_row-IsJoined, note_row-is_wanted, sym e) ∣₁)
        (λ h. absurd (not-mem-nil h));
})

interested : filter_interested by_author note ≡ true
unfolding filter_interested kind_match author_match contains any String_discrete ids_match
    since_match until_match EventKind-discrete pubkey_tag_match event_tag_match
interested = refl

write_event-queried_example :
    Mem
      (record { sub_id = "f7"; event = note })
      (db_query default_settings none asks
        (map (fetch_at default_settings 900) (print (event_to_value note) ∷ []))
        none).0
write_event-queried_example =
    write_event-queried default_settings 900 calm 5 note empty asks by_author
      (print (event_to_value note) ∷ []) (ap (λ r. r.1) written) refl refl tt note_valid
      mem-cons_self by_author-IsPlain interested answer
