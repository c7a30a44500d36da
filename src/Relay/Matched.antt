-- ===== src/Relay/Matched.antt =====
-- main.rs, db.rs and protostream.rs together: which events a client is sent.
use mathlib.Core.List.{mem-cons_self, mem-cons_of_mem}
use mathlib.Core.Logic.{∥∥₁_elim}
use nostrd.Base.{
  ℕ, arith, ◌≡◌, refl, String, some, List, [], ◌∷◌, Mem, Bool, true, not, Bool-true-prop, All,
  All-mem, is_empty,
}
use nostrd.Base.Outcome.{ok}
use nostrd.Config.{Settings}
use nostrd.Db.Sqlite.{Engine}
use nostrd.Db.{Tables}
use nostrd.Db.Query.{JoinedRow}
use nostrd.Db.Query.Interest.{IsPlainRow, is_wanted-interested}
use nostrd.Db.Unique.{IsUnique}
use nostrd.Db.Reader.{is_wanted, IsJoined}
use nostrd.Primitives.{Primitives}
use nostrd.Protocol.Event.{Event}
use nostrd.Protocol.Event.Validity.{event_from_str}
use nostrd.Protocol.Subscription.{Subscription, interested_in_event}
use nostrd.Stream.{Next, WsPoll, pending, finished, item, req, poll_next}
use nostrd.Stream.Requests.{poll_next-HasFilter}
use nostrd.Server.Served.{read_back}
use nostrd.Relay.{Relay, ready, Reach, here, later}
use nostrd.Relay.Unreferenced.{HasNoRefs, unjoined, Reach-HasNoRefs}
use nostrd.Relay.Sent.{IsAdmitted}
use nostrd.Relay.Rows.{IsStoredRow}
use nostrd.Relay.Safety.{Reach-IsSafe}
use nostrd.Relay.Own.{AllOwn, ServesRow}
use nostrd.Relay.Isolation.{Move-AllOwn}

module _ ⦃lib : Primitives⦄ ⦃sql : Engine⦄ (settings : Settings) where
  -- every row is that of an event that passed the validation, and none has a reference
  abbrev IsPlainTables : Tables → Type 0
  IsPlainTables db = All (IsStoredRow (IsAdmitted settings)) db.events × HasNoRefs db

  abbrev pub has_filter : Subscription → Bool
  has_filter sub = not (is_empty sub.filters)

  abbrev pub Interested : Subscription → Event → Type 0
  Interested sub e = interested_in_event sub e ≡ true

  request-has_filter :
      (now : ℕ) (poll : WsPoll) (sub : Subscription)
      → ready (poll_next settings now poll) ≡ some (some (ok (req sub)))
      → has_filter sub ≡ true
  request-has_filter now poll sub h =
      rw (poll_next-HasFilter settings now poll sub (of_next (poll_next settings now poll) h)) refl
    where
      of_next : (n : Next) → ready n ≡ some (some (ok (req sub))) → n ≡ item (ok (req sub))
      of_next pending h = absurd (cc h)
      of_next finished h = absurd (cc h)
      of_next (item o) h = cc h

  -- what is read from a row that a query selects
  selected-Interested :
      (sub : Subscription) (db : Tables) (r : JoinedRow) (now : ℕ) (e : Event)
      → HasNoRefs db
      → has_filter sub ≡ true
      → IsJoined db r
      → IsStoredRow (IsAdmitted settings) r.event
      → is_wanted sub r ≡ true
      → event_from_str settings now r.event.content ≡ ok e
      → Interested sub e
  selected-Interested sub db r now e (no_ev, no_pk) fine joined stored wanted read =
      let it : stored.event ≡ e =
        read_back settings now stored.event e (rw (← stored.content) read) in
      let plain : IsPlainRow stored.event r = record {
        hash = stored.hash;
        author = stored.author;
        created = stored.created;
        kind = stored.kind;
        no_event = unjoined db.event_refs r.event.id r.referenced_event no_ev joined.event_ref;
        no_pubkey = unjoined db.pubkey_refs r.event.id r.referenced_pubkey no_pk joined.pubkey_ref;
      } in
      rw (← it) (is_wanted-interested sub stored.event r plain (ground (arith, fine)) wanted)

  answers-Interested :
      (sub : Subscription) (db : Tables) (contents : List String)
      → IsPlainTables db
      → has_filter sub ≡ true
      → ((content : String)
          → Mem content contents
          → ∥ (
              (r : JoinedRow) × IsJoined db r
              × (is_wanted sub r ≡ true)
              × (r.event.content ≡ content)) ∥₁)
      → All (ServesRow settings has_filter Interested sub) contents
  answers-Interested sub db [] fit fine sound = tt
  answers-Interested sub db (c ∷ contents) (rows, no_refs) fine sound = (
    λ now e read.
        ∥∥₁_elim (sound c mem-cons_self) (Bool-true-prop (interested_in_event sub e))
          (λ (r, joined, wanted, same).
            All-mem (IsStoredRow (IsAdmitted settings)) (Bool-true-prop (interested_in_event sub e))
              db.events r.event rows joined.row
              (λ stored.
                selected-Interested sub db r now e no_refs fine joined stored wanted
                  (rw same read))),
    answers-Interested sub db contents (rows, no_refs) fine
        (λ content m. sound content (mem-cons_of_mem c m)),
  )

  -- every client was sent, and will be forwarded, only events that match one of its requests
  abbrev pub IsMatched : Relay → Type 0
  IsMatched = AllOwn settings has_filter Interested

  -- In every state that the relay reaches from a database in which no hash is stored twice, every
  -- row is that of an event that passed the validation, and no event has a row for a reference,
  -- whatever its clients send, whatever the database reports and in whatever order the tasks run:
  -- every event that a client was sent, or is about to be forwarded, matches a subscription that this
  -- client has requested under the identifier that comes with it; so does every event that is read
  -- from the rows of its queries; and every subscription that a client has requested has a filter.
  pub Reach-IsMatched :
      (db : Tables) (r : Relay)
      → IsUnique db.events
      → All (IsStoredRow (IsAdmitted settings)) db.events
      → HasNoRefs db
      → Reach settings db r
      → IsMatched r
  Reach-IsMatched db r unique rows no_refs here = λ i. tt
  Reach-IsMatched db r unique rows no_refs (later {r = r0} way m) =
      Move-AllOwn settings has_filter Interested (λ sub e h. h) request-has_filter IsPlainTables
        (λ sub db' contents fit fine answer.
          answers-Interested sub db' contents fit fine answer.sound)
        m
        (
          (Reach-IsSafe settings db r0 unique rows way).rows,
          Reach-HasNoRefs settings db r0 no_refs way,
        )
        (Reach-IsMatched db r0 unique rows no_refs way)
