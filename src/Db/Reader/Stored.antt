-- ===== src/Db/Reader/Stored.antt =====
-- db.rs: an event that was written is found by a query that asks for it.
use mathlib.Core.List.{mem-append_right, mem-cons_self, mem-map_of_mem, not-mem-nil}
use nostrd.Base.{
  ℕ, String, ◌≡◌, refl, ◌∙◌, inl, inr, Option, none, some, List, [], ◌∷◌, ◌++◌, Mem, true, false,
  arith, any-mem, is_empty, Bool-cases, ◌==◌,
}
use nostrd.Base.Outcome.{ok}
use nostrd.Db.Sqlite.{Engine, Blob}
use nostrd.Db.{EventRow, RefRow, Tables}
use nostrd.Db.Write.{Faults, row_ids, event_row, hide_row, hide_older, write_event}
use nostrd.Db.Details.{superseded}
use nostrd.Db.Writes.{write_event-Written}
use nostrd.Db.Query.{JoinedRow, filter_components, is_selected, hex_ids, hex_keys}
use nostrd.Db.Query.Agreement.{joined, is_selected-filter_interested}
use nostrd.Db.Reader.{IsJoined, IsAnswer, is_wanted, IsLeftJoined}
use nostrd.Primitives.{Primitives, EventId, PublicKey}
use nostrd.Protocol.Event.{Event}
use nostrd.Protocol.Event.Serial.{kind_to_u64, event_to_value}
use nostrd.Protocol.Subscription.{ReqFilter, Subscription, filter_interested}

module _ ⦃lib : Primitives⦄ ⦃sql : Engine⦄ where
  hide_row-own :
      (ev_id kind : ℕ) (author : Option Blob) (at_most : ℕ) (r : EventRow)
      → r.id ≡ ev_id
      → hide_row ev_id kind author at_most r ≡ r
  unfolding hide_row
  hide_row-own ev_id kind author at_most r own = ground arith

  mem-hide_older :
      (ev_id kind : ℕ) (author : Option Blob) (at_most : ℕ) (r : EventRow) (rows : List EventRow)
      → r.id ≡ ev_id
      → Mem r rows
      → Mem r (hide_older ev_id kind author at_most rows)
  unfolding hide_older
  mem-hide_older ev_id kind author at_most r rows own m =
      let moved = mem-map_of_mem (hide_row ev_id kind author at_most) m in
      rw (hide_row-own ev_id kind author at_most r own) at moved

  -- the new row stands in the tables, and is not hidden by its own event
  mem-superseded :
      (e : Event) (r : EventRow) (rows : List EventRow)
      → Mem r (superseded e r.id (rows ++ (r ∷ [])))
  mem-superseded e r rows =
      let new : Mem r (rows ++ (r ∷ [])) = mem-append_right rows mem-cons_self in
      elim (Bool-cases (kind_to_u64 e.kind == 0)) [
        | inl metadata ↦ rw metadata (mem-hide_older r.id 0 _ e.created_at r _ refl new)
        | inr other ↦ rw other new
      ]

  no_references : (refs : List RefRow) (id : ℕ) → refs ≡ [] → IsLeftJoined refs id none
  no_references refs id empty b m = not-mem-nil (rw empty at m)

  -- what a filter needs for the query to decide as the filter does
  pub record IsPlain (f : ReqFilter) : Type 0 where
    pub sets_field : is_empty (filter_components f) ≡ false
    pub no_events : f.events ≡ none
    pub no_pubkeys : f.pubkeys ≡ none
    pub ids_hex : (ids : List EventId) → f.ids ≡ some ids → hex_ids ids ≡ ids
    pub authors_hex : (keys : List PublicKey) → f.authors ≡ some keys → hex_keys keys ≡ keys

  wanted :
      (sub : Subscription) (f : ReqFilter) (r : JoinedRow)
      → Mem f sub.filters
      → is_selected r f ≡ true
      → is_wanted sub r ≡ true
  unfolding is_wanted
  wanted sub f r m selected =
      let found = any-mem (λ f. is_selected r f) sub.filters m selected in ground (arith, found)

  -- the row that a write adds, in the join
  new_row-IsJoined :
      (now ev_id : ℕ) (e : Event) (db db' : Tables)
      → db.event_refs ≡ []
      → db.pubkey_refs ≡ []
      → db' ≡ record db { events = superseded e ev_id (db.events ++ (event_row now ev_id e ∷ [])) }
      → IsJoined db' (joined now ev_id e none none)
  unfolding event_row
  new_row-IsJoined now ev_id e db db' no_ev no_pk same = rw same (record {
    row = mem-superseded e (event_row now ev_id e) db.events;
    event_ref = no_references db.event_refs ev_id no_ev;
    pubkey_ref = no_references db.pubkey_refs ev_id no_pk;
  })

  -- On a database without references, an event that is written as new is found by every query with
  -- a filter that sets a field, lists no references, and is interested in the event: the text of the
  -- event is in the answer.
  pub write_event-found :
      (faults : Faults) (now : ℕ) (e : Event) (db : Tables) (sub : Subscription) (f : ReqFilter)
      (contents : List String)
      → (write_event faults now e db).1 ≡ ok 1
      → db.event_refs ≡ []
      → db.pubkey_refs ≡ []
      → Mem f sub.filters
      → IsPlain f
      → filter_interested f e ≡ true
      → IsAnswer sub (write_event faults now e db).0 contents
      → Mem (lib.json.print (event_to_value e)) contents
  write_event-found faults now e db sub f contents done no_ev no_pk m plain interested answer =
      elim (write_event-Written faults now e db 1 done) [
        | inl (zero_rows, _, _) ↦ absurd (cc zero_rows)
        | inr (_, _, same) ↦
            let ev_id = sql.fresh_rowid (row_ids db.events) in
            let agrees =
              is_selected-filter_interested f now ev_id e none none plain.sets_field plain.no_events
                plain.no_pubkeys plain.ids_hex plain.authors_hex in
            let there = new_row-IsJoined now ev_id e db _ no_ev no_pk same in
            let accepted = wanted sub f (joined now ev_id e none none) m (agrees ∙ interested) in
            unfold event_row in answer.complete (joined now ev_id e none none) there accepted
      ]
