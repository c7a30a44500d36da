-- ===== src/Relay/Queried.antt =====
-- db.rs: an event that was written is sent by a query that asks for it.
use mathlib.Core.Logic.Or
use mathlib.Core.Logic.{∥∥₁_elim}
use mathlib.Core.List.{mem-cons_self, mem-cons_of_mem, eq-or-mem_of_mem-cons, not-mem-nil}
use nostrd.Base.{ℕ, String, ◌≡◌, refl, none, List, [], ◌∷◌, map, Mem, true, false, All}
use nostrd.Base.Outcome.{ok}
use nostrd.Config.{Settings}
use nostrd.Db.Sqlite.{Engine}
use nostrd.Db.{EventRow, Tables}
use nostrd.Db.Write.{Faults, write_event}
use nostrd.Db.Query.{JoinedRow}
use nostrd.Db.Reader.{Fetch, query_rows, db_query, IsJoined, IsAnswer, is_wanted}
use nostrd.Db.Reader.Stored.{IsPlain, write_event-found}
use nostrd.Primitives.{Primitives}
use nostrd.Protocol.Event.{Event}
use nostrd.Protocol.Event.Serial.{event_to_value}
use nostrd.Protocol.Event.Validity.{is_valid, event_from_str, event_from_str-print}
use nostrd.Protocol.Subscription.{ReqFilter, Subscription, filter_interested}
use nostrd.Relay.Rows.{IsStoredRow, write_event-IsStoredRow}

module _ ⦃lib : Primitives⦄ (settings : Settings) where
  abbrev pub IsValidAt : ℕ → Event → Type 0
  IsValidAt now e = is_valid settings now e ≡ ok tt

  -- the text of an event that is valid at the time
  abbrev IsEventText : ℕ → String → Type 0
  IsEventText now content =
      ∥ ((e : Event) × IsValidAt now e × (content ≡ lib.json.print (event_to_value e))) ∥₁

  -- a row that is read at the time, with no message to stop
  abbrev pub fetch_at : ℕ → String → Fetch
  fetch_at now content = record { now = now; abandoned = false; content = ok content }

  read_text :
      (now : ℕ) (e : Event)
      → IsValidAt now e
      → event_from_str settings now (lib.json.print (event_to_value e)) ≡ ok e
  read_text now e valid = rw (event_from_str-print settings now e, valid) refl

  mem-query_rows :
      (now : ℕ) (sub : Subscription) (e : Event) (contents : List String)
      → All (IsEventText now) contents
      → IsValidAt now e
      → Mem (lib.json.print (event_to_value e)) contents
      → Mem
          (record { sub_id = lib.hash.to_hex sub.id; event = e })
          (query_rows settings sub (map (fetch_at now) contents) none).0
  unfolding query_rows
  mem-query_rows now sub e [] texts valid m = absurd (not-mem-nil m)
  mem-query_rows now sub e (c ∷ contents) (text, texts) valid m =
      ∥∥₁_elim text squash₁ (λ (head, ok_head, same).
        let read : event_from_str settings now c ≡ ok head = rw same (read_text now head ok_head) in
        rw read (
          Or.elim squash₁ (eq-or-mem_of_mem-cons m)
            (λ (this : lib.json.print (event_to_value e) ≡ c).
              let again : event_from_str settings now c ≡ ok e =
                rw (← this) (read_text now e valid) in
              let it : head ≡ e = cc (read, again) in rw it mem-cons_self)
            (λ (behind : Mem (lib.json.print (event_to_value e)) contents).
              mem-cons_of_mem _ (mem-query_rows now sub e contents texts valid behind))))

module _ ⦃lib : Primitives⦄ ⦃sql : Engine⦄ (settings : Settings) where
  row-IsEventText :
      (at : ℕ) (rows : List EventRow) (r : EventRow)
      → All (IsStoredRow (IsValidAt settings at)) rows
      → Mem r rows
      → IsEventText settings at r.content
  row-IsEventText at [] r h m = absurd (not-mem-nil m)
  row-IsEventText at (x ∷ rows) r (here, h) m =
      Or.elim squash₁ (eq-or-mem_of_mem-cons m)
        (λ (same : r ≡ x). rw same (∣ (here.event, here.admitted, here.content) ∣₁))
        (λ (behind : Mem r rows). row-IsEventText at rows r h behind)

  answer-All :
      (at : ℕ) (sub : Subscription) (db : Tables) (contents : List String)
      → All (IsStoredRow (IsValidAt settings at)) db.events
      → ((content : String)
          → Mem content contents
          → ∥ (
              (r : JoinedRow) × IsJoined db r
              × (is_wanted sub r ≡ true)
              × (r.event.content ≡ content)) ∥₁)
      → All (IsEventText settings at) contents
  answer-All at sub db [] rows sound = tt
  answer-All at sub db (c ∷ contents) rows sound = (
    ∥∥₁_elim (sound c mem-cons_self) squash₁ (λ (r, joined, wanted, same).
        rw (← same) (row-IsEventText at db.events r.event rows joined.row)),
    answer-All at sub db contents rows (λ content m. sound content (mem-cons_of_mem c m)),
  )

  -- On a database without references, in which every row is that of an event that is valid at some
  -- time: an event that is written as new, and is valid at that time, is sent under the identifier of
  -- the subscription by a query that runs then, is not told to stop and meets no error of the
  -- database, if one of its filters sets a field, lists no references, lists only identifiers and
  -- authors whose texts are hexadecimal, and is interested in the event.
  pub write_event-queried :
      (at : ℕ) (faults : Faults) (now : ℕ) (e : Event) (db : Tables) (sub : Subscription)
      (f : ReqFilter) (contents : List String)
      → (write_event faults now e db).1 ≡ ok 1
      → db.event_refs ≡ []
      → db.pubkey_refs ≡ []
      → All (IsStoredRow (IsValidAt settings at)) db.events
      → IsValidAt settings at e
      → Mem f sub.filters
      → IsPlain f
      → filter_interested f e ≡ true
      → IsAnswer sub (write_event faults now e db).0 contents
      → Mem
          (record { sub_id = lib.hash.to_hex sub.id; event = e })
          (db_query settings none sub (map (fetch_at settings at) contents) none).0
  unfolding db_query
  write_event-queried at faults now e db sub f contents done no_ev no_pk rows valid m plain
        interested answer =
      let kept = write_event-IsStoredRow (IsValidAt settings at) faults now e db valid rows in
      mem-query_rows settings at sub e contents
        (answer-All at sub (write_event faults now e db).0 contents kept answer.sound) valid
        (write_event-found faults now e db sub f contents done no_ev no_pk m plain interested
          answer)
