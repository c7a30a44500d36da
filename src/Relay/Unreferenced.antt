-- ===== src/Relay/Unreferenced.antt =====
-- main.rs and db.rs together: the tables of references, which the relay leaves empty.
use mathlib.Core.List.{not-mem-nil}
use nostrd.Base.{ℕ, ◌≡◌, refl, inl, inr, Option, none, some, List, [], zero, suc}
use nostrd.Base.Outcome.{Outcome, ok, err, panic}
use nostrd.Config.{Settings}
use nostrd.Error.{Error}
use nostrd.Db.Sqlite.{Engine, Blob}
use nostrd.Db.{RefRow, Tables}
use nostrd.Db.Write.{Faults, write_event, write_body, settle}
use nostrd.Db.Writes.{Written, body-ok}
use nostrd.Db.Writer.{writer_turn, after_write}
use nostrd.Db.Reader.{IsLeftJoined}
use nostrd.Primitives.{Primitives}
use nostrd.Protocol.Event.{Event}
use nostrd.Server
use nostrd.Relay.{
  Relay, Client, absorb, after_turn, Move, connects, receives, hears, forwards, stops, lags, opens,
  reads, ends, rotates, writes, writer_stops, Reach, here, later,
}

module _ ⦃lib : Primitives⦄ ⦃sql : Engine⦄ where
  -- no event has a row for a reference
  abbrev pub HasNoRefs : Tables → Type 0
  HasNoRefs db = (db.event_refs ≡ []) × (db.pubkey_refs ≡ [])

  pub unjoined :
      (refs : List RefRow) (id : ℕ) (o : Option Blob)
      → refs ≡ []
      → IsLeftJoined refs id o
      → o ≡ none
  unjoined refs id none same h = refl
  unjoined refs id (some b) same h = absurd (not-mem-nil (rw same at h))

  settle-HasNoRefs :
      (db : Tables) (m : Outcome Error (Tables × ℕ))
      → HasNoRefs db
      → ((db' : Tables) (n : ℕ) → m ≡ ok (db', n) → HasNoRefs db')
      → HasNoRefs (settle db m).0
  unfolding settle
  settle-HasNoRefs db (ok (db', n)) u h = h db' n refl
  settle-HasNoRefs db (err x) u h = u
  settle-HasNoRefs db panic u h = u

  Written-HasNoRefs :
      (now : ℕ) (e : Event) (db db' : Tables) (n : ℕ)
      → HasNoRefs db
      → Written now e db db' n
      → HasNoRefs db'
  Written-HasNoRefs now e db db' n h (inl (_, _, same)) = rw same h
  Written-HasNoRefs now e db db' n h (inr (_, _, same)) = rw same h

  write_event-HasNoRefs :
      (faults : Faults) (now : ℕ) (e : Event) (db : Tables)
      → HasNoRefs db
      → HasNoRefs (write_event faults now e db).0
  unfolding write_event
  write_event-HasNoRefs faults now e db h =
      settle-HasNoRefs db (write_body faults now e db) h
        (λ db' n p. Written-HasNoRefs now e db db' n h (body-ok faults now e db db' n p))

  absorb-HasNoRefs :
      (r : Relay) (i : ℕ) (c : Client) (input : Server.Input) (st : Server.Step)
      → HasNoRefs r.writer.tables
      → HasNoRefs (absorb r i c input st).writer.tables
  absorb-HasNoRefs r i c input (Server.continue s) h = h
  absorb-HasNoRefs r i c input (Server.break s) h = h
  absorb-HasNoRefs r i c input Server.crash h = h

  written-HasNoRefs :
      (r : Relay) (rest es : List Event) (e : Event) (res : Tables × Outcome Error ℕ)
      → HasNoRefs res.0
      → HasNoRefs (after_turn r rest es (after_write r.writer e res)).writer.tables
  written-HasNoRefs r rest es e (db, ok zero) h = h
  written-HasNoRefs r rest es e (db, ok (suc n)) h = h
  written-HasNoRefs r rest es e (db, err x) h = h
  written-HasNoRefs r rest es e (db, panic) h = h

module _ ⦃lib : Primitives⦄ ⦃sql : Engine⦄ (settings : Settings) where
  turn-HasNoRefs :
      (r : Relay) (i now : ℕ) (c : Client) (input : Server.Input)
      → HasNoRefs r.writer.tables
      → HasNoRefs (absorb r i c input (Server.step settings now c.session input)).writer.tables
  turn-HasNoRefs r i now c input h =
      absorb-HasNoRefs r i c input (Server.step settings now c.session input) h

  -- No move adds a reference.
  Move-HasNoRefs :
      {r r' : Relay} → Move settings r r' → HasNoRefs r.writer.tables → HasNoRefs r'.writer.tables
  Move-HasNoRefs (connects i client_id free) h = h
  Move-HasNoRefs {r} (receives i now c poll next at_i ready_item room) h =
      turn-HasNoRefs r i now c (Server.client next) h
  Move-HasNoRefs {r} (hears i now c e rest at_i next) h =
      turn-HasNoRefs r i now (record c { inbox = rest }) (Server.broadcast e) h
  Move-HasNoRefs {r} (forwards i now c q rest at_i next) h =
      turn-HasNoRefs r i now (record c { results = rest }) (Server.query_result q.sub_id q.event) h
  Move-HasNoRefs {r} (stops i now c at_i) h = turn-HasNoRefs r i now c Server.shutdown h
  Move-HasNoRefs (lags i c lost rest at_i next) h = h
  Move-HasNoRefs (opens i channel c sub contents at_i started answer) h = h
  Move-HasNoRefs (reads i now c task others content rows e at_i next row running valid space) h = h
  Move-HasNoRefs (ends i c task others at_i next) h = h
  Move-HasNoRefs (rotates i c task others at_i next) h = h
  Move-HasNoRefs {r} (writes now faults e rest up next) h =
      unfold writer_turn in
      written-HasNoRefs r rest _ e (write_event faults now e r.writer.tables)
        (write_event-HasNoRefs faults now e r.writer.tables h)
  Move-HasNoRefs writer_stops h = h

  pub Reach-HasNoRefs :
      (db : Tables) (r : Relay) → HasNoRefs db → Reach settings db r → HasNoRefs r.writer.tables
  Reach-HasNoRefs db r h here = h
  Reach-HasNoRefs db r h (later way m) = Move-HasNoRefs m (Reach-HasNoRefs db _ h way)
