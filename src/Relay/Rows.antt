-- ===== src/Relay/Rows.antt =====
-- db.rs: the rows of the table of events, each of which holds an event of some kind.
use nostrd.Base.{
  ℕ, ◌==◌, ◌≡◌, refl, inl, inr, Option, some, List, [], ◌∷◌, ◌++◌, Bool-cases, All, All-append,
  Bool, true, false, if◌then◌else◌,
}
use nostrd.Base.Outcome.{Outcome, ok, err, panic}
use nostrd.Db.Sqlite.{Engine, Blob}
use nostrd.Db.{EventRow, Tables}
use nostrd.Db.Write.{
  Faults, row_ids, event_row, hide_row, hide_older, write_event, write_body, settle,
}
use nostrd.Db.Details.{superseded}
use nostrd.Db.Writes.{Written, body-ok}
use nostrd.Error.{Error}
use nostrd.Primitives.{Primitives}
use nostrd.Protocol.Event.{Event}
use nostrd.Protocol.Event.Serial.{kind_to_u64, event_to_value}

module _ ⦃lib : Primitives⦄ ⦃sql : Engine⦄ (P : Event → Type 0) where
  -- the columns of a row are those of one event that satisfies `P`
  pub record IsStoredRow (r : EventRow) : Type 0 where
    pub event : Event
    pub admitted : P event
    pub hash : r.event_hash ≡ sql.hash_bytes event.id
    pub author : r.author ≡ sql.key_bytes event.pubkey
    pub created : r.created_at ≡ event.created_at
    pub kind : r.kind ≡ kind_to_u64 event.kind
    pub content : r.content ≡ lib.json.print (event_to_value event)

  row-IsStoredRow : (now rowid : ℕ) (e : Event) → P e → IsStoredRow (event_row now rowid e)
  unfolding event_row
  row-IsStoredRow now rowid e h = record {
    event = e;
    admitted = h;
    hash = refl;
    author = refl;
    created = refl;
    kind = refl;
    content = refl;
  }

  pub hidden-IsStoredRow :
      (r : EventRow) (h : Option Bool) → IsStoredRow r → IsStoredRow (record r { hidden = h })
  hidden-IsStoredRow r h s = record {
    event = s.event;
    admitted = s.admitted;
    hash = s.hash;
    author = s.author;
    created = s.created;
    kind = s.kind;
    content = s.content;
  }

  hide_row-IsStoredRow :
      (ev_id kind : ℕ) (author : Option Blob) (at_most : ℕ) (r : EventRow)
      → IsStoredRow r
      → IsStoredRow (hide_row ev_id kind author at_most r)
  unfolding hide_row
  hide_row-IsStoredRow ev_id kind author at_most r s =
      either _ (hidden-IsStoredRow r (some true) s) s
    where
      either :
          (b : Bool)
          → IsStoredRow (record r { hidden = some true })
          → IsStoredRow r
          → IsStoredRow (if b then record r { hidden = some true } else r)
      either true x y = x
      either false x y = y

  hide_older-IsStoredRow :
      (ev_id kind : ℕ) (author : Option Blob) (at_most : ℕ) (rows : List EventRow)
      → All IsStoredRow rows
      → All IsStoredRow (hide_older ev_id kind author at_most rows)
  unfolding hide_older
  hide_older-IsStoredRow ev_id kind author at_most [] h = tt
  hide_older-IsStoredRow ev_id kind author at_most (r ∷ rows) (here, h) = (
    hide_row-IsStoredRow ev_id kind author at_most r here,
    hide_older-IsStoredRow ev_id kind author at_most rows h,
  )

  superseded-IsStoredRow :
      (e : Event) (ev_id : ℕ) (rows : List EventRow)
      → All IsStoredRow rows
      → All IsStoredRow (superseded e ev_id rows)
  superseded-IsStoredRow e ev_id rows h = elim (Bool-cases (kind_to_u64 e.kind == 0)) [
    | inl metadata ↦ rw metadata (hide_older-IsStoredRow ev_id 0 _ e.created_at rows h)
    | inr other ↦ rw other h
  ]

  Written-IsStoredRow :
      (now : ℕ) (e : Event) (db db' : Tables) (n : ℕ)
      → P e
      → All IsStoredRow db.events
      → Written now e db db' n
      → All IsStoredRow db'.events
  Written-IsStoredRow now e db db' n a h (inl (_, _, same)) = rw same h
  Written-IsStoredRow now e db db' n a h (inr (_, _, same)) =
      let row = event_row now (sql.fresh_rowid (row_ids db.events)) e in
      let new = row-IsStoredRow now (sql.fresh_rowid (row_ids db.events)) e a in
      rw same (
        superseded-IsStoredRow e _ (db.events ++ (row ∷ []))
          (All-append IsStoredRow db.events (row ∷ []) h (new, tt)))

  settle-IsStoredRow :
      (db : Tables) (m : Outcome Error (Tables × ℕ))
      → All IsStoredRow db.events
      → ((db' : Tables) (n : ℕ) → m ≡ ok (db', n) → All IsStoredRow db'.events)
      → All IsStoredRow (settle db m).0.events
  unfolding settle
  settle-IsStoredRow db (ok (db', n)) u h = h db' n refl
  settle-IsStoredRow db (err x) u h = u
  settle-IsStoredRow db panic u h = u

  -- Writing an event that satisfies it keeps that of every row, whatever happens.
  pub write_event-IsStoredRow :
      (faults : Faults) (now : ℕ) (e : Event) (db : Tables)
      → P e
      → All IsStoredRow db.events
      → All IsStoredRow (write_event faults now e db).0.events
  unfolding write_event
  write_event-IsStoredRow faults now e db a h =
      settle-IsStoredRow db (write_body faults now e db) h
        (λ db' n p. Written-IsStoredRow now e db db' n a h (body-ok faults now e db db' n p))
