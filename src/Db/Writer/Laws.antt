-- ===== src/Db/Writer/Laws.antt =====
-- db.rs: what the writer sends to all clients.
use nostrd.Base.{
  ℕ, zero, suc, ◌≡◌, refl, sym, inl, inr, List, [], ◌∷◌, ◌++◌, Bool, true, false, any, eqb, eqb_iff,
  eqb_refl, Bool_ext, arith, Bool-cases, ◌==◌, ◌||◌,
}
use nostrd.Base.Outcome.{Outcome, ok, err, panic}
use nostrd.Db.Sqlite.{Engine, Blob}
use nostrd.Db.{EventRow, Tables}
use nostrd.Db.Write.{row_ids, has_hash, event_row, write_event, write_body, settle}
use nostrd.Db.Details.{superseded}
use nostrd.Db.Writes.{body-ok, Written}
use nostrd.Db.Unique.{IsUnique, has_hash-hide_older, has_hash-append, Written-IsUnique}
use nostrd.Db.Writer.{
  Writer, Arrival, told_to_stop, channel_closed, next_event, Turn, goes_on, breaks, panics,
  after_write, writer_turn, after_turn, writer_loop,
}
use nostrd.Error.{Error}
use nostrd.Primitives.{Primitives, EventId}
use nostrd.Protocol.Event.{Event}
use nostrd.Protocol.Event.Serial.{kind_to_u64}

module _ ⦃lib : Primitives⦄ ⦃sql : Engine⦄ where
  -- an event with the identifier is in the list
  abbrev pub is_among : EventId → List Event → Bool
  is_among id es = any (λ e. eqb lib.hash.discrete e.id id) es

  -- no identifier twice
  abbrev pub IsOnce : List Event → Type 0
  IsOnce [] = Unit
  IsOnce (e ∷ es) = (is_among e.id es ≡ false) × IsOnce es

  -- each event has a row
  abbrev pub IsStored : List EventRow → List Event → Type 0
  IsStored rows [] = Unit
  IsStored rows (e ∷ es) = (has_hash (sql.hash_bytes e.id) rows ≡ true) × IsStored rows es

  pub record IsConsistent (w : Writer) : Type 0 where
    pub unique : IsUnique w.tables.events
    pub once : IsOnce w.broadcasts
    pub stored : IsStored w.tables.events w.broadcasts

  has_hash-superseded :
      (h : Blob) (e : Event) (ev_id : ℕ) (rows : List EventRow)
      → has_hash h (superseded e ev_id rows) ≡ has_hash h rows
  has_hash-superseded h e ev_id rows = elim (Bool-cases (kind_to_u64 e.kind == 0)) [
    | inl metadata ↦ rw metadata (has_hash-hide_older ev_id 0 _ e.created_at h rows)
    | inr other ↦ rw other
  ]

  -- a write of 0 rows changes nothing
  unchanged : (now : ℕ) (e : Event) (db db' : Tables) → Written now e db db' 0 → db' ≡ db
  unchanged now e db db' (inl (_, _, same)) = same
  unchanged now e db db' (inr (one, _, _)) = absurd (cc one)

  -- a write of a row is of a new hash, and adds that hash to those stored
  pub record IsGrown (e : Event) (db db' : Tables) : Type 0 where
    pub fresh : has_hash (sql.hash_bytes e.id) db.events ≡ false
    pub hashes :
        (h : Blob)
        → has_hash h db'.events
          ≡ (has_hash h db.events || eqb sql.Bytes_discrete (sql.hash_bytes e.id) h)

  grown :
      (now : ℕ) (e : Event) (db db' : Tables) (k : ℕ)
      → Written now e db db' (suc k)
      → IsGrown e db db'
  grown now e db db' k (inl (nothing, _, _)) = absurd (cc nothing)
  grown now e db db' k (inr (_, new, same)) = record {
    fresh = new;
    hashes = λ h.
        let ev_id = sql.fresh_rowid (row_ids db.events) in
        let row = event_row now ev_id e in
        let kept = has_hash-superseded h e ev_id (db.events ++ (row ∷ [])) in
        rw (same, kept) (unfold event_row in has_hash-append h db.events (event_row now ev_id e));
  }

  IsStored-grown :
      (e : Event) (db db' : Tables) (es : List Event)
      → IsGrown e db db'
      → IsStored db.events es
      → IsStored db'.events es
  IsStored-grown e db db' [] g s = tt
  IsStored-grown e db db' (x ∷ es) g (here, s) =
      (ground (arith, g.hashes (sql.hash_bytes x.id), here), IsStored-grown e db db' es g s)

  IsStored-append :
      (rows : List EventRow) (es : List Event) (e : Event)
      → IsStored rows es
      → has_hash (sql.hash_bytes e.id) rows ≡ true
      → IsStored rows (es ++ (e ∷ []))
  IsStored-append rows [] e s here = (here, tt)
  IsStored-append rows (x ∷ es) e (first, s) here = (first, IsStored-append rows es e s here)

  -- an event without a row was not broadcast
  fresh-is_among :
      (e : Event) (rows : List EventRow) (es : List Event)
      → has_hash (sql.hash_bytes e.id) rows ≡ false
      → IsStored rows es
      → is_among e.id es ≡ false
  unfolding any
  fresh-is_among e rows [] fresh s = refl
  fresh-is_among e rows (x ∷ es) fresh (here, s) =
      elim (Bool-cases (eqb lib.hash.discrete x.id e.id)) [
        | inl same ↦
            let twin : x.id ≡ e.id = (eqb_iff lib.hash.discrete x.id e.id).0 same in
            let stored : has_hash (sql.hash_bytes e.id) rows ≡ true = rw (← twin) here in
            absurd (cc (stored, fresh))
        | inr other ↦ rw other (fresh-is_among e rows es fresh s)
      ]

  is_among-append :
      (id : EventId) (es : List Event) (e : Event)
      → is_among id (es ++ (e ∷ [])) ≡ (is_among id es || eqb lib.hash.discrete e.id id)
  unfolding any
  is_among-append id [] e = ground arith
  is_among-append id (x ∷ es) e = ground (arith, is_among-append id es e)

  eqb_comm : (a b : EventId) → eqb lib.hash.discrete a b ≡ eqb lib.hash.discrete b a
  eqb_comm a b = Bool_ext _ _ (
    λ h. (eqb_iff lib.hash.discrete b a).1 (sym ((eqb_iff lib.hash.discrete a b).0 h)),
    λ h. (eqb_iff lib.hash.discrete a b).1 (sym ((eqb_iff lib.hash.discrete b a).0 h)),
  )

  IsOnce-append :
      (es : List Event) (e : Event) → IsOnce es → is_among e.id es ≡ false → IsOnce (es ++ (e ∷ []))
  IsOnce-append [] e o fresh = (unfold any in refl, tt)
  IsOnce-append (x ∷ es) e (first, o) fresh =
      let apart : eqb lib.hash.discrete x.id e.id ≡ false = unfold any in ground (arith, fresh) in
      let rest : is_among e.id es ≡ false = unfold any in ground (arith, fresh) in
      (
        ground (arith, is_among-append x.id es e, first, apart, eqb_comm e.id x.id),
        IsOnce-append es e o rest,
      )

  -- what a turn leaves
  abbrev pub AfterTurn : (Writer → Type 0) → Turn → Type 0
  AfterTurn P (goes_on w) = P w
  AfterTurn P (breaks w) = P w
  AfterTurn P (panics w) = P w

  sent-IsConsistent :
      (w : Writer) (e : Event) (db : Tables)
      → IsConsistent w
      → IsUnique db.events
      → IsGrown e w.tables db
      → IsConsistent (record { tables = db; broadcasts = w.broadcasts ++ (e ∷ []) })
  sent-IsConsistent w e db c u g = record {
    unique = u;
    once =
        IsOnce-append w.broadcasts e c.once
          (fresh-is_among e w.tables.events w.broadcasts g.fresh c.stored);
    stored =
        IsStored-append db.events w.broadcasts e
          (IsStored-grown e w.tables db w.broadcasts g c.stored)
          (ground (
            arith,
            g.hashes (sql.hash_bytes e.id),
            eqb_refl sql.Bytes_discrete (sql.hash_bytes e.id),
          ));
  }

  settled-IsConsistent :
      (w : Writer) (e : Event) (now : ℕ) (m : Outcome Error (Tables × ℕ))
      → ((db : Tables) (n : ℕ) → m ≡ ok (db, n) → Written now e w.tables db n)
      → IsConsistent w
      → AfterTurn IsConsistent (after_write w e (settle w.tables m))
  unfolding settle
  settled-IsConsistent w e now (ok (db, zero)) wrote c =
      let same = unchanged now e w.tables db (wrote db 0 refl) in
      record { unique = rw same c.unique; once = c.once; stored = rw same c.stored }
  settled-IsConsistent w e now (ok (db, suc k)) wrote c =
      let how = wrote db (suc k) refl in
      sent-IsConsistent w e db c (Written-IsUnique now e w.tables db (suc k) c.unique how)
        (grown now e w.tables db k how)
  settled-IsConsistent w e now (err x) wrote c = record {
    unique = c.unique;
    once = c.once;
    stored = c.stored;
  }
  settled-IsConsistent w e now panic wrote c = record {
    unique = c.unique;
    once = c.once;
    stored = c.stored;
  }

  pub turn-IsConsistent :
      (w : Writer) (a : Arrival) → IsConsistent w → AfterTurn IsConsistent (writer_turn w a)
  unfolding writer_turn write_event
  turn-IsConsistent w told_to_stop c = c
  turn-IsConsistent w channel_closed c = c
  turn-IsConsistent w (next_event now faults e) c =
      settled-IsConsistent w e now (write_body faults now e w.tables)
        (λ db n h. body-ok faults now e w.tables db n h) c

  rest-IsConsistent :
      (t : Turn) (rest : Writer → Writer)
      → AfterTurn IsConsistent t
      → ((w : Writer) → IsConsistent w → IsConsistent (rest w))
      → IsConsistent (after_turn t rest)
  rest-IsConsistent (goes_on w) rest c k = k w c
  rest-IsConsistent (breaks w) rest c k = c
  rest-IsConsistent (panics w) rest c k = c

  -- Whatever events arrive, in whatever order, whatever errors the database reports and however the
  -- loop ends: no hash is stored twice, every event that was sent to all clients is stored, and no
  -- identifier is sent twice, if this held at the start.
  pub writer_loop-IsConsistent :
      (arrivals : List Arrival) (w : Writer)
      → IsConsistent w
      → IsConsistent (writer_loop arrivals w)
  unfolding writer_loop
  writer_loop-IsConsistent [] w c = c
  writer_loop-IsConsistent (a ∷ arrivals) w c =
      rest-IsConsistent (writer_turn w a) _ (turn-IsConsistent w a c)
        (λ w' c'. writer_loop-IsConsistent arrivals w' c')
