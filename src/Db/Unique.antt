-- ===== src/Db/Unique.antt =====
-- db.rs: the unique index on the hashes, kept by `write_event`.
use nostrd.Base.{
  ℕ, ◌≡◌, refl, ◌∙◌, sym, Bool_ext, eqb_iff, inl, inr, Option, List, [], ◌∷◌, ◌++◌, false, arith,
  any, eqb, Bool-cases, ◌==◌, ◌||◌,
}
use nostrd.Base.Outcome.{Outcome, ok, err, panic}
use nostrd.Db.Sqlite.{Engine, Blob}
use nostrd.Db.{EventRow, Tables}
use nostrd.Db.Write.{
  Faults, has_hash, event_row, row_ids, hide_row, hide_older, write_event, settle, write_body,
}
use nostrd.Db.Details.{superseded}
use nostrd.Db.Writes.{body-ok, Written}
use nostrd.Error.{Error}
use nostrd.Primitives.{Primitives}
use nostrd.Protocol.Event.{Event}
use nostrd.Protocol.Event.Serial.{kind_to_u64}

module _ ⦃lib : Primitives⦄ ⦃sql : Engine⦄ where
  -- no two rows have the same hash
  abbrev pub IsUnique : List EventRow → Type 0
  IsUnique [] = Unit
  IsUnique (r ∷ rows) = (has_hash r.event_hash rows ≡ false) × IsUnique rows

  hidden-hash :
      (ev_id kind : ℕ) (author : Option Blob) (at_most : ℕ) (r : EventRow)
      → (hide_row ev_id kind author at_most r).event_hash ≡ r.event_hash
  unfolding hide_row
  hidden-hash ev_id kind author at_most r = ground arith

  pub has_hash-hide_older :
      (ev_id kind : ℕ) (author : Option Blob) (at_most : ℕ) (h : Blob) (rows : List EventRow)
      → has_hash h (hide_older ev_id kind author at_most rows) ≡ has_hash h rows
  unfolding has_hash hide_older any
  has_hash-hide_older ev_id kind author at_most h [] = refl
  has_hash-hide_older ev_id kind author at_most h (r ∷ rows) =
      rw
        (
          hidden-hash ev_id kind author at_most r,
          has_hash-hide_older ev_id kind author at_most h rows,
        )
        refl

  hide_older-IsUnique :
      (ev_id kind : ℕ) (author : Option Blob) (at_most : ℕ) (rows : List EventRow)
      → IsUnique rows
      → IsUnique (hide_older ev_id kind author at_most rows)
  unfolding hide_older
  hide_older-IsUnique ev_id kind author at_most [] u = tt
  hide_older-IsUnique ev_id kind author at_most (r ∷ rows) (new, u) = (
    rw (hidden-hash ev_id kind author at_most r)
          (has_hash-hide_older ev_id kind author at_most r.event_hash rows)
        ∙ new,
    hide_older-IsUnique ev_id kind author at_most rows u,
  )

  superseded-IsUnique :
      (e : Event) (ev_id : ℕ) (rows : List EventRow)
      → IsUnique rows
      → IsUnique (superseded e ev_id rows)
  superseded-IsUnique e ev_id rows u = elim (Bool-cases (kind_to_u64 e.kind == 0)) [
    | inl metadata ↦ rw metadata (hide_older-IsUnique ev_id 0 _ e.created_at rows u)
    | inr other ↦ rw other u
  ]

  pub has_hash-append :
      (h : Blob) (rows : List EventRow) (r : EventRow)
      → has_hash h (rows ++ (r ∷ [])) ≡ (has_hash h rows || eqb sql.Bytes_discrete r.event_hash h)
  unfolding has_hash any
  has_hash-append h [] r = ground arith
  has_hash-append h (q ∷ rows) r = ground (arith, has_hash-append h rows r)

  eqb_comm : (a b : Blob) → eqb sql.Bytes_discrete a b ≡ eqb sql.Bytes_discrete b a
  eqb_comm a b = Bool_ext _ _ (
    λ h. (eqb_iff sql.Bytes_discrete b a).1 (sym ((eqb_iff sql.Bytes_discrete a b).0 h)),
    λ h. (eqb_iff sql.Bytes_discrete a b).1 (sym ((eqb_iff sql.Bytes_discrete b a).0 h)),
  )

  append-IsUnique :
      (rows : List EventRow) (r : EventRow)
      → IsUnique rows
      → has_hash r.event_hash rows ≡ false
      → IsUnique (rows ++ (r ∷ []))
  append-IsUnique [] r u new = (unfold has_hash any in refl, tt)
  append-IsUnique (q ∷ rows) r (fresh, u) new =
      let apart : eqb sql.Bytes_discrete q.event_hash r.event_hash ≡ false =
        unfold has_hash any in ground (arith, new) in
      let rest : has_hash r.event_hash rows ≡ false = unfold has_hash any in ground (arith, new) in
      (
        ground (
          arith,
          has_hash-append q.event_hash rows r,
          fresh,
          apart,
          eqb_comm r.event_hash q.event_hash,
        ),
        append-IsUnique rows r u rest,
      )

  pub Written-IsUnique :
      (now : ℕ) (e : Event) (db db' : Tables) (n : ℕ)
      → IsUnique db.events
      → Written now e db db' n
      → IsUnique db'.events
  Written-IsUnique now e db db' n u (inl (_, _, same)) = rw same u
  Written-IsUnique now e db db' n u (inr (_, new, same)) =
      let row = event_row now (sql.fresh_rowid (row_ids db.events)) e in
      let fresh : has_hash row.event_hash db.events ≡ false = unfold event_row in new in
      rw same (superseded-IsUnique e _ _ (append-IsUnique db.events row u fresh))

  settle-IsUnique :
      (db : Tables) (m : Outcome Error (Tables × ℕ))
      → IsUnique db.events
      → ((db' : Tables) (n : ℕ) → m ≡ ok (db', n) → IsUnique db'.events)
      → IsUnique (settle db m).0.events
  unfolding settle
  settle-IsUnique db (ok (db', n)) u h = h db' n refl
  settle-IsUnique db (err x) u h = u
  settle-IsUnique db panic u h = u

  -- Writing an event, whatever happens, never leaves two rows with the same hash.
  pub write_event-IsUnique :
      (faults : Faults) (now : ℕ) (e : Event) (db : Tables)
      → IsUnique db.events
      → IsUnique (write_event faults now e db).0.events
  unfolding write_event
  write_event-IsUnique faults now e db u =
      settle-IsUnique db (write_body faults now e db) u
        (λ db' n h. Written-IsUnique now e db db' n u (body-ok faults now e db db' n h))
