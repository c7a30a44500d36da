-- ===== src/Db/Metadata.antt =====
-- db.rs: which metadata events of an author a write leaves visible.
use nostrd.Base.{
  ℕ, ◌==◌, ◌<◌, ◌≡◌, ◌⊎◌, inl, inr, some, true, not, ◌&&◌, leb, eqb, eqb_iff, arith, All, All-map,
  All-of_all, Bool-cases,
}
use nostrd.Base.Outcome.{ok}
use nostrd.Db.Sqlite.{Engine}
use nostrd.Db.{EventRow, Tables}
use nostrd.Db.Write.{Faults, row_ids, is_shown, same_author, hide_row, hide_older, write_event}
use nostrd.Db.Writes.{write_event-Written, with_row}
use nostrd.Primitives.{Primitives}
use nostrd.Protocol.Event.{Event}
use nostrd.Protocol.Event.Serial.{kind_to_u64}

module _ ⦃lib : Primitives⦄ ⦃sql : Engine⦄ where
  -- a visible metadata row of the author of `e` is that of `e` itself, or issued later
  abbrev pub IsCurrent : Event → ℕ → EventRow → Type 0
  IsCurrent e ev_id r =
      r.kind ≡ 0
      → r.author ≡ sql.key_bytes e.pubkey
      → is_shown r.hidden ≡ true
      → (r.id ≡ ev_id) ⊎ (e.created_at < r.created_at)

  hide_row-IsCurrent :
      (e : Event) (ev_id : ℕ) (r : EventRow)
      → IsCurrent e ev_id (hide_row ev_id 0 (some (sql.key_bytes e.pubkey)) e.created_at r)
  unfolding hide_row
  hide_row-IsCurrent e ev_id r =
      elim (Bool-cases (
        not (r.id == ev_id)
        && (r.kind == 0)
        && same_author (some (sql.key_bytes e.pubkey)) r.author
        && leb r.created_at e.created_at
        && is_shown r.hidden)) [
          | inl hides ↦ rw hides (λ k a shown. absurd (cc shown))
          | inr stays ↦ rw stays (λ k a shown.
              let own : eqb sql.Bytes_discrete r.author (sql.key_bytes e.pubkey) ≡ true =
                (eqb_iff sql.Bytes_discrete r.author (sql.key_bytes e.pubkey)).1 a in
              ground (arith, stays, own, k, shown))
        ]

  -- A metadata event that is written as new leaves no other metadata row of its author visible but
  -- those issued later than it.
  pub write_event-IsCurrent :
      (faults : Faults) (now : ℕ) (e : Event) (db : Tables)
      → kind_to_u64 e.kind ≡ 0
      → (write_event faults now e db).1 ≡ ok 1
      → All
          (IsCurrent e (sql.fresh_rowid (row_ids db.events)))
          (write_event faults now e db).0.events
  write_event-IsCurrent faults now e db metadata done =
      elim (write_event-Written faults now e db 1 done) [
        | inl (zero_rows, _, _) ↦ absurd (cc zero_rows)
        | inr (_, _, same) ↦
            let ev_id = sql.fresh_rowid (row_ids db.events) in
            let rows = (with_row now e db).events in
            let all =
              All-map (IsCurrent e ev_id)
                (hide_row ev_id 0 (some (sql.key_bytes e.pubkey)) e.created_at) rows
                (All-of_all _ (hide_row-IsCurrent e ev_id) rows) in
            rw (same, metadata) (unfold hide_older in all)
      ]
