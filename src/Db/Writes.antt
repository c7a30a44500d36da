-- ===== src/Db/Writes.antt =====
-- db.rs: what `write_event` does to the tables, on every branch.
use nostrd.Base.{
  ℕ, ◌<◌, ◌^◌, ◌≡◌, ◌≢◌, refl, ◌↔◌, ◌⊎◌, inl, inr, none, [], ◌∷◌, ◌++◌, true, false, Bool-cases,
  ltb, ltb_iff, Mem,
}
use nostrd.Base.Outcome.{Outcome, ok, err, panic, >>=-eq-ok}
use nostrd.Db.Sqlite.{Engine}
use nostrd.Db.{Tables}
use nostrd.Db.Write.{
  Statement, begin, insert_event, Faults, check, row_ids, has_hash, event_row, time_error,
  write_body, settle, write_event,
}
use nostrd.Db.Details.{superseded, details-panic, details-ok}
use nostrd.Error.{Error}
use nostrd.Primitives.{Primitives}
use nostrd.Protocol.Tags.{get_type, event_type, pubkey_type, Tag}
use nostrd.Protocol.Event.References.{
  get_event_tags_lem, get_pubkey_tags_lem, get_tags_of_type-none_iff,
}
use nostrd.Protocol.Event.{Event, get_event_tags, get_pubkey_tags}

⊎_map : {A B C D : Type 0} → (A → C) → (B → D) → A ⊎ B → C ⊎ D
⊎_map f g (inl a) = inl (f a)
⊎_map f g (inr b) = inr (g b)

module _ ⦃lib : Primitives⦄ ⦃sql : Engine⦄ where
  -- A transaction that fails, or panics, leaves the tables as they were.
  pub write_event_atomic :
      (faults : Faults) (now : ℕ) (e : Event) (db : Tables)
      → ((n : ℕ) → (write_event faults now e db).1 ≢ ok n)
      → (write_event faults now e db).0 ≡ db
  unfolding write_event
  write_event_atomic faults now e db = unsettled (write_body faults now e db)
    where
      unsettled :
          (m : Outcome Error (Tables × ℕ))
          → ((n : ℕ) → (settle db m).1 ≢ ok n)
          → (settle db m).0 ≡ db
      unsettled (ok (db', n)) h = absurd (h n refl)
      unsettled (err x) h = refl
      unsettled panic h = refl

  -- An event whose hash is stored already is ignored: nothing changes, and 0 rows are reported,
  -- whatever the tags of the event.
  pub write_event_duplicate :
      (faults : Faults) (now : ℕ) (e : Event) (db : Tables)
      → ((s : Statement) → faults s ≡ none)
      → e.created_at < 2 ^ 63
      → has_hash (sql.hash_bytes e.id) db.events ≡ true
      → write_event faults now e db ≡ (db, ok 0)
  unfolding write_event write_body
  write_event_duplicate faults now e db calm small known =
      let fits : ltb e.created_at (2 ^ 63) ≡ true = (ltb_iff _ _).1 small in
      rw (calm begin, fits, calm insert_event, known)

  event_tags-none :
      (e : Event) → (get_event_tags e ≡ none) ↔ ((t : Tag) → Mem t e.tags → get_type t ≢ event_type)
  event_tags-none e = rw get_event_tags_lem (get_tags_of_type-none_iff e event_type)

  pubkey_tags-none :
      (e : Event)
      → (get_pubkey_tags e ≡ none) ↔ ((t : Tag) → Mem t e.tags → get_type t ≢ pubkey_type)
  pubkey_tags-none e = rw get_pubkey_tags_lem (get_tags_of_type-none_iff e pubkey_type)

  settle-panic :
      (db : Tables) (m : Outcome Error (Tables × ℕ)) → ((settle db m).1 ≡ panic) ↔ (m ≡ panic)
  unfolding settle
  settle-panic db (ok (db', n)) = (λ h. cc, λ h. cc)
  settle-panic db (err x) = (λ h. cc, λ h. cc)
  settle-panic db panic = (λ _. refl, λ _. refl)

  -- the tables with the new row, before the details
  abbrev pub with_row : ℕ → Event → Tables → Tables
  with_row now e db = record db {
    events = db.events ++ (event_row now (sql.fresh_rowid (row_ids db.events)) e ∷ []);
  }

  -- On a database that reports no error, writing an event panics exactly when its time fits SQLite's
  -- signed 64-bit integers, it is new, and it has no event tag at all or no pubkey tag at all.
  pub write_event-panic_iff :
      (faults : Faults) (now : ℕ) (e : Event) (db : Tables)
      → ((s : Statement) → faults s ≡ none)
      → ((write_event faults now e db).1 ≡ panic) ↔ (
          (e.created_at < 2 ^ 63)
          × (has_hash (sql.hash_bytes e.id) db.events ≡ false)
          × (((t : Tag) → Mem t e.tags → get_type t ≢ event_type)
              ⊎ ((t : Tag) → Mem t e.tags → get_type t ≢ pubkey_type)))
  unfolding write_event write_body
  write_event-panic_iff faults now e db calm =
      let ev_id = sql.fresh_rowid (row_ids db.events) in
      let missing = details-panic faults e ev_id (with_row now e db) calm in
      elim (Bool-cases (ltb e.created_at (2 ^ 63))) [
        | inr late ↦
            rw (calm begin, late)
              (
                λ p. absurd (unfold settle in cc p),
                λ h.
                    let fits : ltb e.created_at (2 ^ 63) ≡ true = (ltb_iff _ _).1 h.0 in
                    absurd (cc (fits, late)),
              )
        | inl fits ↦ elim (Bool-cases (has_hash (sql.hash_bytes e.id) db.events)) [
          | inl known ↦
              rw (calm begin, fits, calm insert_event, known)
                (λ p. absurd (unfold settle in cc p), λ h. cc h.1)
          | inr new ↦
              rw (calm begin, fits, calm insert_event, new)
                (
                  λ p. (
                    (ltb_iff _ _).0 fits,
                    refl,
                    ⊎_map (event_tags-none e).0 (pubkey_tags-none e).0
                        (missing.0 ((settle-panic db _).0 p)),
                  ),
                  λ h.
                      (settle-panic db _).1
                        (missing.1 (⊎_map (event_tags-none e).1 (pubkey_tags-none e).1 h.2)),
                )
        ]
      ]

  settle-ok :
      (db : Tables) (m : Outcome Error (Tables × ℕ)) (n : ℕ)
      → (settle db m).1 ≡ ok n
      → m ≡ ok ((settle db m).0, n)
  unfolding settle
  settle-ok db (ok (db', k)) n h = cc h
  settle-ok db (err x) n h = cc h
  settle-ok db panic n h = cc h

  -- what a successful transaction does to the tables
  abbrev pub Written : ℕ → Event → Tables → Tables → ℕ → Type 0
  Written now e db db' n =
      ((n ≡ 0) × (has_hash (sql.hash_bytes e.id) db.events ≡ true) × (db' ≡ db))
      ⊎ ((n ≡ 1)
          × (has_hash (sql.hash_bytes e.id) db.events ≡ false)
          × (db' ≡ record db {
            events = superseded e (sql.fresh_rowid (row_ids db.events)) (with_row now e db).events;
          }))

  pub body-ok :
      (faults : Faults) (now : ℕ) (e : Event) (db db' : Tables) (n : ℕ)
      → write_body faults now e db ≡ ok (db', n)
      → Written now e db db' n
  unfolding write_body
  body-ok faults now e db db' n h =
      let (u1, p1, h1) = >>=-eq-ok (check (faults begin)) _ h in
      let (u2, p2, h2) = >>=-eq-ok (check (time_error e.created_at)) _ h1 in
      let (u3, p3, h3) = >>=-eq-ok (check (faults insert_event)) _ h2 in
      elim (Bool-cases (has_hash (sql.hash_bytes e.id) db.events)) [
        | inl known ↦ let done = rw known at h3 in inl (cc done, known, cc done)
        | inr new ↦
            let (same, one) =
              details-ok faults e (sql.fresh_rowid (row_ids db.events)) (with_row now e db) db' n
                (rw new at h3) in
            inr (one, new, same)
      ]

  -- Whatever errors the database may report, a write that succeeds either reports 0 rows and leaves
  -- the tables as they were, the hash being stored already; or it reports 1 row, the hash being new,
  -- and the tables hold one more event row, with the superseded metadata hidden, and not one more
  -- reference: no row is ever added to `event_ref` or `pubkey_ref`.
  pub write_event-Written :
      (faults : Faults) (now : ℕ) (e : Event) (db : Tables) (n : ℕ)
      → (write_event faults now e db).1 ≡ ok n
      → Written now e db (write_event faults now e db).0 n
  unfolding write_event
  write_event-Written faults now e db n h =
      body-ok faults now e db (settle db (write_body faults now e db)).0 n
        (settle-ok db (write_body faults now e db) n h)
