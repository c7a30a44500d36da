-- ===== src/Db/Schema/Keeps.antt =====
-- db.rs: what the upgrade of the schema keeps of the tables, whether it succeeds or not.
use nostrd.Base.{
  ℕ, zero, suc, inl, inr, String, Option, none, some, List, [], ◌∷◌, map, Bool-cases, Option-cases,
}
use nostrd.Base.Outcome.{Outcome, ok, err, panic, ◌>>=◌}
use nostrd.Db.Sqlite.{Engine}
use nostrd.Db.{Tables}
use nostrd.Db.Write.{check}
use nostrd.Db.Schema.{
  SchemaStatement, setting, create_event, create_hash_index, create_index, create_event_ref,
  create_pubkey_ref, add_hidden, fill_hidden, set_version, init_sql, upgrade_sql, startup_sql,
  BatchFaults, Schema, show_row, apply, proceed, execute_batch, or_panic, upgrade_from, startup,
  db_version, upgrade_db,
}
use nostrd.Error.{Error}
use nostrd.Primitives.{Primitives}

module _ ⦃lib : Primitives⦄ ⦃sql : Engine⦄ (P : Tables → Type 0)
    (shown : (t : Tables) → P t → P (record t { events = map show_row t.events })) where
  abbrev Holds : Schema → Type 0
  Holds s = P s.tables

  -- what a statement leaves, if it succeeds
  abbrev Leaves : Outcome Error Schema → Type 0
  Leaves (ok s) = Holds s
  Leaves (err e) = Unit
  Leaves panic = Unit

  apply-Leaves : (st : SchemaStatement) (s : Schema) → Holds s → Leaves (apply st s)
  unfolding apply
  apply-Leaves setting s u = u
  apply-Leaves (set_version n) s u = u
  apply-Leaves create_event s u = elim (Bool-cases s.event_table) [
    | inl there ↦ rw there u
    | inr missing ↦ rw missing u
  ]
  apply-Leaves create_hash_index s u = elim (Bool-cases s.event_table) [
    | inl there ↦ rw there u
    | inr missing ↦ rw missing tt
  ]
  apply-Leaves create_index s u = u
  apply-Leaves create_event_ref s u = u
  apply-Leaves create_pubkey_ref s u = u
  apply-Leaves add_hidden s u = elim (Bool-cases s.event_table) [
    | inl there ↦ elim (Bool-cases s.hidden_column) [
      | inl twice ↦ rw (there, twice) tt
      | inr new ↦ rw (there, new) u
    ]
    | inr missing ↦ rw missing tt
  ]
  apply-Leaves fill_hidden s u = elim (Bool-cases s.event_table) [
    | inl there ↦ elim (Bool-cases s.hidden_column) [
      | inl column ↦ rw (there, column) (shown s.tables u)
      | inr none_there ↦ rw (there, none_there) tt
    ]
    | inr missing ↦ rw missing tt
  ]

  checked-Leaves :
      (fault : Option String) (st : SchemaStatement) (s : Schema)
      → Holds s
      → Leaves (check fault >>= λ _. apply st s)
  checked-Leaves fault st s u = elim (Option-cases fault) [
    | inl calm ↦ rw calm (apply-Leaves st s u)
    | inr (x, failed) ↦ rw failed tt
  ]

  proceed-Holds :
      (s : Schema) (o : Outcome Error Schema) (rest : Schema → Schema × Outcome Error Unit)
      → Holds s
      → Leaves o
      → ((s' : Schema) → Holds s' → Holds (rest s').0)
      → Holds (proceed s o rest).0
  proceed-Holds s (ok s') rest u left h = h s' left
  proceed-Holds s (err e) rest u left h = u
  proceed-Holds s panic rest u left h = u

  execute_batch-Holds :
      (faults : BatchFaults) (i : ℕ) (sts : List SchemaStatement) (s : Schema)
      → Holds s
      → Holds (execute_batch faults i sts s).0
  unfolding execute_batch
  execute_batch-Holds faults i [] s u = u
  execute_batch-Holds faults i (st ∷ sts) s u =
      proceed-Holds s _ _ u (checked-Leaves (faults i) st s u)
        (λ s' u'. execute_batch-Holds faults (suc i) sts s' u')

  or_panic-Holds : (r : Schema × Outcome Error Unit) → Holds r.0 → Holds (or_panic r).0
  or_panic-Holds (s, ok v) u = u
  or_panic-Holds (s, err e) u = u
  or_panic-Holds (s, panic) u = u

  upgrade_from-Holds :
      (faults : BatchFaults) (n : ℕ) (s : Schema) → Holds s → Holds (upgrade_from faults n s).0
  unfolding upgrade_from
  upgrade_from-Holds faults zero s u = or_panic-Holds _ (execute_batch-Holds faults 0 init_sql s u)
  upgrade_from-Holds faults (suc zero) s u =
      or_panic-Holds _ (execute_batch-Holds faults 0 upgrade_sql s u)
  upgrade_from-Holds faults (suc (suc zero)) s u = u
  upgrade_from-Holds faults (suc (suc (suc n))) s u = u

  startup-Holds :
      (faults : BatchFaults) (r : Schema × Outcome Error Unit)
      → Holds r.0
      → Holds (startup faults r).0
  startup-Holds faults (s, ok v) u = execute_batch-Holds faults 0 startup_sql s u
  startup-Holds faults (s, err e) u = u
  startup-Holds faults (s, panic) u = u

  -- What showing the rows keeps, an upgrade keeps, whatever it meets.
  pub upgrade_db-Holds :
      (version_fault : Option String) (batch_faults startup_faults : BatchFaults) (s : Schema)
      → Holds s
      → Holds (upgrade_db version_fault batch_faults startup_faults s).0
  unfolding upgrade_db db_version
  upgrade_db-Holds (some x) batch_faults startup_faults s u = u
  upgrade_db-Holds none batch_faults startup_faults s u =
      startup-Holds startup_faults _ (upgrade_from-Holds batch_faults s.user_version s u)
