-- ===== src/Db/Schema/Laws.antt =====
-- db.rs: what `upgrade_db` leaves, and what becomes of an upgrade that is interrupted.
use nostrd.Base.{
  ℕ, zero, suc, String, ◌≡◌, ◌≢◌, refl, ◌∙◌, ◌≤◌, ◌<◌, inl, inr, Option, none, some, List, [], ◌∷◌,
  map, true, false, arith, Option-cases, Bool-cases, if◌then◌else◌,
}
use nostrd.Base.Outcome.{Outcome, ok, err, panic}
use nostrd.Db.Sqlite.{Engine}
use nostrd.Db.Schema.{
  SchemaStatement, init_sql, upgrade_sql, startup_sql, BatchFaults, Schema, show_row, apply,
  execute_batch, or_panic, db_version, upgrade_from, startup, upgrade_db, proceed,
}
use nostrd.Error.{Error}
use nostrd.Primitives.{Primitives}

module _ ⦃lib : Primitives⦄ ⦃sql : Engine⦄ where
  abbrev pub no_faults : BatchFaults
  no_faults _ = none

  -- the rest of a batch may be exchanged for one that agrees with it where it succeeds
  proceed-agrees :
      (s : Schema) (o : Outcome Error Schema) (rest rest' : Schema → Schema × Outcome Error Unit)
      → ((s' : Schema) → (rest s').1 ≡ ok tt → rest s' ≡ rest' s')
      → (proceed s o rest).1 ≡ ok tt
      → proceed s o rest ≡ proceed s o rest'
  proceed-agrees s (ok s') rest rest' agree h = agree s' h
  proceed-agrees s (err e) rest rest' agree h = refl
  proceed-agrees s panic rest rest' agree h = refl

  -- A batch that succeeds does what it does on a database that reports no error.
  execute_batch-calm :
      (faults : BatchFaults) (i : ℕ) (sts : List SchemaStatement) (s : Schema)
      → (execute_batch faults i sts s).1 ≡ ok tt
      → execute_batch faults i sts s ≡ execute_batch no_faults i sts s
  unfolding execute_batch
  execute_batch-calm faults i [] s h = refl
  execute_batch-calm faults i (st ∷ sts) s h = elim (Option-cases (faults i)) [
    | inl calm ↦ rw calm (
        proceed-agrees s (apply st s) _ _ (λ s'. execute_batch-calm faults (suc i) sts s')
          (rw calm at h))
    | inr (m, fault) ↦ absurd (cc (rw fault at h))
  ]

  -- the file after the first start, and after the upgrade from version 1
  abbrev pub initialized : Schema → Schema
  initialized s = record s {
    user_version = 2;
    event_table = true;
    hidden_column = if s.event_table then s.hidden_column else true;
    hash_index = true;
    event_ref_table = true;
    pubkey_ref_table = true;
  }

  abbrev pub upgraded : Schema → Schema
  upgraded s = record s {
    user_version = 2;
    hidden_column = true;
    tables = record s.tables { events = map show_row s.tables.events };
  }

  abbrev pub up_to_date : ℕ → Schema → Schema
  up_to_date zero s = initialized s
  up_to_date (suc zero) s = upgraded s
  up_to_date (suc (suc n)) s = s

  init-calm : (s : Schema) → execute_batch no_faults 0 init_sql s ≡ (initialized s, ok tt)
  unfolding execute_batch apply
  init-calm s = elim (Bool-cases s.event_table) [
    | inl there ↦ rw there refl
    | inr missing ↦ rw missing refl
  ]

  upgrade-calm :
      (s : Schema)
      → (execute_batch no_faults 0 upgrade_sql s).1 ≡ ok tt
      → execute_batch no_faults 0 upgrade_sql s ≡ (upgraded s, ok tt)
  unfolding execute_batch apply
  upgrade-calm s h = elim (Bool-cases s.event_table) [
    | inl there ↦ elim (Bool-cases s.hidden_column) [
      | inl twice ↦ absurd (cc (rw (there, twice) at h))
      | inr missing ↦ rw (there, missing) refl
    ]
    | inr none_there ↦ absurd (cc (rw none_there at h))
  ]

  startup-keeps :
      (faults : BatchFaults) (s : Schema)
      → (execute_batch faults 0 startup_sql s).1 ≡ ok tt
      → execute_batch faults 0 startup_sql s ≡ (s, ok tt)
  startup-keeps faults s h =
      execute_batch-calm faults 0 startup_sql s h ∙ unfold execute_batch apply in refl

  or_panic-ok :
      (r : Schema × Outcome Error Unit) → (or_panic r).1 ≡ ok tt → (r.1 ≡ ok tt) × (or_panic r ≡ r)
  or_panic-ok (s, ok u) h = (refl, refl)
  or_panic-ok (s, err e) h = absurd (cc h)
  or_panic-ok (s, panic) h = absurd (cc h)

  upgrade_from-ok :
      (faults : BatchFaults) (n : ℕ) (s : Schema)
      → (upgrade_from faults n s).1 ≡ ok tt
      → (upgrade_from faults n s ≡ (up_to_date n s, ok tt)) × (n ≤ 2)
  unfolding upgrade_from
  upgrade_from-ok faults zero s h =
      let (went, same) = or_panic-ok (execute_batch faults 0 init_sql s) h in
      (same ∙ execute_batch-calm faults 0 init_sql s went ∙ init-calm s, omega arith)
  upgrade_from-ok faults (suc zero) s h =
      let (went, same) = or_panic-ok (execute_batch faults 0 upgrade_sql s) h in
      let calm = execute_batch-calm faults 0 upgrade_sql s went in
      (same ∙ calm ∙ upgrade-calm s (rw calm at went), omega arith)
  upgrade_from-ok faults (suc (suc zero)) s h = (refl, omega arith)
  upgrade_from-ok faults (suc (suc (suc n))) s h = absurd (cc h)

  startup-ok :
      (faults : BatchFaults) (r : Schema × Outcome Error Unit)
      → (startup faults r).1 ≡ ok tt
      → (r.1 ≡ ok tt) × (startup faults r ≡ r)
  startup-ok faults (s, ok u) h = (refl, startup-keeps faults s h)
  startup-ok faults (s, err e) h = absurd (cc h)
  startup-ok faults (s, panic) h = absurd (cc h)

  -- Whatever errors the database may report, an upgrade that succeeds started from version 0, 1 or
  -- 2. It leaves the version at 2: from 0, with the tables and the index in place, and the column
  -- `hidden` if the table of events is new; from 1, with the column `hidden`, and every row shown; from
  -- 2, as the file was.
  pub upgrade_db-ok :
      (version_fault : Option String) (batch_faults startup_faults : BatchFaults) (s : Schema)
      → (upgrade_db version_fault batch_faults startup_faults s).1 ≡ ok tt
      → (upgrade_db version_fault batch_faults startup_faults s
          ≡ (up_to_date s.user_version s, ok tt))
        × (s.user_version ≤ 2)
  unfolding upgrade_db db_version
  upgrade_db-ok (some x) batch_faults startup_faults s h = absurd (cc h)
  upgrade_db-ok none batch_faults startup_faults s h =
      let (went, same) = startup-ok startup_faults (upgrade_from batch_faults s.user_version s) h in
      let (done, small) = upgrade_from-ok batch_faults s.user_version s went in (same ∙ done, small)

  version-up_to_date :
      (n : ℕ) (s : Schema) → n ≤ 2 → s.user_version ≡ n → (up_to_date n s).user_version ≡ 2
  version-up_to_date zero s small h = refl
  version-up_to_date (suc zero) s small h = refl
  version-up_to_date (suc (suc n)) s small h = omega (arith, small, h)

  current-stays :
      (s : Schema) → s.user_version ≡ 2 → upgrade_db none no_faults no_faults s ≡ (s, ok tt)
  unfolding upgrade_db db_version upgrade_from execute_batch apply
  current-stays s h = rw h refl

  -- After an upgrade that succeeded the version is 2, and the next start, on a database without
  -- errors, succeeds and changes nothing.
  pub upgrade_db-idempotent :
      (version_fault : Option String) (batch_faults startup_faults : BatchFaults) (s : Schema)
      → (upgrade_db version_fault batch_faults startup_faults s).1 ≡ ok tt
      → let s' = (upgrade_db version_fault batch_faults startup_faults s).0 in
        (s'.user_version ≡ 2) × (upgrade_db none no_faults no_faults s' ≡ (s', ok tt))
  upgrade_db-idempotent version_fault batch_faults startup_faults s h =
      let (done, small) = upgrade_db-ok version_fault batch_faults startup_faults s h in
      let version = version-up_to_date s.user_version s small refl in
      rw done (version, current-stays (up_to_date s.user_version s) version)

  stuck :
      (s : Schema)
      → s.user_version ≡ 1
      → s.event_table ≡ true
      → s.hidden_column ≡ true
      → (version_fault : Option String) (batch_faults startup_faults : BatchFaults)
      → ((upgrade_db version_fault batch_faults startup_faults s).0 ≡ s)
        × ((upgrade_db version_fault batch_faults startup_faults s).1 ≢ ok tt)
  unfolding upgrade_db db_version upgrade_from execute_batch apply
  stuck s one table column (some x) batch_faults startup_faults = (refl, λ p. cc p)
  stuck s one table column none batch_faults startup_faults = elim (Option-cases (batch_faults 0)) [
    | inl calm ↦ rw (one, table, calm, column) (refl, λ p. cc p)
    | inr (x, fault) ↦ rw (one, fault) (refl, λ p. cc p)
  ]

  -- An upgrade from version 1, of a file with the table of events and without the column `hidden`, that
  -- fails on its second statement, after the column was added, never succeeds again: whatever errors
  -- later starts meet, each of them fails and leaves the file as it is.
  pub upgrade_db-interrupted :
      (s : Schema) (batch_faults startup_faults : BatchFaults) (x : String)
      → s.user_version ≡ 1
      → s.event_table ≡ true
      → s.hidden_column ≡ false
      → batch_faults 0 ≡ none
      → batch_faults 1 ≡ some x
      → (version_fault : Option String) (batch_faults' startup_faults' : BatchFaults)
      → let s' = (upgrade_db none batch_faults startup_faults s).0 in
        ((upgrade_db version_fault batch_faults' startup_faults' s').0 ≡ s')
        × ((upgrade_db version_fault batch_faults' startup_faults' s').1 ≢ ok tt)
  upgrade_db-interrupted s batch_faults startup_faults x one table bare calm fault version_fault
        batch_faults' startup_faults' =
      let stopped : (upgrade_db none batch_faults startup_faults s).0
          ≡ record s { hidden_column = true } =
        unfold upgrade_db db_version upgrade_from execute_batch apply in
        rw (one, table, calm, bare, fault) refl in
      rw stopped (
        stuck (record s { hidden_column = true }) one table refl version_fault batch_faults'
          startup_faults')

  -- A start on a file of version 0 without a table of events, whose first error is met on creating it,
  -- panics; the next start, if it meets no error, succeeds and changes nothing, and the table is still
  -- missing.
  pub upgrade_db-half_created :
      (s : Schema) (batch_faults startup_faults : BatchFaults) (x : String)
      → s.user_version ≡ 0
      → s.event_table ≡ false
      → ((i : ℕ) → i < 6 → batch_faults i ≡ none)
      → batch_faults 6 ≡ some x
      → let s' = (upgrade_db none batch_faults startup_faults s).0 in
        ((upgrade_db none batch_faults startup_faults s).1 ≡ panic)
        × (upgrade_db none no_faults no_faults s' ≡ (s', ok tt))
        × (s'.event_table ≡ false)
  upgrade_db-half_created s batch_faults startup_faults x zero_version bare calm fault =
      let stopped : upgrade_db none batch_faults startup_faults s
          ≡ (record s { user_version = 2 }, panic) =
        unfold upgrade_db db_version upgrade_from execute_batch apply in
        rw
          (
            zero_version,
            calm 0 (omega arith),
            calm 1 (omega arith),
            calm 2 (omega arith),
            calm 3 (omega arith),
            calm 4 (omega arith),
            calm 5 (omega arith),
            fault,
          )
          refl in
      rw stopped (refl, current-stays (record s { user_version = 2 }) refl, bare)
