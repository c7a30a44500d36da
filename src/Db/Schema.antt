-- ===== src/Db/Schema.antt =====
-- db.rs: `db_version` and `upgrade_db`, with the statements of INIT_SQL, of the upgrade from version
-- 1 and of STARTUP_SQL. A batch runs its statements one by one, outside a transaction, and stops at
-- the first that fails.
pub mod Laws
pub mod Keeps
use nostrd.Base.{
  ℕ, zero, suc, String, Option, none, some, List, [], ◌∷◌, map, Bool, true, false, not,
  if◌then◌else◌,
}
use nostrd.Base.Outcome.{Outcome, ok, err, panic, ◌>>=◌}
use nostrd.Db.Sqlite.{Engine}
use nostrd.Db.{EventRow, Tables}
use nostrd.Db.Write.{check}
use nostrd.Error.{Error, sql_error}
use nostrd.Primitives.{Primitives}

-- `setting` is a pragma that changes nothing that is modelled.
pub data SchemaStatement : Type 0 where
  setting create_event create_hash_index create_index create_event_ref create_pubkey_ref :
      SchemaStatement
  add_hidden fill_hidden : SchemaStatement
  set_version : ℕ → SchemaStatement

-- the SQL texts
abbrev pub init_sql : List SchemaStatement
init_sql =
    setting
    ∷ setting
    ∷ setting
    ∷ setting
    ∷ setting
    ∷ set_version 2
    ∷ create_event
    ∷ create_hash_index
    ∷ create_index
    ∷ create_index
    ∷ create_index
    ∷ create_event_ref
    ∷ create_index
    ∷ create_pubkey_ref
    ∷ create_index
    ∷ []

abbrev pub upgrade_sql : List SchemaStatement
upgrade_sql = add_hidden ∷ fill_hidden ∷ set_version 2 ∷ []

abbrev pub startup_sql : List SchemaStatement
startup_sql = setting ∷ setting ∷ setting ∷ []

-- The errors that the database reports, by the place of the statement in its batch.
abbrev pub BatchFaults : Type 0
BatchFaults = ℕ → Option String

module _ ⦃lib : Primitives⦄ ⦃sql : Engine⦄ where
  -- the file of the database: its version, what it has, and its rows
  pub record Schema : Type 0 where
    pub user_version : ℕ
    pub event_table : Bool
    pub hidden_column : Bool
    pub hash_index : Bool
    pub event_ref_table : Bool
    pub pubkey_ref_table : Bool
    pub tables : Tables

  abbrev pub show_row : EventRow → EventRow
  show_row r = record r { hidden = some false }

  -- One statement. CREATE … IF NOT EXISTS leaves what is there; the table of events is needed for its
  -- index and its columns; a column that is there cannot be added, and one that is not cannot be set.
  abbrev no_table : Outcome Error Schema
  no_table = err (sql_error "no such table: event")

  unfoldable pub apply : SchemaStatement → Schema → Outcome Error Schema
  apply setting s = ok s
  apply (set_version n) s = ok (record s { user_version = n })
  apply create_event s =
      if s.event_table then ok s else ok (record s { event_table = true; hidden_column = true })
  apply create_hash_index s =
      if s.event_table then ok (record s { hash_index = true }) else no_table
  apply create_index s = ok s
  apply create_event_ref s = ok (record s { event_ref_table = true })
  apply create_pubkey_ref s = ok (record s { pubkey_ref_table = true })
  apply add_hidden s =
      if not s.event_table
      then no_table
      else if s.hidden_column
      then err (sql_error "duplicate column name: hidden")
      else ok (record s { hidden_column = true })
  apply fill_hidden s =
      if not s.event_table
      then no_table
      else if s.hidden_column
      then ok (record s { tables = record s.tables { events = map show_row s.tables.events } })
      else err (sql_error "no such column: hidden")

  -- one statement after the check of its fault, and the rest of the batch
  abbrev pub proceed :
      Schema
      → Outcome Error Schema
      → (Schema → Schema × Outcome Error Unit)
      → Schema × Outcome Error Unit
  proceed s (ok s') rest = rest s'
  proceed s (err e) rest = (s, err e)
  proceed s panic rest = (s, panic)

  -- `execute_batch`, from the statement with the number `i` on
  unfoldable pub execute_batch :
      BatchFaults → ℕ → List SchemaStatement → Schema → Schema × Outcome Error Unit
  execute_batch faults i [] s = (s, ok tt)
  execute_batch faults i (st ∷ sts) s =
      proceed s (check (faults i) >>= λ _. apply st s) (λ s'. execute_batch faults (suc i) sts s')

  -- a batch whose error is a panic
  abbrev pub or_panic : Schema × Outcome Error Unit → Schema × Outcome Error Unit
  or_panic (s, ok u) = (s, ok u)
  or_panic (s, err e) = (s, panic)
  or_panic (s, panic) = (s, panic)

  unfoldable pub db_version : Option String → Schema → Outcome Error ℕ
  db_version fault s = check fault >>= λ _. ok s.user_version

  -- the branch for a version
  unfoldable pub upgrade_from : BatchFaults → ℕ → Schema → Schema × Outcome Error Unit
  upgrade_from faults zero s = or_panic (execute_batch faults 0 init_sql s)
  upgrade_from faults (suc zero) s = or_panic (execute_batch faults 0 upgrade_sql s)
  upgrade_from faults (suc (suc zero)) s = (s, ok tt)
  upgrade_from faults (suc (suc (suc n))) s = (s, panic)

  -- the pragmas at the end
  abbrev pub startup : BatchFaults → Schema × Outcome Error Unit → Schema × Outcome Error Unit
  startup faults (s, ok u) = execute_batch faults 0 startup_sql s
  startup faults (s, err e) = (s, err e)
  startup faults (s, panic) = (s, panic)

  abbrev pub with_version :
      BatchFaults → BatchFaults → Schema → Outcome Error ℕ → Schema × Outcome Error Unit
  with_version batch_faults startup_faults s (ok n) =
      startup startup_faults (upgrade_from batch_faults n s)
  with_version batch_faults startup_faults s (err e) = (s, err e)
  with_version batch_faults startup_faults s panic = (s, panic)

  -- `upgrade_db`, with the error of reading the version, and those of the two batches
  unfoldable pub upgrade_db :
      Option String → BatchFaults → BatchFaults → Schema → Schema × Outcome Error Unit
  upgrade_db version_fault batch_faults startup_faults s =
      with_version batch_faults startup_faults s (db_version version_fault s)
