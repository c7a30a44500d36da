-- ===== src/Db/Writer/Task.antt =====
-- db.rs: `db_writer` as a whole: it opens the file, upgrades the schema, sets up the rate limit, and
-- runs the loop.
pub mod Laws
use nostrd.Base.{
  ℕ, zero, suc, ◌≡◌, refl, sym, ◌∙◌, ◌≤◌, inl, inr, String, Option, none, some, List, [], ◌∷◌, map,
  Bool, true, false, ◌&&◌, any, arith, if◌then◌else◌, Bool-cases, Option-cases,
}
use nostrd.Base.Outcome.{Outcome, ok, err, panic, ◌>>=◌}
use nostrd.Config.{Settings}
use nostrd.Db.Sqlite.{Engine, Blob}
use nostrd.Db.{EventRow, Tables}
use nostrd.Db.Write.{check, has_hash}
use nostrd.Db.Unique.{IsUnique}
use nostrd.Db.Schema.{
  SchemaStatement, setting, create_event, create_hash_index, create_index, create_event_ref,
  create_pubkey_ref, add_hidden, fill_hidden, set_version, init_sql, upgrade_sql, startup_sql,
  BatchFaults, Schema, show_row, apply, proceed, execute_batch, or_panic, upgrade_from, startup,
  with_version, db_version, upgrade_db,
}
use nostrd.Db.Schema.Laws.{up_to_date, upgrade_db-ok}
use nostrd.Db.Writer.{Writer, Arrival, writer_loop}
use nostrd.Db.Writer.Laws.{IsConsistent, writer_loop-IsConsistent}
use nostrd.Db.Writer.Rate.{rate_quota}
use nostrd.Error.{Error}
use nostrd.Primitives.{Primitives}
use nostrd.Protocol.Event.{Event}

module _ ⦃lib : Primitives⦄ ⦃sql : Engine⦄ where
  -- the tables, the column and the unique index that the writes rely on
  abbrev pub is_ready : Schema → Bool
  is_ready s =
      s.event_table && s.hidden_column && s.hash_index && s.event_ref_table && s.pubkey_ref_table

  -- The loop, which the writes of `write_event` describe on a file that is ready. What happens on
  -- another file is SQLite's, and an argument.
  abbrev pub run_loop : (Schema → Schema × List Event) → List Arrival → Schema → Schema × List Event
  run_loop unready arrivals s =
      let w = writer_loop arrivals (record { tables = s.tables; broadcasts = [] }) in
      if is_ready s then (record s { tables = w.tables }, w.broadcasts) else unready s

  abbrev pub with_quota :
      (Schema → Schema × List Event)
      → List Arrival
      → Schema
      → Outcome Error (Option ℕ)
      → Schema × List Event
  with_quota unready arrivals s (ok quota) = run_loop unready arrivals s
  with_quota unready arrivals s (err e) = (s, [])
  with_quota unready arrivals s panic = (s, [])

  abbrev pub once_upgraded :
      Settings
      → (Schema → Schema × List Event)
      → List Arrival
      → Schema × Outcome Error Unit
      → Schema × List Event
  once_upgraded settings unready arrivals (s, ok u) =
      with_quota unready arrivals s (rate_quota settings.limits.messages_per_sec)
  once_upgraded settings unready arrivals (s, err e) = (s, [])
  once_upgraded settings unready arrivals (s, panic) = (s, [])

  -- `db_writer`: the file that it leaves, and the events that it has sent to all clients
  unfoldable pub db_writer :
      Settings
      → (Schema → Schema × List Event)
      → (open_error version_fault : Option String) → (batch_faults startup_faults : BatchFaults)
      → List Arrival
      → Schema
      → Schema × List Event
  db_writer settings unready (some x) version_fault batch_faults startup_faults arrivals s = (s, [])
  db_writer settings unready none version_fault batch_faults startup_faults arrivals s =
      once_upgraded settings unready arrivals
        (upgrade_db version_fault batch_faults startup_faults s)

  -- A file of each version as the releases leave it.
  pub record IsReleased (s : Schema) : Type 0 where
    pub fresh : s.user_version ≡ 0 → s.event_table ≡ false
    pub old : s.user_version ≡ 1 → is_ready (record s { hidden_column = true }) ≡ true
    pub current : s.user_version ≡ 2 → is_ready s ≡ true
