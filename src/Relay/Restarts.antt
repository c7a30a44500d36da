-- ===== src/Relay/Restarts.antt =====
-- main.rs and db.rs together: a relay that is started again on the file that an earlier run has left.
use nostrd.Base.{◌≡◌, ◌≢◌, refl, Option, String, List, [], ◌∷◌, map, true, false, All}
use nostrd.Base.Outcome.{ok}
use nostrd.Config.{Settings}
use nostrd.Db.Sqlite.{Engine}
use nostrd.Db.{EventRow, Tables}
use nostrd.Db.Schema.{Schema, BatchFaults, upgrade_db, show_row}
use nostrd.Db.Schema.Keeps.{upgrade_db-Holds}
use nostrd.Db.Unique.{IsUnique}
use nostrd.Db.Writer.Task.{is_ready}
use nostrd.Db.Writer.Task.Laws.{shown-IsUnique}
use nostrd.Primitives.{Primitives}
use nostrd.Relay.{Relay, Reach}
use nostrd.Relay.Sent.{IsAdmitted}
use nostrd.Relay.Rows.{IsStoredRow, hidden-IsStoredRow}
use nostrd.Relay.Unreferenced.{HasNoRefs, Reach-HasNoRefs}
use nostrd.Relay.Invariant.{IsSafe}
use nostrd.Relay.Safety.{Reach-IsSafe}
use nostrd.Relay.Matched.{IsMatched, Reach-IsMatched}

module _ ⦃lib : Primitives⦄ ⦃sql : Engine⦄ where
  -- SQLite makes a file that is not there: its version is 0, and it has no table
  abbrev pub new_file : Schema
  new_file = record {
    user_version = 0;
    event_table = false;
    hidden_column = false;
    hash_index = false;
    event_ref_table = false;
    pubkey_ref_table = false;
    tables = record { events = []; event_refs = []; pubkey_refs = [] };
  }

module _ ⦃lib : Primitives⦄ ⦃sql : Engine⦄ (settings : Settings) where
  -- A start of the relay on a file: the upgrade succeeds, the tables are in place, and the relay
  -- reaches a state.
  pub record Runs (file : Schema) (r : Relay) : Type 0 where
    pub version_fault : Option String
    pub batch_faults : BatchFaults
    pub startup_faults : BatchFaults
    pub upgrades : (upgrade_db version_fault batch_faults startup_faults file).1 ≡ ok tt
    pub in_place : is_ready (upgrade_db version_fault batch_faults startup_faults file).0 ≡ true
    pub way : Reach settings (upgrade_db version_fault batch_faults startup_faults file).0.tables r

  -- the file after any number of starts, some of which may have failed on the upgrade
  pub data Lives : Schema → Type 0 where
    created : Lives new_file
    fails :
        (file : Schema) (version_fault : Option String) (batch_faults startup_faults : BatchFaults)
        → Lives file
        → (upgrade_db version_fault batch_faults startup_faults file).1 ≢ ok tt
        → Lives (upgrade_db version_fault batch_faults startup_faults file).0
    ends :
        (file : Schema) (r : Relay) (run : Runs file r)
        → Lives file
        → Lives (record (upgrade_db run.version_fault run.batch_faults run.startup_faults file).0 {
          tables = r.writer.tables;
        })

  -- what a start needs of the tables
  pub record IsFit (t : Tables) : Type 0 where
    pub unique : IsUnique t.events
    pub rows : All (IsStoredRow (IsAdmitted settings)) t.events
    pub no_refs : HasNoRefs t

  shown-rows :
      (rows : List EventRow)
      → All (IsStoredRow (IsAdmitted settings)) rows
      → All (IsStoredRow (IsAdmitted settings)) (map show_row rows)
  shown-rows [] h = tt
  shown-rows (r ∷ rows) (row, h) = (hidden-IsStoredRow _ r _ row, shown-rows rows h)

  shown-IsFit : (t : Tables) → IsFit t → IsFit (record t { events = map show_row t.events })
  shown-IsFit t h = record {
    unique = shown-IsUnique t.events h.unique;
    rows = shown-rows t.events h.rows;
    no_refs = h.no_refs;
  }

  reached-IsFit : (t : Tables) (r : Relay) → IsFit t → Reach settings t r → IsFit r.writer.tables
  reached-IsFit t r h way =
      let safe = Reach-IsSafe settings t r h.unique h.rows way in
      record {
        unique = safe.consistent.unique;
        rows = safe.rows;
        no_refs = Reach-HasNoRefs settings t r h.no_refs way;
      }

  Lives-IsFit : (file : Schema) → Lives file → IsFit file.tables
  Lives-IsFit file created = record { unique = tt; rows = tt; no_refs = (refl, refl) }
  Lives-IsFit file (fails before v b s life failed) =
      upgrade_db-Holds IsFit shown-IsFit v b s before (Lives-IsFit before life)
  Lives-IsFit file (ends before r run life) =
      reached-IsFit _ r
        (upgrade_db-Holds IsFit shown-IsFit run.version_fault run.batch_faults run.startup_faults
          before (Lives-IsFit before life))
        run.way

  -- Of a relay that began on a new file, through any number of runs, each of which may end at any
  -- point, and of starts that fail on the upgrade, whatever errors the database reports: in every
  -- state that its next run reaches, everything is safe, and every client was sent, and will be
  -- forwarded, only events that match one of its requests. A run is one on a file whose upgrade
  -- succeeded and left the tables, the column and the index in place.
  pub Lives-IsSafe :
      (file : Schema) (r : Relay)
      → Lives file
      → Runs file r
      → IsSafe settings r × IsMatched settings r
  Lives-IsSafe file r life run =
      let fit =
        upgrade_db-Holds IsFit shown-IsFit run.version_fault run.batch_faults run.startup_faults
          file (Lives-IsFit file life) in
      (
        Reach-IsSafe settings _ r fit.unique fit.rows run.way,
        Reach-IsMatched settings _ r fit.unique fit.rows fit.no_refs run.way,
      )
