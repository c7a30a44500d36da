-- ===== src/Tests/Schema.antt =====
-- The upgrade of the schema at concrete files.
use nostrd.Base.{ℕ, ◌≡◌, ◌≢◌, ◌≤◌, ◌<◌, refl, none, some, [], ◌∷◌, true, false, arith, zero, suc}
use nostrd.Base.Outcome.{ok, panic}
use nostrd.Db.Write.{event_row}
use nostrd.Db.Schema.{
  Schema, BatchFaults, upgrade_db, db_version, upgrade_from, execute_batch, apply,
}
use nostrd.Db.Schema.Laws.{
  no_faults, up_to_date, upgrade_db-ok, upgrade_db-interrupted, upgrade_db-half_created,
}
use nostrd.Base.{List, any}
use nostrd.Config.{default_settings}
use nostrd.Protocol.Event.{Event}
use nostrd.Db.Write.{has_hash}
use nostrd.Db.Writer.Laws.{IsConsistent}
use nostrd.Db.Writer.Task.{IsReleased, db_writer}
use nostrd.Db.Writer.Task.Laws.{db_writer-IsConsistent}
use nostrd.Tests.Store.{arrivals}
use nostrd.Tests.Samples.{note}
use nostrd.Tests.Store.{empty}
use nostrd.Tests.Toy.{toy, toy_engine}

abbrev new_file : Schema
new_file = record {
  user_version = 0;
  event_table = false;
  hidden_column = false;
  hash_index = false;
  event_ref_table = false;
  pubkey_ref_table = false;
  tables = empty;
}

abbrev old_file : Schema
old_file = record {
  user_version = 1;
  event_table = true;
  hidden_column = false;
  hash_index = true;
  event_ref_table = true;
  pubkey_ref_table = true;
  tables = record empty { events = record (event_row 5 1 note) { hidden = none } ∷ [] };
}

-- the statement with the number `k` fails
abbrev fails_at : ℕ → BatchFaults
fails_at zero zero = some "disk I/O error"
fails_at (suc k) zero = none
fails_at zero (suc i) = none
fails_at (suc k) (suc i) = fails_at k i

early : (i : ℕ) → i < 6 → fails_at 6 i ≡ none
early zero h = refl
early (suc zero) h = refl
early (suc (suc zero)) h = refl
early (suc (suc (suc zero))) h = refl
early (suc (suc (suc (suc zero)))) h = refl
early (suc (suc (suc (suc (suc zero))))) h = refl
early (suc (suc (suc (suc (suc (suc i)))))) h = absurd (omega (arith, h))

upgrade_db-ok_example :
    (upgrade_db none no_faults no_faults old_file ≡ (up_to_date 1 old_file, ok tt)) × (1 ≤ 2)
unfolding upgrade_db db_version upgrade_from execute_batch apply
upgrade_db-ok_example = upgrade_db-ok none no_faults no_faults old_file refl

upgrade_db-interrupted_example :
    let s' = (upgrade_db none (fails_at 1) no_faults old_file).0 in
    ((upgrade_db none no_faults no_faults s').0 ≡ s')
    × ((upgrade_db none no_faults no_faults s').1 ≢ ok tt)
upgrade_db-interrupted_example =
    upgrade_db-interrupted old_file (fails_at 1) no_faults "disk I/O error" refl refl refl refl refl
      none no_faults no_faults

upgrade_db-half_created_example :
    let s' = (upgrade_db none (fails_at 6) no_faults new_file).0 in
    ((upgrade_db none (fails_at 6) no_faults new_file).1 ≡ panic)
    × (upgrade_db none no_faults no_faults s' ≡ (s', ok tt))
    × (s'.event_table ≡ false)
upgrade_db-half_created_example =
    upgrade_db-half_created new_file (fails_at 6) no_faults "disk I/O error" refl refl early refl

old_file-IsReleased : IsReleased old_file
old_file-IsReleased = record {
  fresh = λ h. absurd (cc h);
  old = λ h. refl;
  current = λ h. absurd (cc h);
}

abbrev left : Schema × List Event
left = db_writer default_settings (λ s. (s, [])) none none no_faults no_faults arrivals old_file

db_writer-IsConsistent_example :
    IsConsistent (record { tables = left.0.tables; broadcasts = left.1 })
unfolding has_hash any
db_writer-IsConsistent_example =
    db_writer-IsConsistent default_settings (λ s. (s, [])) none none no_faults no_faults arrivals
      old_file old_file-IsReleased (refl, tt)
