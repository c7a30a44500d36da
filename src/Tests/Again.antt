-- ===== src/Tests/Again.antt =====
-- A relay that is started on a new file, stores a note, and is started again.
use nostrd.Base.{refl, none, true}
use nostrd.Config.{default_settings}
use nostrd.Db.Schema.{Schema, upgrade_db, db_version, upgrade_from, execute_batch, apply}
use nostrd.Db.Schema.Laws.{no_faults}
use nostrd.Relay.{Relay, at_start, here}
use nostrd.Relay.Invariant.{IsSafe}
use nostrd.Relay.Matched.{IsMatched}
use nostrd.Relay.Restarts.{new_file, Runs, Lives, created, ends, Lives-IsSafe}
use nostrd.Tests.System.{written, path}
use nostrd.Tests.Toy.{toy, toy_engine}

first_run : Runs default_settings new_file written
unfolding upgrade_db db_version upgrade_from execute_batch apply
first_run = record {
  version_fault = none;
  batch_faults = no_faults;
  startup_faults = no_faults;
  upgrades = refl;
  in_place = refl;
  way = path;
}

-- the file that the first run leaves
abbrev left_file : Schema
left_file = record {
  user_version = 2;
  event_table = true;
  hidden_column = true;
  hash_index = true;
  event_ref_table = true;
  pubkey_ref_table = true;
  tables = written.writer.tables;
}

life : Lives default_settings left_file
unfolding upgrade_db db_version upgrade_from execute_batch apply first_run
life = ends new_file written first_run created

abbrev next : Relay
next = at_start default_settings left_file.tables

second_run : Runs default_settings left_file next
unfolding upgrade_db db_version upgrade_from execute_batch apply
second_run = record {
  version_fault = none;
  batch_faults = no_faults;
  startup_faults = no_faults;
  upgrades = refl;
  in_place = refl;
  way = here;
}

Lives-IsSafe_example : IsSafe default_settings next × IsMatched default_settings next
Lives-IsSafe_example = Lives-IsSafe default_settings left_file next life second_run
