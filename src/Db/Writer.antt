-- ===== src/Db/Writer.antt =====
-- db.rs: the loop of `db_writer`. One turn takes the next event from the channel, unless it was told
-- to shut down or the channel is closed. The rate limit only delays a turn.
pub mod Laws
pub mod Rate
pub mod Task
use nostrd.Base.{ℕ, zero, suc, String, List, [], ◌∷◌, ◌++◌}
use nostrd.Base.Outcome.{Outcome, ok, err, panic}
use nostrd.Db.Sqlite.{Engine}
use nostrd.Db.{Tables}
use nostrd.Db.Write.{Faults, write_event}
use nostrd.Error.{Error}
use nostrd.Primitives.{Primitives}
use nostrd.Protocol.Event.{Event}

module _ ⦃lib : Primitives⦄ ⦃sql : Engine⦄ where
  -- the tables, and the events sent to all clients so far
  pub record Writer : Type 0 where
    pub tables : Tables
    pub broadcasts : List Event

  -- what a turn meets: the shutdown, a closed channel, or an event, with the time and the errors
  -- that the database reports
  pub data Arrival : Type 0 where
    told_to_stop channel_closed : Arrival
    next_event : ℕ → Faults → Event → Arrival

  pub data Turn : Type 0 where
    goes_on breaks panics : Writer → Turn

  -- the match on the result of `write_event`
  abbrev pub after_write : Writer → Event → Tables × Outcome Error ℕ → Turn
  after_write w e (db, ok zero) = goes_on (record w { tables = db })
  after_write w e (db, ok (suc _)) =
      goes_on (record { tables = db; broadcasts = w.broadcasts ++ (e ∷ []) })
  after_write w e (db, err _) = goes_on (record w { tables = db })
  after_write w e (db, panic) = panics (record w { tables = db })

  unfoldable pub writer_turn : Writer → Arrival → Turn
  writer_turn w told_to_stop = breaks w
  writer_turn w channel_closed = breaks w
  writer_turn w (next_event now faults e) = after_write w e (write_event faults now e w.tables)

  -- what the writer leaves when it ends, or where it stands when the arrivals end
  abbrev pub after_turn : Turn → (Writer → Writer) → Writer
  after_turn (goes_on w) rest = rest w
  after_turn (breaks w) rest = w
  after_turn (panics w) rest = w

  unfoldable pub writer_loop : List Arrival → Writer → Writer
  writer_loop [] w = w
  writer_loop (a ∷ arrivals) w = after_turn (writer_turn w a) (λ w'. writer_loop arrivals w')
