-- ===== src/Db/Writer/Task/Laws.antt =====
-- db.rs: what `db_writer` leaves.
use nostrd.Base.{
  ℕ, zero, suc, ◌≡◌, refl, ◌∙◌, ◌≤◌, String, Option, none, some, List, [], ◌∷◌, map, true, any,
  arith,
}
use nostrd.Base.Outcome.{Outcome, ok, err, panic}
use nostrd.Config.{Settings}
use nostrd.Db.Sqlite.{Engine, Blob}
use nostrd.Db.{EventRow}
use nostrd.Db.Write.{has_hash}
use nostrd.Db.Unique.{IsUnique}
use nostrd.Db.Schema.{BatchFaults, Schema, show_row, upgrade_db}
use nostrd.Db.Schema.Keeps.{upgrade_db-Holds}
use nostrd.Db.Schema.Laws.{up_to_date, upgrade_db-ok}
use nostrd.Db.Writer.{Arrival}
use nostrd.Db.Writer.Laws.{IsConsistent, writer_loop-IsConsistent}
use nostrd.Db.Writer.Rate.{rate_quota}
use nostrd.Error.{Error}
use nostrd.Primitives.{Primitives}
use nostrd.Protocol.Event.{Event}
use nostrd.Db.Writer.Task.{is_ready, with_quota, once_upgraded, db_writer, IsReleased}

module _ ⦃lib : Primitives⦄ ⦃sql : Engine⦄ where
  has_hash-show :
      (h : Blob) (rows : List EventRow) → has_hash h (map show_row rows) ≡ has_hash h rows
  unfolding has_hash any
  has_hash-show h [] = refl
  has_hash-show h (r ∷ rows) = rw (has_hash-show h rows) refl

  pub shown-IsUnique : (rows : List EventRow) → IsUnique rows → IsUnique (map show_row rows)
  shown-IsUnique [] u = tt
  shown-IsUnique (r ∷ rows) (new, u) =
      (has_hash-show r.event_hash rows ∙ new, shown-IsUnique rows u)

  -- the hashes of the file are distinct
  abbrev IsDistinctFile : Schema → Type 0
  IsDistinctFile s = IsUnique s.tables.events

  up_to_date-ready :
      (n : ℕ) (s : Schema)
      → s.user_version ≡ n
      → n ≤ 2
      → IsReleased s
      → is_ready (up_to_date n s) ≡ true
  up_to_date-ready zero s version small r = rw (r.fresh version) refl
  up_to_date-ready (suc zero) s version small r = r.old version
  up_to_date-ready (suc (suc n)) s version small r = r.current (omega (arith, version, small))

  -- what the writer leaves
  abbrev IsLeft : Schema × List Event → Type 0
  IsLeft (s, sent) = IsConsistent (record { tables = s.tables; broadcasts = sent })

  stopped-IsLeft : (s : Schema) → IsDistinctFile s → IsLeft (s, [])
  stopped-IsLeft s u = record { unique = u; once = tt; stored = tt }

  with_quota-IsLeft :
      (unready : Schema → Schema × List Event) (arrivals : List Arrival) (s : Schema)
      (quota : Outcome Error (Option ℕ))
      → IsDistinctFile s
      → is_ready s ≡ true
      → IsLeft (with_quota unready arrivals s quota)
  with_quota-IsLeft unready arrivals s (ok q) u ready = rw ready (
      writer_loop-IsConsistent arrivals (record { tables = s.tables; broadcasts = [] })
        (record { unique = u; once = tt; stored = tt }))
  with_quota-IsLeft unready arrivals s (err e) u ready = stopped-IsLeft s u
  with_quota-IsLeft unready arrivals s panic u ready = stopped-IsLeft s u

  upgraded-IsLeft :
      (settings : Settings) (unready : Schema → Schema × List Event) (arrivals : List Arrival)
      (r : Schema × Outcome Error Unit)
      → IsDistinctFile r.0
      → (r.1 ≡ ok tt → is_ready r.0 ≡ true)
      → IsLeft (once_upgraded settings unready arrivals r)
  upgraded-IsLeft settings unready arrivals (s, ok v) u ready =
      with_quota-IsLeft unready arrivals s (rate_quota settings.limits.messages_per_sec) u
        (ready refl)
  upgraded-IsLeft settings unready arrivals (s, err e) u ready = stopped-IsLeft s u
  upgraded-IsLeft settings unready arrivals (s, panic) u ready = stopped-IsLeft s u

  -- On a file of a version as the releases leave it, in which no hash is stored twice, whatever errors
  -- the database reports, during the upgrade or later, whatever the rate limit, and whatever events
  -- arrive: when the writer ends, no hash is stored twice, every event that it has sent to all clients
  -- is stored, and no identifier was sent twice.
  pub db_writer-IsConsistent :
      (settings : Settings) (unready : Schema → Schema × List Event)
      (open_error version_fault : Option String) (batch_faults startup_faults : BatchFaults)
      (arrivals : List Arrival) (s : Schema)
      → IsReleased s
      → IsUnique s.tables.events
      → let left =
          db_writer settings unready open_error version_fault batch_faults startup_faults arrivals
            s in
        IsConsistent (record { tables = left.0.tables; broadcasts = left.1 })
  unfolding db_writer
  db_writer-IsConsistent settings unready (some x) version_fault batch_faults startup_faults
        arrivals s released u =
      stopped-IsLeft s u
  db_writer-IsConsistent settings unready none version_fault batch_faults startup_faults arrivals s
        released u =
      upgraded-IsLeft settings unready arrivals
        (upgrade_db version_fault batch_faults startup_faults s)
        (upgrade_db-Holds (λ t. IsUnique t.events) (λ t. shown-IsUnique t.events) version_fault
          batch_faults startup_faults s u)
        (λ went.
          let (done, small) = upgrade_db-ok version_fault batch_faults startup_faults s went in
          rw done (up_to_date-ready s.user_version s refl small released))
