-- ===== src/Db/Reader.antt =====
-- db.rs: `db_query`. What SQLite returns for the query's text is an argument, described by
-- `IsAnswer`; so are the clock, the message to stop, and the errors of opening and preparing.
pub mod Laws
pub mod Stored
use nostrd.Base.{
  ℕ, String, Option, none, some, List, [], ◌∷◌, Mem, Bool, true, false, any, is_empty, ◌≡◌,
  if◌then◌else◌,
}
use nostrd.Base.Outcome.{Outcome, ok, err, panic, ◌>>=◌}
use nostrd.Config.{Settings}
use nostrd.Db.Sqlite.{Engine, Blob}
use nostrd.Db.{RefRow, Tables}
use nostrd.Db.Query.{JoinedRow, is_selected}
use nostrd.Error.{Error, sql_error}
use nostrd.Primitives.{Primitives}
use nostrd.Protocol.Event.{Event}
use nostrd.Protocol.Event.Validity.{event_from_str}
use nostrd.Protocol.Subscription.{Subscription}

module _ ⦃lib : Primitives⦄ where
  -- `QueryResult`
  pub record QueryResult : Type 0 where
    pub sub_id : String
    pub event : Event

  -- one turn of the loop over the rows: the time, whether the message to stop has come, and the
  -- first column of the row, or the error of reading it
  pub record Fetch : Type 0 where
    pub now : ℕ
    pub abandoned : Bool
    pub content : Outcome Error String

  -- how the task ends
  pub data QueryEnd : Type 0 where
    completed aborted panicked : QueryEnd
    failed : Error → QueryEnd

  -- what one row leads to
  abbrev pub send_row :
      Subscription → Outcome Error Event → List QueryResult × QueryEnd → List QueryResult × QueryEnd
  send_row sub (ok e) (results, end) =
      (record { sub_id = lib.hash.to_hex sub.id; event = e } ∷ results, end)
  send_row sub (err x) rest = ([], failed x)
  send_row sub panic rest = ([], panicked)

  -- how the loop ends after the last row: SQLite has no more, or reports an error
  abbrev pub at_end : Option String → QueryEnd
  at_end none = completed
  at_end (some x) = failed (sql_error x)

  -- the loop over the rows
  unfoldable pub query_rows :
      Settings → Subscription → List Fetch → Option String → List QueryResult × QueryEnd
  query_rows settings sub [] last = ([], at_end last)
  query_rows settings sub (row ∷ rows) last =
      let rest = query_rows settings sub rows last in
      if row.abandoned
      then ([], aborted)
      else send_row sub (row.content >>= λ s. event_from_str settings row.now s) rest

  -- `db_query`: the results in the order in which they are sent, and the end of the task; the first
  -- error is that of opening the database or of preparing the query
  unfoldable pub db_query :
      Settings
      → Option String
      → Subscription
      → List Fetch
      → Option String
      → List QueryResult × QueryEnd
  db_query settings (some x) sub rows last = ([], failed (sql_error x))
  db_query settings none sub rows last = query_rows settings sub rows last

module _ ⦃lib : Primitives⦄ ⦃sql : Engine⦄ where
  -- LEFT JOIN: a reference of the event, or NULL if it has none
  abbrev pub IsLeftJoined : List RefRow → ℕ → Option Blob → Type 0
  IsLeftJoined refs id none = (b : Blob) → ¬ Mem (record { event_id = id; referenced = b }) refs
  IsLeftJoined refs id (some b) = Mem (record { event_id = id; referenced = b }) refs

  pub record IsJoined (db : Tables) (r : JoinedRow) : Type 0 where
    pub row : Mem r.event db.events
    pub event_ref : IsLeftJoined db.event_refs r.event.id r.referenced_event
    pub pubkey_ref : IsLeftJoined db.pubkey_refs r.event.id r.referenced_pubkey

  -- the WHERE clause, which is left out without filters
  unfoldable pub is_wanted : Subscription → JoinedRow → Bool
  is_wanted sub r = if is_empty sub.filters then true else any (λ f. is_selected r f) sub.filters

  -- the contents that the query returns, each one of a row of the join that the clause accepts
  pub record IsAnswer (sub : Subscription) (db : Tables) (contents : List String) : Type 0 where
    pub complete :
        (r : JoinedRow) → IsJoined db r → is_wanted sub r ≡ true → Mem r.event.content contents
    pub sound :
        (content : String)
        → Mem content contents
        → ∥ (
            (r : JoinedRow) × IsJoined db r
            × (is_wanted sub r ≡ true)
            × (r.event.content ≡ content)) ∥₁
