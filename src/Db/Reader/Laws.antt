-- ===== src/Db/Reader/Laws.antt =====
-- db.rs: what a query task sends, and how it ends.
use nostrd.Base.{
  ℕ, String, ◌≡◌, refl, inl, inr, Option, none, some, List, [], ◌∷◌, ◌++◌, map, true, false,
  Bool-cases, All,
}
use nostrd.Base.Outcome.{Outcome, ok, err, panic, ◌>>=◌}
use nostrd.Config.{Settings}
use nostrd.Db.Reader.{
  QueryResult, Fetch, QueryEnd, completed, aborted, send_row, query_rows, db_query,
}
use nostrd.Error.{Error}
use nostrd.Primitives.{Primitives}
use nostrd.Protocol.Event.{Event}
use nostrd.Protocol.Event.Serial.{event_to_value}
use nostrd.Protocol.Event.Validity.{
  is_valid, event_from_str, IsGenuine, event_from_str-IsGenuine, event_from_str-print,
}
use nostrd.Protocol.Subscription.{Subscription}

module _ ⦃lib : Primitives⦄ where
  -- a result under the identifier of the subscription, with an event that was genuine when its row
  -- was read
  abbrev pub IsResultOf : Settings → Subscription → QueryResult → Type 0
  IsResultOf settings sub r =
      (r.sub_id ≡ lib.hash.to_hex sub.id) × ((now : ℕ) × IsGenuine settings now r.event)

  read-IsGenuine :
      (settings : Settings) (now : ℕ) (content : Outcome Error String) (e : Event)
      → (content >>= λ s. event_from_str settings now s) ≡ ok e
      → IsGenuine settings now e
  read-IsGenuine settings now (ok s) e h = event_from_str-IsGenuine settings now s e h
  read-IsGenuine settings now (err x) e h = absurd (cc h)
  read-IsGenuine settings now panic e h = absurd (cc h)

  sent-IsResultOf :
      (settings : Settings) (sub : Subscription) (row : Fetch) (o : Outcome Error Event)
      (rest : List QueryResult × QueryEnd)
      → (row.content >>= λ s. event_from_str settings row.now s) ≡ o
      → All (IsResultOf settings sub) rest.0
      → All (IsResultOf settings sub) (send_row sub o rest).0
  sent-IsResultOf settings sub row (ok e) rest h k =
      ((refl, (row.now, read-IsGenuine settings row.now row.content e h)), k)
  sent-IsResultOf settings sub row (err x) rest h k = tt
  sent-IsResultOf settings sub row panic rest h k = tt

  rows-IsResultOf :
      (settings : Settings) (sub : Subscription) (rows : List Fetch) (last : Option String)
      → All (IsResultOf settings sub) (query_rows settings sub rows last).0
  unfolding query_rows
  rows-IsResultOf settings sub [] last = tt
  rows-IsResultOf settings sub (row ∷ rows) last = elim (Bool-cases row.abandoned) [
    | inl stop ↦ rw stop tt
    | inr go ↦ rw go (
        sent-IsResultOf settings sub row _ (query_rows settings sub rows last) refl
          (rows-IsResultOf settings sub rows last))
  ]

  -- Whatever the database returns and whatever errors it reports, every result that a query sends
  -- carries the identifier of its subscription and an event that was genuine when its row was read.
  pub db_query-IsResultOf :
      (settings : Settings) (open_error : Option String) (sub : Subscription) (rows : List Fetch)
      (last : Option String)
      → All (IsResultOf settings sub) (db_query settings open_error sub rows last).0
  unfolding db_query
  db_query-IsResultOf settings (some x) sub rows last = tt
  db_query-IsResultOf settings none sub rows last = rows-IsResultOf settings sub rows last

  -- the row of an event's text, and the result that it is sent as
  abbrev pub fetch_of : ℕ × Event → Fetch
  fetch_of (now, e) = record {
    now = now;
    abandoned = false;
    content = ok (lib.json.print (event_to_value e));
  }

  abbrev pub result_of : Subscription → ℕ × Event → QueryResult
  result_of sub (now, e) = record { sub_id = lib.hash.to_hex sub.id; event = e }

  -- valid when its row is read
  abbrev pub IsReadable : Settings → ℕ × Event → Type 0
  IsReadable settings (now, e) = is_valid settings now e ≡ ok tt

  -- A query that meets no error of the database and is not told to stop, and whose rows hold the texts
  -- of events that are valid when they are read, sends each of them, in order, and completes.
  pub db_query-completed :
      (settings : Settings) (sub : Subscription) (es : List (ℕ × Event))
      → All (IsReadable settings) es
      → db_query settings none sub (map fetch_of es) none ≡ (map (result_of sub) es, completed)
  unfolding db_query query_rows
  db_query-completed settings sub [] h = refl
  db_query-completed settings sub ((now, e) ∷ es) (valid, h) =
      rw (event_from_str-print settings now e, valid, db_query-completed settings sub es h) refl

  -- what becomes of the end of a task that is told to stop
  abbrev pub cut_off : QueryEnd → QueryEnd
  cut_off completed = aborted
  cut_off x = x

  cut-send_row :
      (sub : Subscription) (o : Outcome Error Event) (rest : List QueryResult × QueryEnd)
      → send_row sub o (rest.0, cut_off rest.1)
        ≡ ((send_row sub o rest).0, cut_off (send_row sub o rest).1)
  cut-send_row sub (ok e) rest = refl
  cut-send_row sub (err x) rest = refl
  cut-send_row sub panic rest = refl

  -- Once the message to stop is there, nothing more is sent: the results are those of the rows
  -- before, and a task that has not failed or panicked at one of them is aborted.
  pub query_rows-abandoned :
      (settings : Settings) (sub : Subscription) (before after : List Fetch) (row : Fetch)
      (last : Option String)
      → row.abandoned ≡ true
      → query_rows settings sub (before ++ (row ∷ after)) last
        ≡ ((query_rows settings sub before none).0, cut_off (query_rows settings sub before none).1)
  unfolding query_rows
  query_rows-abandoned settings sub [] after row last stop = rw stop refl
  query_rows-abandoned settings sub (r ∷ before) after row last stop =
      elim (Bool-cases r.abandoned) [
        | inl cut ↦ rw cut refl
        | inr go ↦
            rw (go, query_rows-abandoned settings sub before after row last stop)
              (cut-send_row sub (r.content >>= λ s. event_from_str settings r.now s)
                (query_rows settings sub before none))
      ]
