-- ===== src/Relay/Safety.antt =====
-- main.rs, db.rs and protostream.rs together: what holds in every state that the relay reaches.
use nostrd.Base.{
  ℕ, ◌≤◌, refl, ap, length, length-append, inl, List, [], ◌∷◌, ◌++◌, arith, All, All-append,
  All-append_right,
}
use nostrd.Config.{Settings}
use nostrd.Db.Sqlite.{Engine}
use nostrd.Db.{Tables}
use nostrd.Db.Write.{write_event}
use nostrd.Db.Unique.{IsUnique}
use nostrd.Db.Writer.{next_event, writer_turn}
use nostrd.Db.Writer.Laws.{turn-IsConsistent}
use nostrd.Db.Reader.{QueryResult}
use nostrd.Primitives.{Primitives}
use nostrd.Protocol.Event.{Event}
use nostrd.Protocol.Event.Validity.{event_from_str-IsGenuine}
use nostrd.Server.{Input, shutdown, query_result, broadcast, client, start, step}
use nostrd.Server.Laws.{start-IsSound, step-IsSound}
use nostrd.Relay.{
  Client, Relay, QueryTask, query_capacity, absorb, HasRoom, Move, connects, receives, hears,
  forwards, stops, lags, opens, reads, ends, rotates, writes, writer_stops, Reach, here, later,
}
use nostrd.Relay.Sent.{
  IsAdmitted, IsSafeInput, step-IsSafeSession, posted-IsAdmitted, poll_next-IsSafeInput,
}
use nostrd.Relay.Rows.{IsStoredRow, write_event-IsStoredRow}
use nostrd.Relay.Invariant.{
  IsSafeClient, IsSafe, client_of, put_client-IsSafe, absorb-IsSafe, written-IsSafe,
}

module _ ⦃lib : Primitives⦄ ⦃sql : Engine⦄ (settings : Settings) where
  -- what is no turn of a loop keeps the session of the client
  inbox-IsSafeClient :
      (c : Client) (es : List Event)
      → IsSafeClient settings c
      → All (IsAdmitted settings) es
      → IsSafeClient settings (record c { inbox = es })
  inbox-IsSafeClient c es h a = record {
    sound = h.sound;
    sent = h.sent;
    inbox = a;
    results = h.results;
    space = h.space;
  }

  results-IsSafeClient :
      (c : Client) (qs : List QueryResult)
      → IsSafeClient settings c
      → All (λ (q : QueryResult). IsAdmitted settings q.event) qs
      → length qs ≤ query_capacity
      → IsSafeClient settings (record c { results = qs })
  results-IsSafeClient c qs h a short = record {
    sound = h.sound;
    sent = h.sent;
    inbox = h.inbox;
    results = a;
    space = short;
  }

  tasks-IsSafeClient :
      (c : Client) (tasks : List QueryTask)
      → IsSafeClient settings c
      → IsSafeClient settings (record c { tasks = tasks })
  tasks-IsSafeClient c tasks h = record {
    sound = h.sound;
    sent = h.sent;
    inbox = h.inbox;
    results = h.results;
    space = h.space;
  }

  -- a turn of the loop of a client
  turn-IsSafe :
      (r : Relay) (i now : ℕ) (c : Client) (input : Input)
      → IsSafe settings r
      → IsSafeClient settings c
      → IsSafeInput settings input
      → HasRoom settings r input
      → IsSafe settings (absorb r i c input (step settings now c.session input))
  turn-IsSafe r i now c input s h safe room =
      absorb-IsSafe settings r i c input (step settings now c.session input) s h
        (step-IsSound settings now c.session input h.sound)
        (step-IsSafeSession settings now c.session input safe h.sent)
        (posted-IsAdmitted settings input safe) room

  Move-IsSafe : {r r' : Relay} → Move settings r r' → IsSafe settings r → IsSafe settings r'
  Move-IsSafe (connects i client_id free) s = put_client-IsSafe settings _ i _ s (record {
    sound = start-IsSound client_id;
    sent = unfold start in tt;
    inbox = tt;
    results = tt;
    space = omega arith;
  })
  Move-IsSafe {r} (receives i now c poll next at_i item room) s =
      turn-IsSafe r i now c (client next) s (client_of settings r i c s at_i)
        (poll_next-IsSafeInput settings now poll next item) room
  Move-IsSafe {r} (hears i now c e rest at_i next) s =
      let h = client_of settings r i c s at_i in
      let (a, behind) : All (IsAdmitted settings) (e ∷ rest) = rw next at h.inbox in
      turn-IsSafe r i now (record c { inbox = rest }) (broadcast e) s
        (inbox-IsSafeClient c rest h behind) tt (inl refl)
  Move-IsSafe {r} (forwards i now c q rest at_i next) s =
      let h = client_of settings r i c s at_i in
      let (a, behind) : All (λ (q : QueryResult). IsAdmitted settings q.event) (q ∷ rest) =
        rw next at h.results in
      turn-IsSafe r i now (record c { results = rest }) (query_result q.sub_id q.event) s
        (results-IsSafeClient c rest h behind (omega (arith, ap length next, h.space))) a (inl refl)
  Move-IsSafe {r} (stops i now c at_i) s =
      turn-IsSafe r i now c shutdown s (client_of settings r i c s at_i) tt (inl refl)
  Move-IsSafe {r} (lags i c lost rest at_i next) s =
      let h = client_of settings r i c s at_i in
      let all : All (IsAdmitted settings) (lost ++ rest) = rw next at h.inbox in
      put_client-IsSafe settings r i _ s
        (inbox-IsSafeClient c rest h (All-append_right (IsAdmitted settings) lost rest all))
  Move-IsSafe {r} (opens i channel c sub contents at_i started answer) s =
      put_client-IsSafe settings r i _ s (tasks-IsSafeClient c _ (client_of settings r i c s at_i))
  Move-IsSafe {r} (reads i now c task others content rows e at_i next row running valid space) s =
      let h = client_of settings r i c s at_i in
      let q : QueryResult = record { sub_id = lib.hash.to_hex task.sub.id; event = e } in
      let genuine = event_from_str-IsGenuine settings now content e valid in
      let found =
        All-append (λ (q : QueryResult). IsAdmitted settings q.event) c.results (q ∷ []) h.results
          ((now, genuine), tt) in
      put_client-IsSafe settings r i _ s (
        tasks-IsSafeClient (record c { results = c.results ++ (q ∷ []) }) _
          (results-IsSafeClient c _ h found
            (omega (arith, length-append c.results (q ∷ []), space))))
  Move-IsSafe {r} (ends i c task others at_i next) s =
      put_client-IsSafe settings r i _ s (tasks-IsSafeClient c _ (client_of settings r i c s at_i))
  Move-IsSafe {r} (rotates i c task others at_i next) s =
      put_client-IsSafe settings r i _ s (tasks-IsSafeClient c _ (client_of settings r i c s at_i))
  Move-IsSafe {r} (writes now faults e rest up next) s =
      let (a, behind) : All (IsAdmitted settings) (e ∷ rest) = rw next at s.queue in
      let turn = turn-IsConsistent r.writer (next_event now faults e) s.consistent in
      let rows =
        write_event-IsStoredRow (IsAdmitted settings) faults now e r.writer.tables a s.rows in
      unfold writer_turn in
      written-IsSafe settings r rest e (write_event faults now e r.writer.tables) s next rows
        (unfold writer_turn in turn)
  Move-IsSafe {r} writer_stops s = record {
    queue = tt;
    room = omega arith;
    consistent = s.consistent;
    rows = s.rows;
    told = s.told;
    each = s.each;
  }

  -- In every state that the relay reaches from a database in which no hash is stored twice and every
  -- row is that of an event that passed the validation, whatever its clients send, whatever the
  -- database reports, and in whatever order the tasks run: both still hold; every event that waits
  -- for the writer, was sent to all clients, waits to be forwarded to a client or was sent to one
  -- passed the validation; every event that was sent to all clients is stored, and none twice; the
  -- queue to the writer is within its limit, and so are the results that wait for a client; and every
  -- connection is within its limit of subscriptions.
  pub Reach-IsSafe :
      (db : Tables) (r : Relay)
      → IsUnique db.events
      → All (IsStoredRow (IsAdmitted settings)) db.events
      → Reach settings db r
      → IsSafe settings r
  Reach-IsSafe db r unique rows here = record {
    queue = tt;
    room = omega arith;
    consistent = record { unique = unique; once = tt; stored = tt };
    rows = rows;
    told = tt;
    each = λ i. tt;
  }
  Reach-IsSafe db r unique rows (later way m) = Move-IsSafe m (Reach-IsSafe db _ unique rows way)
