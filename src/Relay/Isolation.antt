-- ===== src/Relay/Isolation.antt =====
-- main.rs, db.rs and protostream.rs together: under which subscriptions a client is sent events.
use nostrd.Base.{
  ℕ, ◌≡◌, refl, Option, none, some, String, List, ◌∷◌, Bool, true, Bool-true-prop, All, All-append,
  All-of_all, All-mem,
}
use nostrd.Base.Outcome.{Outcome, ok, err, panic}
use nostrd.Error.{Error}
use nostrd.Config.{Settings}
use nostrd.Db.Sqlite.{Engine}
use nostrd.Db.{Tables}
use nostrd.Db.Writer.{next_event, writer_turn}
use nostrd.Db.Reader.{IsAnswer}
use nostrd.Primitives.{Primitives}
use nostrd.Protocol.Event.{Event}
use nostrd.Protocol.Subscription.{Subscription, interested_in_event}
use nostrd.Stream.{NostrMessage, WsPoll, event, req, close, poll_next}
use nostrd.Server.{Input, shutdown, query_result, broadcast, client, step}
use nostrd.Server.Served.{IsAskedInput, step-IsServed, start-IsServed}
use nostrd.Relay.Own.{
  ServesRow, IsOwnResult, IsOwnTask, IsOwn, IsOwnAt, AllOwn, absorb-AllOwn, after_turn-AllOwn,
  IsOwn-at,
}
use nostrd.Relay.{
  Client, Relay, update_each, ready, absorb, Move, connects, receives, hears, forwards, stops, lags,
  opens, reads, ends, rotates, writes, writer_stops, Reach, here, later,
}

-- An event that a subscription is interested in may be sent, and so may what a query reads from
-- tables that are `Fit`.
module _ ⦃lib : Primitives⦄ ⦃sql : Engine⦄ (settings : Settings) (is_good : Subscription → Bool)
    (Serves : Subscription → Event → Type 0)
    (serves : (sub : Subscription) (e : Event) → interested_in_event sub e ≡ true → Serves sub e)
    (requested : (now : ℕ) (poll : WsPoll) (sub : Subscription)
      → ready (poll_next settings now poll) ≡ some (some (ok (req sub)))
      → is_good sub ≡ true)
    (Fit : Tables → Type 0)
    (answers : (sub : Subscription) (db : Tables) (contents : List String)
      → Fit db
      → is_good sub ≡ true
      → IsAnswer sub db contents
      → All (ServesRow settings is_good Serves sub) contents) where
  turn-AllOwn :
      (r : Relay) (i now : ℕ) (c : Client) (input : Input)
      → AllOwn settings is_good Serves r
      → IsOwn settings is_good Serves c
      → IsAskedInput is_good Serves c.session.queries input
      → AllOwn settings is_good Serves (absorb r i c input (step settings now c.session input))
  turn-AllOwn r i now c input all own asked =
      absorb-AllOwn settings is_good Serves r i c input (step settings now c.session input) all own
        (step-IsServed is_good Serves serves settings now c.session input asked own.served)

  -- what is read from the socket is a good request, if it is one
  requests :
      (now : ℕ) (c : Client) (poll : WsPoll) (next : Option (Outcome Error NostrMessage))
      → ready (poll_next settings now poll) ≡ some next
      → IsAskedInput is_good Serves c.session.queries (client next)
  requests now c poll none item = tt
  requests now c poll (some (ok (event cmd))) item = tt
  requests now c poll (some (ok (req sub))) item = requested now poll sub item
  requests now c poll (some (ok (close cmd))) item = tt
  requests now c poll (some (err x)) item = tt
  requests now c poll (some panic) item = tt

  pub Move-AllOwn :
      {r r' : Relay}
      → Move settings r r'
      → Fit r.writer.tables
      → AllOwn settings is_good Serves r
      → AllOwn settings is_good Serves r'
  Move-AllOwn {r} (connects i client_id free) fit all =
      update_each (IsOwnAt settings is_good Serves) i _ r.clients
        (record { served = start-IsServed is_good Serves client_id; results = tt; tasks = tt }) all
  Move-AllOwn {r} (receives i now c poll next at_i item room) fit all =
      turn-AllOwn r i now c (client next) all (IsOwn-at settings is_good Serves r i c all at_i)
        (requests now c poll next item)
  Move-AllOwn {r} (hears i now c e rest at_i next) fit all =
      let own = IsOwn-at settings is_good Serves r i c all at_i in
      turn-AllOwn r i now (record c { inbox = rest }) (broadcast e) all
        (record { served = own.served; results = own.results; tasks = own.tasks }) tt
  Move-AllOwn {r} (forwards i now c q rest at_i next) fit all =
      let own = IsOwn-at settings is_good Serves r i c all at_i in
      let (a, behind) : All (IsOwnResult settings is_good Serves c.session.queries) (q ∷ rest) =
        rw next at own.results in
      turn-AllOwn r i now (record c { results = rest }) (query_result q.sub_id q.event) all
        (record { served = own.served; results = behind; tasks = own.tasks }) a
  Move-AllOwn {r} (stops i now c at_i) fit all =
      turn-AllOwn r i now c shutdown all (IsOwn-at settings is_good Serves r i c all at_i) tt
  Move-AllOwn {r} (lags i c lost rest at_i next) fit all =
      let own = IsOwn-at settings is_good Serves r i c all at_i in
      update_each (IsOwnAt settings is_good Serves) i _ r.clients
        (record { served = own.served; results = own.results; tasks = own.tasks }) all
  Move-AllOwn {r} (opens i channel c sub contents at_i started answer) fit all =
      let own = IsOwn-at settings is_good Serves r i c all at_i in
      let fine =
        All-mem (λ (q : ℕ × Subscription). is_good q.1 ≡ true) (Bool-true-prop (is_good sub))
          c.session.queries (channel, sub) own.served.good started (λ h. h) in
      update_each (IsOwnAt settings is_good Serves) i _ r.clients
        (record {
          served = own.served;
          results = own.results;
          tasks = ((started, answers sub r.writer.tables contents fit fine answer), own.tasks);
        })
        all
  Move-AllOwn {r} (reads i now c task others content rows e at_i next row running valid space) fit
        all =
      let own = IsOwn-at settings is_good Serves r i c all at_i in
      let ((m, texts), behind) : All (IsOwnTask settings is_good Serves c.session.queries)
          (task ∷ others) =
        rw next at own.tasks in
      let (text, left) : All (ServesRow settings is_good Serves task.sub) (content ∷ rows) =
        rw row at texts in
      update_each (IsOwnAt settings is_good Serves) i _ r.clients
        (record {
          served = own.served;
          results =
              All-append (IsOwnResult settings is_good Serves c.session.queries) c.results _
                own.results (∣ (task.channel, task.sub, m, refl, text now e valid) ∣₁, tt);
          tasks =
              All-append (IsOwnTask settings is_good Serves c.session.queries) others _ behind
                ((m, left), tt);
        })
        all
  Move-AllOwn {r} (ends i c task others at_i next) fit all =
      let own = IsOwn-at settings is_good Serves r i c all at_i in
      let (a, behind) : All (IsOwnTask settings is_good Serves c.session.queries) (task ∷ others) =
        rw next at own.tasks in
      update_each (IsOwnAt settings is_good Serves) i _ r.clients
        (record { served = own.served; results = own.results; tasks = behind }) all
  Move-AllOwn {r} (rotates i c task others at_i next) fit all =
      let own = IsOwn-at settings is_good Serves r i c all at_i in
      let (a, behind) : All (IsOwnTask settings is_good Serves c.session.queries) (task ∷ others) =
        rw next at own.tasks in
      update_each (IsOwnAt settings is_good Serves) i _ r.clients
        (record {
          served = own.served;
          results = own.results;
          tasks =
              All-append (IsOwnTask settings is_good Serves c.session.queries) others _ behind
                (a, tt);
        })
        all
  Move-AllOwn {r} (writes now faults e rest up next) fit all =
      after_turn-AllOwn settings is_good Serves r rest _
        (writer_turn r.writer (next_event now faults e)) all
  Move-AllOwn writer_stops fit all = all

module _ ⦃lib : Primitives⦄ ⦃sql : Engine⦄ (settings : Settings) where
  abbrev pub IsIsolated : Relay → Type 0
  IsIsolated = AllOwn settings (λ _. true) (λ _ _. Unit)

  -- In every state that the relay reaches, whatever its clients send, whatever the database returns
  -- and in whatever order the tasks run: every event that a client was sent, is about to be forwarded
  -- or is being read for it comes under a subscription that this client has requested.
  pub Reach-IsIsolated : (db : Tables) (r : Relay) → Reach settings db r → IsIsolated r
  Reach-IsIsolated db r here = λ i. tt
  Reach-IsIsolated db r (later way m) =
      Move-AllOwn settings (λ _. true) (λ _ _. Unit) (λ sub e h. tt) (λ now poll sub h. refl)
        (λ _. Unit)
        (λ sub db' contents fit fine answer.
          All-of_all (ServesRow settings (λ _. true) (λ _ _. Unit) sub) (λ content now e h. tt)
            contents)
        m tt (Reach-IsIsolated db _ way)
