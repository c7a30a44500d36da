-- ===== src/Server.antt =====
-- main.rs: the event loop of a client's connection (`nostr_server`). One arm of its `select!` is one
-- step; which arm runs, and on what, is the input.
pub mod Laws
pub mod Broadcast
pub mod Publish
pub mod Queries
pub mod Shutdown
pub mod Crashes
pub mod Requests
pub mod Served
pub mod Closed
pub mod Order
pub mod Reordered
pub mod Channels
pub mod Changes
pub mod Forgotten
pub mod Replaced
use nostrd.Base.{ℕ, suc, ◌+◌, String, String_discrete, Option, none, some, List, [], ◌∷◌, ◌++◌, map}
use nostrd.Base.Outcome.{Outcome, ok, err, panic}
use nostrd.Base.Table
use nostrd.Config.{Settings}
use nostrd.Error.{Error, conn_error, event_max_length_error, display}
use nostrd.Primitives.{Primitives, EventId}
use nostrd.Protocol.Event.{Event}
use nostrd.Protocol.Event.Serial.{event_to_value}
use nostrd.Protocol.Event.Validity.{event_from_str}
use nostrd.Protocol.Subscription.{Subscription}
use nostrd.Protocol.Commands.{Close, EventCmd, event_of_cmd}
use nostrd.Conn.{ClientConn, new_conn, get_matching_subscriptions, subscribe, unsubscribe}
use nostrd.Stream.{NostrMessage, NostrResponse, event, req, close, new_notice, new_event}

module _ ⦃lib : Primitives⦄ where
  -- What the loop keeps, and what it has done so far: the responses handed to the socket, the events
  -- sent to the writer, the queries started, by the number of their abandon channel, and the
  -- channels on which it sent the message to stop.
  pub record Session : Type 0 where
    pub conn : ClientConn
    pub running_queries : List (String × ℕ)
    pub client_published_event_count : ℕ
    pub client_received_event_count : ℕ
    pub next_channel : ℕ
    pub sent : List NostrResponse
    pub published : List Event
    pub queries : List (ℕ × Subscription)
    pub stopped : List ℕ

  -- the arms of the `select!`
  pub data Input : Type 0 where
    shutdown : Input
    query_result : String → Event → Input
    broadcast : Event → Input
    client : Option (Outcome Error NostrMessage) → Input

  -- the loop goes on, breaks, or its task panics
  pub data Step : Type 0 where
    continue break : Session → Step
    crash : Step

  -- the state before the loop
  unfoldable pub start : String → Session
  start client_id = record {
    conn = new_conn client_id;
    running_queries = [];
    client_published_event_count = 0;
    client_received_event_count = 0;
    next_channel = 0;
    sent = [];
    published = [];
    queries = [];
    stopped = [];
  }

  abbrev pub send : Session → NostrResponse → Session
  send s r = record s { sent = s.sent ++ (r ∷ []) }

  -- `Event::from_str(&event_str).unwrap()`
  abbrev pub unwrap_event : Outcome Error Event → (Event → Step) → Step
  unwrap_event (ok e) next = next e
  unwrap_event (err _) next = crash
  unwrap_event panic next = crash

  -- the loop over the matching subscriptions; each sends the event read back from its text
  unfoldable pub deliver : Settings → ℕ → Event → List EventId → Session → Step
  deliver settings now e [] s = continue s
  deliver settings now e (id ∷ ids) s =
      unwrap_event (event_from_str settings now (lib.json.print (event_to_value e)))
        (λ e'. deliver settings now e ids (send s (new_event (lib.hash.to_hex id) e')))

  -- a REQ message
  abbrev pub after_subscribe : Session → Subscription → ClientConn → Outcome Error Unit → Step
  after_subscribe s sub conn (ok _) = continue (record s {
    conn = conn;
    running_queries =
        Table.insert String_discrete (lib.hash.to_hex sub.id) s.next_channel s.running_queries;
    next_channel = suc s.next_channel;
    queries = s.queries ++ ((s.next_channel, sub) ∷ []);
  })
  after_subscribe s sub conn (err e) =
      continue (
        send (record s { conn = conn; next_channel = suc s.next_channel }) (new_notice (display e)))
  after_subscribe s sub conn panic = crash

  -- `if let Some(tx) = stop_tx { tx.send(()).ok(); }`
  abbrev pub stop_query : Option ℕ → List ℕ → List ℕ
  stop_query none stopped = stopped
  stop_query (some channel) stopped = stopped ++ (channel ∷ [])

  unfoldable pub on_message : Session → NostrMessage → Step
  on_message s (event ec) = continue (record s {
    published = s.published ++ (event_of_cmd ec ∷ []);
    client_published_event_count = s.client_published_event_count + 1;
  })
  on_message s (req sub) =
      let (conn, answer) = subscribe s.conn sub in after_subscribe s sub conn answer
  on_message s (close c) = continue (record s {
    conn = unsubscribe s.conn c;
    running_queries = Table.remove String_discrete (lib.hash.to_hex c.id) s.running_queries;
    stopped =
        stop_query (Table.get String_discrete (lib.hash.to_hex c.id) s.running_queries) s.stopped;
  })

  unfoldable pub on_error : Session → Error → Step
  on_error s conn_error = break s
  on_error s (event_max_length_error n) = continue (send s (new_notice "event exceeded max size"))
  on_error s _ = continue s

  -- `match proto_next`
  unfoldable pub on_client : Session → Option (Outcome Error NostrMessage) → Step
  on_client s none = break s
  on_client s (some (ok m)) = on_message s m
  on_client s (some (err e)) = on_error s e
  on_client s (some panic) = crash

  -- one turn of the loop at the time `now`
  unfoldable pub step : Settings → ℕ → Session → Input → Step
  step settings now s shutdown = break s
  step settings now s (query_result sub_id e) = continue (
      send (record s { client_received_event_count = s.client_received_event_count + 1 })
        (new_event sub_id e))
  step settings now s (broadcast e) = deliver settings now e (get_matching_subscriptions s.conn e) s
  step settings now s (client next) = on_client s next

  -- the clean-up after the loop: every query that is still running is told to stop
  unfoldable pub cleanup : Session → Session
  cleanup s = record s {
    running_queries = [];
    stopped = s.stopped ++ map (λ entry. entry.1) s.running_queries;
  }

  -- The loop over a sequence of inputs, each with its time: the session after the clean-up if the
  -- loop broke, or where it stands when the inputs end, or `crash`.
  abbrev pub next_turn : Step → (Session → Step) → Step
  next_turn (continue s) next = next s
  next_turn (break s) next = break (cleanup s)
  next_turn crash next = crash

  unfoldable pub run : Settings → List (ℕ × Input) → Session → Step
  run settings [] s = continue s
  run settings ((now, input) ∷ rest) s =
      next_turn (step settings now s input) (λ s'. run settings rest s')
