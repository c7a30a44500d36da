-- ===== src/Relay.antt =====
-- main.rs, db.rs and protostream.rs together: the clients of the relay, each with its event loop and
-- its query tasks, the queue to the writer, and the writer. One step is one turn of one task.
pub mod Sent
pub mod Rows
pub mod Invariant
pub mod Safety
pub mod Delivery
pub mod Drain
pub mod Caught
pub mod Own
pub mod Isolation
pub mod Unreferenced
pub mod Matched
pub mod Restarts
pub mod Queried
use nostrd.Base.{
  ℕ, zero, suc, ◌==◌, ◌<◌, ◌≡◌, String, Option, none, some, List, [], ◌∷◌, ◌++◌, map, Mem, ◌⊎◌,
  Bool, true, false, length, if◌then◌else◌, Bool-cases, inl, inr,
}
use nostrd.Base.Outcome.{Outcome, ok, err, panic}
use nostrd.Config.{Settings}
use nostrd.Db.Sqlite.{Engine}
use nostrd.Db.{Tables}
use nostrd.Db.Write.{Faults, write_event}
use nostrd.Db.Writer.{Writer, Turn, goes_on, breaks, panics, next_event, writer_turn}
use nostrd.Db.Reader.{QueryResult, IsAnswer}
use nostrd.Error.{Error}
use nostrd.Primitives.{Primitives}
use nostrd.Protocol.Event.{Event}
use nostrd.Protocol.Event.Validity.{event_from_str}
use nostrd.Protocol.Subscription.{Subscription}
use nostrd.Stream.{NostrMessage, WsPoll, Next, pending, finished, item, poll_next}
use nostrd.Server.{
  Session, Input, continue, break, crash, shutdown, query_result, broadcast, client, start, step,
}
use nostrd.Server
use nostrd.Server.Publish.{posted}

-- a family indexed by the client, changed at one place
abbrev pub update {ℓ} : {A : Type ℓ} → ℕ → A → (ℕ → A) → ℕ → A
update i a f j = if j == i then a else f j

pub update_each {ℓ κ} :
    {A : Type ℓ} (P : A → Type κ) (i : ℕ) (a : A) (f : ℕ → A)
    → P a
    → ((j : ℕ) → P (f j))
    → (j : ℕ) → P (update i a f j)
update_each P i a f h k j = elim (Bool-cases (j == i)) [
  | inl same ↦ rw same h
  | inr other ↦ rw other (k j)
]

module _ ⦃lib : Primitives⦄ where
  -- the next item of the stream, once it is ready
  abbrev pub ready : Next → Option (Option (Outcome Error NostrMessage))
  ready pending = none
  ready finished = some none
  ready (item o) = some (some o)

module _ ⦃lib : Primitives⦄ ⦃sql : Engine⦄ where
  -- a query that has been opened, with the rows that it has not read yet
  pub record QueryTask : Type 0 where
    pub sub : Subscription
    pub channel : ℕ
    pub rows : List String

  -- a connection: its loop, its receiver of broadcasts, the channel of query results, its queries
  pub record Client : Type 0 where
    pub session : Session
    pub inbox : List Event
    pub results : List QueryResult
    pub tasks : List QueryTask

  pub record Relay : Type 0 where
    pub clients : ℕ → Option Client
    pub queue : List Event
    pub writer : Writer
    pub writer_up : Bool

  -- `mpsc::channel::<db::QueryResult>(256)`: a query waits while it is full
  abbrev pub query_capacity : ℕ
  query_capacity = 256

  abbrev pub new_client : String → Client
  new_client client_id = record { session = start client_id; inbox = []; results = []; tasks = [] }

  abbrev pub put_client : ℕ → Option Client → Relay → Relay
  put_client i c r = record r { clients = update i c r.clients }

  -- `event_tx.send(e).await.ok()`: nothing is queued once the writer has gone
  abbrev pub enqueue : Relay → List Event → List Event
  enqueue r es = if r.writer_up then r.queue ++ es else r.queue

  -- what a turn of the loop of client `i` makes of the relay
  abbrev pub absorb : Relay → ℕ → Client → Input → Server.Step → Relay
  absorb r i c input (continue s) =
      put_client i (some (record c { session = s })) (record r { queue = enqueue r (posted input) })
  absorb r i c input (break s) = put_client i none (record r { queue = enqueue r (posted input) })
  absorb r i c input crash = put_client i none r

  -- what a write sends to all clients
  abbrev pub announced : Event → Outcome Error ℕ → List Event
  announced e (ok zero) = []
  announced e (ok (suc _)) = e ∷ []
  announced e (err _) = []
  announced e panic = []

  abbrev pub deliver_to : List Event → Option Client → Option Client
  deliver_to es none = none
  deliver_to es (some c) = some (record c { inbox = c.inbox ++ es })

  -- the writer's turn: the event leaves the queue; after a panic the queue is closed
  abbrev pub after_turn : Relay → List Event → List Event → Turn → Relay
  after_turn r rest es (goes_on w) = record r {
    writer = w;
    queue = rest;
    clients = λ i. deliver_to es (r.clients i);
  }
  after_turn r rest es (breaks w) = record r { writer = w; queue = []; writer_up = false }
  after_turn r rest es (panics w) = record r { writer = w; queue = []; writer_up = false }

module _ ⦃lib : Primitives⦄ ⦃sql : Engine⦄ (settings : Settings) where
  -- An EVENT is queued while there is room in the channel, or the writer has gone.
  abbrev pub HasRoom : Relay → Input → Type 0
  HasRoom r input =
      (posted input ≡ [])
      ⊎ (length r.queue < settings.limits.event_persist_buffer)
      ⊎ (r.writer_up ≡ false)

  pub data Move (r : Relay) : Relay → Type 0 where
    -- a client connects
    connects :
        (i : ℕ) (client_id : String)
        → r.clients i ≡ none
        → Move r (put_client i (some (new_client client_id)) r)
    -- its loop takes the next item of the socket, a broadcast, a query result, or the shutdown
    receives :
        (i now : ℕ) (c : Client) (poll : WsPoll) (next : Option (Outcome Error NostrMessage))
        → r.clients i ≡ some c
        → ready (poll_next settings now poll) ≡ some next
        → HasRoom r (client next)
        → Move r (absorb r i c (client next) (step settings now c.session (client next)))
    hears :
        (i now : ℕ) (c : Client) (e : Event) (rest : List Event)
        → r.clients i ≡ some c
        → c.inbox ≡ e ∷ rest
        → Move r (
            absorb r i
              (record c { inbox = rest })
              (broadcast e)
              (step settings now c.session (broadcast e)))
    forwards :
        (i now : ℕ) (c : Client) (q : QueryResult) (rest : List QueryResult)
        → r.clients i ≡ some c
        → c.results ≡ q ∷ rest
        → Move r (
            absorb r i
              (record c { results = rest })
              (query_result q.sub_id q.event)
              (step settings now c.session (query_result q.sub_id q.event)))
    stops :
        (i now : ℕ) (c : Client)
        → r.clients i ≡ some c
        → Move r (absorb r i c shutdown (step settings now c.session shutdown))
    -- its receiver lags behind, and the oldest broadcasts are lost
    lags :
        (i : ℕ) (c : Client) (lost rest : List Event)
        → r.clients i ≡ some c
        → c.inbox ≡ lost ++ rest
        → Move r (put_client i (some (record c { inbox = rest })) r)
    -- a query that its loop has started is opened, reads a row, or ends
    opens :
        (i channel : ℕ) (c : Client) (sub : Subscription) (contents : List String)
        → r.clients i ≡ some c
        → Mem (channel, sub) c.session.queries
        → IsAnswer sub r.writer.tables contents
        → Move r (
            put_client i
              (some (record c {
                tasks = record { sub = sub; channel = channel; rows = contents } ∷ c.tasks;
              }))
              r)
    reads :
        (i now : ℕ) (c : Client) (task : QueryTask) (others : List QueryTask) (content : String)
        (rows : List String) (e : Event)
        → r.clients i ≡ some c
        → c.tasks ≡ task ∷ others
        → task.rows ≡ content ∷ rows
        → ¬ Mem task.channel c.session.stopped
        → event_from_str settings now content ≡ ok e
        → length c.results < query_capacity
        → Move r (
            put_client i
              (some (record c {
                results =
                    c.results ++ (record { sub_id = lib.hash.to_hex task.sub.id; event = e } ∷ []);
                tasks = others ++ (record task { rows = rows } ∷ []);
              }))
              r)
    ends :
        (i : ℕ) (c : Client) (task : QueryTask) (others : List QueryTask)
        → r.clients i ≡ some c
        → c.tasks ≡ task ∷ others
        → Move r (put_client i (some (record c { tasks = others })) r)
    -- another query task is next
    rotates :
        (i : ℕ) (c : Client) (task : QueryTask) (others : List QueryTask)
        → r.clients i ≡ some c
        → c.tasks ≡ task ∷ others
        → Move r (put_client i (some (record c { tasks = others ++ (task ∷ []) })) r)
    -- the writer takes the next event, or stops
    writes :
        (now : ℕ) (faults : Faults) (e : Event) (rest : List Event)
        → r.writer_up ≡ true
        → r.queue ≡ e ∷ rest
        → Move r (
            after_turn r rest
              (announced e (write_event faults now e r.writer.tables).1)
              (writer_turn r.writer (next_event now faults e)))
    writer_stops : Move r (record r { queue = []; writer_up = false })

  -- the relay before the first client, over a database
  abbrev pub at_start : Tables → Relay
  at_start db = record {
    clients = λ i. none;
    queue = [];
    writer = record { tables = db; broadcasts = [] };
    writer_up = true;
  }

  pub data Reach (db : Tables) : Relay → Type 0 where
    here : Reach db (at_start db)
    later : {r r' : Relay} → Reach db r → Move r r' → Reach db r'
