-- ===== src/Relay/Own.antt =====
-- main.rs, db.rs and protostream.rs together: what a client was sent, and what waits for it, was requested.
use nostrd.Base.{ℕ, ◌≡◌, Option, none, some, String, List, Mem, Bool, All, All-imp}
use nostrd.Base.Outcome.{ok}
use nostrd.Config.{Settings}
use nostrd.Db.Sqlite.{Engine}
use nostrd.Db.Writer.{Turn, goes_on, breaks, panics}
use nostrd.Db.Reader.{QueryResult}
use nostrd.Primitives.{Primitives}
use nostrd.Protocol.Event.{Event}
use nostrd.Protocol.Event.Validity.{event_from_str}
use nostrd.Protocol.Subscription.{Subscription}
use nostrd.Server.{
  Session, Input, continue, break, crash, shutdown, query_result, broadcast, client, start, step,
}
use nostrd.Server
use nostrd.Server.Laws.{After}
use nostrd.Server.Requests.{Grows, IsRequested, IsServed, IsServedAfter, IsRequested-later}
use nostrd.Relay.{Client, Relay, QueryTask, update_each, absorb, deliver_to, after_turn}

-- `is_good` is a test that every requested subscription passes; `Serves sub e` says that the event
-- may be sent under the subscription.
module _ ⦃lib : Primitives⦄ ⦃sql : Engine⦄ (settings : Settings) (is_good : Subscription → Bool)
    (Serves : Subscription → Event → Type 0) where
  -- what is read from the text of a row, at any time, may be sent
  abbrev pub ServesRow : Subscription → String → Type 0
  ServesRow sub content =
      (now : ℕ) (e : Event) → event_from_str settings now content ≡ ok e → Serves sub e

  abbrev pub IsOwnResult : List (ℕ × Subscription) → QueryResult → Type 0
  IsOwnResult queries q = IsRequested Serves queries q.sub_id q.event

  abbrev pub IsOwnTask : List (ℕ × Subscription) → QueryTask → Type 0
  IsOwnTask queries t = Mem (t.channel, t.sub) queries × All (ServesRow t.sub) t.rows

  -- What a client was sent, is about to be forwarded, and is being read for it was requested.
  pub record IsOwn (c : Client) : Type 0 where
    pub served : IsServed is_good Serves c.session
    pub results : All (IsOwnResult c.session.queries) c.results
    pub tasks : All (IsOwnTask c.session.queries) c.tasks

  abbrev pub IsOwnAt : Option Client → Type 0
  IsOwnAt none = Unit
  IsOwnAt (some c) = IsOwn c

  -- every client is sent only what it requested
  abbrev pub AllOwn : Relay → Type 0
  AllOwn r = (i : ℕ) → IsOwnAt (r.clients i)

  IsOwnTask-later :
      (before after : List (ℕ × Subscription)) (t : QueryTask)
      → Grows before after
      → IsOwnTask before t
      → IsOwnTask after t
  IsOwnTask-later before after t more (m, rows) = (more (t.channel, t.sub) m, rows)

  pub absorb-AllOwn :
      (r : Relay) (i : ℕ) (c : Client) (input : Input) (st : Server.Step)
      → AllOwn r
      → IsOwn c
      → After (IsServedAfter is_good Serves c.session) st
      → AllOwn (absorb r i c input st)
  absorb-AllOwn r i c input (continue s) all own (grows, served) =
      update_each IsOwnAt i (some (record c { session = s })) r.clients
        (record {
          served = served;
          results =
              All-imp (IsOwnResult c.session.queries) (IsOwnResult s.queries)
                (λ q. IsRequested-later Serves c.session.queries s.queries q.sub_id q.event grows)
                c.results own.results;
          tasks =
              All-imp (IsOwnTask c.session.queries) (IsOwnTask s.queries)
                (λ t. IsOwnTask-later c.session.queries s.queries t grows) c.tasks own.tasks;
        })
        all
  absorb-AllOwn r i c input (break s) all own h = update_each IsOwnAt i none r.clients tt all
  absorb-AllOwn r i c input crash all own h = update_each IsOwnAt i none r.clients tt all

  deliver_to-IsOwnAt : (es : List Event) (o : Option Client) → IsOwnAt o → IsOwnAt (deliver_to es o)
  deliver_to-IsOwnAt es none h = tt
  deliver_to-IsOwnAt es (some c) h = record {
    served = h.served;
    results = h.results;
    tasks = h.tasks;
  }

  pub after_turn-AllOwn :
      (r : Relay) (rest es : List Event) (t : Turn) → AllOwn r → AllOwn (after_turn r rest es t)
  after_turn-AllOwn r rest es (goes_on w) all = λ i. deliver_to-IsOwnAt es (r.clients i) (all i)
  after_turn-AllOwn r rest es (breaks w) all = all
  after_turn-AllOwn r rest es (panics w) all = all

  pub IsOwn-at : (r : Relay) (i : ℕ) (c : Client) → AllOwn r → r.clients i ≡ some c → IsOwn c
  IsOwn-at r i c all at_i = rw at_i at (all i)
