-- ===== src/Lib.antt =====
-- A model of nostrd, a relay of the Nostr protocol, with the theorems that make it correct.
--
-- The program. A client connects over a WebSocket. `protostream` turns the texts that arrive into
-- messages, and responses into texts. Each connection runs the loop `nostr_server`: an EVENT goes
-- to the writer of the database, a REQ is registered with the connection and starts a query, a
-- CLOSE takes both back, and an event that another client published is sent to every subscription
-- that it matches. The writer stores each event in one transaction.
--
-- Which file models what:
--   Protocol.Tags           src/protocol/tags.rs: `Tag` and its JSON form
--   Protocol.Event          src/protocol/event.rs: `Event`; Serial holds the serde code that is
--                           derived, Validity `compute_event_id`, `is_valid` and `from_str`,
--                           References what `refs_event` and its kin find
--   Protocol.Subscription   src/protocol/subscription.rs: `ReqFilter` and `Subscription`; Matching
--                           says what `interested_in_event` decides, Serial holds the JSON forms
--   Protocol.Commands       src/protocol/commands.rs: `Close` and `EventCmd`
--   Protocol.Responses      src/protocol/responses.rs: `NoticeResp` and `EventResp`
--   Stream                  src/protostream.rs: `NostrMessage`, `convert`, `poll_next`, `start_send`;
--                           Requests on the filters of a REQ
--   Conn                    src/conn.rs: `ClientConn`; Laws on its invariant, Delivery on matching,
--                           Order on the order of its table
--   Server                  src/main.rs: `nostr_server`; one arm of its `select!` is one `step`, and
--                           `run` is the loop over a sequence of inputs; Laws on its invariant,
--                           Broadcast on deliveries and CLOSE, Publish on the writer's input,
--                           Queries and Shutdown on the queries and the end of the loop; Channels,
--                           Changes, Forgotten and Replaced on a query whose identifier is
--                           requested again; Crashes on its panics, Requests, Served and Closed on
--                           what a client is sent, Order and Reordered on the order of its tables
--   Db                      src/db.rs: the tables, and `write_event` (Write); Details and Writes on
--                           what it does, Unique on the index of hashes; Writer is the loop of
--                           `db_writer`, one turn for each event that arrives, Writer.Task all of
--                           it, from the opening of the file on; Query holds the text of
--                           `query_from_sub` and what its conditions mean on a row (Agreement and
--                           Interest compare that with the filters), Reader is `db_query` over the
--                           rows that SQLite returns, Schema is `upgrade_db`,
--                           Metadata says which metadata events stay visible
--   Relay                   the parts together: the clients with their loops and query tasks, the
--                           channels, the queue to the writer, and the writer; one `Move` is one turn
--                           of one of them, and `Reach` are the states that moves lead to; Sent, Rows,
--                           Invariant and Safety on what holds in these, Delivery on the way of an
--                           event, Queried on its way to a later query, Drain and Caught on the queue as
--                           it empties, Own, Isolation, Unreferenced and Matched on which events a
--                           client is sent, Restarts on later runs on the same file
--   Http, Info              `handle_web_request` of src/main.rs, and src/info.rs; Info.Laws on what the
--                           description says
--   Startup                 src/main.rs: `db_from_args`, the checks of the settings, and in Main `main`
--   Config, Error           src/config.rs and src/error.rs
--   Json                    `serde_json::Value` and the readers that serde derives
--   Base                    lists, tables and results that the others share
--   Tests                   small instances of the interfaces, and the theorems at concrete values
--
-- How the code is modelled. A function that can fail returns an `Outcome`: a value, an error, or a
-- panic (an index out of range, an `unwrap`). What the program reads from elsewhere is an argument:
-- the clock, the settings, the UUID of a client, the errors that the database reports, the answers
-- of the socket. `u64` sums and differences wrap, as in a release build. A map is an association
-- list without repeated keys and a `HashSet` a list without repetitions, so the order of iteration
-- is one of those possible; Server.Reordered.RunsTo is the loop with every order.
--
-- The libraries are interfaces, taken as instance arguments: `Primitives` for the hashes, keys and
-- signatures, their hexadecimal texts and `serde_json`'s texts; `Engine` for byte strings, `hex`
-- and the row identifiers of SQLite. Their laws are what the crates document: a printed value is
-- read back, a hash has 32 bytes, the text of a JSON array begins with a bracket and is no
-- hexadecimal. Tests.Toy gives both an instance. The crate `config`, which merges the file of the
-- settings over their defaults, is the argument `Merging` of Config. In the serde code, the order
-- in which an error is chosen follows the derived visitors.
--
-- Fuel. Only the decimal text of a number is written on fuel: twenty digits, enough for any `u64`.
-- Everything else is structural recursion.
--
-- Channels. The broadcast channel of a client is its `inbox`, from which the oldest events may be
-- lost (a lagging receiver); the queue to the writer has its capacity, and an EVENT is taken only
-- when there is room or the writer has gone. The channel of query results holds 256;
-- a query waits while it is full.
-- A response counts as sent once the loop has handed it to the sink, also if the socket refuses it;
-- and a query looks at its message to stop and sends a row's result in one step, so that one result
-- that waits for room when the message comes is left out.
-- Which task runs next, and what the network, the clock and the database do, is left open.
--
-- Not modelled: the delay that the rate limit causes, the two tasks of `main` that wait for CTRL+C,
-- the inside of tokio's runtime and hyper's server, the global lock of the settings, which are set
-- once before the runtime starts, the wake-up of tasks, logging, and the texts of
-- src/protocol/testvec.rs, which only tests use.
pub mod Base
pub mod Json
pub mod Primitives
pub mod Error
pub mod Config
pub mod Protocol
pub mod Conn
pub mod Db
pub mod Stream
pub mod Server
pub mod Relay
pub mod Info
pub mod Http
pub mod Startup
pub mod Tests
