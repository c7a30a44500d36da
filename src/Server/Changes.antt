-- ===== src/Server/Changes.antt =====
-- main.rs: how a turn of the event loop changes the channels of the queries.
use nostrd.Base.{ℕ, suc, ◌≤◌, ◌≡◌, refl, String, String_discrete, none, some, List, [], ◌∷◌, arith}
use nostrd.Base.Outcome.{Outcome, ok, err, panic}
use nostrd.Base.Table.{get, insert, remove}
use nostrd.Config.{Settings}
use nostrd.Error.{Error}
use nostrd.Primitives.{Primitives, EventId}
use nostrd.Protocol.Event.{Event}
use nostrd.Protocol.Event.Serial.{event_to_value}
use nostrd.Protocol.Event.Validity.{event_from_str}
use nostrd.Protocol.Subscription.{Subscription}
use nostrd.Conn.{ClientConn, get_matching_subscriptions, subscribe}
use nostrd.Stream.{event, req, close, new_event}
use nostrd.Server.{
  Session, Input, Step, shutdown, query_result, broadcast, client, deliver, send, unwrap_event,
  stop_query, after_subscribe, on_message, on_error, on_client, step,
}
use nostrd.Server.Laws.{After}

module _ ⦃lib : Primitives⦄ where
  -- the ways in which a turn changes the channels
  pub data Changes (s s' : Session) : Type 0 where
    kept :
        s'.running_queries ≡ s.running_queries
        → s'.stopped ≡ s.stopped
        → s.next_channel ≤ s'.next_channel
        → Changes s s'
    started :
        (key : String)
        → s'.running_queries ≡ insert String_discrete key s.next_channel s.running_queries
        → s'.stopped ≡ s.stopped
        → s'.next_channel ≡ suc s.next_channel
        → Changes s s'
    closed :
        (key : String)
        → s'.running_queries ≡ remove String_discrete key s.running_queries
        → s'.stopped ≡ stop_query (get String_discrete key s.running_queries) s.stopped
        → s'.next_channel ≡ s.next_channel
        → Changes s s'

  same :
      (s s' : Session)
      → s'.running_queries ≡ s.running_queries
      → s'.stopped ≡ s.stopped
      → s'.next_channel ≡ s.next_channel
      → Changes s s'
  same s s' r t n = kept r t (rw n (omega arith))

  unwrap-Changes :
      (s : Session) (o : Outcome Error Event) (next : Event → Step)
      → ((e : Event) → After (Changes s) (next e))
      → After (Changes s) (unwrap_event o next)
  unwrap-Changes s (ok e) next h = h e
  unwrap-Changes s (err x) next h = tt
  unwrap-Changes s panic next h = tt

  deliver-Changes :
      (settings : Settings) (now : ℕ) (e : Event) (ids : List EventId) (s0 s : Session)
      → s.running_queries ≡ s0.running_queries
      → s.stopped ≡ s0.stopped
      → s.next_channel ≡ s0.next_channel
      → After (Changes s0) (deliver settings now e ids s)
  unfolding deliver
  deliver-Changes settings now e [] s0 s r t n = same s0 s r t n
  deliver-Changes settings now e (id ∷ ids) s0 s r t n =
      unwrap-Changes s0 (event_from_str settings now (lib.json.print (event_to_value e))) _ (λ e'.
        deliver-Changes settings now e ids s0 (send s (new_event (lib.hash.to_hex id) e')) r t n)

  subscribed-Changes :
      (s : Session) (sub : Subscription) (conn : ClientConn) (o : Outcome Error Unit)
      → After (Changes s) (after_subscribe s sub conn o)
  subscribed-Changes s sub conn (ok u) = started (lib.hash.to_hex sub.id) refl refl refl
  subscribed-Changes s sub conn (err x) = kept refl refl (omega arith)
  subscribed-Changes s sub conn panic = tt

  error-Changes : (s : Session) (x : Error) → After (Changes s) (on_error s x)
  unfolding on_error
  error-Changes s Error.conn_error = same s _ refl refl refl
  error-Changes s (Error.event_max_length_error n) = same s _ refl refl refl
  error-Changes s _ = same s _ refl refl refl

  -- Each turn of the loop keeps the channels, adds the next one, or closes that of an identifier.
  pub step-Changes :
      (settings : Settings) (now : ℕ) (s : Session) (input : Input)
      → After (Changes s) (step settings now s input)
  unfolding step on_client on_message
  step-Changes settings now s shutdown = same s _ refl refl refl
  step-Changes settings now s (query_result sub_id e) = same s _ refl refl refl
  step-Changes settings now s (broadcast e) =
      deliver-Changes settings now e (get_matching_subscriptions s.conn e) s s refl refl refl
  step-Changes settings now s (client none) = same s _ refl refl refl
  step-Changes settings now s (client (some (ok (event c)))) = same s _ refl refl refl
  step-Changes settings now s (client (some (ok (req sub)))) =
      subscribed-Changes s sub (subscribe s.conn sub).0 (subscribe s.conn sub).1
  step-Changes settings now s (client (some (ok (close c)))) =
      closed (lib.hash.to_hex c.id) refl refl refl
  step-Changes settings now s (client (some (err x))) = error-Changes s x
  step-Changes settings now s (client (some panic)) = tt
