-- ===== src/Relay/Sent.antt =====
-- main.rs: the events that a turn of the event loop sends to its client, and those that it publishes.
use nostrd.Base.{ℕ, String, ◌≡◌, refl, Option, none, some, List, [], ◌∷◌, All, All-append}
use nostrd.Base.Outcome.{Outcome, ok, err, panic}
use nostrd.Config.{Settings}
use nostrd.Error.{Error}
use nostrd.Primitives.{Primitives, EventId, already_closed, connection_closed, other_ws_error}
use nostrd.Protocol.Event.{Event}
use nostrd.Protocol.Event.Serial.{event_to_value}
use nostrd.Protocol.Event.Validity.{event_from_str, IsGenuine, event_from_str-IsGenuine}
use nostrd.Protocol.Subscription.{Subscription}
use nostrd.Protocol.Commands.{event_of_cmd}
use nostrd.Protocol.Responses.{event_resp}
use nostrd.Conn.{ClientConn, get_matching_subscriptions, subscribe}
use nostrd.Stream.{
  NostrMessage, NostrResponse, event, req, close, notice, event_response, new_event, new_notice,
  WsPoll, ws_pending, ws_end, ws_message, ws_error, text, binary, ping, pong, close_frame,
  poll_next, convert, Next, pending, finished, item,
}
use nostrd.Stream.Laws.{convert-event}
use nostrd.Server.{
  Session, Input, Step, shutdown, query_result, broadcast, client, deliver, send, unwrap_event,
  after_subscribe, on_message, on_error, on_client, step,
}
use nostrd.Server.Laws.{After}
use nostrd.Server.Publish.{posted}
use nostrd.Relay.{ready}

module _ ⦃lib : Primitives⦄ (settings : Settings) where
  -- an event that passed the validation at some time
  abbrev pub IsAdmitted : Event → Type 0
  IsAdmitted e = (now : ℕ) × IsGenuine settings now e

  -- what a response carries
  abbrev pub IsSafeResponse : NostrResponse → Type 0
  IsSafeResponse (notice r) = Unit
  IsSafeResponse (event_response r) = IsAdmitted r.event

  abbrev pub IsSafeSession : Session → Type 0
  IsSafeSession s = All IsSafeResponse s.sent

  event-IsSafeResponse :
      (sub_id : String) (e : Event) → IsAdmitted e → IsSafeResponse (new_event sub_id e)
  unfolding new_event event_resp
  event-IsSafeResponse sub_id e h = h

  notice-IsSafeResponse : (msg : String) → IsSafeResponse (new_notice msg)
  unfolding new_notice
  notice-IsSafeResponse msg = tt

  send-IsSafeSession :
      (s : Session) (r : NostrResponse)
      → IsSafeSession s
      → IsSafeResponse r
      → IsSafeSession (send s r)
  send-IsSafeSession s r h k = All-append IsSafeResponse s.sent (r ∷ []) h (k, tt)

  unwrap-IsSafeSession :
      (o : Outcome Error Event) (next : Event → Step)
      → ((e : Event) → o ≡ ok e → After IsSafeSession (next e))
      → After IsSafeSession (unwrap_event o next)
  unwrap-IsSafeSession (ok e) next h = h e refl
  unwrap-IsSafeSession (err x) next h = tt
  unwrap-IsSafeSession panic next h = tt

  deliver-IsSafeSession :
      (now : ℕ) (e : Event) (ids : List EventId) (s : Session)
      → IsSafeSession s
      → After IsSafeSession (deliver settings now e ids s)
  unfolding deliver
  deliver-IsSafeSession now e [] s h = h
  deliver-IsSafeSession now e (id ∷ ids) s h =
      unwrap-IsSafeSession (event_from_str settings now (lib.json.print (event_to_value e))) _
        (λ e' read.
          let genuine =
            event_from_str-IsGenuine settings now (lib.json.print (event_to_value e)) e' read in
          deliver-IsSafeSession now e ids (send s (new_event (lib.hash.to_hex id) e')) (
            send-IsSafeSession s _ h (event-IsSafeResponse (lib.hash.to_hex id) e' (now, genuine))))

  subscribed-IsSafeSession :
      (s : Session) (sub : Subscription) (c : ClientConn) (o : Outcome Error Unit)
      → IsSafeSession s
      → After IsSafeSession (after_subscribe s sub c o)
  subscribed-IsSafeSession s sub c (ok u) h = h
  subscribed-IsSafeSession s sub c (err x) h = send-IsSafeSession s _ h (notice-IsSafeResponse _)
  subscribed-IsSafeSession s sub c panic h = tt

  error-IsSafeSession :
      (s : Session) (x : Error) → IsSafeSession s → After IsSafeSession (on_error s x)
  unfolding on_error
  error-IsSafeSession s Error.conn_error h = h
  error-IsSafeSession s (Error.event_max_length_error n) h =
      send-IsSafeSession s _ h (notice-IsSafeResponse _)
  error-IsSafeSession s _ h = h

  -- what an input brings from outside
  abbrev pub IsSafeInput : Input → Type 0
  IsSafeInput (query_result sub_id e) = IsAdmitted e
  IsSafeInput (client (some (ok (event c)))) = IsAdmitted c.event
  IsSafeInput _ = Unit

  pub step-IsSafeSession :
      (now : ℕ) (s : Session) (input : Input)
      → IsSafeInput input
      → IsSafeSession s
      → After IsSafeSession (step settings now s input)
  unfolding step on_client on_message
  step-IsSafeSession now s shutdown i h = h
  step-IsSafeSession now s (query_result sub_id e) i h =
      send-IsSafeSession s _ h (event-IsSafeResponse sub_id e i)
  step-IsSafeSession now s (broadcast e) i h =
      deliver-IsSafeSession now e (get_matching_subscriptions s.conn e) s h
  step-IsSafeSession now s (client none) i h = h
  step-IsSafeSession now s (client (some (ok (event c)))) i h = h
  step-IsSafeSession now s (client (some (ok (req sub)))) i h =
      subscribed-IsSafeSession s sub (subscribe s.conn sub).0 (subscribe s.conn sub).1 h
  step-IsSafeSession now s (client (some (ok (close c)))) i h = h
  step-IsSafeSession now s (client (some (err x))) i h = error-IsSafeSession s x h
  step-IsSafeSession now s (client (some panic)) i h = tt

  pub posted-IsAdmitted : (input : Input) → IsSafeInput input → All IsAdmitted (posted input)
  unfolding event_of_cmd
  posted-IsAdmitted shutdown i = tt
  posted-IsAdmitted (query_result sub_id e) i = tt
  posted-IsAdmitted (broadcast e) i = tt
  posted-IsAdmitted (client none) i = tt
  posted-IsAdmitted (client (some (ok (event c)))) i = (i, tt)
  posted-IsAdmitted (client (some (ok (req sub)))) i = tt
  posted-IsAdmitted (client (some (ok (close c)))) i = tt
  posted-IsAdmitted (client (some (err x))) i = tt
  posted-IsAdmitted (client (some panic)) i = tt

  converted-IsSafeInput :
      (now : ℕ) (s : String) (o : Outcome Error NostrMessage)
      → convert settings now s ≡ o
      → IsSafeInput (client (some o))
  converted-IsSafeInput now s (ok (event c)) h = (now, (convert-event settings now s c h).0)
  converted-IsSafeInput now s (ok (req sub)) h = tt
  converted-IsSafeInput now s (ok (close c)) h = tt
  converted-IsSafeInput now s (err x) h = tt
  converted-IsSafeInput now s panic h = tt

  -- the item that polling yields, if it yields one
  abbrev IsSafeNext : Next → Type 0
  IsSafeNext (item o) = IsSafeInput (client (some o))
  IsSafeNext _ = Unit

  ready-IsSafeInput :
      (n : Next) (next : Option (Outcome Error NostrMessage))
      → IsSafeNext n
      → ready n ≡ some next
      → IsSafeInput (client next)
  ready-IsSafeInput pending next i h = absurd (cc h)
  ready-IsSafeInput finished next i h = let same : none ≡ next = cc h in rw (← same) tt
  ready-IsSafeInput (item o) next i h = let same : some o ≡ next = cc h in rw (← same) i

  poll_next-IsSafeNext : (now : ℕ) (poll : WsPoll) → IsSafeNext (poll_next settings now poll)
  unfolding poll_next
  poll_next-IsSafeNext now ws_pending = tt
  poll_next-IsSafeNext now ws_end = tt
  poll_next-IsSafeNext now (ws_message (text s)) =
      converted-IsSafeInput now s (convert settings now s) refl
  poll_next-IsSafeNext now (ws_message binary) = tt
  poll_next-IsSafeNext now (ws_message ping) = tt
  poll_next-IsSafeNext now (ws_message pong) = tt
  poll_next-IsSafeNext now (ws_message close_frame) = tt
  poll_next-IsSafeNext now (ws_error already_closed) = tt
  poll_next-IsSafeNext now (ws_error connection_closed) = tt
  poll_next-IsSafeNext now (ws_error (other_ws_error x)) = tt

  -- Whatever the socket yields, an EVENT message among the items of the stream was validated.
  pub poll_next-IsSafeInput :
      (now : ℕ) (poll : WsPoll) (next : Option (Outcome Error NostrMessage))
      → ready (poll_next settings now poll) ≡ some next
      → IsSafeInput (client next)
  poll_next-IsSafeInput now poll next h =
      ready-IsSafeInput (poll_next settings now poll) next (poll_next-IsSafeNext now poll) h
