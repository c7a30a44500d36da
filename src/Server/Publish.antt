-- ===== src/Server/Publish.antt =====
-- main.rs: the events that the loop hands to the writer.
use mathlib.Core.List.{append-nil, append_assoc}
use nostrd.Base.{ℕ, String, ◌≡◌, refl, sym, ap, none, some, List, [], ◌∷◌, ◌++◌}
use nostrd.Base.Outcome.{Outcome, ok, err, panic}
use nostrd.Config.{Settings}
use nostrd.Error.{Error}
use nostrd.Primitives.{Primitives, EventId}
use nostrd.Protocol.Event.{Event}
use nostrd.Protocol.Event.Serial.{event_to_value}
use nostrd.Protocol.Event.Validity.{event_from_str}
use nostrd.Protocol.Subscription.{Subscription}
use nostrd.Protocol.Commands.{event_of_cmd}
use nostrd.Conn.{ClientConn, get_matching_subscriptions, subscribe}
use nostrd.Stream.{event, req, close, new_event}
use nostrd.Server.{
  Session, Input, Step, continue, break, crash, shutdown, query_result, broadcast, client, start,
  deliver, after_subscribe, on_message, on_error, on_client, step, cleanup, run, unwrap_event,
  next_turn, send,
}
use nostrd.Server.Laws.{After}

module _ ⦃lib : Primitives⦄ where
  -- the event of an EVENT message
  abbrev pub posted : Input → List Event
  posted (client (some (ok (event c)))) = event_of_cmd c ∷ []
  posted _ = []

  abbrev pub all_posted : List (ℕ × Input) → List Event
  all_posted [] = []
  all_posted ((now, input) ∷ rest) = posted input ++ all_posted rest

  -- the published events are as given
  abbrev Published : List Event → Session → Type 0
  Published es s = s.published ≡ es

  unwrap-Published :
      (es : List Event) (o : Outcome Error Event) (next : Event → Step)
      → ((e : Event) → After (Published es) (next e))
      → After (Published es) (unwrap_event o next)
  unwrap-Published es (ok e) next h = h e
  unwrap-Published es (err x) next h = tt
  unwrap-Published es panic next h = tt

  deliver-Published :
      (settings : Settings) (now : ℕ) (e : Event) (ids : List EventId) (s : Session)
      → After (Published s.published) (deliver settings now e ids s)
  unfolding deliver
  deliver-Published settings now e [] s = refl
  deliver-Published settings now e (id ∷ ids) s =
      unwrap-Published s.published (event_from_str settings now (lib.json.print (event_to_value e)))
        _ (λ e'. deliver-Published settings now e ids (send s (new_event (lib.hash.to_hex id) e')))

  subscribed-Published :
      (s : Session) (sub : Subscription) (c : ClientConn) (o : Outcome Error Unit)
      → After (Published s.published) (after_subscribe s sub c o)
  subscribed-Published s sub c (ok u) = refl
  subscribed-Published s sub c (err x) = refl
  subscribed-Published s sub c panic = tt

  error-Published : (s : Session) (x : Error) → After (Published s.published) (on_error s x)
  unfolding on_error
  error-Published s Error.conn_error = refl
  error-Published s (Error.event_max_length_error n) = refl
  error-Published s _ = refl

  step-Published :
      (settings : Settings) (now : ℕ) (s : Session) (input : Input)
      → After (Published (s.published ++ posted input)) (step settings now s input)
  unfolding step on_client on_message
  step-Published settings now s shutdown = sym (append-nil s.published)
  step-Published settings now s (query_result sub_id e) = sym (append-nil s.published)
  step-Published settings now s (broadcast e) =
      rw append-nil (deliver-Published settings now e (get_matching_subscriptions s.conn e) s)
  step-Published settings now s (client none) = sym (append-nil s.published)
  step-Published settings now s (client (some (ok (event c)))) = refl
  step-Published settings now s (client (some (ok (req sub)))) =
      rw append-nil (subscribed-Published s sub (subscribe s.conn sub).0 (subscribe s.conn sub).1)
  step-Published settings now s (client (some (ok (close c)))) = sym (append-nil s.published)
  step-Published settings now s (client (some (err x))) = rw append-nil (error-Published s x)
  step-Published settings now s (client (some panic)) = tt

  -- Some events of the list are published, in its order, and the rest is not yet.
  abbrev pub IsPrefixOf : List Event → Session → Type 0
  IsPrefixOf es s = (rest : List Event) × (s.published ++ rest ≡ es)

  turn-IsPrefixOf :
      (es later : List Event) (st : Step) (next : Session → Step)
      → After (Published es) st
      → ((s : Session) → After (IsPrefixOf (s.published ++ later)) (next s))
      → After (IsPrefixOf (es ++ later)) (next_turn st next)
  unfolding cleanup
  turn-IsPrefixOf es later (continue s) next h k = rw (← h) (k s)
  turn-IsPrefixOf es later (break s) next h k = (later, ap (λ xs. xs ++ later) h)
  turn-IsPrefixOf es later crash next h k = tt

  run_from-IsPrefixOf :
      (settings : Settings) (inputs : List (ℕ × Input)) (s : Session)
      → After (IsPrefixOf (s.published ++ all_posted inputs)) (run settings inputs s)
  unfolding run
  run_from-IsPrefixOf settings [] s = ([], refl)
  run_from-IsPrefixOf settings ((now, input) ∷ rest) s =
      rw (← append_assoc s.published (posted input) (all_posted rest)) (
        turn-IsPrefixOf (s.published ++ posted input) (all_posted rest) (step settings now s input)
          _ (step-Published settings now s input) (λ s'. run_from-IsPrefixOf settings rest s'))

  -- Whatever the sequence of inputs, the events that a connection has handed to the writer are those
  -- of the EVENT messages that came in, in their order and each once, up to some point.
  pub run-IsPrefixOf :
      (settings : Settings) (inputs : List (ℕ × Input)) (client_id : String)
      → After (IsPrefixOf (all_posted inputs)) (run settings inputs (start client_id))
  unfolding start
  run-IsPrefixOf settings inputs client_id = run_from-IsPrefixOf settings inputs (start client_id)
